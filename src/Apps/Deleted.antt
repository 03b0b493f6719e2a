-- ===== src/Apps/Deleted.antt =====
-- The running instances of a project that AppendAppsDataToDelete records for deletion.
use grpc_gw_controller.Base.{
  Option, none, some, true, ◌&&◌, List, [], ◌∷◌, string_eq, bytes_eq, bytes_eq_iff, ok, All, arith,
  ◌≡◌, ◌≢◌, ◌⊎◌, ◌↔◌, inl, inr, refl, Bool-cases,
}
use grpc_gw_controller.Base.Text.{Bytes}
use grpc_gw_controller.Maps.{Map, get}
use grpc_gw_controller.Apps.{AppInstanceData, AppsData, GenericRequester, delete}
use grpc_gw_controller.Apps.Running.{RancherApp, add_running}
use grpc_gw_controller.Apps.Removal.{
  same_name_and_version, same_groups, deleted_instance, append_requested, append_app_to_delete,
  append_items_to_delete, append_apps_data_to_delete,
}
use grpc_gw_controller.Apps.Selection.{Agrees, differs_iff, IsOneOf, in_groups_iff}
use grpc_gw_controller.Apps.Growth.{
  running, names, IsOneOf-last, AllRecorded, Grows, add_running-Grows, running-add_running,
}

-- With no request every application that the controller deployed is deleted.
abbrev pub IsToDelete : Option GenericRequester → Map → Type 0
IsToDelete none a = get a "apphc.app.basename" ≢ []
IsToDelete (some req) a =
    (get a "apphc.app.basename" ≢ [])
    × Agrees req.name (get a "apphc.app.basename")
    × Agrees req.version (get a "apphc.app.instance.version")
    × Agrees req.root_group_id (get a "apphc.app.instance.root_group_id")
    × (get a "apphc.app.instance.group_id" ≢ [])
    × ((req.group_ids ≡ []) ⊎ IsOneOf (get a "apphc.app.instance.group_id") req.group_ids)

abbrev pub version_of : Option GenericRequester → Bytes
version_of none = []
version_of (some req) = req.version

abbrev pub IsDeletion : Option GenericRequester → Bytes → AppInstanceData → Type 0
IsDeletion req k i =
    (get i.annotations "apphc.app.basename" ≡ k)
    × IsToDelete req i.annotations
    × (i.next_action ≡ delete)
    × (i.requested_version ≡ version_of req)

abbrev pub Deletes : Option GenericRequester → RancherApp → AppsData → Type 0
Deletes req item after =
    IsToDelete req item.annotations
    → IsOneOf item.name (names (running (get item.annotations "apphc.app.basename") after))

tests_iff :
    (req : GenericRequester) (a : Map)
    → ((same_name_and_version req a && same_groups req a) ≡ true) ↔ (
        Agrees req.name (get a "apphc.app.basename")
        × Agrees req.version (get a "apphc.app.instance.version")
        × Agrees req.root_group_id (get a "apphc.app.instance.root_group_id")
        × (get a "apphc.app.instance.group_id" ≢ [])
        × ((req.group_ids ≡ []) ⊎ IsOneOf (get a "apphc.app.instance.group_id") req.group_ids))
unfolding same_name_and_version same_groups
tests_iff req a = ground (
  arith,
  differs_iff req.name (get a "apphc.app.basename"),
  differs_iff req.version (get a "apphc.app.instance.version"),
  differs_iff req.root_group_id (get a "apphc.app.instance.root_group_id"),
  bytes_eq_iff (get a "apphc.app.instance.group_id") [],
  in_groups_iff req.group_ids (get a "apphc.app.instance.group_id"),
)

-- `requestedVersion` before an item: with no request it is never set.
abbrev pub VersionBefore : Option GenericRequester → Bytes → Type 0
VersionBefore none v = v ≡ []
VersionBefore (some req) v = Unit {0}

abbrev pub Step : Option GenericRequester → RancherApp → AppsData → Bytes × AppsData → Type 0
Step req item apps s =
    VersionBefore req s.0 × Grows (IsDeletion req) apps s.1 × Deletes req item s.1

append_deleted-Step :
    (req : Option GenericRequester) (item : RancherApp) (version : Bytes) (apps : AppsData)
    → IsToDelete req item.annotations
    → version ≡ version_of req
    → VersionBefore req version
    → Step req item apps (
      version,
      add_running (get item.annotations "apphc.app.basename") (deleted_instance item version) apps,
    )
unfolding deleted_instance
append_deleted-Step req item version apps d v b =
    let name = get item.annotations "apphc.app.basename" in
    let i = deleted_instance item version in
    (
      b,
      add_running-Grows (IsDeletion req) name i apps (refl, d, refl, v),
      λ _.
          rw (running-add_running name name i apps, (bytes_eq_iff name name).1 refl)
            (IsOneOf-last (running name apps) i),
    )

append_app-Step :
    (req : Option GenericRequester) (item : RancherApp) (version : Bytes) (apps : AppsData)
    → VersionBefore req version
    → Step req item apps (append_app_to_delete req item (version, apps))
unfolding append_app_to_delete append_requested
append_app-Step none item version apps v =
    let name = get item.annotations "apphc.app.basename" in
    elim (Bool-cases (bytes_eq name [])) [
      | inl e ↦ rw e (v, (λ x. x, λ n k x. x), λ d. absurd (d ((bytes_eq_iff name []).0 e)))
      | inr e ↦
          rw e
            (append_deleted-Step none item version apps (λ x. cc ((bytes_eq_iff name []).1 x)) v v)
    ]
append_app-Step (some req) item version apps v =
    let name = get item.annotations "apphc.app.basename" in
    let a = item.annotations in
    let tests = tests_iff req a in
    elim (Bool-cases (bytes_eq name [])) [
      | inl e ↦ rw e (v, (λ x. x, λ n k x. x), λ d. absurd (d.0 ((bytes_eq_iff name []).0 e)))
      | inr e ↦ rw e (elim (Bool-cases (same_name_and_version req a)) [
        | inr f ↦ rw f (tt, (λ x. x, λ n k x. x), λ d. cc (tests.1 (d.1, d.2, d.3, d.4, d.5)))
        | inl f ↦ rw f (elim (Bool-cases (same_groups req a)) [
          | inr g ↦ rw g (tt, (λ x. x, λ n k x. x), λ d. cc (tests.1 (d.1, d.2, d.3, d.4, d.5)))
          | inl g ↦ rw g (
              let t = tests.0 (rw (f, g) refl) in
              append_deleted-Step (some req) item req.version apps
                (λ x. cc ((bytes_eq_iff name []).1 x), t.0, t.1, t.2, t.3, t.4) refl tt)
        ])
      ])
    ]

items_to_delete-Grows :
    (req : Option GenericRequester) (items : List RancherApp) (version : Bytes) (apps : AppsData)
    → VersionBefore req version
    → Grows (IsDeletion req) apps (append_items_to_delete req items (version, apps)).1
      × All (λ item. Deletes req item (append_items_to_delete req items (version, apps)).1) items
unfolding append_items_to_delete
items_to_delete-Grows req [] version apps v = ((λ x. x, λ n k x. x), tt)
items_to_delete-Grows req (item ∷ items) version apps v =
    let one = append_app-Step req item version apps v in
    let s = append_app_to_delete req item (version, apps) in
    let rest = items_to_delete-Grows req items s.0 s.1 one.0 in
    (
      (λ x. rest.0.0 (one.1.0 x), λ n k x. rest.0.1 n k (one.1.1 n k x)),
      (λ d. rest.0.1 _ _ (one.2 d), rest.1),
    )

-- A call on a listed project always succeeds. Each instance that it records is an application that
-- the request is about, to be deleted at the version of the request; with no request it is any
-- application that the controller deployed. Each application of the project that the request is
-- about is recorded, and none that was recorded is lost.
pub append_apps_data_to_delete-AllRecorded :
    {E : Type 0} (items : List RancherApp) (req : Option GenericRequester) (apps : AppsData)
    → AllRecorded (IsDeletion req) apps
    → (after : AppsData) × (append_apps_data_to_delete {E = E} (ok items) req apps ≡ ok after)
      × AllRecorded (IsDeletion req) after
      × All (λ item. Deletes req item after) items
      × ((n k : Bytes) → IsOneOf n (names (running k apps)) → IsOneOf n (names (running k after)))
unfolding append_apps_data_to_delete
append_apps_data_to_delete-AllRecorded items req apps h =
    let g = items_to_delete-Grows req items [] apps (first_version req) in
    ((append_items_to_delete req items ([], apps)).1, refl, g.0.0 h, g.1, g.0.1)
  where
    first_version : (req : Option GenericRequester) → VersionBefore req []
    first_version none = refl
    first_version (some req) = tt
