-- ===== src/Apps/Recorded.antt =====
-- The running instances of a project, as a call of AppendRunningAppsData records them.
use grpc_gw_controller.Base.{
  List, [], ◌∷◌, String, string_eq, bytes_Eq, bytes_eq, bytes_eq_iff, Outcome, ok, err, panic, All,
  ◌≡◌, ◌⊎◌, inl, inr, refl, ◌∙◌, sym, Bool-cases,
}
use mathlib.Core.Path.{fun_ext}
use grpc_gw_controller.Base.Text.{Bytes}
use grpc_gw_controller.Base.Decimal.{atoi, ℤ}
use grpc_gw_controller.Base.Dict.{Dict}
use grpc_gw_controller.Maps.{get}
use grpc_gw_controller.Messages.{AppStateAfterDeployment, disabled, state_of_int, state_eq}
use grpc_gw_controller.Apps.{AppsData, GenericRequester}
use grpc_gw_controller.Apps.Running.{
  RancherApp, RunningError, in_groups, passes_filters, new_state, with_sample, add_running,
  running_instance, external_version, append_running_instance, append_running_app,
  append_running_items, append_running_apps_data,
}
use grpc_gw_controller.Apps.Selection.{
  IsOneOf, in_groups_iff, new_state_unused, IsAskedFor, InGroups, passes_filters_iff, IsRecorded,
  version_rule,
}
use grpc_gw_controller.Apps.Growth.{
  running, names, IsOneOf-last, AllRecorded, Grows, with_sample-Grows, add_running-Grows,
  running-add_running,
}

module _ (req : GenericRequester) (cycle : Bytes) where
  abbrev pub Records : RancherApp → AppsData → Type 0
  Records item after =
      IsAskedFor req cycle item.annotations
      → InGroups req cycle item.annotations
      → IsOneOf item.name (names (running (get item.annotations "apphc.app.basename") after))

module _ {E : Type 0} (parse_query : Bytes → Outcome E (Dict String (List Bytes))) where
  -- The annotations of an item that the call parses are well formed, its external ID too.
  abbrev pub IsReadable : RancherApp → Type 0
  IsReadable item =
      ((v : Bytes) × (external_version parse_query item.external_id ≡ ok v))
      × ((z : ℤ) × (atoi (get item.annotations "apphc.app.instance.volume.size") ≡ ok z))
      × ((get item.annotations "apphc.app.instance.state" ≡ [])
          ⊎ ((z : ℤ) × (atoi (get item.annotations "apphc.app.instance.state") ≡ ok z)))

  new_state-ok :
      (state : AppStateAfterDeployment) (item : RancherApp)
      → IsReadable item
      → (s : AppStateAfterDeployment) × (new_state {E = E} state item.annotations ≡ ok s)
  unfolding new_state state_eq bytes_eq
  new_state-ok state item (_, _, inl e) =
      (disabled, new_state_unused state item.annotations ∙ rw e refl)
  new_state-ok state item (_, _, inr (z, e)) =
      elim (Bool-cases (bytes_eq (get item.annotations "apphc.app.instance.state") [])) [
        | inl b ↦ (disabled, new_state_unused state item.annotations ∙ rw b refl)
        | inr b ↦ (state_of_int z, new_state_unused state item.annotations ∙ rw (b, e) refl)
      ]

  module _ (req : GenericRequester) (cycle : Bytes) (state : AppStateAfterDeployment) where
    abbrev Goes : RancherApp → AppsData → Outcome (RunningError E) AppsData → Type 0
    Goes item apps r =
        (after : AppsData) × (r ≡ ok after)
        × Grows (IsRecorded req cycle) apps after
        × Records req cycle item after

    instance-Goes :
        (item : RancherApp) (apps : AppsData) (s : AppStateAfterDeployment)
        → IsReadable item
        → IsAskedFor req cycle item.annotations
        → InGroups req cycle item.annotations
        → Goes item apps (append_running_instance parse_query req (with_sample item s apps) item s)
    unfolding append_running_instance running_instance
    instance-Goes item apps s ((v, ev), (z, ez), _) a g =
        let name = get item.annotations "apphc.app.basename" in
        let i = running_instance req item s v z in
        let w = with_sample item s apps in
        let r : IsRecorded req cycle name i = (refl, a, g, version_rule req cycle v) in
        let grown = add_running-Grows (IsRecorded req cycle) name i w r in
        let sampled = with_sample-Grows (IsRecorded req cycle) item s apps in
        (
          add_running name i w,
          rw (ev, ez) refl,
          (λ h. grown.0 (sampled.0 h), λ n k h. grown.1 n k (sampled.1 n k h)),
          λ _ _.
              rw (running-add_running name name i w, (bytes_eq_iff name name).1 refl)
                (IsOneOf-last (running name w) i),
        )

    app-Goes :
        (item : RancherApp) (apps : AppsData)
        → IsReadable item
        → Goes item apps (append_running_app parse_query req cycle state apps item)
    unfolding append_running_app
    app-Goes item apps h =
        let a = item.annotations in
        let s = new_state-ok state item h in
        elim (Bool-cases (passes_filters req cycle a)) [
          | inr e ↦
              rw e
                (apps, refl, (λ x. x, λ n k x. x), λ p _. cc ((passes_filters_iff req cycle a).1 p))
          | inl e ↦
              rw (e, s.1)
                (elim (Bool-cases (in_groups req.group_ids (get a "apphc.app.instance.group_id"))) [
                  | inl g ↦ rw g (
                      instance-Goes item apps s.0 h ((passes_filters_iff req cycle a).0 e)
                        ((in_groups_iff _ _).0 g))
                  | inr g ↦ rw g (
                    with_sample item s.0 apps,
                    refl,
                    with_sample-Grows (IsRecorded req cycle) item s.0 apps,
                    λ _ x.
                        cc
                          ((in_groups_iff req.group_ids (get a "apphc.app.instance.group_id")).1 x),
                  )
                ])
        ]

    items-Go :
        (items : List RancherApp) (apps : AppsData)
        → All IsReadable items
        → (after : AppsData) × (append_running_items parse_query req cycle state apps items
            ≡ ok after)
          × Grows (IsRecorded req cycle) apps after
          × All (λ item. Records req cycle item after) items
    unfolding append_running_items
    items-Go [] apps h = (apps, refl, (λ x. x, λ n k x. x), tt)
    items-Go (item ∷ items) apps h =
        let one = app-Goes item apps h.0 in
        let rest = items-Go items one.0 h.1 in
        (
          rest.0,
          rw one.1 rest.1,
          (λ x. rest.2.0 (one.2.0 x), λ n k x. rest.2.1 n k (one.2.1 n k x)),
          (λ a g. rest.2.1 _ _ (one.3 a g), rest.3),
        )

-- A call on a project whose applications are all well formed succeeds. Each instance that it records
-- is one the request asks for, in one of the request's groups where it names any; it is to be
-- recreated where the request names no version or the version that runs, and upgraded to the
-- version of the request otherwise. Each application of the project that is asked for is recorded,
-- and none that was recorded is lost.
pub append_running_apps_data-AllRecorded :
    {E : Type 0} (parse_query : Bytes → Outcome E (Dict String (List Bytes)))
    (req : GenericRequester) (cycle : Bytes) (state : AppStateAfterDeployment)
    (items : List RancherApp) (apps : AppsData)
    → All (IsReadable parse_query) items
    → AllRecorded (IsRecorded req cycle) apps
    → (after : AppsData) × (append_running_apps_data parse_query (ok items) req cycle state apps
        ≡ ok after)
      × AllRecorded (IsRecorded req cycle) after
      × All (λ item. Records req cycle item after) items
      × ((n k : Bytes) → IsOneOf n (names (running k apps)) → IsOneOf n (names (running k after)))
unfolding append_running_apps_data
append_running_apps_data-AllRecorded parse_query req cycle state items apps h r =
    let g = items-Go parse_query req cycle state items apps h in (g.0, g.1, g.2.0 r, g.3, g.2.1)

items-state :
    {E : Type 0} (parse_query : Bytes → Outcome E (Dict String (List Bytes)))
    (req : GenericRequester) (cycle : Bytes) (s : AppStateAfterDeployment) (items : List RancherApp)
    (apps : AppsData)
    → append_running_items parse_query req cycle s apps items
      ≡ append_running_items parse_query req cycle disabled apps items
unfolding append_running_items append_running_app
items-state parse_query req cycle s [] apps = refl
items-state {E} parse_query req cycle s (item ∷ items) apps =
    rw (new_state_unused {E = E} s item.annotations)
      (rw (fun_ext (items-state parse_query req cycle s items)) refl)

-- The state that the caller passes has no effect: whatever the project holds, and whether the call
-- succeeds or fails, two calls that differ in it have the same result.
pub append_running_apps_data-state :
    {E : Type 0} (parse_query : Bytes → Outcome E (Dict String (List Bytes)))
    (listed : Outcome E (List RancherApp)) (req : GenericRequester) (cycle : Bytes)
    (s t : AppStateAfterDeployment) (apps : AppsData)
    → append_running_apps_data parse_query listed req cycle s apps
      ≡ append_running_apps_data parse_query listed req cycle t apps
unfolding append_running_apps_data
append_running_apps_data-state parse_query (ok items) req cycle s t apps =
    items-state parse_query req cycle s items apps
    ∙ sym (items-state parse_query req cycle t items apps)
append_running_apps_data-state parse_query (err e) req cycle s t apps = refl
append_running_apps_data-state parse_query panic req cycle s t apps = refl
