-- ===== src/Adapter/Collected.antt =====
-- The instances that AppendAppsDataToDelete records have no namespace.
use grpc_gw_controller.Base.{
  Option, none, some, List, [], ◌∷◌, bytes_eq, bytes_Eq, All, All-append, Bool-cases, ◌≡◌, inl, inr,
  refl,
}
use mathlib.Core.Path.{subst}
use grpc_gw_controller.Base.Text.{Bytes}
use grpc_gw_controller.Base.Dict.{Dict, lookup, insert}
use grpc_gw_controller.Maps.{get}
use grpc_gw_controller.Apps.{AppInstanceData, AppsData, GenericRequester, get_running_app_data}
use grpc_gw_controller.Apps.Running.{RancherApp, add_running, or_nil}
use grpc_gw_controller.Apps.Removal.{
  same_name_and_version, same_groups, deleted_instance, append_requested, append_app_to_delete,
  append_items_to_delete,
}

-- No instance of the dictionary has a namespace.
abbrev pub HasNoNamespace : List AppInstanceData → Type 0
HasNoNamespace l = All (λ i. i.target_namespace ≡ []) l

abbrev pub NoNamespaces : Dict Bytes (List AppInstanceData) → Type 0
NoNamespaces d = All (λ e. HasNoNamespace e.1) d

insert-NoNamespaces :
    (k : Bytes) (l : List AppInstanceData) (d : Dict Bytes (List AppInstanceData))
    → NoNamespaces d
    → HasNoNamespace l
    → NoNamespaces (insert k l d)
unfolding insert
insert-NoNamespaces k l [] h p = (p, tt)
insert-NoNamespaces k l ((j, v) ∷ d) h p = elim (Bool-cases (bytes_eq j k)) [
  | inl e ↦ rw e (p, h.1)
  | inr e ↦ rw e (h.0, insert-NoNamespaces k l d h.1 p)
]

or_nil-HasNoNamespace :
    (k : Bytes) (d : Dict Bytes (List AppInstanceData))
    → NoNamespaces d
    → HasNoNamespace (or_nil (lookup k d))
unfolding lookup
or_nil-HasNoNamespace k [] h = tt
or_nil-HasNoNamespace k ((j, v) ∷ d) h = elim (Bool-cases (bytes_eq j k)) [
  | inl e ↦ rw e (h.0)
  | inr e ↦ rw e (or_nil-HasNoNamespace k d h.1)
]

pub get_running-HasNoNamespace :
    (apps : AppsData) (k : Bytes) (l : List AppInstanceData)
    → NoNamespaces apps.running_apps_data
    → get_running_app_data apps k ≡ some l
    → HasNoNamespace l
unfolding get_running_app_data
get_running-HasNoNamespace apps k l h e =
    subst (λ o. HasNoNamespace (or_nil o)) e (or_nil-HasNoNamespace k apps.running_apps_data h)

append_deleted-NoNamespaces :
    (item : RancherApp) (version name : Bytes) (apps : AppsData)
    → NoNamespaces apps.running_apps_data
    → NoNamespaces (add_running name (deleted_instance item version) apps).running_apps_data
unfolding add_running deleted_instance
append_deleted-NoNamespaces item version name apps h =
    insert-NoNamespaces name _ apps.running_apps_data h (
      All-append (λ i. i.target_namespace ≡ []) (or_nil (lookup name apps.running_apps_data)) _
        (or_nil-HasNoNamespace name apps.running_apps_data h) (refl, tt))

append_app-NoNamespaces :
    (req : Option GenericRequester) (item : RancherApp) (s : Bytes × AppsData)
    → NoNamespaces s.1.running_apps_data
    → NoNamespaces (append_app_to_delete req item s).1.running_apps_data
unfolding append_app_to_delete append_requested
append_app-NoNamespaces none item (v, apps) h =
    elim (Bool-cases (bytes_eq (get item.annotations "apphc.app.basename") [])) [
      | inl e ↦ rw e h
      | inr e ↦ rw e (append_deleted-NoNamespaces item v _ apps h)
    ]
append_app-NoNamespaces (some req) item (v, apps) h =
    elim (Bool-cases (bytes_eq (get item.annotations "apphc.app.basename") [])) [
      | inl e ↦ rw e h
      | inr e ↦ rw e (elim (Bool-cases (same_name_and_version req item.annotations)) [
        | inr f ↦ rw f h
        | inl f ↦ rw f (elim (Bool-cases (same_groups req item.annotations)) [
          | inr g ↦ rw g h
          | inl g ↦ rw g (append_deleted-NoNamespaces item req.version _ apps h)
        ])
      ])
    ]

pub append_items-NoNamespaces :
    (req : Option GenericRequester) (items : List RancherApp) (s : Bytes × AppsData)
    → NoNamespaces s.1.running_apps_data
    → NoNamespaces (append_items_to_delete req items s).1.running_apps_data
unfolding append_items_to_delete
append_items-NoNamespaces req [] s h = h
append_items-NoNamespaces req (item ∷ items) s h =
    append_items-NoNamespaces req items (append_app_to_delete req item s)
      (append_app-NoNamespaces req item s h)
