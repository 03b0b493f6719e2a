-- ===== src/Apps/Created.antt =====
-- What the program finds again of the instances that it has created: the annotations of a new
-- instance are those that the filters on running instances read.
use grpc_gw_controller.Base.{
  ◌+◌, some, List, [], ◌∷◌, ◌++◌, map, String, string_eq, bytes_eq, bytes_eq_iff, length,
  length-append, arith, ◌≡◌, ◌≢◌, ◌⊎◌, ◌↔◌, inl, inr, refl, sym, ◌∙◌, Bool-cases,
}
use grpc_gw_controller.Base.Text.{Bytes}
use grpc_gw_controller.Base.Dict.{lookup, insert}
use grpc_gw_controller.Maps.{Map, get, add}
use grpc_gw_controller.Messages.{AppStateAfterDeployment}
use grpc_gw_controller.Apps.{
  AppInstanceData, AppsData, GenericRequester, new_instance, new_instances,
  append_new_app_instances, get_number_of_new_instances, kube_conv_name,
}
use grpc_gw_controller.Apps.Selection.{Agrees, IsOneOf, IsAskedFor, InGroups}
use grpc_gw_controller.Apps.Growth.{names}
use grpc_gw_controller.Apps.Deleted.{IsToDelete}

abbrev pub HasAnnotations : GenericRequester → Bytes → Bytes → Map → Type 0
HasAnnotations req cycle gid a =
    (lookup "apphc.app.basename" a ≡ some req.name)
    × (lookup "apphc.app.cycle" a ≡ some cycle)
    × ((req.root_group_id ≡ [])
        ⊎ (lookup "apphc.app.instance.root_group_id" a ≡ some req.root_group_id))
    × (lookup "apphc.app.instance.group_id" a ≡ some gid)
    × (lookup "apphc.app.instance.version" a ≡ some req.version)

new_instance-HasAnnotations :
    (req : GenericRequester) (cycle description : Bytes) (state : AppStateAfterDeployment)
    (gid : Bytes)
    → HasAnnotations req cycle gid (new_instance req cycle description state gid).annotations
unfolding new_instance add insert lookup
new_instance-HasAnnotations req cycle description state gid =
    elim (Bool-cases (bytes_eq req.root_group_id [])) [
      | inl e ↦ rw e (refl, refl, inl ((bytes_eq_iff req.root_group_id []).0 e), refl, refl)
      | inr e ↦ rw e (refl, refl, inr refl, refl, refl)
    ]

get-some : (k : String) (v : Bytes) (a : Map) → lookup k a ≡ some v → get a k ≡ v
unfolding get
get-some k v a h = rw h refl

-- What Rancher and the adapter add to the annotations of a new instance does not hide it: as long as
-- the entries made here are kept, a later request with the same name, cycle and root group, and with the
-- group ID of the instance among its groups, finds the instance by the filters for an update, whatever
-- version it names; and the filters for a deletion select it exactly where the request names no version
-- or that of the instance. The name and the group ID are not empty.
pub new_instance-IsAskedFor :
    (req later : GenericRequester) (cycle description : Bytes) (state : AppStateAfterDeployment)
    (gid : Bytes) (a : Map)
    → req.name ≢ []
    → gid ≢ []
    → later.name ≡ req.name
    → later.root_group_id ≡ req.root_group_id
    → IsOneOf gid later.group_ids
    → ((k : String) (v : Bytes)
        → lookup k (new_instance req cycle description state gid).annotations ≡ some v
        → lookup k a ≡ some v)
    → IsAskedFor later cycle a
      × InGroups later cycle a
      × (IsToDelete (some later) a ↔ Agrees later.version req.version)
      × (get a "apphc.app.instance.version" ≡ req.version)
new_instance-IsAskedFor req later cycle description state gid a n g same_name same_root o kept =
    let h = new_instance-HasAnnotations req cycle description state gid in
    let name = get-some "apphc.app.basename" req.name a (kept _ _ h.0) in
    let cyc = get-some "apphc.app.cycle" cycle a (kept _ _ h.1) in
    let group = get-some "apphc.app.instance.group_id" gid a (kept _ _ h.3) in
    let version = get-some "apphc.app.instance.version" req.version a (kept _ _ h.4) in
    let root : Agrees later.root_group_id (get a "apphc.app.instance.root_group_id") = elim h.2 [
      | inl e ↦ inl (same_root ∙ e)
      | inr e ↦ inr (
          same_root
          ∙ sym (get-some "apphc.app.instance.root_group_id" req.root_group_id a (kept _ _ e)))
    ] in
    rw (name, cyc, group, version)
      (
        (n, inr same_name, inr refl, root, g),
        inr o,
        (λ d. d.2, λ v. (n, inr same_name, v, root, g, inr o)),
        refl,
      )

new_names :
    (req : GenericRequester) (cycle description : Bytes) (state : AppStateAfterDeployment)
    (gids : List Bytes)
    → names (new_instances req cycle description state gids)
      ≡ map (kube_conv_name req.name req.root_group_id) gids
unfolding new_instances new_instance
new_names req cycle description state [] = refl
new_names req cycle description state (gid ∷ gids) =
    rw (new_names req cycle description state gids) refl

length-new_instances :
    (req : GenericRequester) (cycle description : Bytes) (state : AppStateAfterDeployment)
    (gids : List Bytes)
    → length (new_instances req cycle description state gids) ≡ length gids
unfolding new_instances
length-new_instances req cycle description state [] = refl
length-new_instances req cycle description state (gid ∷ gids) =
    omega (arith, length-new_instances req cycle description state gids)

names-append : (l m : List AppInstanceData) → names (l ++ m) ≡ names l ++ names m
names-append [] m = refl
names-append (i ∷ l) m = rw (names-append l m) refl

-- A request adds one instance for each of its group IDs, in their order and with the name that is
-- made of the application, the root group and the group; the instances before them stay.
append_new_app_instances-names :
    (req : GenericRequester) (cycle description : Bytes) (state : AppStateAfterDeployment)
    (apps : AppsData)
    → (names (append_new_app_instances req cycle description state apps).new_app_instances_data
        ≡ names apps.new_app_instances_data
          ++ map (kube_conv_name req.name req.root_group_id) req.group_ids)
      × (get_number_of_new_instances (append_new_app_instances req cycle description state apps)
          ≡ get_number_of_new_instances apps + length req.group_ids)
unfolding append_new_app_instances get_number_of_new_instances
append_new_app_instances-names req cycle description state apps =
    let new = new_instances req cycle description state req.group_ids in
    (
      names-append apps.new_app_instances_data new
          ∙ rw (new_names req cycle description state req.group_ids) refl,
      length-append apps.new_app_instances_data new
          ∙ rw (length-new_instances req cycle description state req.group_ids) refl,
    )
