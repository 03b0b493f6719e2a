-- ===== src/Adapter/Create/AlreadyRuns.antt =====
-- `CreateApp` for an application all of whose instances run already.
use grpc_gw_controller.Base.{
  ℕ, Option, some, List, [], ◌∷◌, Outcome, ok, All, Holds, Holds-if, Holds-bind, Holds-then, String,
  Holds-if, Holds-bind, Holds-then, ◌≡◌, refl,
}
use Prim.Native.String.{String}
use mathlib.Core.Path.{subst}
use grpc_gw_controller.Base.Text.{Bytes}
use grpc_gw_controller.Base.Float.{Float64}
use grpc_gw_controller.AppTypes.{app_type_to_app_cycle}
use grpc_gw_controller.Messages.{AppRequest, AppStateAfterDeployment}
use grpc_gw_controller.Apps.{
  AppInstanceData, kube_conv_name, GenericRequester, new_instance, new_instances, AppsData,
  new_apps_data, append_new_app_instances, get_running_app_data,
}
use grpc_gw_controller.Apps.Running.{
  RancherApp, append_running_app, append_running_instance, with_sample, add_running,
  external_version, append_running_items, append_running_apps_data,
}
use grpc_gw_controller.Base.Dict.{Dict}
use grpc_gw_controller.Adapter.{Body, with_result}
use grpc_gw_controller.Adapter.NoSuccess.{
  NoSuccess, unless_error-NoSuccess, with_result-NoSuccess, Holds-trivial,
}
use grpc_gw_controller.Adapter.Deploy.{DeployClient, DeploySettings, requester_of}
use grpc_gw_controller.Adapter.Create.{create_with, create_app}
use grpc_gw_controller.Adapter.Create.Marked.{Runs, IsRepeated}
use grpc_gw_controller.Adapter.Create.Repeated.{create_new-NoSuccess}
use grpc_gw_controller.Adapter.Create.Untouched.{IsUntouched, unless_error-K, with_result-K}
use grpc_gw_controller.Adapter.Create.World.{create_new-K}

-- Every group ID names an instance that runs.
abbrev pub AllRun : {F : Type 0} → AppRequest F → List AppInstanceData → Type 0
AllRun req rs = All (λ gid. Runs rs (kube_conv_name req.name req.root_group_id gid)) req.group_ids

module _ {F Q W : Type 0} (cl : DeployClient F Q W) (settings : DeploySettings) where
  new_instances-IsRepeated :
      (req : GenericRequester) (ct d : Bytes) (st : AppStateAfterDeployment) (gids : List Bytes)
      (rs : List AppInstanceData)
      → All (λ gid. Runs rs (kube_conv_name req.name req.root_group_id gid)) gids
      → All (IsRepeated cl settings rs) (new_instances req ct d st gids)
  unfolding new_instances new_instance
  new_instances-IsRepeated req ct d st [] rs h = tt
  new_instances-IsRepeated req ct d st (g ∷ gs) rs h =
      ((refl, h.0), new_instances-IsRepeated req ct d st gs rs h.1)

-- The search for running instances leaves the new ones alone.
module _ (parse_query : Bytes → Outcome Bytes (Dict String (List Bytes))) (req : GenericRequester)
    (cycle : Bytes) (st : AppStateAfterDeployment) (l : List AppInstanceData) where
  abbrev SameNew : AppsData → Type 0
  SameNew a = a.new_app_instances_data ≡ l

  append_running_app-SameNew :
      (a : AppsData) (item : RancherApp)
      → SameNew a
      → Holds SameNew (append_running_app parse_query req cycle st a item)
  unfolding append_running_app append_running_instance with_sample add_running external_version
  append_running_app-SameNew a item h = search (Holds-if, Holds-bind)

  append_running_items-SameNew :
      (items : List RancherApp) (a : AppsData)
      → SameNew a
      → Holds SameNew (append_running_items parse_query req cycle st a items)
  unfolding append_running_items
  append_running_items-SameNew [] a h = h
  append_running_items-SameNew (i ∷ is) a h =
      Holds-then SameNew SameNew (append_running_app parse_query req cycle st a i) _
        (append_running_app-SameNew a i h) (append_running_items-SameNew is)

append_running_apps_data-fresh :
    (parse_query : Bytes → Outcome Bytes (Dict String (List Bytes))) (req : GenericRequester)
    (cycle : Bytes) (st : AppStateAfterDeployment) (listed : List RancherApp) (apps : AppsData)
    → append_running_apps_data parse_query (ok listed) req cycle st new_apps_data ≡ ok apps
    → apps.new_app_instances_data ≡ []
unfolding append_running_apps_data new_apps_data
append_running_apps_data-fresh parse_query req cycle st listed apps h =
    subst (Holds (SameNew parse_query req cycle st [])) h
      (append_running_items-SameNew parse_query req cycle st [] listed new_apps_data refl)

module _ {F Q W : Type 0} (cl : DeployClient F Q W) (settings : DeploySettings) (fl : Float64 F)
    (marshal : Body → Option Bytes) (schedule : List ℕ) (req : AppRequest F) where
  create_with-NoSuccess :
      (apps : AppsData) (rs : List AppInstanceData) (w : W)
      → apps.new_app_instances_data ≡ []
      → get_running_app_data apps req.name ≡ some rs
      → AllRun req rs
      → NoSuccess (create_with cl settings fl marshal schedule req apps w)
  unfolding append_new_app_instances get_running_app_data
  create_with-NoSuccess apps rs w fresh found all =
      with_result-NoSuccess (λ _. Unit {0}) (app_type_to_app_cycle req.cycle) _ w
        (Holds-trivial (app_type_to_app_cycle req.cycle))
        (λ ct _.
          rw (fresh, found)
            (create_new-NoSuccess cl settings fl marshal schedule req ct
              (new_instances (requester_of req) ct req.description req.app_state req.group_ids) rs w
              (new_instances-IsRepeated cl settings (requester_of req) ct req.description
                req.app_state req.group_ids rs all)))

module _ {F Q W : Type 0} (cl : DeployClient F Q W) (K : W → Type 0) (u : IsUntouched cl K)
    (settings : DeploySettings) (fl : Float64 F) (marshal : Body → Option Bytes) (schedule : List ℕ)
    (req : AppRequest F) where
  create_with-K :
      (apps : AppsData) (rs : List AppInstanceData) (w : W)
      → apps.new_app_instances_data ≡ []
      → get_running_app_data apps req.name ≡ some rs
      → AllRun req rs
      → K w
      → K (create_with cl settings fl marshal schedule req apps w).1
  unfolding append_new_app_instances get_running_app_data
  create_with-K apps rs w fresh found all h =
      with_result-K K (app_type_to_app_cycle req.cycle) _ w h (λ ct.
        rw (fresh, found)
          (create_new-K cl K u settings fl marshal schedule req ct
            (new_instances (requester_of req) ct req.description req.app_state req.group_ids) rs w
            (new_instances-IsRepeated cl settings (requester_of req) ct req.description
              req.app_state req.group_ids rs all)
            h))

-- Where each group ID of the request names an instance of the application that Rancher lists as running,
-- CreateApp never replies with success, in any order of the goroutines and whatever the other calls
-- return; and it works on no instance: whatever holds of the world and is kept by its calls other than
-- the creation, the upgrade and the deletion of instances holds after it.
pub create_app-already_runs :
    {F Q W : Type 0} (cl : DeployClient F Q W) (settings : DeploySettings) (fl : Float64 F)
    (marshal : Body → Option Bytes) (schedule : List ℕ) (req : AppRequest F)
    (listed : List RancherApp) (apps : AppsData) (rs : List AppInstanceData) (w : W)
    (K : W → Type 0)
    → IsUntouched cl K
    → K w
    → ((w1 : W) → (cl.list_apps w1).0 ≡ ok listed)
    → append_running_apps_data cl.parse_query
        (ok listed)
        (requester_of req)
        req.cycle
        req.app_state
        new_apps_data
      ≡ ok apps
    → get_running_app_data apps req.name ≡ some rs
    → AllRun req rs
    → NoSuccess (create_app cl settings fl marshal schedule req w)
      × K (create_app cl settings fl marshal schedule req w).1
unfolding create_app
create_app-already_runs cl settings fl marshal schedule req listed apps rs w K u h lists runs found
      all =
    (
      unless_error-NoSuccess (cl.sync_cache w) _ (λ w1.
          unless_error-NoSuccess (cl.catalog.refresh_catalog w1) _ (λ w2.
            rw (lists w2, runs)
              (unfold with_result in
                create_with-NoSuccess cl settings fl marshal schedule req apps rs _
                  (append_running_apps_data-fresh cl.parse_query (requester_of req) req.cycle
                    req.app_state listed apps runs)
                  found all))),
      unless_error-K K (cl.sync_cache w) _ (u.sync_cache w h) (λ w1 k1.
          unless_error-K K (cl.catalog.refresh_catalog w1) _ (u.refresh w1 k1) (λ w2 k2.
            rw (lists w2, runs)
              (unfold with_result in
                create_with-K cl K u settings fl marshal schedule req apps rs _
                  (append_running_apps_data-fresh cl.parse_query (requester_of req) req.cycle
                    req.app_state listed apps runs)
                  found all (u.list_apps w2 k2)))),
    )
