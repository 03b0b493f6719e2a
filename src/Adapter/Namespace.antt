-- ===== src/Adapter/Namespace.antt =====
-- Which namespaces DeleteApp and DeleteApps delete.
use grpc_gw_controller.Base.{
  ℕ, Option, none, some, Bool, true, false, ◌||◌, List, [], ◌∷◌, bytes_Eq, Bool-cases, ◌≡◌, inl,
  inr, refl,
}
use grpc_gw_controller.Base.Text.{Bytes}
use grpc_gw_controller.Base.Dict.{Dict}
use grpc_gw_controller.Messages.{DeleteAppRequest, DeleteAppsRequest}
use grpc_gw_controller.AppManager.{Reply}
use grpc_gw_controller.Apps.{
  AppInstanceData, AppsData, get_running_app_data, running_apps_data_empty,
}
use grpc_gw_controller.Adapter.{App, Body}
use grpc_gw_controller.Adapter.Deletion.{DeleteClient, Settings}
use grpc_gw_controller.Adapter.Collected.{HasNoNamespace, NoNamespaces, get_running-HasNoNamespace}
use grpc_gw_controller.Adapter.SameCalls.{
  with_namespaces, unless_error-same, delete_existing-same, clear_app-same, collected-same,
}
use grpc_gw_controller.Adapter.Delete.{
  requester_of, with_first, after_purge, after_purge_and_refresh, delete_found, delete_app,
  delete_each, delete_all_found, delete_apps,
}

module _ {W : Type 0} (client : DeleteClient W) (other : Bytes → W → Option Bytes × W)
    (settings : Settings) (marshal : Body → Option Bytes) (schedule : Bytes → List ℕ) where
  with_first-same :
      (l : List AppInstanceData) (f g : AppInstanceData → W → Reply Body × W) (w : W)
      → HasNoNamespace l
      → ((i : AppInstanceData) (v : W) → i.target_namespace ≡ [] → f i v ≡ g i v)
      → with_first l f w ≡ with_first l g w
  with_first-same [] f g w p h = refl
  with_first-same (i ∷ is) f g w p h = h i w p.0

  after_purge_and_refresh-same :
      (purge : Bool) (f g : W → Reply Body × W) (w : W)
      → ((v : W) → f v ≡ g v)
      → after_purge_and_refresh (with_namespaces client other) settings marshal schedule purge f w
        ≡ after_purge_and_refresh client settings marshal schedule purge g w
  after_purge_and_refresh-same false f g w h = h w
  after_purge_and_refresh-same true f g w h =
      unless_error-same _ _ _ (λ v. unless_error-same _ _ _ h)

  delete_found-same :
      (req : DeleteAppRequest) (o : Option (List AppInstanceData)) (w : W)
      → ((l : List AppInstanceData) → o ≡ some l → HasNoNamespace l)
      → delete_found (with_namespaces client other) settings marshal schedule req o w
        ≡ delete_found client settings marshal schedule req o w
  unfolding delete_found
  delete_found-same req none w h = refl
  delete_found-same req (some existing) w h =
      with_first-same existing _ _ w (h existing refl) (λ i v e.
        delete_existing-same client other settings marshal schedule req.name
          (req.purge || settings.purge_app_metadata) existing _ _ v
          (λ l v1.
            after_purge_and_refresh-same (req.purge || settings.purge_app_metadata) _ _ v1 (λ v2.
              clear_app-same client other settings marshal schedule req.name i.target_namespace
                existing l _ _ v2 e (λ v3. refl))))

  delete_each-same :
      (purge : Bool) (d : Dict Bytes (List AppInstanceData)) (apps : List App)
      (f g : List App → W → Reply Body × W) (w : W)
      → NoNamespaces d
      → ((l : List App) (v : W) → f l v ≡ g l v)
      → delete_each (with_namespaces client other) settings marshal schedule purge d apps f w
        ≡ delete_each client settings marshal schedule purge d apps g w
  unfolding delete_each
  delete_each-same purge [] apps f g w p h = h apps w
  delete_each-same purge ((name, existing) ∷ d) apps f g w p h =
      with_first-same existing _ _ w p.0 (λ i v e.
        delete_existing-same client other settings marshal schedule name purge existing _ _ v
          (λ l v1.
            clear_app-same client other settings marshal schedule name i.target_namespace existing l
              _ _ v1 e (λ v2. delete_each-same purge d _ f g v2 p.1 h)))

  after_purge-same :
      (purge : Bool) (f g : W → Reply Body × W) (w : W)
      → ((v : W) → f v ≡ g v)
      → after_purge (with_namespaces client other) settings marshal schedule purge f w
        ≡ after_purge client settings marshal schedule purge g w
  after_purge-same false f g w h = h w
  after_purge-same true f g w h = unless_error-same _ _ _ h

  delete_all_found-same :
      (req : DeleteAppsRequest) (apps : AppsData) (w : W)
      → NoNamespaces apps.running_apps_data
      → delete_all_found (with_namespaces client other) settings marshal schedule req apps w
        ≡ delete_all_found client settings marshal schedule req apps w
  unfolding delete_all_found
  delete_all_found-same req apps w h = elim (Bool-cases (running_apps_data_empty apps)) [
    | inl e ↦ rw e refl
    | inr e ↦ rw e (
        delete_each-same (req.purge || settings.purge_app_metadata) apps.running_apps_data [] _ _ w
          h
          (λ l v.
            after_purge-same (req.purge || settings.purge_app_metadata) _ _ v
              (λ v1. unless_error-same _ _ _ (λ v2. refl))))
  ]

-- DeleteApp and DeleteApps delete no namespace but one with the empty name: with a client that deletes
-- all other namespaces in any other way, and fails where it likes, both reply the same and leave the same
-- world, whatever the project, the request and the turns of the goroutines.
pub delete_app-no_namespace :
    {W : Type 0} (client : DeleteClient W) (other : Bytes → W → Option Bytes × W)
    (settings : Settings) (marshal : Body → Option Bytes) (schedule : Bytes → List ℕ)
    (req : DeleteAppRequest) (all : DeleteAppsRequest) (w : W)
    → (delete_app (with_namespaces client other) settings marshal schedule req w
        ≡ delete_app client settings marshal schedule req w)
      × (delete_apps (with_namespaces client other) settings marshal schedule all w
          ≡ delete_apps client settings marshal schedule all w)
unfolding delete_app delete_apps
delete_app-no_namespace client other settings marshal schedule req all w = (
  collected-same client other settings marshal schedule (some (requester_of req)) _ _ w (λ apps v h.
      delete_found-same client other settings marshal schedule req
        (get_running_app_data apps req.name) v
        (λ l e. get_running-HasNoNamespace apps req.name l h e)),
  collected-same client other settings marshal schedule none _ _ w
      (λ apps v h. delete_all_found-same client other settings marshal schedule all apps v h),
)
