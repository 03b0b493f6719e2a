-- ===== src/AppManager/Service.antt =====
-- The AppManager service: its requests, and the handler that serves each of them.
use grpc_gw_controller.Base.{Option, none, some, List, [], ◌∷◌}
use grpc_gw_controller.Base.Text.{Bytes}
use grpc_gw_controller.Base.Float.{Float64}
use grpc_gw_controller.Mutex.{lock_action_enable_disable_apps, lock_action_delete_apps}
use grpc_gw_controller.Messages.{
  AppRequest, GetAppsRequest, DeleteAppRequest, DeleteAppMetadataRequest, DeleteAppsRequest,
  EnableDisableAppRequest,
}
use grpc_gw_controller.DockerImage.{Registry}
use grpc_gw_controller.AppManager.{
  Reply, AppManagerAdapter, Server, app_locker, create_app, upgrade_app, update_app,
  enable_disable_app, delete_app, delete_apps, get_apps, delete_app_metadata,
}

pub data Request (F : Type 0) : Type 0 where
  create upgrade update : AppRequest F → Request F
  delete : DeleteAppRequest → Request F
  delete_all : DeleteAppsRequest → Request F
  get : GetAppsRequest → Request F
  delete_metadata : DeleteAppMetadataRequest → Request F
  enable_disable : EnableDisableAppRequest → Request F

-- The key that a request's handler locks, if it locks one.
abbrev pub locker : {F : Type 0} → Request F → Option Bytes
locker (create r) = some (app_locker r.name r.root_group_id)
locker (upgrade r) = some (app_locker r.name r.root_group_id)
locker (update r) = some (app_locker r.name r.root_group_id)
locker (delete r) = some (app_locker r.name r.root_group_id)
locker (delete_all r) = some lock_action_delete_apps
locker (get r) = none
locker (delete_metadata r) = some r.app_name
locker (enable_disable r) = some lock_action_enable_disable_apps

module _ {F V W B : Type 0} (fl : Float64 F) (private_registry : Bytes) (registry : W → Registry)
    (adapter : AppManagerAdapter F W B) where
  unfoldable pub serve : Request F → Server V W → Reply B × Server V W
  serve (create r) = create_app fl private_registry registry adapter r
  serve (upgrade r) = upgrade_app fl private_registry registry adapter r
  serve (update r) = update_app fl private_registry registry adapter r
  serve (delete r) = delete_app fl private_registry registry adapter r
  serve (delete_all r) = delete_apps fl private_registry registry adapter r
  serve (get r) = get_apps fl private_registry registry adapter r
  serve (delete_metadata r) = delete_app_metadata fl private_registry registry adapter r
  serve (enable_disable r) = enable_disable_app fl private_registry registry adapter r

  -- Requests served one after the other.
  unfoldable pub serve_all : List (Request F) → Server V W → Server V W
  serve_all [] s = s
  serve_all (r ∷ rs) s = serve_all rs (serve r s).1
