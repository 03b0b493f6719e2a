-- ===== src/Adapter/Update.antt =====
-- `updateUpgradeApps`, `UpgradeApp` and `UpdateApp` of app/grpc/appmanager/adapters/rancher/adapter.go,
-- from their first line on.
pub mod NoName
mod Nothing
mod Tests
use grpc_gw_controller.Base.{
  ℕ, Option, none, some, Bool, true, false, List, [], ◌∷◌, ◌++◌, Outcome, ok, err, panic,
  if◌then◌else◌, length,
}
use grpc_gw_controller.Base.Text.{Bytes, bytes}
use grpc_gw_controller.Base.Float.{Float64}
use grpc_gw_controller.AppTypes.{app_type_to_app_cycle}
use grpc_gw_controller.Messages.{AppRequest, Limits, not_found, get_limits}
use grpc_gw_controller.AppManager.{Reply}
use grpc_gw_controller.Apps.{
  AppInstanceData, AppsData, new_apps_data, append_new_app_instances, get_running_app_data,
  target_namespace_of,
}
use grpc_gw_controller.Apps.Running.{append_running_apps_data, or_nil}
use grpc_gw_controller.Quotas.Read.{Numbers}
use grpc_gw_controller.Adapter.{Body, unless_error, with_result, reply_with}
use grpc_gw_controller.Adapter.Backup.{Plan, plan}
use grpc_gw_controller.Adapter.Deploy.{
  DeployClient, DeploySettings, requester_of, running_text, with_call, check_limits,
}
use grpc_gw_controller.Adapter.Upgrade.{number_text, limits_or_reused, with_charts}

module _ {F Q W : Type 0} (cl : DeployClient F Q W) (settings : DeploySettings) (fl : Float64 F)
    (num : Numbers F) (marshal : Body → Option Bytes) (first second : List ℕ) (req : AppRequest F)
    (reuse : Bool) where
  abbrev pub backup_root : Bytes → Bytes
  backup_root id = bytes "backup-" ++ id

  -- `defer os.RemoveAll`
  abbrev pub then_remove : Bytes → Reply Body × W → Reply Body × W
  then_remove root (r, w) = (r, cl.remove_all (cl.join_path (settings.cache_path ∷ root ∷ [])) w)

  abbrev pub with_limits :
      Bytes
      → List AppInstanceData
      → List AppInstanceData
      → Option AppInstanceData
      → Plan
      → Option (Limits F)
      → W
      → Reply Body × W
  with_limits chart_type ns existing sample p l w =
      check_limits cl settings (length p.instances) l
        (λ w1. with_call (cl.random_id w1) (λ id w2. then_remove (backup_root id) (
          with_charts cl settings fl num marshal first second req reuse chart_type (backup_root id)
            l ns existing sample p w2)))
        w

  unfoldable pub with_plan :
      Bytes
      → List AppInstanceData
      → List AppInstanceData
      → Option AppInstanceData
      → W
      → Reply Body × W
  with_plan chart_type ns existing sample w =
      with_result
        (number_text (cl.reader w).print_error
          (plan settings.recreate_policy req.version ns existing))
        (λ p.
          with_result
            (limits_or_reused cl settings fl num marshal first second req reuse
              (get_limits req.spec) w)
            (λ l. with_limits chart_type ns existing sample p l w) w)
        w

  abbrev pub update_found :
      Bytes
      → List AppInstanceData
      → Option (List AppInstanceData)
      → Option AppInstanceData
      → W
      → Reply Body × W
  update_found chart_type [] none sample w =
      (reply_with marshal not_found (bytes "Nothing to update/upgrade") none, w)
  update_found chart_type [] (some existing) sample w =
      unless_error (cl.create_namespace (target_namespace_of req.name) w)
        (with_plan chart_type [] existing sample)
  update_found chart_type (n ∷ ns) existing sample w =
      unless_error (cl.create_namespace (target_namespace_of req.name) w)
        (with_plan chart_type (n ∷ ns) (or_nil existing) sample)

  abbrev pub update_with : AppsData → W → Reply Body × W
  update_with apps w =
      with_result (app_type_to_app_cycle req.cycle)
        (λ chart_type.
          let more =
            append_new_app_instances (requester_of req) chart_type req.description req.app_state
              apps in
          update_found chart_type more.new_app_instances_data (get_running_app_data more req.name)
            more.sample_instance w)
        w

  unfoldable pub update_upgrade_apps : W → Reply Body × W
  update_upgrade_apps w = unless_error (cl.sync_cache w) (λ w1.
      unless_error (cl.catalog.refresh_catalog w1) (λ w2.
        let r = cl.list_apps w2 in
        with_result
          (running_text (cl.reader r.1).print_error (
            append_running_apps_data cl.parse_query r.0 (requester_of req) req.cycle req.app_state
              new_apps_data))
          (λ apps. update_with apps r.1) r.1))

module _ {F Q W : Type 0} (cl : DeployClient F Q W) (settings : DeploySettings) (fl : Float64 F)
    (num : Numbers F) (marshal : Body → Option Bytes) (first second : List ℕ) where
  unfoldable pub upgrade_app : AppRequest F → W → Reply Body × W
  upgrade_app req w =
      unless_error (cl.create_namespace (target_namespace_of req.name) w)
        (update_upgrade_apps cl settings fl num marshal first second req false)

  unfoldable pub update_app : AppRequest F → W → Reply Body × W
  update_app req w = update_upgrade_apps cl settings fl num marshal first second req true w
