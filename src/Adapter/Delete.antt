-- ===== src/Adapter/Delete.antt =====
-- `DeleteApp` and `DeleteApps` of app/grpc/appmanager/adapters/rancher/adapter.go.
use grpc_gw_controller.Base.{
  ℕ, Option, none, some, Bool, true, false, ◌||◌, List, [], ◌∷◌, ◌++◌, panic, if◌then◌else◌, ◌==◌,
  string_eq, bytes_Eq, length,
}
use grpc_gw_controller.Base.Text.{Bytes, bytes}
use grpc_gw_controller.Base.Dict.{Dict}
use grpc_gw_controller.Maps.{get}
use grpc_gw_controller.Messages.{success, not_found, DeleteAppRequest, DeleteAppsRequest}
use grpc_gw_controller.AppManager.{Reply}
use grpc_gw_controller.Apps.{
  AppInstanceData, AppsData, new_apps_data, GenericRequester, get_running_app_data,
  running_apps_data_empty,
}
use grpc_gw_controller.Apps.Removal.{append_apps_data_to_delete}
use grpc_gw_controller.Workers.{AppInstance}
use grpc_gw_controller.Adapter.{
  App, Body, app_body, apps_body, unless_error, with_result, reply_with,
}
use grpc_gw_controller.Adapter.Deletion.{DeleteClient, Settings, delete_instances}

abbrev pub requester_of : DeleteAppRequest → GenericRequester
requester_of req = record {
  name = req.name;
  version = req.version;
  root_group_id = req.root_group_id;
  group_ids = req.group_ids;
}

-- `existingData[0]`, which panics on an empty slice.
abbrev pub with_first :
    {W : Type 0}
    → List AppInstanceData
    → (AppInstanceData → W → Reply Body × W)
    → W
    → Reply Body × W
with_first [] rest w = (panic, w)
with_first (i ∷ is) rest w = rest i w

module _ {W : Type 0} (client : DeleteClient W) (settings : Settings)
    (marshal : Body → Option Bytes) (schedule : Bytes → List ℕ) where
  -- The cache, the catalog and the applications to delete, before the rest.
  unfoldable pub collected :
      Option GenericRequester → (AppsData → W → Reply Body × W) → W → Reply Body × W
  collected req rest w = unless_error (client.sync_cache w) (λ w1.
      unless_error (client.refresh_catalog w1) (λ w2.
        let r = client.list_apps w2 in
        with_result (append_apps_data_to_delete r.0 req new_apps_data) (λ apps. rest apps r.1) r.1))

  -- The shared storage and the namespace, where all that was found is done.
  unfoldable pub clear_app :
      Bytes
      → Bytes
      → List AppInstanceData
      → List AppInstance
      → (W → Reply Body × W)
      → W
      → Reply Body × W
  clear_app name namespace existing done_list rest w =
      if length done_list == length existing
      then unless_error
          (client.delete_storage (name ++ bytes "-shared-pv") (name ++ bytes "-shared-pvc") w)
          (λ w1. unless_error (client.delete_namespace namespace w1) rest)
      else rest w

  -- The instances of one application.
  unfoldable pub delete_existing :
      Bytes
      → Bool
      → List AppInstanceData
      → (List AppInstance → W → Reply Body × W)
      → W
      → Reply Body × W
  delete_existing name purge existing rest w =
      let r = delete_instances client settings name purge existing (schedule name) w in
      with_result r.0 (λ done_list. rest done_list r.1) r.1

  -- The charts, where they are purged.
  abbrev pub after_purge : Bool → (W → Reply Body × W) → W → Reply Body × W
  after_purge false rest w = rest w
  after_purge true rest w =
      unless_error (client.push settings.repo_path (bytes "Delete application charts") w) rest

  abbrev pub after_purge_and_refresh : Bool → (W → Reply Body × W) → W → Reply Body × W
  after_purge_and_refresh false rest w = rest w
  after_purge_and_refresh true rest w =
      after_purge true (λ w1. unless_error (client.refresh_catalog w1) rest) w

  unfoldable pub delete_found :
      DeleteAppRequest → Option (List AppInstanceData) → W → Reply Body × W
  delete_found req none w = (reply_with marshal not_found (bytes "Nothing to delete") none, w)
  delete_found req (some existing) w =
      with_first existing
        (λ i w0.
          let purge = req.purge || settings.purge_app_metadata in
          delete_existing req.name purge existing
            (λ done_list w1.
              after_purge_and_refresh purge
                (λ w2.
                  clear_app req.name i.target_namespace existing done_list
                    (λ w3. (
                      reply_with marshal success
                          (bytes "Application instances successfully deleted")
                          (some (
                            app_body (record {
                              name = req.name;
                              cycle = get i.annotations "apphc.app.cycle";
                              instances = done_list;
                            }))),
                      w3,
                    ))
                    w2)
                w1)
            w0)
        w

  unfoldable pub delete_app : DeleteAppRequest → W → Reply Body × W
  delete_app req w =
      collected (some (requester_of req))
        (λ apps w1. delete_found req (get_running_app_data apps req.name) w1) w

  -- The loop over the applications, and what comes after it.
  unfoldable pub delete_each :
      Bool
      → Dict Bytes (List AppInstanceData)
      → List App
      → (List App → W → Reply Body × W)
      → W
      → Reply Body × W
  delete_each purge [] done_apps rest w = rest done_apps w
  delete_each purge ((name, existing) ∷ apps) done_apps rest w =
      with_first existing
        (λ i w0.
          delete_existing name purge existing
            (λ done_list w1.
              clear_app name i.target_namespace existing done_list
                (λ w2.
                  delete_each purge apps
                    (done_apps
                      ++ record {
                        name = name;
                        cycle = get i.annotations "apphc.app.cycle";
                        instances = done_list;
                      }
                        ∷ [])
                    rest w2)
                w1)
            w0)
        w

  unfoldable pub delete_all_found : DeleteAppsRequest → AppsData → W → Reply Body × W
  delete_all_found req apps w =
      let purge = req.purge || settings.purge_app_metadata in
      if running_apps_data_empty apps
      then (reply_with marshal not_found (bytes "Nothing to delete") none, w)
      else delete_each purge apps.running_apps_data []
          (λ done_apps w1.
            after_purge purge
              (λ w2. unless_error (client.refresh_catalog w2) (λ w3. (
                reply_with marshal success (bytes "Applications successfully deleted")
                    (some (apps_body done_apps)),
                w3,
              )))
              w1)
          w

  unfoldable pub delete_apps : DeleteAppsRequest → W → Reply Body × W
  delete_apps req w = collected none (delete_all_found req) w
