-- ===== src/Adapter/Tests.antt =====
-- A project with one application, and the names and backups of its instance.
use grpc_gw_controller.Base.{
  ℕ, ◌≤◌, Option, none, some, true, false, List, [], ◌∷◌, ◌++◌, ok, err, string_eq, length,
  bytes_eq, bytes_Eq, ◌≡◌, ◌≢◌, ◌↔◌, ◌⊎◌, refl,
}
use grpc_gw_controller.Base.Text.{Bytes, bytes, join, to_lower, replace, has_prefix, contains}
use grpc_gw_controller.Base.Decimal.{ℤ, pos, ParseError, atoi}
use grpc_gw_controller.Base.Dict.{lookup, insert}
use grpc_gw_controller.Maps.{get}
use grpc_gw_controller.Messages.{success, DeleteAppRequest, DeleteAppMetadataRequest}
use grpc_gw_controller.AppManager.{generate_response}
use grpc_gw_controller.Apps.{
  AppInstanceData, zero_instance, kube_conv_name, new_apps_data, get_running_app_data,
}
use grpc_gw_controller.Apps.Running.{RancherApp, group_found, add_running}
use grpc_gw_controller.Apps.Removal.{
  same_name_and_version, same_groups, deleted_instance, append_requested, append_app_to_delete,
  append_items_to_delete, append_apps_data_to_delete,
}
use grpc_gw_controller.Workers.{generate_proto_data}
use grpc_gw_controller.Adapter.{Body, templates_body, unless_error, with_result}
use grpc_gw_controller.Adapter.Deletion.{DeleteClient, Settings, step, start, delete_instances}
use grpc_gw_controller.Adapter.Delete.{
  collected, clear_app, delete_existing, delete_found, delete_app, delete_apps,
}
use grpc_gw_controller.Adapter.SameCalls.{with_namespaces}
use grpc_gw_controller.Adapter.Namespace.{delete_app-no_namespace}
use grpc_gw_controller.Adapter.Metadata.{
  MetadataClient, chart_name, has_version, remove_template_data, remove_each, chart_names,
  publish_removal, delete_app_metadata,
}
use grpc_gw_controller.Adapter.Metadata.Names.{chart_name-kube_conv_name}
use grpc_gw_controller.Adapter.Backup.{
  Plan, get_backup_data, inherit, merge_existing, merge_all, plan, rolls_back,
}
use grpc_gw_controller.Adapter.Backup.Planned.{IsBackup, get_backup_data-IsBackup}
use grpc_gw_controller.Adapter.Backup.Merged.{IsMerged, Pairs, plan-IsMerged}

-- The calls that a run makes.
abbrev Log : Type 0
Log = List Bytes

abbrev says : Bytes → Log → Option Bytes × Log
says call w = (none, w ++ call ∷ [])

abbrev editor_of : Bytes → RancherApp
editor_of gid = record {
  name = bytes "editor-" ++ gid;
  description = [];
  external_id = [];
  target_namespace = bytes "editor";
  annotations =
      ("apphc.app.basename", bytes "editor")
      ∷ ("apphc.app.cycle", bytes "daemon")
      ∷ ("apphc.app.instance.group_id", gid)
      ∷ ("apphc.app.instance.version", bytes "1")
      ∷ [];
  labels = [];
}

abbrev client : DeleteClient Log
client = record {
  sync_cache = says (bytes "sync");
  refresh_catalog = says (bytes "refresh");
  list_apps = λ w. (ok (editor_of (bytes "g1") ∷ editor_of (bytes "g2") ∷ []), w);
  delete_app_instance = λ i v. says (bytes "delete " ++ i.instance_name);
  delete_chart = λ p n v. says (bytes "chart " ++ p);
  remove_all = λ p w. w ++ (bytes "remove " ++ p) ∷ [];
  push = λ p m. says (bytes "push");
  delete_storage = λ v c. says (bytes "storage " ++ v);
  delete_namespace = λ n. says (bytes "namespace " ++ n);
  join_path = λ parts. join parts (bytes "/");
}

abbrev settings : Settings
settings = record {
  apps_catalog_name = bytes "apps";
  repo_path = bytes "/cache/apps";
  purge_app_metadata = false;
}

abbrev marshal : Body → Option Bytes
marshal b = none

abbrev in_order : Bytes → List ℕ
in_order name = 0 ∷ 0 ∷ 0 ∷ 0 ∷ 0 ∷ 0 ∷ 0 ∷ []

abbrev removal : DeleteAppRequest
removal = record {
  name = bytes "editor";
  version = [];
  root_group_id = [];
  group_ids = bytes "g1" ∷ [];
  purge = false;
}

-- With one of its two instances the shared storage of the application goes, and a namespace with no
-- name.
delete_app_run :
    (delete_app client settings marshal in_order removal []).1
    ≡ bytes "sync"
      ∷ bytes "refresh"
      ∷ bytes "delete editor-g1"
      ∷ bytes "storage editor-shared-pv"
      ∷ bytes "namespace "
      ∷ []
unfolding delete_app collected unless_error with_result append_apps_data_to_delete delete_found
    get_running_app_data lookup append_items_to_delete append_app_to_delete bytes_eq get
    append_requested same_name_and_version same_groups group_found deleted_instance add_running
    insert new_apps_data delete_existing delete_instances start step clear_app generate_proto_data
delete_app_run = refl

delete_app-no_namespace_example :
    (delete_app (with_namespaces client (λ n w. (some n, w))) settings marshal in_order removal []
      ≡ delete_app client settings marshal in_order removal [])
    × (delete_apps
          (with_namespaces client (λ n w. (some n, w)))
          settings
          marshal
          in_order
          (record { purge = true })
          []
        ≡ delete_apps client settings marshal in_order (record { purge = true }) [])
delete_app-no_namespace_example =
    delete_app-no_namespace client (λ n w. (some n, w)) settings marshal in_order removal
      (record { purge = true }) []

abbrev metadata_client : MetadataClient Log
metadata_client = record {
  sync_cache = says (bytes "sync");
  refresh_catalog = says (bytes "refresh");
  push = λ p m. says (bytes "push");
  get_template_versions = λ n w. (ok (bytes "1" ∷ bytes "2" ∷ []), w);
  delete_chart = λ p n v. says (bytes "chart " ++ p);
  get_sub_dirs = λ p w. (ok [], w);
  join_path = λ parts. join parts (bytes "/");
}

abbrev metadata_request : DeleteAppMetadataRequest
metadata_request = record {
  app_name = bytes "Editor";
  version = bytes "2";
  root_group_id = [];
  group_ids = bytes "g_1" ∷ [];
}

delete_app_metadata_run :
    delete_app_metadata metadata_client marshal
      (bytes "/cache/apps")
      (bytes "apps")
      metadata_request
      []
    ≡ (
      ok (record {
        status = success;
        message = bytes "Application metadata successfully deleted";
        body = some (
            templates_body (bytes "Editor") (
              record {
                name = bytes "editor-g-1";
                versions = bytes "2" ∷ [];
                catalog_id = bytes "apps";
              }
              ∷ []));
      }),
      bytes "sync"
          ∷ bytes "chart /cache/apps/Editor/editor-g-1/2"
          ∷ bytes "push"
          ∷ bytes "refresh"
          ∷ [],
    )
unfolding delete_app_metadata unless_error remove_each chart_names with_result remove_template_data
    bytes_eq has_version publish_removal generate_response join chart_name to_lower replace
delete_app_metadata_run = refl

chart_name-kube_conv_name_example :
    (chart_name (bytes "editor") [] (bytes "g1") ≡ kube_conv_name (bytes "editor") [] (bytes "g1"))
    ↔ ((length (bytes "editor") ≤ 15) × (length {A = ℕ} [] ≤ 20) × (length (bytes "g1") ≤ 15))
chart_name-kube_conv_name_example = chart_name-kube_conv_name (bytes "editor") [] (bytes "g1")

-- An instance at version 1 that is to have version 2.
abbrev running_editor : AppInstanceData
running_editor = record zero_instance {
  instance_name = bytes "editor-g1";
  current_version = bytes "1";
  requested_version = bytes "2";
  annotations =
      ("apphc.app.instance.volume.size", bytes "5") ∷ ("apphc.app.instance.state", bytes "1") ∷ [];
  instance_storage_size = pos 5;
}

get_backup_data-IsBackup_example :
    ((size i : ℤ)
      → atoi (get running_editor.annotations "apphc.app.instance.volume.size") ≡ ok size
      → atoi (get running_editor.annotations "apphc.app.instance.state") ≡ ok i
      → (b : AppInstanceData) × (c : AppInstanceData) × (get_backup_data false running_editor
          ≡ ok b)
        × IsBackup false running_editor b
        × (get_backup_data false b ≡ ok c)
        × (c.requested_version ≡ running_editor.requested_version)
        × (c.current_version ≡ running_editor.current_version)
        × (c.next_action ≡ b.next_action))
    × ((x : ParseError)
        → (atoi (get running_editor.annotations "apphc.app.instance.volume.size") ≡ err x)
          ⊎ (atoi (get running_editor.annotations "apphc.app.instance.state") ≡ err x)
        → (b : AppInstanceData) → get_backup_data false running_editor ≢ ok b)
get_backup_data-IsBackup_example = get_backup_data-IsBackup false running_editor

-- The request asks for a new instance of another group, which takes the size of the running one.
abbrev new_editor : AppInstanceData
new_editor = record zero_instance {
  instance_name = bytes "editor-g2";
  instance_storage_size = pos 9;
}

abbrev planned : Plan
planned = record {
  instances =
      record new_editor { requested_version = bytes "2"; instance_storage_size = pos 5 } ∷ [];
  backups = [];
}

plan-IsMerged_example :
    Pairs false [] (IsMerged false [] (running_editor ∷ [])) (new_editor ∷ []) planned.instances
unfolding plan merge_all merge_existing bytes_eq inherit
plan-IsMerged_example = plan-IsMerged false [] new_editor [] (running_editor ∷ []) planned refl

rolls_back_runs :
    (rolls_back false (running_editor ∷ []) (bytes "cannot recreate the application instance a: b")
      ≡ true)
    × (rolls_back true (running_editor ∷ []) (bytes "timed out waiting for pods readiness") ≡ false)
    × (rolls_back false [] (bytes "timed out waiting for pods readiness") ≡ false)
unfolding rolls_back has_prefix contains
rolls_back_runs = (refl, refl, refl)
