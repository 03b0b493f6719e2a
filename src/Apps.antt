-- ===== src/Apps.antt =====
-- app/grpc/appmanager/common/appdata.go and
-- app/grpc/appmanager/adapters/rancher/appsdata.go: the temporary data of the applications that a
-- request is about. An instance stands for the object that a pointer names.
pub mod Names
pub mod Running
pub mod Removal
pub mod Selection
pub mod Growth
pub mod Recorded
pub mod Created
pub mod Deleted
mod Tests
use grpc_gw_controller.Base.{
  ℕ, Option, none, some, Bool, true, false, List, [], ◌∷◌, ◌++◌, String, string_eq, bytes_Eq,
  bytes_eq, if◌then◌else◌, ltb, ◌==◌, length, take, drop,
}
use grpc_gw_controller.Base.Text.{Bytes, bytes, to_lower, replace, join}
use grpc_gw_controller.Base.Decimal.{ℤ, negsuc, pos}
use grpc_gw_controller.Base.Dict.{Dict, lookup}
use grpc_gw_controller.Maps.{Map, add}
use grpc_gw_controller.Messages.{
  AppStateAfterDeployment, disabled, Proto, AppRequest, DeleteAppRequest,
}

pub data NextAction : Type 0 where
  no_value create upgrade delete recreate keep : NextAction

pub record ImageData : Type 0 where
  pub repository : Bytes
  pub name : Bytes
  pub tag : Bytes

pub record PortData : Type 0 where
  pub name : Bytes
  pub number : ℕ
  pub proto : Bytes

pub record AppInstanceData : Type 0 where
  pub instance_name : Bytes
  pub state : AppStateAfterDeployment
  pub target_namespace : Bytes
  pub description : Bytes
  pub current_version : Bytes
  pub requested_version : Bytes
  pub next_action : NextAction
  pub template_available : Bool
  pub cycle_periodic_sched : Bytes
  pub annotations : Map
  pub labels : Map
  pub image : Option ImageData
  pub app_configs : Map
  pub env_vars : Map
  pub secrets : Map
  pub ports : List PortData
  pub instance_storage_size : ℤ
  pub shared_storage_enabled : Bool
  pub delete_instance_storage : Bool

-- `&AppInstanceData{}`
abbrev pub zero_instance : AppInstanceData
zero_instance = record {
  instance_name = [];
  state = disabled;
  target_namespace = [];
  description = [];
  current_version = [];
  requested_version = [];
  next_action = no_value;
  template_available = false;
  cycle_periodic_sched = [];
  annotations = [];
  labels = [];
  image = none;
  app_configs = [];
  env_vars = [];
  secrets = [];
  ports = [];
  instance_storage_size = pos 0;
  shared_storage_enabled = false;
  delete_instance_storage = false;
}

-- The interface `GenericRequester`.
pub record GenericRequester : Type 0 where
  pub name : Bytes
  pub version : Bytes
  pub root_group_id : Bytes
  pub group_ids : List Bytes

pub record AppsData : Type 0 where
  pub new_app_instances_data : List AppInstanceData
  pub running_apps_data : Dict Bytes (List AppInstanceData)
  pub sample_instance : Option AppInstanceData

unfoldable pub new_apps_data : AppsData
new_apps_data = record {
  new_app_instances_data = [];
  running_apps_data = [];
  sample_instance = none;
}

-- A name of more than 15 bytes keeps 14 of them.
unfoldable pub trunc_app_name : Bytes → Bytes
trunc_app_name name = if ltb 15 (length name) then take 14 name else name

-- A group ID of more than 15 bytes loses its first 14.
unfoldable pub trunc_app_group_id : Bytes → Bytes
trunc_app_group_id gid = if ltb 15 (length gid) then drop 14 gid else gid

unfoldable pub trunc_root_group_id : Bytes → Bytes
trunc_root_group_id root = if ltb 20 (length root) then take 19 root else root

unfoldable pub app_instance_id : Bytes → Bytes → Bytes → Bytes
app_instance_id name root gid =
    if bytes_eq root []
    then join (name ∷ gid ∷ []) (bytes "-")
    else join (name ∷ root ∷ gid ∷ []) (bytes "-")

unfoldable pub kube_conv_name : Bytes → Bytes → Bytes → Bytes
kube_conv_name name root gid =
    let joined =
      (if bytes_eq root []
        then to_lower (join (trunc_app_name name ∷ trunc_app_group_id gid ∷ []) (bytes "-"))
        else to_lower (
            join (trunc_app_name name ∷ trunc_root_group_id root ∷ trunc_app_group_id gid ∷ [])
              (bytes "-"))) in
    to_lower (replace b'_' b'-' joined)

-- `strings.Replace(strings.ToLower(appName), "_", "-", -1)`
unfoldable pub target_namespace_of : Bytes → Bytes
target_namespace_of name = replace b'_' b'-' (to_lower name)

abbrev with_root : Bytes → String → Map → Map
with_root root key m = if bytes_eq root [] then m else add m key root

unfoldable pub new_instance :
    GenericRequester → Bytes → Bytes → AppStateAfterDeployment → Bytes → AppInstanceData
new_instance req app_cycle description state gid =
    let id = app_instance_id req.name req.root_group_id gid in
    let kube = kube_conv_name req.name req.root_group_id gid in
    let a0 =
      add
        (with_root req.root_group_id "apphc.app.instance.root_group_id"
          (add [] "apphc.app.basename" req.name))
        "apphc.app.instance.id" id in
    let a1 = add (add a0 "apphc.app.cycle" app_cycle) "apphc.app.instance.group_id" gid in
    let a2 = add (add a1 "apphc.app.instance.version" req.version) "apphc.app.instance.id" id in
    record zero_instance {
      instance_name = kube;
      target_namespace = target_namespace_of req.name;
      state = state;
      next_action = create;
      instance_storage_size = negsuc 0;
      description =
          if bytes_eq description []
          then bytes "Application " ++ (req.name ++ (bytes ", instance ID " ++ id))
          else description;
      requested_version = req.version;
      annotations = add a2 "apphc.app.instance.template_name" kube;
      labels =
          add
            (add (with_root req.root_group_id "apphc.app.instance.root_group_id" [])
              "apphc.app.cycle" app_cycle)
            "apphc.app.instance.group_id" gid;
    }

-- One instance for each group ID.
unfoldable pub new_instances :
    GenericRequester → Bytes → Bytes → AppStateAfterDeployment → List Bytes → List AppInstanceData
new_instances req app_cycle description state [] = []
new_instances req app_cycle description state (gid ∷ gids) =
    new_instance req app_cycle description state gid
    ∷ new_instances req app_cycle description state gids

unfoldable pub append_new_app_instances :
    GenericRequester → Bytes → Bytes → AppStateAfterDeployment → AppsData → AppsData
append_new_app_instances req app_cycle description state apps = record apps {
  new_app_instances_data =
      apps.new_app_instances_data ++ new_instances req app_cycle description state req.group_ids;
}

-- `nil` for an application with no running instance.
unfoldable pub get_running_app_data : AppsData → Bytes → Option (List AppInstanceData)
get_running_app_data apps app_name = lookup app_name apps.running_apps_data

unfoldable pub new_app_instances_data_empty : AppsData → Bool
new_app_instances_data_empty apps = length apps.new_app_instances_data == 0

unfoldable pub running_apps_data_empty : AppsData → Bool
running_apps_data_empty apps = length apps.running_apps_data == 0

unfoldable pub get_number_of_new_instances : AppsData → ℕ
get_number_of_new_instances apps = length apps.new_app_instances_data
