-- ===== src/Apps/Removal.antt =====
-- app/grpc/appmanager/adapters/rancher/appsdata.go: the running instances that a request deletes.
use grpc_gw_controller.Base.{
  Option, none, some, Bool, true, not, ◌&&◌, List, [], ◌∷◌, string_eq, bytes_eq, if◌then◌else◌,
  Outcome, ok, err, panic,
}
use grpc_gw_controller.Base.Text.{Bytes}
use grpc_gw_controller.Maps.{Map, get}
use grpc_gw_controller.Apps.{AppInstanceData, zero_instance, AppsData, GenericRequester, delete}
use grpc_gw_controller.Apps.Running.{RancherApp, differs, in_groups, add_running}

-- The two tests before the version is set.
unfoldable pub same_name_and_version : GenericRequester → Map → Bool
same_name_and_version req a =
    not (differs req.name (get a "apphc.app.basename"))
    && not (differs req.version (get a "apphc.app.instance.version"))

-- The tests after it.
unfoldable pub same_groups : GenericRequester → Map → Bool
same_groups req a =
    not (differs req.root_group_id (get a "apphc.app.instance.root_group_id"))
    && (not (bytes_eq (get a "apphc.app.instance.group_id") [])
        && in_groups req.group_ids (get a "apphc.app.instance.group_id"))

unfoldable pub deleted_instance : RancherApp → Bytes → AppInstanceData
deleted_instance item requested_version = record zero_instance {
  instance_name = item.name;
  current_version = get item.annotations "apphc.app.instance.version";
  requested_version = requested_version;
  template_available = true;
  annotations = item.annotations;
  next_action = delete;
}

abbrev append_deleted : RancherApp → Bytes → AppsData → Bytes × AppsData
append_deleted item version apps = (
  version,
  add_running (get item.annotations "apphc.app.basename") (deleted_instance item version) apps,
)

-- The tests on a request that is not `nil`. The version that is set stays set for later items.
unfoldable pub append_requested :
    GenericRequester → RancherApp → Bytes → AppsData → Bytes × AppsData
append_requested req item version apps =
    if same_name_and_version req item.annotations
    then (if same_groups req item.annotations
        then append_deleted item req.version apps
        else (req.version, apps))
    else (version, apps)

-- The body of the loop, over the variable `requestedVersion` and the temporary data.
unfoldable pub append_app_to_delete :
    Option GenericRequester → RancherApp → Bytes × AppsData → Bytes × AppsData
append_app_to_delete none item (version, apps) =
    if bytes_eq (get item.annotations "apphc.app.basename") []
    then (version, apps)
    else append_deleted item version apps
append_app_to_delete (some req) item (version, apps) =
    if bytes_eq (get item.annotations "apphc.app.basename") []
    then (version, apps)
    else append_requested req item version apps

unfoldable pub append_items_to_delete :
    Option GenericRequester → List RancherApp → Bytes × AppsData → Bytes × AppsData
append_items_to_delete req [] s = s
append_items_to_delete req (item ∷ items) s =
    append_items_to_delete req items (append_app_to_delete req item s)

abbrev after_list :
    {E : Type 0}
    → Option GenericRequester
    → AppsData
    → Outcome E (List RancherApp)
    → Outcome E AppsData
after_list req apps (ok items) = ok (append_items_to_delete req items ([], apps)).1
after_list req apps (err e) = err e
after_list req apps panic = panic

-- `listed` is the result of `apiClient.ProjectClient.App.List`.
unfoldable pub append_apps_data_to_delete :
    {E : Type 0}
    → Outcome E (List RancherApp)
    → Option GenericRequester
    → AppsData
    → Outcome E AppsData
append_apps_data_to_delete listed req apps = after_list req apps listed
