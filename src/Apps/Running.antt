-- ===== src/Apps/Running.antt =====
-- app/grpc/appmanager/adapters/rancher/appsdata.go: what the application list of a Rancher project
-- contributes to the temporary data. `url.Parse` with the query of its result is a parameter. The
-- data that a failed call leaves behind is not part of the result: each caller drops it.
use grpc_gw_controller.Base.{
  Option, none, some, Bool, true, false, not, ◌&&◌, ◌||◌, List, [], ◌∷◌, ◌++◌, String, string_eq,
  bytes_Eq, bytes_eq, if◌then◌else◌, Outcome, ok, err, panic, ◌>>=◌,
}
use grpc_gw_controller.Base.Text.{Bytes}
use grpc_gw_controller.Base.Decimal.{ℤ, ParseError, atoi}
use grpc_gw_controller.Base.Dict.{Dict, lookup, insert}
use grpc_gw_controller.Maps.{Map, get}
use grpc_gw_controller.Messages.{AppStateAfterDeployment, disabled, enabled, state_eq, state_of_int}
use grpc_gw_controller.Apps.{
  AppInstanceData, zero_instance, AppsData, GenericRequester, NextAction, upgrade, recreate,
}

-- What the code reads of `projectClient.App`.
pub record RancherApp : Type 0 where
  pub name : Bytes
  pub description : Bytes
  pub external_id : Bytes
  pub target_namespace : Bytes
  pub annotations : Map
  pub labels : Map

pub data RunningError (E : Type 0) : Type 0 where
  client : E → RunningError E
  number : ParseError → RunningError E

abbrev pub of_client : {E A : Type 0} → Outcome E A → Outcome (RunningError E) A
of_client (ok a) = ok a
of_client (err e) = err (client e)
of_client panic = panic

abbrev pub of_number : {E A : Type 0} → Outcome ParseError A → Outcome (RunningError E) A
of_number (ok a) = ok a
of_number (err e) = err (number e)
of_number panic = panic

-- A filter of the request is off where it is empty.
abbrev pub differs : Bytes → Bytes → Bool
differs wanted found = not (bytes_eq wanted []) && not (bytes_eq wanted found)

-- The loop over the group IDs of the request, which `break`s at a hit.
unfoldable pub group_found : List Bytes → Bytes → Bool
group_found [] group_id = false
group_found (gid ∷ gids) group_id = bytes_eq gid group_id || group_found gids group_id

abbrev pub in_groups : List Bytes → Bytes → Bool
in_groups [] group_id = true
in_groups (gid ∷ gids) group_id = group_found (gid ∷ gids) group_id

-- The conditions that come before the sample instance.
unfoldable pub passes_filters : GenericRequester → Bytes → Map → Bool
passes_filters req cycle a =
    not (bytes_eq (get a "apphc.app.basename") [])
    && (not (differs req.name (get a "apphc.app.basename"))
        && (not (differs cycle (get a "apphc.app.cycle"))
            && (not (differs req.root_group_id (get a "apphc.app.instance.root_group_id"))
                && not (bytes_eq (get a "apphc.app.instance.group_id") []))))

-- The state of the request, unless it `!= disabled` or `!= enabled`.
unfoldable pub new_state :
    {E : Type 0} → AppStateAfterDeployment → Map → Outcome (RunningError E) AppStateAfterDeployment
new_state state a =
    if not (state_eq state disabled) || not (state_eq state enabled)
    then (if bytes_eq (get a "apphc.app.instance.state") []
        then ok disabled
        else (of_number (atoi (get a "apphc.app.instance.state")) >>= λ r. ok (state_of_int r)))
    else ok state

unfoldable pub sample_of : RancherApp → AppStateAfterDeployment → AppInstanceData
sample_of item state = record zero_instance {
  instance_name = item.name;
  state = state;
  current_version = get item.annotations "apphc.app.instance.version";
  requested_version = get item.annotations "apphc.app.instance.version";
  annotations = item.annotations;
  target_namespace = item.target_namespace;
}

abbrev pub keep_sample : Option AppInstanceData → AppInstanceData → Option AppInstanceData
keep_sample none s = some s
keep_sample (some s) t = some s

unfoldable pub with_sample : RancherApp → AppStateAfterDeployment → AppsData → AppsData
with_sample item state apps = record apps {
  sample_instance = keep_sample apps.sample_instance (sample_of item state);
}

abbrev pub or_nil : Option (List AppInstanceData) → List AppInstanceData
or_nil none = []
or_nil (some is) = is

-- `apps.RunningAppsData[appName] = append(apps.RunningAppsData[appName], appInstance)`
unfoldable pub add_running : Bytes → AppInstanceData → AppsData → AppsData
add_running app_name i apps = record apps {
  running_apps_data =
      insert app_name (or_nil (lookup app_name apps.running_apps_data) ++ i ∷ [])
        apps.running_apps_data;
}

-- The first value of each key of a query, as far as the code reads it.
abbrev pub first_value : Option (List Bytes) → Bytes
first_value none = []
first_value (some []) = []
first_value (some (v ∷ vs)) = v

abbrev pub requested : Bytes → Bytes → Bytes
requested wanted current = if bytes_eq wanted [] || bytes_eq current wanted then current else wanted

abbrev pub action : Bytes → Bytes → NextAction
action wanted current = if bytes_eq wanted [] || bytes_eq current wanted then recreate else upgrade

unfoldable pub running_instance :
    GenericRequester → RancherApp → AppStateAfterDeployment → Bytes → ℤ → AppInstanceData
running_instance req item state version size = record zero_instance {
  instance_storage_size = size;
  instance_name = item.name;
  state = state;
  description = item.description;
  current_version = version;
  template_available = true;
  target_namespace = item.target_namespace;
  requested_version = requested req.version version;
  next_action = action req.version version;
  annotations = item.annotations;
  labels = item.labels;
}

module _ {E : Type 0} (parse_query : Bytes → Outcome E (Dict String (List Bytes))) where
  -- `getExternalID(e)["version"]`
  unfoldable pub external_version : Bytes → Outcome (RunningError E) Bytes
  external_version e = of_client (parse_query e) >>= λ q. ok (first_value (lookup "version" q))

  unfoldable pub append_running_instance :
      GenericRequester
      → AppsData
      → RancherApp
      → AppStateAfterDeployment
      → Outcome (RunningError E) AppsData
  append_running_instance req apps item state = external_version item.external_id >>= λ version.
      of_number (atoi (get item.annotations "apphc.app.instance.volume.size")) >>= λ size. ok (
        add_running (get item.annotations "apphc.app.basename")
          (running_instance req item state version size) apps)

  -- The body of the loop.
  unfoldable pub append_running_app :
      GenericRequester
      → Bytes
      → AppStateAfterDeployment
      → AppsData
      → RancherApp
      → Outcome (RunningError E) AppsData
  append_running_app req cycle state apps item =
      if passes_filters req cycle item.annotations
      then (new_state state item.annotations >>= λ s.
          (if in_groups req.group_ids (get item.annotations "apphc.app.instance.group_id")
            then append_running_instance req (with_sample item s apps) item s
            else ok (with_sample item s apps)))
      else ok apps

  unfoldable pub append_running_items :
      GenericRequester
      → Bytes
      → AppStateAfterDeployment
      → AppsData
      → List RancherApp
      → Outcome (RunningError E) AppsData
  append_running_items req cycle state apps [] = ok apps
  append_running_items req cycle state apps (item ∷ items) =
      append_running_app req cycle state apps item >>= λ more.
      append_running_items req cycle state more items

  -- `listed` is the result of `apiClient.ProjectClient.App.List`.
  unfoldable pub append_running_apps_data :
      Outcome E (List RancherApp)
      → GenericRequester
      → Bytes
      → AppStateAfterDeployment
      → AppsData
      → Outcome (RunningError E) AppsData
  append_running_apps_data listed req cycle state apps =
      of_client listed >>= λ items. append_running_items req cycle state apps items
