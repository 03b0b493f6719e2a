-- ===== src/Workers.antt =====
-- app/grpc/appmanager/adapters/rancher/handle_appsdata.go: `createUpgradeApps`, which works on each
-- instance in a goroutine of its own. The goroutines share the Rancher server and the two slices
-- `errors` and `doneList`; an `append` reads the slice and then writes it, and others may run between
-- the two. The functions of the package apiclient that it calls are an interface. A run is a list of
-- the goroutines that take a step, one after the other.
pub mod Results
pub mod Report
pub mod Lost
mod Tests
use grpc_gw_controller.Base.{
  ℕ, Option, none, some, Bool, true, false, List, [], ◌∷◌, ◌++◌, string_eq, bytes_eq, if◌then◌else◌,
  ◌==◌, get_elem?, Outcome, ok, err,
}
use grpc_gw_controller.Base.Text.{Bytes, bytes}
use grpc_gw_controller.Maps.{get}
use grpc_gw_controller.Apps.{
  AppInstanceData, NextAction, no_value, create, upgrade, delete, recreate, keep,
}

pub record Template : Type 0 where
  pub name : Bytes
  pub versions : List Bytes
  pub catalog_id : Bytes

pub record AppInstance : Type 0 where
  pub name : Bytes
  pub id : Bytes
  pub version : Bytes
  pub root_group_id : Bytes
  pub group_id : Bytes
  pub template : Option Template

unfoldable pub generate_proto_data : AppInstanceData → Bytes → AppInstance
generate_proto_data app catalog_id = record {
  name = app.instance_name;
  id = get app.annotations "apphc.app.instance.id";
  version = app.requested_version;
  root_group_id = get app.annotations "apphc.app.instance.root_group_id";
  group_id = get app.annotations "apphc.app.instance.group_id";
  template =
      if bytes_eq catalog_id []
      then none
      else some (record {
        name = app.instance_name;
        versions = get app.annotations "apphc.app.instance.version" ∷ [];
        catalog_id = catalog_id;
      });
}

-- `CreateAppInstance`, `UpgradeAppInstance` and `DeleteAppInstance`: the error, if any, is a text.
pub record ApiClient (W : Type 0) : Type 0 where
  pub create_app_instance : AppInstanceData → Bytes → W → Option Bytes × W
  pub upgrade_app_instance : AppInstanceData → W → Option Bytes × W
  pub delete_app_instance : AppInstanceData → Bytes → W → Option Bytes × W

-- Where a goroutine stands: `failed` and `done` are about to append, `failed_read` and `done_read`
-- have read the slice, and the last three have returned.
pub data Phase : Type 0 where
  ready deleted : Phase
  failed : Bytes → Phase
  failed_read : Bytes → List Bytes → Phase
  done : Phase
  done_read : List AppInstance → Phase
  reported_error reported_done idle : Phase

pub record Pool (W : Type 0) : Type 0 where
  pub world : W
  pub errors : List Bytes
  pub done_list : List AppInstance
  pub phase : ℕ → Phase

abbrev pub set_phase : ℕ → Phase → (ℕ → Phase) → ℕ → Phase
set_phase i p phase j = if j == i then p else phase j

abbrev pub after_call : Option Bytes → Phase
after_call none = done
after_call (some e) = failed e

-- After the deletion that comes before a new creation.
abbrev pub after_delete : Option Bytes → Phase
after_delete none = deleted
after_delete (some e) = failed e

abbrev pub after_recreate : Bytes → Option Bytes → Phase
after_recreate name none = done
after_recreate name (some e) =
    failed (bytes "cannot recreate the application instance " ++ (name ++ (bytes ": " ++ e)))

module _ {W : Type 0} (api : ApiClient W) (catalog_id : Bytes) where
  -- The `switch` over the next action.
  unfoldable pub first_call : AppInstanceData → NextAction → W → Phase × W
  first_call i create w =
      let r = api.create_app_instance i i.requested_version w in (after_call r.0, r.1)
  first_call i upgrade w = let r = api.upgrade_app_instance i w in (after_call r.0, r.1)
  first_call i recreate w =
      let r = api.delete_app_instance i i.current_version w in (after_delete r.0, r.1)
  first_call i no_value w = (idle, w)
  first_call i delete w = (idle, w)
  first_call i keep w = (idle, w)

  -- One step of the goroutine `k`, which works on `i`.
  unfoldable pub step : ℕ → AppInstanceData → Phase → Pool W → Pool W
  step k i ready m =
      let r = first_call i i.next_action m.world in
      record m { world = r.1; phase = set_phase k r.0 m.phase }
  step k i deleted m =
      let r = api.create_app_instance i i.requested_version m.world in
      record m { world = r.1; phase = set_phase k (after_recreate i.instance_name r.0) m.phase }
  step k i (failed e) m = record m { phase = set_phase k (failed_read e m.errors) m.phase }
  step k i (failed_read e es) m = record m {
    errors = es ++ e ∷ [];
    phase = set_phase k reported_error m.phase;
  }
  step k i done m = record m { phase = set_phase k (done_read m.done_list) m.phase }
  step k i (done_read l) m = record m {
    done_list = l ++ generate_proto_data i catalog_id ∷ [];
    phase = set_phase k reported_done m.phase;
  }
  step k i reported_error m = m
  step k i reported_done m = m
  step k i idle m = m

  abbrev pub step_at : ℕ → Option AppInstanceData → Pool W → Pool W
  step_at k none m = m
  step_at k (some i) m = step k i (m.phase k) m

  -- A run of the goroutines in the order of a schedule.
  unfoldable pub run : List AppInstanceData → List ℕ → Pool W → Pool W
  run instances [] m = m
  run instances (k ∷ ks) m = run instances ks (step_at k (get_elem? instances k) m)

abbrev pub phase_for : NextAction → Phase
phase_for keep = idle
phase_for _ = ready

abbrev pub phase_at_start : Option AppInstanceData → Phase
phase_at_start none = idle
phase_at_start (some i) = phase_for i.next_action

-- A goroutine is started for each instance whose next action is not `None`.
unfoldable pub start : {W : Type 0} → List AppInstanceData → W → Pool W
start instances w = record {
  world = w;
  errors = [];
  done_list = [];
  phase = λ k. phase_at_start (get_elem? instances k);
}

-- What `createUpgradeApps` returns when all goroutines have returned.
unfoldable pub collect : List Bytes → List AppInstance → Outcome Bytes (List AppInstance)
collect [] done_list = ok done_list
collect (e ∷ es) done_list = err e

unfoldable pub create_upgrade_apps :
    {W : Type 0}
    → ApiClient W
    → Bytes
    → List AppInstanceData
    → List ℕ
    → W
    → Outcome Bytes (List AppInstance)
create_upgrade_apps api catalog_id instances schedule w =
    let m = run api catalog_id instances schedule (start instances w) in
    collect m.errors m.done_list
