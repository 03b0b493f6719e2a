-- ===== src/Adapter/Deletion.antt =====
-- `deleteApps` of app/grpc/appmanager/adapters/rancher/handle_appsdata.go, which deletes the instances of
-- an application in goroutines. They share the slices of the
-- errors and of what is done; an `append` reads the slice and then writes it. The turns of the
-- goroutines are a list.
use grpc_gw_controller.Base.{
  ℕ, Option, none, some, Bool, true, false, List, [], ◌∷◌, ◌++◌, Outcome, ok, err, if◌then◌else◌,
  ◌==◌, bytes_eq, string_eq, length, get_elem?,
}
use grpc_gw_controller.Base.Text.{Bytes}
use grpc_gw_controller.Base.Turns.{turns}
use grpc_gw_controller.Apps.{AppInstanceData, NextAction, delete}
use grpc_gw_controller.Apps.Running.{RancherApp}
use grpc_gw_controller.Workers.{AppInstance, generate_proto_data}

-- The calls outside: the caches, the catalog, the list of applications, the functions of the package
-- apiclient, `DeleteChart` of the package chartutils, and `os.RemoveAll` and `filepath.Join`.
pub record DeleteClient (W : Type 0) : Type 0 where
  pub sync_cache : W → Option Bytes × W
  pub refresh_catalog : W → Option Bytes × W
  pub list_apps : W → Outcome Bytes (List RancherApp) × W
  pub delete_app_instance : AppInstanceData → Bytes → W → Option Bytes × W
  pub delete_chart : Bytes → Bytes → Bytes → W → Option Bytes × W
  pub remove_all : Bytes → W → W
  pub push : Bytes → Bytes → W → Option Bytes × W
  pub delete_storage : Bytes → Bytes → W → Option Bytes × W
  pub delete_namespace : Bytes → W → Option Bytes × W
  pub join_path : List Bytes → Bytes

-- The settings: the name of the catalog of applications, the path of its cache, and whether charts are
-- always purged.
pub record Settings : Type 0 where
  pub apps_catalog_name : Bytes
  pub repo_path : Bytes
  pub purge_app_metadata : Bool

-- Where a goroutine stands.
pub data Phase : Type 0 where
  ready purging : Phase
  failed chart_failed : Bytes → Phase
  failed_read chart_failed_read : Bytes → List Bytes → Phase
  done : Phase
  done_read : List AppInstance → Phase
  checking returned : Phase

pub record Pool (W : Type 0) : Type 0 where
  pub world : W
  pub errors : List Bytes
  pub done_list : List AppInstance
  pub phase : ℕ → Phase

abbrev pub set_phase : ℕ → Phase → (ℕ → Phase) → ℕ → Phase
set_phase i p phase j = if j == i then p else phase j

abbrev pub after_delete_call : Bool → Option Bytes → Phase
after_delete_call purge (some e) = failed e
after_delete_call true none = purging
after_delete_call false none = done

abbrev pub after_chart_call : Option Bytes → Phase
after_chart_call none = done
after_chart_call (some e) = chart_failed e

module _ {W : Type 0} (client : DeleteClient W) (settings : Settings) (app_name : Bytes)
    (purge : Bool) (app_instances : List AppInstanceData) where
  unfoldable pub chart_path : AppInstanceData → Bytes
  chart_path i =
      let root = client.join_path (settings.repo_path ∷ app_name ∷ []) in
      let path = client.join_path (root ∷ i.instance_name ∷ []) in
      if bytes_eq i.requested_version []
      then path
      else client.join_path (path ∷ i.requested_version ∷ [])

  -- The catalog of the chart is named where the chart is deleted too.
  abbrev pub catalog_shown : Bytes
  catalog_shown = if purge then settings.apps_catalog_name else []

  abbrev pub after_done : Phase
  after_done = if purge then checking else returned

  unfoldable pub step : ℕ → AppInstanceData → Phase → Pool W → Pool W
  step k i ready m =
      let r =
        client.delete_app_instance (record i { delete_instance_storage = true }) i.current_version
          m.world in
      record m { world = r.1; phase = set_phase k (after_delete_call purge r.0) m.phase }
  step k i purging m =
      let r = client.delete_chart (chart_path i) i.instance_name i.requested_version m.world in
      record m { world = r.1; phase = set_phase k (after_chart_call r.0) m.phase }
  step k i (failed e) m = record m { phase = set_phase k (failed_read e m.errors) m.phase }
  step k i (failed_read e es) m = record m {
    errors = es ++ e ∷ [];
    phase = set_phase k returned m.phase;
  }
  step k i (chart_failed e) m = record m {
    phase = set_phase k (chart_failed_read e m.errors) m.phase;
  }
  step k i (chart_failed_read e es) m = record m {
    errors = es ++ e ∷ [];
    phase = set_phase k done m.phase;
  }
  step k i done m = record m { phase = set_phase k (done_read m.done_list) m.phase }
  step k i (done_read l) m = record m {
    done_list =
        l ++ generate_proto_data (record i { delete_instance_storage = true }) catalog_shown ∷ [];
    phase = set_phase k after_done m.phase;
  }
  step k i checking m =
      let all_done = length m.done_list == length app_instances in
      record m {
        world =
            if all_done
            then client.remove_all (client.join_path (settings.repo_path ∷ app_name ∷ [])) m.world
            else m.world;
        phase = set_phase k returned m.phase;
      }
  step k i returned m = m

  abbrev pub step_at : ℕ → Option AppInstanceData → Pool W → Pool W
  step_at k none m = m
  step_at k (some i) m = step k i (m.phase k) m

  abbrev pub turn : ℕ → Pool W → Pool W
  turn k m = step_at k (get_elem? app_instances k) m

  -- The `switch` has one case; an instance with any other action is left alone.
  abbrev phase_for : NextAction → Phase
  phase_for delete = ready
  phase_for _ = returned

  abbrev pub phase_at_start : Option AppInstanceData → Phase
  phase_at_start none = returned
  phase_at_start (some i) = phase_for i.next_action

  unfoldable pub start : W → Pool W
  start w = record {
    world = w;
    errors = [];
    done_list = [];
    phase = λ k. phase_at_start (get_elem? app_instances k);
  }

  abbrev pub collect : List Bytes → List AppInstance → Outcome Bytes (List AppInstance)
  collect [] done_list = ok done_list
  collect (e ∷ es) done_list = err e

  -- What `deleteApps` returns once the turns of the schedule are over.
  unfoldable pub delete_instances : List ℕ → W → Outcome Bytes (List AppInstance) × W
  delete_instances schedule w =
      let m = turns turn schedule (start w) in (collect m.errors m.done_list, m.world)
