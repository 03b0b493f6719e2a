-- ===== src/Workers/Tests.antt =====
-- Runs of the goroutines over two instances, and the theorems about them there.
use grpc_gw_controller.Base.{ℕ, ◌+◌, none, some, List, [], ◌∷◌, All, ◌≡◌, ◌≢◌, refl, ok, err}
use grpc_gw_controller.Base.Text.{Bytes, bytes}
use grpc_gw_controller.Apps.{AppInstanceData, zero_instance, create, recreate}
use grpc_gw_controller.Workers.{
  generate_proto_data, ApiClient, reported_error, run, start, step, first_call, collect,
  create_upgrade_apps,
}
use grpc_gw_controller.Workers.Results.{HasWorker}
use grpc_gw_controller.Workers.Report.{create_upgrade_apps-report}
use grpc_gw_controller.Workers.Lost.{create_upgrade_apps-loses}

-- A server that counts its calls and does all but delete.
abbrev server : ApiClient ℕ
server = record {
  create_app_instance = λ i v w. (none, w + 1);
  upgrade_app_instance = λ i w. (none, w + 1);
  delete_app_instance = λ i v w. (some (bytes "no"), w + 1);
}

abbrev first : AppInstanceData
first = record zero_instance { instance_name = bytes "first"; next_action = create }

abbrev second : AppInstanceData
second = record zero_instance { instance_name = bytes "second"; next_action = create }

abbrev replaced : AppInstanceData
replaced = record zero_instance { instance_name = bytes "third"; next_action = recreate }

abbrev in_turn : List ℕ
in_turn = 0 ∷ 0 ∷ 0 ∷ 0 ∷ 1 ∷ 1 ∷ 1 ∷ 1 ∷ []

in_turn_runs :
    create_upgrade_apps server [] (first ∷ second ∷ []) in_turn 0
    ≡ ok (generate_proto_data first [] ∷ generate_proto_data second [] ∷ [])
unfolding create_upgrade_apps run step start first_call collect
in_turn_runs = refl

failure_runs : create_upgrade_apps server [] (first ∷ replaced ∷ []) in_turn 0 ≡ err (bytes "no")
unfolding create_upgrade_apps run step start first_call collect
failure_runs = refl

create_upgrade_apps-report_example :
    let m = run server [] (first ∷ replaced ∷ []) in_turn (start (first ∷ replaced ∷ []) 0) in
    (((k : ℕ) → m.phase k ≢ reported_error)
      → create_upgrade_apps server [] (first ∷ replaced ∷ []) in_turn 0 ≡ ok m.done_list)
    × ((k : ℕ)
        → m.phase k ≡ reported_error
        → (e : Bytes) × (create_upgrade_apps server [] (first ∷ replaced ∷ []) in_turn 0 ≡ err e))
    × All (HasWorker server [] (first ∷ replaced ∷ []) m.phase) m.done_list
create_upgrade_apps-report_example =
    create_upgrade_apps-report server [] (first ∷ replaced ∷ []) in_turn 0

create_upgrade_apps-loses_example :
    create_upgrade_apps server [] (first ∷ second ∷ []) (0 ∷ 1 ∷ 0 ∷ 1 ∷ 0 ∷ 1 ∷ []) 0
    ≡ ok (generate_proto_data second [] ∷ [])
create_upgrade_apps-loses_example =
    create_upgrade_apps-loses server [] first second 0 refl refl refl refl
