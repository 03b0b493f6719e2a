-- ===== src/AppTypes/Tests.antt =====
-- Runs of the conversions of types and cycles.
use grpc_gw_controller.Base.{ok, ◌≡◌, refl, bytes_eq}
use grpc_gw_controller.Base.Text.{bytes}
use grpc_gw_controller.AppTypes.{app_type_to_app_cycle, app_cycle_to_app_type}

cycle_runs : app_cycle_to_app_type (bytes "periodic") ≡ ok (bytes "cronJob")
unfolding app_cycle_to_app_type bytes_eq
cycle_runs = refl

type_runs : app_type_to_app_cycle (bytes "cronJob") ≡ ok (bytes "periodic")
unfolding app_type_to_app_cycle bytes_eq
type_runs = refl
