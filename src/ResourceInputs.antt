-- ===== src/ResourceInputs.antt =====
-- app/grpc/common/resourcemgr/common.go: `ValidateInputs`.
use grpc_gw_controller.Base.{ℕ, Option, none, some, ◌++◌, ltb, if◌then◌else◌, ◌&&◌}
use grpc_gw_controller.Base.Text.{Bytes, bytes}
use grpc_gw_controller.Base.Decimal.{decimal}
use grpc_gw_controller.Base.Float.{Float64}

module _ {F : Type 0} (fl : Float64 F) where
  -- The float 0.
  abbrev pub float_zero : F
  float_zero = fl.scaled 0 0

  -- A limit of 0 stands for none.
  unfoldable pub validate_inputs : F → F → ℕ → ℕ → Option Bytes
  validate_inputs cpu default_cpu memory default_mem =
      if fl.lt float_zero cpu && fl.lt cpu default_cpu
      then some (
          bytes "requested CPU limit value: "
          ++ (fl.print_f cpu
              ++ (bytes ".The value must be greater than " ++ fl.print_f default_cpu)))
      else if ltb 0 memory && ltb memory default_mem
      then some (
          bytes "requested memory value: "
          ++ (decimal memory ++ (bytes ".The value must be greater than " ++ decimal default_mem)))
      else none
