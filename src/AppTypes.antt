-- ===== src/AppTypes.antt =====
-- app/grpc/appmanager/common/common.go: the cycles that requests name, and the kinds of Kubernetes
-- objects.
mod Tests
use grpc_gw_controller.Base.{
  Bool, true, false, ◌||◌, ◌++◌, List, [], Outcome, ok, err, if◌then◌else◌, bytes_eq, bytes_eq_iff,
  ◌≡◌, ◌≢◌, refl, Bool-cases, inl, inr, ◌⊎◌,
}
use grpc_gw_controller.Base.Text.{Bytes, bytes}

abbrev pub type_periodic : Bytes
type_periodic = bytes "periodic"

abbrev pub type_daemon : Bytes
type_daemon = bytes "daemon"

abbrev pub type_run_once : Bytes
type_run_once = bytes "run_once"

abbrev pub type_deployment : Bytes
type_deployment = bytes "deployment"

abbrev pub type_cron_job : Bytes
type_cron_job = bytes "cronJob"

abbrev pub type_job : Bytes
type_job = bytes "job"

-- `case a, b:` of a `switch` over `t`.
abbrev pub either : Bytes → Bytes → Bytes → Bool
either a b t = bytes_eq t a || bytes_eq t b

unfoldable pub app_type_to_app_cycle : Bytes → Outcome Bytes Bytes
app_type_to_app_cycle app_type =
    if either type_periodic type_cron_job app_type
    then ok type_periodic
    else if either type_daemon type_deployment app_type
    then ok type_daemon
    else if either type_run_once type_job app_type
    then ok type_run_once
    else err (bytes "unsupported Application type: " ++ app_type)

-- The error prints the type, which is empty then.
unfoldable pub app_cycle_to_app_type : Bytes → Outcome Bytes Bytes
app_cycle_to_app_type app_cycle =
    if either type_periodic type_cron_job app_cycle
    then ok type_cron_job
    else if either type_daemon type_deployment app_cycle
    then ok type_deployment
    else if either type_run_once type_job app_cycle
    then ok type_job
    else err (bytes "unsupported Application type: " ++ [])

-- A text that one conversion accepts the other accepts too. The type and the cycle that it is
-- converted to are then converted to each other. The error for a cycle does not name it, that for a
-- type does.
app_type_to_app_cycle-app_cycle_to_app_type :
    (t : Bytes)
    → ((a : Bytes) × (c : Bytes) × (app_cycle_to_app_type t ≡ ok a)
        × (app_type_to_app_cycle t ≡ ok c)
        × (app_type_to_app_cycle a ≡ ok c)
        × (app_cycle_to_app_type c ≡ ok a))
      ⊎ ((app_cycle_to_app_type t ≡ err (bytes "unsupported Application type: "))
          × (app_type_to_app_cycle t ≡ err (bytes "unsupported Application type: " ++ t)))
unfolding app_cycle_to_app_type app_type_to_app_cycle bytes_eq
app_type_to_app_cycle-app_cycle_to_app_type t =
    elim (Bool-cases (either type_periodic type_cron_job t)) [
      | inl e ↦ inl (type_cron_job, type_periodic, rw e refl, rw e refl, refl, refl)
      | inr e ↦ elim (Bool-cases (either type_daemon type_deployment t)) [
        | inl f ↦ inl (type_deployment, type_daemon, rw (e, f) refl, rw (e, f) refl, refl, refl)
        | inr f ↦ elim (Bool-cases (either type_run_once type_job t)) [
          | inl g ↦ inl (type_job, type_run_once, rw (e, f, g) refl, rw (e, f, g) refl, refl, refl)
          | inr g ↦ inr (rw (e, f, g) refl, rw (e, f, g) refl)
        ]
      ]
    ]
