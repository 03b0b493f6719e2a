-- ===== src/Cron/Tests.antt =====
-- Runs of the cron functions, and the theorems at concrete attributes.
use grpc_gw_controller.Base.{
  ◌≡◌, refl, ◌≢◌, true, false, some, none, [], ◌∷◌, arith, ok, err, panic, bytes_eq,
}
use grpc_gw_controller.Base.Text.{Bytes, bytes, fields, join, contains, has_prefix}
use grpc_gw_controller.Base.Decimal.{atoi, decimal, uint32}
use grpc_gw_controller.Cron.{
  Sched, CyclePeriodicReqAttr, no_fuel, hours_field, hours_from, next_hour, get_working_days,
  week_days, cron_line, periodic_to_cron_string, parse_hours, day_names, day_name,
  cron_string_to_cycle_periodic_resp_attr,
}
use grpc_gw_controller.Cron.HoursText.{IsValid}
use grpc_gw_controller.Cron.Line.{chosen_days}
use grpc_gw_controller.Cron.RoundTrip.{periodic_round_trip, no_days_panic, hours_never_end}

abbrev sundays : Sched
sundays = record {
  sunday = true;
  monday = false;
  tuesday = false;
  wednesday = false;
  thursday = false;
  friday = false;
  saturday = false;
}

abbrev night : CyclePeriodicReqAttr
night = record {
  working_days = some sundays;
  min_start_hour = 22;
  max_start_hour = 1;
  interval_min = 10;
}

abbrev dayless : CyclePeriodicReqAttr
dayless = record night { working_days = none }

abbrev astray : CyclePeriodicReqAttr
astray = record night { min_start_hour = 30; max_start_hour = 24 }

night-IsValid : IsValid night
night-IsValid = omega arith

night_runs : periodic_to_cron_string 24 (some night) ≡ ok (bytes "*/10 22,23,0,1 * * 0")
unfolding periodic_to_cron_string hours_field hours_from next_hour get_working_days week_days
    cron_line join decimal
night_runs = refl

parser_runs :
    cron_string_to_cycle_periodic_resp_attr (bytes "*/1 23,0,1,2,3,4,5,6 * * 0")
    ≡ ok (record {
      working_days = bytes "Sunday" ∷ [];
      min_start_hour = 23;
      max_start_hour = 6;
      interval_min = 1;
    })
unfolding cron_string_to_cycle_periodic_resp_attr parse_hours day_names day_name fields contains
    atoi uint32 bytes_eq has_prefix
parser_runs = refl

some_day : week_days (get_working_days night.working_days) ≢ []
unfolding week_days get_working_days
some_day e = cc

no_day : week_days (get_working_days dayless.working_days) ≡ []
unfolding week_days get_working_days
no_day = refl

periodic_round_trip_example :
    (s : Bytes) × (periodic_to_cron_string 24 (some night) ≡ ok s)
    × (cron_string_to_cycle_periodic_resp_attr s
        ≡ ok (record {
          working_days = chosen_days (get_working_days night.working_days);
          min_start_hour = 22;
          max_start_hour = 1;
          interval_min = 10;
        }))
periodic_round_trip_example = periodic_round_trip 24 night (omega arith) night-IsValid some_day

no_days_panic_example :
    (s : Bytes) × (periodic_to_cron_string 24 (some dayless) ≡ ok s)
    × (cron_string_to_cycle_periodic_resp_attr s ≡ panic)
no_days_panic_example = no_days_panic 24 dayless (omega arith) (omega arith) no_day

hours_never_end_example : periodic_to_cron_string 1000 (some astray) ≡ err no_fuel
hours_never_end_example = hours_never_end 1000 astray (omega arith) (omega arith) (omega arith)
