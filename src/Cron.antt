-- ===== src/Cron.antt =====
-- app/grpc/appmanager/common/common.go: the cron strings of periodic applications,
-- `PeriodicToCronString` and `CronStringToCyclePeriodicRespAttr`.
pub mod Hours
pub mod Line
pub mod HoursText
pub mod RoundTrip
mod Tests
use grpc_gw_controller.Base.{
  ℕ, zero, suc, ◌+◌, ◌%◌, ◌^◌, ◌≡◌, refl, Bool, true, false, Option, none, some, List, [], ◌∷◌,
  ◌++◌, bytes_eq, Outcome, ok, err, panic, ◌>>=◌, index, if◌then◌else◌, ltb, ◌==◌, get_elem?,
  get_last?, map,
}
use grpc_gw_controller.Base.Text.{Bytes, bytes, split, fields, join, contains}
use grpc_gw_controller.Base.Decimal.{decimal, atoi, uint32, ParseError}

pub record Sched : Type 0 where
  pub sunday : Bool
  pub monday : Bool
  pub tuesday : Bool
  pub wednesday : Bool
  pub thursday : Bool
  pub friday : Bool
  pub saturday : Bool

-- The hours and the interval are uint32. A nil `WorkingDays` is `none`.
pub record CyclePeriodicReqAttr : Type 0 where
  pub working_days : Option Sched
  pub min_start_hour : ℕ
  pub max_start_hour : ℕ
  pub interval_min : ℕ

pub record CyclePeriodicRespAttr : Type 0 where
  pub working_days : List Bytes
  pub min_start_hour : ℕ
  pub max_start_hour : ℕ
  pub interval_min : ℕ

-- The loop over the hours is still running when its fuel is used up.
pub data NoFuel : Type 0 where
  no_fuel : NoFuel

-- The next hour: midnight after 23, and else one more in uint32.
unfoldable pub next_hour : ℕ → ℕ
next_hour next = if next == 23 then 0 else (next + 1) % 2 ^ 32

-- The hours that the loop appends from `next` on.
unfoldable pub hours_from : ℕ → ℕ → ℕ → Outcome NoFuel (List Bytes)
hours_from zero next last = err no_fuel
hours_from (suc f) next last =
    let rest = (do l ← hours_from f (next_hour next) last; ok (decimal (next_hour next) ∷ l)) in
    if next == last then ok [] else rest

-- The getters of a nil `Sched` return false.
unfoldable pub get_working_days : Option Sched → Sched
get_working_days (some d) = d
get_working_days none = record {
  sunday = false;
  monday = false;
  tuesday = false;
  wednesday = false;
  thursday = false;
  friday = false;
  saturday = false;
}

abbrev pub flag : Bool → Bytes → List Bytes → List Bytes
flag true d ds = d ∷ ds
flag false d ds = ds

unfoldable pub week_days : Sched → List Bytes
week_days d = flag d.sunday (bytes "0") (
    flag d.monday (bytes "1") (
      flag d.tuesday (bytes "2") (
        flag d.wednesday (bytes "3") (
          flag d.thursday (bytes "4")
            (flag d.friday (bytes "5") (flag d.saturday (bytes "6") []))))))

unfoldable pub hours_field : ℕ → CyclePeriodicReqAttr → Outcome NoFuel Bytes
hours_field f c =
    if ltb c.max_start_hour c.min_start_hour
    then (do
      l ← hours_from f c.min_start_hour c.max_start_hour
      ok (join (decimal c.min_start_hour ∷ l) (bytes ",")))
    else ok (decimal c.min_start_hour ++ b'-' ∷ decimal c.max_start_hour)

-- The five fields of the cron string.
unfoldable pub cron_line : ℕ → Bytes → Bytes → Bytes
cron_line interval hours days =
    bytes "*/" ++ (decimal interval ++ (b' ' ∷ (hours ++ (bytes " * * " ++ days))))

-- A nil attribute is dereferenced.
unfoldable pub periodic_to_cron_string : ℕ → Option CyclePeriodicReqAttr → Outcome NoFuel Bytes
periodic_to_cron_string f none = panic
periodic_to_cron_string f (some c) = do
  hours ← hours_field f c
  ok (
      cron_line c.interval_min hours
        (join (week_days (get_working_days c.working_days)) (bytes ",")))

-- Texts that name no day are passed over.
unfoldable pub day_name : Bytes → List Bytes
day_name d =
    if bytes_eq d (bytes "0")
    then bytes "Sunday" ∷ []
    else if bytes_eq d (bytes "1")
    then bytes "Monday" ∷ []
    else if bytes_eq d (bytes "2")
    then bytes "Tuesday" ∷ []
    else if bytes_eq d (bytes "3")
    then bytes "Wednesday" ∷ []
    else if bytes_eq d (bytes "4")
    then bytes "Thursday" ∷ []
    else if bytes_eq d (bytes "5")
    then bytes "Friday" ∷ []
    else if bytes_eq d (bytes "6")
    then bytes "Saturday" ∷ []
    else []

unfoldable pub day_names : List Bytes → List Bytes
unfolding day_name bytes_eq
day_names [] = []
day_names (d ∷ ds) = day_name d ++ day_names ds

unfoldable pub parse_hours : Bytes → Outcome ParseError (ℕ × ℕ)
parse_hours f =
    if contains f (bytes "-")
    then (do
      first ← index (get_elem? (split b'-' f) 0)
      low ← atoi first
      second ← index (get_elem? (split b'-' f) 1)
      high ← atoi second
      ok (uint32 low, uint32 high))
    else do
      first ← index (get_elem? (split b',' f) 0)
      low ← atoi first
      last ← index (get_last? (split b',' f))
      high ← atoi last
      ok (uint32 low, uint32 high)

-- `f[0]`, `f[1]`, `f[4]` and the second part of `f[0]` are indexed with no test.
unfoldable pub cron_string_to_cycle_periodic_resp_attr :
    Bytes → Outcome ParseError CyclePeriodicRespAttr
cron_string_to_cycle_periodic_resp_attr cron = do
  interval ← index (get_elem? (fields cron) 0)
  part ← index (get_elem? (split b'/' interval) 1)
  minutes ← atoi part
  range ← index (get_elem? (fields cron) 1)
  hours ← parse_hours range
  days ← index (get_elem? (fields cron) 4)
  ok (record {
    working_days = day_names (split b',' days);
    min_start_hour = hours.0;
    max_start_hour = hours.1;
    interval_min = uint32 minutes;
  })
