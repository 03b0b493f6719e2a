-- ===== src/Cron/RoundTrip.antt =====
-- The cron string of a periodic application, parsed back.
use grpc_gw_controller.Base.{
  ℕ, ◌^◌, ◌≤◌, ◌<◌, ◌≡◌, refl, ◌≢◌, ◌∙◌, ap, inr, Bool, List, [], ◌∷◌, ◌++◌, arith, some, All,
  All-map, ◌==◌, lt→ltb, ok, err, panic,
}
use grpc_gw_controller.Base.Text.{Bytes, bytes, is_space, split, join}
use grpc_gw_controller.Base.Text.Split.{Without, split_by-append, split_by_whole, split-join}
use grpc_gw_controller.Base.Decimal.{decimal}
use grpc_gw_controller.Base.Decimal.RoundTrip.{decimal-IsDigit, atoi-decimal, uint32-pos}
use grpc_gw_controller.Cron.{
  CyclePeriodicReqAttr, no_fuel, hours_field, get_working_days, week_days, cron_line,
  periodic_to_cron_string, cron_string_to_cycle_periodic_resp_attr,
}
use grpc_gw_controller.Cron.Hours.{hours_from-Stray}
use grpc_gw_controller.Cron.HoursText.{
  IsValid, hours_text, hours_field-eq, parse_hours-hours_text, hours_text-ne-nil,
  hours_text-Without_space,
}
use grpc_gw_controller.Cron.Line.{
  digits-Without_space, digits-Without, join-Without, join-ne-nil, IsDay, fields-cron_line,
  fields-cron_line_no_days, chosen_days, day_names-week_days, week_days-IsDay,
}

abbrev days_of : CyclePeriodicReqAttr → List Bytes
days_of c = week_days (get_working_days c.working_days)

days_text : CyclePeriodicReqAttr → Bytes
days_text c = join (days_of c) (bytes ",")

days-All :
    (test : ℕ → Bool) (ws : List Bytes)
    → ((w : Bytes) → IsDay w → Without test w)
    → All IsDay ws
    → All (Without test) ws
days-All test ws f h = All-map IsDay (Without test) f ws h

-- The days field is split into the days again, if there is one.
split-days : (ws : List Bytes) → ws ≢ [] → All IsDay ws → split b',' (join ws (bytes ",")) ≡ ws
split-days [] e h = absurd (e refl)
split-days (w ∷ ws) e h =
    split-join b',' w ws
      (days-All (λ c. c == b',') (w ∷ ws) (λ v d. digits-Without b',' v (omega arith) d.0) h)

join-days-ne-nil : (ws : List Bytes) → ws ≢ [] → All IsDay ws → join ws (bytes ",") ≢ []
join-days-ne-nil [] e h = absurd (e refl)
join-days-ne-nil (w ∷ ws) e h = join-ne-nil w ws (bytes ",") h.0.1

join-days-Without_space : (ws : List Bytes) → All IsDay ws → Without is_space (join ws (bytes ","))
join-days-Without_space ws h =
    join-Without is_space b',' ws refl (days-All is_space ws (λ v d. digits-Without_space v d.0) h)

interval_part : (n : ℕ) → split b'/' (bytes "*/" ++ decimal n) ≡ bytes "*" ∷ decimal n ∷ []
interval_part n =
    split_by-append (λ c. c == b'/') (bytes "*") b'/' (decimal n) (refl, tt) refl
    ∙ ap (λ (l : List Bytes). bytes "*" ∷ l)
        (split_by_whole (λ c. c == b'/') (decimal n)
          (digits-Without b'/' (decimal n) (omega arith) (decimal-IsDigit n)))

-- For hours of a day and at least one working day, the cron string is produced with fuel 24, and
-- the parser reads back the interval, both hours and the names of the days.
pub periodic_round_trip :
    (f : ℕ) (c : CyclePeriodicReqAttr)
    → 24 ≤ f
    → IsValid c
    → week_days (get_working_days c.working_days) ≢ []
    → (s : Bytes) × (periodic_to_cron_string f (some c) ≡ ok s)
      × (cron_string_to_cycle_periodic_resp_attr s
          ≡ ok (record {
            working_days = chosen_days (get_working_days c.working_days);
            min_start_hour = c.min_start_hour;
            max_start_hour = c.max_start_hour;
            interval_min = c.interval_min;
          }))
unfolding periodic_to_cron_string cron_string_to_cycle_periodic_resp_attr days_text
periodic_round_trip f c enough v some_day = (
  cron_line c.interval_min (hours_text c) (days_text c),
  rw (hours_field-eq f c enough v) refl,
  rw
      (
        fields-cron_line c.interval_min (hours_text c) (days_text c) (hours_text-ne-nil c)
            (hours_text-Without_space c) (join-days-ne-nil (days_of c) some_day days)
            (join-days-Without_space (days_of c) days),
        interval_part c.interval_min,
        atoi-decimal c.interval_min (omega (arith, v.interval_uint32)),
        parse_hours-hours_text c v,
        split-days (days_of c) some_day days,
        day_names-week_days (get_working_days c.working_days),
        uint32-pos c.interval_min v.interval_uint32,
      )
      refl,
)
  where
    days : All IsDay (days_of c)
    days = week_days-IsDay (get_working_days c.working_days)

-- With no working day the string is produced all the same, and the parser panics on it.
pub no_days_panic :
    (f : ℕ) (c : CyclePeriodicReqAttr)
    → 24 ≤ f
    → IsValid c
    → week_days (get_working_days c.working_days) ≡ []
    → (s : Bytes) × (periodic_to_cron_string f (some c) ≡ ok s)
      × (cron_string_to_cycle_periodic_resp_attr s ≡ panic)
unfolding periodic_to_cron_string cron_string_to_cycle_periodic_resp_attr join
no_days_panic f c enough v no_day = (
  cron_line c.interval_min (hours_text c) [],
  rw (hours_field-eq f c enough v, no_day) refl,
  rw
      (
        fields-cron_line_no_days c.interval_min (hours_text c) (hours_text-ne-nil c)
            (hours_text-Without_space c),
        interval_part c.interval_min,
        atoi-decimal c.interval_min (omega (arith, v.interval_uint32)),
        parse_hours-hours_text c v,
      )
      refl,
)

-- Where both hours lie past the day and the first is the later, no fuel is enough: the loop over
-- the hours never ends.
pub hours_never_end :
    (f : ℕ) (c : CyclePeriodicReqAttr)
    → 24 ≤ c.max_start_hour
    → c.max_start_hour < c.min_start_hour
    → c.min_start_hour < 2 ^ 32
    → periodic_to_cron_string f (some c) ≡ err no_fuel
unfolding periodic_to_cron_string hours_field
hours_never_end f c past over fits =
    rw
      (
        lt→ltb c.max_start_hour c.min_start_hour over,
        hours_from-Stray f c.min_start_hour c.max_start_hour past (inr (over, fits)),
      )
      refl
