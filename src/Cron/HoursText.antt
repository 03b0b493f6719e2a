-- ===== src/Cron/HoursText.antt =====
-- The hours field of a cron line: what is printed, and that it is read back.
use grpc_gw_controller.Base.{
  ℕ, ◌^◌, ◌≤◌, ◌<◌, ◌≡◌, refl, ◌≢◌, ◌∙◌, ap, inl, inr, false, List, [], ◌∷◌, ◌++◌, arith, some, All,
  map, ltb, if◌then◌else◌, ◌==◌, get_last?, All-append, Bool-cases, ok,
}
use grpc_gw_controller.Base.Text.{Bytes, bytes, is_space, split, join}
use grpc_gw_controller.Base.Text.Split.{
  Without, split_by-append, split_by_whole, split-join, contains_byte, not-contains_byte,
}
use grpc_gw_controller.Base.Decimal.{decimal, atoi, pos, uint32}
use grpc_gw_controller.Base.Decimal.RoundTrip.{
  decimal-IsDigit, decimal-ne-nil, atoi-decimal, uint32-pos,
}
use grpc_gw_controller.Cron.{CyclePeriodicReqAttr, hours_field, parse_hours}
use grpc_gw_controller.Cron.Hours.{gap, window, hours_from-window, get_last?-window, last_of_gap}
use grpc_gw_controller.Cron.Line.{
  digits-Without_space, digits-Without, decimals-Without, join-Without, join-ne-nil,
}

-- What the request's validation lets through: hours of a day. The interval is a uint32.
pub record IsValid (c : CyclePeriodicReqAttr) : Type 0 where
  pub min_in_day : c.min_start_hour ≤ 23
  pub max_in_day : c.max_start_hour ≤ 23
  pub interval_uint32 : c.interval_min < 2 ^ 32

abbrev pub in_line : CyclePeriodicReqAttr → Bytes
in_line c = decimal c.min_start_hour ++ b'-' ∷ decimal c.max_start_hour

abbrev pub listed : CyclePeriodicReqAttr → List ℕ
listed c = window (gap c.min_start_hour c.max_start_hour) c.min_start_hour

abbrev pub round_midnight : CyclePeriodicReqAttr → Bytes
round_midnight c = join (decimal c.min_start_hour ∷ map decimal (listed c)) (bytes ",")

-- The hours field is a range, or the list of the hours round midnight.
pub hours_text : CyclePeriodicReqAttr → Bytes
hours_text c = if ltb c.max_start_hour c.min_start_hour then round_midnight c else in_line c

read_back : (n : ℕ) → n ≤ 23 → atoi (decimal n) ≡ ok (pos n)
read_back n h = atoi-decimal n (omega arith)

back : (n : ℕ) → n ≤ 23 → uint32 (pos n) ≡ n
back n h = uint32-pos n (omega arith)

split_range :
    (low high : ℕ)
    → split b'-' (decimal low ++ b'-' ∷ decimal high) ≡ decimal low ∷ decimal high ∷ []
split_range low high =
    split_by-append (λ c. c == b'-') (decimal low) b'-' (decimal high)
      (digits-Without b'-' (decimal low) (omega arith) (decimal-IsDigit low)) refl
    ∙ ap (λ (l : List Bytes). decimal low ∷ l)
        (split_by_whole (λ c. c == b'-') (decimal high)
          (digits-Without b'-' (decimal high) (omega arith) (decimal-IsDigit high)))

parse_range :
    (low high : ℕ)
    → low ≤ 23
    → high ≤ 23
    → parse_hours (decimal low ++ b'-' ∷ decimal high) ≡ ok (low, high)
unfolding parse_hours
parse_range low high h k =
    rw
      (
        contains_byte (decimal low) b'-' (decimal high),
        split_range low high,
        read_back low h,
        read_back high k,
        back low h,
        back high k,
      )
      refl

parse_list :
    (low high : ℕ) (ns : List ℕ)
    → low ≤ 23
    → high ≤ 23
    → get_last? (decimal low ∷ map decimal ns) ≡ some (decimal high)
    → parse_hours (join (decimal low ∷ map decimal ns) (bytes ",")) ≡ ok (low, high)
unfolding parse_hours
parse_list low high ns h k e =
    rw
      (
        not-contains_byte (join (decimal low ∷ map decimal ns) (bytes ",")) b'-' (
            join-Without (λ c. c == b'-') b',' (map decimal (low ∷ ns)) refl
              (decimals-Without b'-' (low ∷ ns) (omega arith))),
        split-join b',' (decimal low) (map decimal ns)
            (decimals-Without b',' (low ∷ ns) (omega arith)),
        e,
        read_back low h,
        read_back high k,
        back low h,
        back high k,
      )
      refl

-- The hours field is printed with fuel 24, and is read back as the two hours.
pub hours_field-eq :
    (f : ℕ) (c : CyclePeriodicReqAttr) → 24 ≤ f → IsValid c → hours_field f c ≡ ok (hours_text c)
unfolding hours_field hours_text
hours_field-eq f c enough v = elim (Bool-cases (ltb c.max_start_hour c.min_start_hour)) [
  | inl over ↦
      rw
        (
          over,
          hours_from-window f c.min_start_hour c.max_start_hour v.min_in_day v.max_in_day
              (omega arith),
        )
        refl
  | inr within ↦ rw within refl
]

pub parse_hours-hours_text :
    (c : CyclePeriodicReqAttr)
    → IsValid c
    → parse_hours (hours_text c) ≡ ok (c.min_start_hour, c.max_start_hour)
unfolding hours_text
parse_hours-hours_text c v = elim (Bool-cases (ltb c.max_start_hour c.min_start_hour)) [
  | inl over ↦ rw over (
      parse_list c.min_start_hour c.max_start_hour (listed c) v.min_in_day v.max_in_day (
        get_last?-window (gap c.min_start_hour c.max_start_hour) c.min_start_hour v.min_in_day
        ∙ ap (λ (k : ℕ). some (decimal k))
            (last_of_gap c.min_start_hour c.max_start_hour v.min_in_day v.max_in_day)))
  | inr within ↦ rw within (parse_range c.min_start_hour c.max_start_hour v.min_in_day v.max_in_day)
]

append-ne-nil : (w s : Bytes) → w ≢ [] → w ++ s ≢ []
append-ne-nil [] s h e = h refl
append-ne-nil (c ∷ w) s h e = cc

pub hours_text-ne-nil : (c : CyclePeriodicReqAttr) → hours_text c ≢ []
unfolding hours_text
hours_text-ne-nil c = elim (Bool-cases (ltb c.max_start_hour c.min_start_hour)) [
  | inl over ↦ rw over (
      join-ne-nil (decimal c.min_start_hour) (map decimal (listed c)) (bytes ",")
        (decimal-ne-nil c.min_start_hour))
  | inr within ↦
      rw within (append-ne-nil (decimal c.min_start_hour) _ (decimal-ne-nil c.min_start_hour))
]

decimals-Without_space : (ns : List ℕ) → All (Without is_space) (map decimal ns)
decimals-Without_space [] = tt
decimals-Without_space (n ∷ ns) =
    (digits-Without_space (decimal n) (decimal-IsDigit n), decimals-Without_space ns)

pub hours_text-Without_space : (c : CyclePeriodicReqAttr) → Without is_space (hours_text c)
unfolding hours_text
hours_text-Without_space c = elim (Bool-cases (ltb c.max_start_hour c.min_start_hour)) [
  | inl over ↦ rw over (
      join-Without is_space b',' (map decimal (c.min_start_hour ∷ listed c)) refl
        (decimals-Without_space (c.min_start_hour ∷ listed c)))
  | inr within ↦ rw within (
      All-append (λ d. is_space d ≡ false) (decimal c.min_start_hour) _
        (digits-Without_space _ (decimal-IsDigit c.min_start_hour))
        (refl, digits-Without_space _ (decimal-IsDigit c.max_start_hour)))
]
