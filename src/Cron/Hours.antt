-- ===== src/Cron/Hours.antt =====
-- The loop over the start hours of `PeriodicToCronString`: when it ends, and when it cannot.
use grpc_gw_controller.Base.{
  map, ap, ◌∙◌, ℕ, zero, suc, ◌+◌, ◌-◌, ◌%◌, ◌^◌, ◌≤◌, ◌<◌, ◌≡◌, refl, ◌≢◌, ◌⊎◌, inl, inr, List, [],
  ◌∷◌, arith, ok, err, ◌==◌, Bool-cases, ==_iff, get_last?, some,
}
use grpc_gw_controller.Base.Decimal.{decimal}
use grpc_gw_controller.Cron.{no_fuel, next_hour, hours_from}

-- The rounds from `next` to `last` over a clock of 24 hours.
abbrev pub gap : ℕ → ℕ → ℕ
gap next last = (last + 24 - next) % 24

gap_self : (next last : ℕ) → next ≡ last → last ≤ 23 → gap next last ≡ 0
gap_self next last e h = omega arith

next_hour_in_day : (next : ℕ) → next ≤ 23 → next_hour next ≤ 23
unfolding next_hour
next_hour_in_day next h = ground arith

gap-next_hour :
    (next last : ℕ)
    → next ≤ 23
    → last ≤ 23
    → next ≢ last
    → gap (next_hour next) last + 1 ≡ gap next last
unfolding next_hour
gap-next_hour next last h k n = ground arith

-- The `n` hours after `h` on a clock of 24 hours.
abbrev pub window : ℕ → ℕ → List ℕ
window zero h = []
window (suc n) h = ((h + 1) % 24) ∷ window n ((h + 1) % 24)

next_hour-mod : (next : ℕ) → next ≤ 23 → next_hour next ≡ (next + 1) % 24
unfolding next_hour
next_hour-mod next h = ground arith

-- Within a day the loop ends: it appends the hours after `next`, up to `last`.
pub hours_from-window :
    (f next last : ℕ)
    → next ≤ 23
    → last ≤ 23
    → gap next last < f
    → hours_from f next last ≡ ok (map decimal (window (gap next last) next))
unfolding hours_from
hours_from-window zero next last h k g = elim g [ ]
hours_from-window (suc f) next last h k g = elim (Bool-cases (next == last)) [
  | inl e ↦ rw (e, gap_self next last ((==_iff next last).0 e) k) refl
  | inr e ↦
      let n : ¬ (next ≡ last) = λ q. ground arith in
      let shorter : gap next last ≡ suc (gap (next_hour next) last) =
        omega (arith, gap-next_hour next last h k n) in
      let ih : hours_from f (next_hour next) last
          ≡ ok (map decimal (window (gap (next_hour next) last) (next_hour next))) =
        hours_from-window f (next_hour next) last (next_hour_in_day next h) k (omega arith) in
      rw (e, ih, shorter, next_hour-mod next h) refl
]

pub get_last?-window :
    (n next : ℕ)
    → next ≤ 23
    → get_last? (decimal next ∷ map decimal (window n next)) ≡ some (decimal ((next + n) % 24))
get_last?-window zero next h = ap (λ (k : ℕ). some (decimal k)) (omega arith)
get_last?-window (suc n) next h =
    get_last?-window n ((next + 1) % 24) (omega arith)
    ∙ ap (λ (k : ℕ). some (decimal k)) (omega arith)

pub last_of_gap : (next last : ℕ) → next ≤ 23 → last ≤ 23 → (next + gap next last) % 24 ≡ last
last_of_gap next last h k = omega arith

-- The states that never meet `last`: a day's hour, or an hour above `last`.
abbrev Stray : ℕ → ℕ → Type 0
Stray last next = (next ≤ 23) ⊎ ((last < next) × (next < 2 ^ 32))

next_hour-Stray : (last next : ℕ) → 24 ≤ last → Stray last next → Stray last (next_hour next)
unfolding next_hour
next_hour-Stray last next h s = ground arith

pub hours_from-Stray :
    (f next last : ℕ) → 24 ≤ last → Stray last next → hours_from f next last ≡ err no_fuel
unfolding hours_from
hours_from-Stray zero next last h s = refl
hours_from-Stray (suc f) next last h s =
    ground (arith, hours_from-Stray f (next_hour next) last h, next_hour-Stray last next h s)
