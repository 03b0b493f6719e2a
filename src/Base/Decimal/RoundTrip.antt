-- ===== src/Base/Decimal/RoundTrip.antt =====
-- Reading back a printed number.
use Prim.Native.Nat.{ℕ, zero, suc, ◌+◌, ◌-◌, ◌*◌, ◌/◌, ◌%◌, ◌^◌, ◌≤◌, ◌<◌}
use mathlib.Core.Path.{◌≡◌, refl, ◌∙◌, ap}
use mathlib.Core.Logic.{◌≢◌, inl, inr}
use mathlib.Core.List.{[], ◌∷◌, ◌++◌}
use native.Mathlib.Omega.{arith}
use grpc_gw_controller.Base.Tests.{ltb, Bool-cases, ltb-false→le}
use grpc_gw_controller.Base.Lists.{All, All-append}
use grpc_gw_controller.Base.Go.{ok}
use grpc_gw_controller.Base.Text.{Bytes}
use grpc_gw_controller.Base.Decimal.{pos, value, scan, atoi, digits, decimal, uint32}

abbrev pub IsDigit : ℕ → Type 0
IsDigit c = (48 ≤ c) × (c ≤ 57)

-- Every byte of a printed number is a digit.
digits-IsDigit : (f n : ℕ) → All IsDigit (digits f n)
unfolding digits
digits-IsDigit zero n = tt
digits-IsDigit (suc f) n = elim (Bool-cases (ltb n 10)) [
  | inl small ↦ rw small (ground arith)
  | inr large ↦
      rw large (All-append IsDigit (digits f (n / 10)) _ (digits-IsDigit f (n / 10)) (omega arith))
]

pub decimal-IsDigit : (n : ℕ) → All IsDigit (decimal n)
unfolding decimal
decimal-IsDigit n = digits-IsDigit (suc n) n

-- The value of the digits of `s` after `n`.
abbrev eval : ℕ → Bytes → ℕ
eval n [] = n
eval n (c ∷ s) = eval (n * 10 + (c - 48)) s

eval-append : (n : ℕ) (s t : Bytes) → eval n (s ++ t) ≡ eval (eval n s) t
eval-append n [] t = refl
eval-append n (c ∷ s) t = eval-append (n * 10 + (c - 48)) s t

le-eval : (n : ℕ) (s : Bytes) → n ≤ eval n s
le-eval n [] = omega arith
le-eval n (c ∷ s) = omega (arith, le-eval (n * 10 + (c - 48)) s)

eval-digits : (f n : ℕ) → n < f → eval 0 (digits f n) ≡ n
unfolding digits
eval-digits zero n h = elim h [ ]
eval-digits (suc f) n h = elim (Bool-cases (ltb n 10)) [
  | inl small ↦ rw small (omega arith)
  | inr large ↦
      rw (large, eval-append)
        (omega (arith, eval-digits f (n / 10) (omega (arith, ltb-false→le n 10 large))))
]

-- A text of digits whose value fits in 64 bits is scanned to its value.
scan-eval : (n : ℕ) (s : Bytes) → All IsDigit s → eval n s < 2 ^ 64 → scan n s ≡ value (eval n s)
unfolding scan
scan-eval n [] d h = refl
scan-eval n (c ∷ s) d h =
    ground (arith, scan-eval (n * 10 + (c - 48)) s d.1 h, le-eval (n * 10 + (c - 48)) s)

pub digits-ne-nil : (f n : ℕ) → digits (suc f) n ≢ []
unfolding digits
digits-ne-nil f n h = elim (Bool-cases (ltb n 10)) [
  | inl small ↦ cc (small, h)
  | inr large ↦ elim (append-ne-nil (digits f (n / 10)) (rw large at h)) [ ]
]
  where
    append-ne-nil : (s : Bytes) → s ++ (48 + n % 10) ∷ [] ≡ [] → ⊥
    append-ne-nil [] e = cc
    append-ne-nil (_ ∷ _) e = cc

pub decimal-ne-nil : (n : ℕ) → decimal n ≢ []
unfolding decimal
decimal-ne-nil n = digits-ne-nil n n

-- A text of digits whose value is below 2^63 is read as its value.
atoi-eval : (s : Bytes) → s ≢ [] → All IsDigit s → eval 0 s < 2 ^ 63 → atoi s ≡ ok (pos (eval 0 s))
unfolding atoi
atoi-eval [] e d h = absurd (e refl)
atoi-eval (c ∷ s) e d h = ground (arith, scan-eval 0 (c ∷ s) d (omega arith), d.0)

-- A printed number below 2^63 is read back.
pub atoi-decimal : (n : ℕ) → n < 2 ^ 63 → atoi (decimal n) ≡ ok (pos n)
atoi-decimal n h =
    atoi-eval (decimal n) (decimal-ne-nil n) (decimal-IsDigit n) (rw eval-decimal h)
    ∙ ap (λ (k : ℕ). ok (pos k)) eval-decimal
  where
    eval-decimal : eval 0 (decimal n) ≡ n
    eval-decimal = unfold decimal in eval-digits (suc n) n (omega arith)

-- A printed uint32 survives `Atoi` and the conversion.
pub uint32-pos : (n : ℕ) → n < 2 ^ 32 → uint32 (pos n) ≡ n
unfolding uint32
uint32-pos n h = omega arith
