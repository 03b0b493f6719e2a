-- ===== src/Base/Decimal.antt =====
-- Decimal numbers: `%d` of the package `fmt`, and `strconv.Atoi` with its conversion to uint32.
pub mod RoundTrip
use Prim.Native.Nat.{ℕ, zero, suc, ◌+◌, ◌-◌, ◌*◌, ◌/◌, ◌%◌, ◌^◌}
use mathlib.Core.Bool.{Bool, true, false, ◌&&◌}
use mathlib.Core.Path.{◌≡◌, refl}
use mathlib.Core.List.{List, [], ◌∷◌, ◌++◌}
use grpc_gw_controller.Base.Tests.{ltb, leb, ◌==◌, if◌then◌else◌}
use grpc_gw_controller.Base.Go.{Outcome, ok, err}
use grpc_gw_controller.Base.Text.{Bytes, bytes}

-- `negsuc n` is -(n + 1).
pub data ℤ : Type 0 where
  pos : ℕ → ℤ
  negsuc : ℕ → ℤ

-- The conversion of an `int` to uint32, which keeps the low 32 bits.
unfoldable pub uint32 : ℤ → ℕ
uint32 (pos n) = n % 2 ^ 32
uint32 (negsuc n) = 2 ^ 32 - 1 - n % 2 ^ 32

-- Both errors carry the text that was parsed.
pub data ParseError : Type 0 where
  invalid_syntax : Bytes → ParseError
  out_of_range : Bytes → ParseError

pub data Scan : Type 0 where
  value : ℕ → Scan
  bad_syntax : Scan
  too_large : Scan

-- The digits after `n`, in uint64.
unfoldable pub scan : ℕ → Bytes → Scan
scan n [] = value n
scan n (c ∷ s) =
    let rest = scan (n * 10 + (c - 48)) s in
    if leb 48 c && leb c 57
    then (if ltb (n * 10 + (c - 48)) (2 ^ 64) then rest else too_large)
    else bad_syntax

unfoldable pub signed : Bytes → Bool → Scan → Outcome ParseError ℤ
signed s minus bad_syntax = err (invalid_syntax s)
signed s minus too_large = err (out_of_range s)
signed s false (value n) = if ltb n (2 ^ 63) then ok (pos n) else err (out_of_range s)
signed s true (value zero) = ok (pos 0)
signed s true (value (suc n)) = if ltb n (2 ^ 63) then ok (negsuc n) else err (out_of_range s)

abbrev first_digits : Bytes → Bytes → Bool → Outcome ParseError ℤ
first_digits s [] minus = err (invalid_syntax s)
first_digits s (c ∷ r) minus = signed s minus (scan 0 (c ∷ r))

unfoldable pub atoi : Bytes → Outcome ParseError ℤ
unfolding signed scan
atoi [] = err (invalid_syntax [])
atoi (c ∷ s) =
    if c == b'-'
    then first_digits (c ∷ s) s true
    else if c == b'+'
    then first_digits (c ∷ s) s false
    else first_digits (c ∷ s) (c ∷ s) false

-- `digits (suc n) n` has enough fuel: a tenth is smaller.
unfoldable pub digits : ℕ → ℕ → Bytes
digits zero n = []
digits (suc f) n =
    let front = digits f (n / 10) ++ (48 + n % 10) ∷ [] in if ltb n 10 then (48 + n) ∷ [] else front

-- `fmt.Sprintf("%d", n)`
unfoldable pub decimal : ℕ → Bytes
unfolding digits
decimal n = digits (suc n) n

decimal-atoi_runs :
    (decimal 0 ≡ bytes "0")
    × (decimal 4096 ≡ bytes "4096")
    × (atoi (bytes "-17") ≡ ok (negsuc 16))
    × (atoi (bytes "9223372036854775808") ≡ err (out_of_range (bytes "9223372036854775808")))
    × (atoi (bytes "1x") ≡ err (invalid_syntax (bytes "1x")))
unfolding decimal atoi
decimal-atoi_runs = (refl, refl, refl, refl, refl)
