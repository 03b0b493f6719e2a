-- ===== src/Base/Float.antt =====
-- Go's float64, of which the program only compares and prints values: its operations are given.
use Prim.Native.Nat.{ℕ}
use mathlib.Core.Bool.{Bool}
use mathlib.Core.List.{List}

pub record Float64 (F : Type 0) : Type 0 where
  pub lt : F → F → Bool
  pub le : F → F → Bool
  -- The float closest to n / 10 ^ k.
  pub scaled : ℕ → ℕ → F
  -- `%f` and `%.2f`.
  pub print_f : F → List ℕ
  pub print_2f : F → List ℕ
