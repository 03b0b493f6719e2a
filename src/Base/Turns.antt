-- ===== src/Base/Turns.antt =====
-- Goroutines that take turns: the list of their numbers in the order in which they take a step.
use Prim.Native.Nat.{ℕ, suc, ◌-◌, ◌≤◌}
use mathlib.Core.Path.{◌≡◌, subst}
use mathlib.Core.Logic.{inl, inr}
use mathlib.Core.Bool.{false}
use mathlib.Core.List.{List, [], ◌∷◌}
use native.Mathlib.Omega.{arith}
use grpc_gw_controller.Base.Tests.{◌==◌, ==_iff, if◌then◌else◌, Bool-cases}

abbrev pub turns {ℓ} : {S : Type ℓ} → (ℕ → S → S) → List ℕ → S → S
turns turn [] s = s
turns turn (k ∷ ks) s = turns turn ks (turn k s)

abbrev pub count_turns : ℕ → List ℕ → ℕ
count_turns k [] = 0
count_turns k (j ∷ js) = let n = count_turns k js in if k == j then suc n else n

-- A rank that falls with each turn of its own and that other turns leave alone.
pub rank-turns {ℓ} :
    {S : Type ℓ} (turn : ℕ → S → S) (rank : ℕ → S → ℕ)
    → ((k : ℕ) (s : S) → rank k (turn k s) ≤ rank k s - 1)
    → ((j k : ℕ) (s : S) → (k == j) ≡ false → rank k (turn j s) ≡ rank k s)
    → (k : ℕ) (ks : List ℕ) (s : S) → rank k (turns turn ks s) ≤ rank k s - count_turns k ks
rank-turns turn rank own other k [] s = omega arith
rank-turns turn rank own other k (j ∷ js) s =
    let rest = rank-turns turn rank own other k js (turn j s) in
    elim (Bool-cases (k == j)) [
      | inl e ↦
          let same = subst (λ i. rank k (turn i s) ≤ rank k s - 1) ((==_iff k j).0 e) (own k s) in
          rw e (omega (arith, rest, same))
      | inr e ↦ rw e (omega (arith, rest, other j k s e))
    ]
