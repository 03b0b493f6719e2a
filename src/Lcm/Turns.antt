-- ===== src/Lcm/Turns.antt =====
-- The goroutines of an upgrade of the cluster end, whatever the order of their turns.
use grpc_gw_controller.Base.{
  ℕ, zero, suc, ◌-◌, ◌≤◌, ◌<◌, Option, none, some, true, false, List, ◌==◌, ==_iff, arith, ◌≡◌,
  refl, ap,
}
use grpc_gw_controller.Base.Turns.{turns, count_turns, rank-turns}
use grpc_gw_controller.Base.Text.{Bytes}
use grpc_gw_controller.Lcm.{
  Config, Remote, Phase, starting, working, ending, storing, returned, Pool, after_session,
  set_phase, step, turn, has_returned, all_returned,
}

-- The turns that a goroutine may still take.
abbrev rank : Phase → ℕ
rank (starting name) = 4
rank (working name) = 3
rank (ending c) = 2
rank (storing c l) = 1
rank returned = 0

rank_bound : (p : Phase) → rank p ≤ 4
rank_bound (starting name) = omega arith
rank_bound (working name) = omega arith
rank_bound (ending c) = omega arith
rank_bound (storing c l) = omega arith
rank_bound returned = omega arith

rank-after_session : (name : Bytes) (o : Option Bytes) → rank (after_session name o) ≤ 3
rank-after_session name none = omega arith
rank-after_session name (some e) = omega arith

set_phase-same : (k : ℕ) (p : Phase) (ph : ℕ → Phase) → set_phase k p ph k ≡ p
set_phase-same k p ph = rw ((==_iff k k).1 refl) refl

set_phase-other :
    (k j : ℕ) (p : Phase) (ph : ℕ → Phase) → (j == k) ≡ false → set_phase k p ph j ≡ ph j
set_phase-other k j p ph e = rw e refl

module _ {W : Type 0} (remote : Remote W) (config : Config) where
  rank-step :
      (k : ℕ) (p : Phase) (m : Pool W)
      → m.phase k ≡ p
      → rank ((step remote config k p m).phase k) ≤ rank p - 1
  unfolding step
  rank-step k (starting name) m e =
      rw (set_phase-same k) (rank-after_session name (remote.new_session m.world).0)
  rank-step k (working name) m e = rw (set_phase-same k) (omega arith)
  rank-step k (ending c) m e = rw (set_phase-same k) (omega arith)
  rank-step k (storing c l) m e = rw (set_phase-same k) (omega arith)
  rank-step k returned m e = rw e (omega arith)

  step-other :
      (j k : ℕ) (p : Phase) (m : Pool W)
      → (k == j) ≡ false
      → (step remote config j p m).phase k ≡ m.phase k
  unfolding step
  step-other j k (starting name) m e = set_phase-other j k _ m.phase e
  step-other j k (working name) m e = set_phase-other j k _ m.phase e
  step-other j k (ending c) m e = set_phase-other j k _ m.phase e
  step-other j k (storing c l) m e = set_phase-other j k _ m.phase e
  step-other j k returned m e = refl

  rank-four :
      (k : ℕ) (schedule : List ℕ) (m : Pool W)
      → 4 ≤ count_turns k schedule
      → rank ((turns (turn remote config) schedule m).phase k) ≡ 0
  rank-four k schedule m h = omega (
    arith,
    h,
    rank_bound (m.phase k),
    rank-turns (turn remote config) (λ j n. rank (n.phase j))
        (λ j n. rank-step j (n.phase j) n refl)
        (λ i j n e. ap rank (step-other i j (n.phase i) n e)) k schedule m,
  )

-- Each of the first `n` goroutines has four turns.
abbrev pub FourTurns : ℕ → List ℕ → Type 0
FourTurns n schedule = (k : ℕ) → k < n → 4 ≤ count_turns k schedule

all_returned-rank :
    (n : ℕ) (ph : ℕ → Phase) → ((k : ℕ) → k < n → rank (ph k) ≡ 0) → all_returned n ph ≡ true
all_returned-rank zero ph h = refl
all_returned-rank (suc n) ph h =
    rw (has_returned-rank (ph n) (h n (omega arith)))
      (all_returned-rank n ph (λ k l. h k (omega (arith, l))))
  where
    has_returned-rank : (p : Phase) → rank p ≡ 0 → has_returned p ≡ true
    has_returned-rank (starting name) e = absurd (omega (arith, e))
    has_returned-rank (working name) e = absurd (omega (arith, e))
    has_returned-rank (ending c) e = absurd (omega (arith, e))
    has_returned-rank (storing c l) e = absurd (omega (arith, e))
    has_returned-rank returned e = refl

pub all_returned-turns :
    {W : Type 0} (remote : Remote W) (config : Config) (n : ℕ) (schedule : List ℕ) (m : Pool W)
    → FourTurns n schedule
    → all_returned n (turns (turn remote config) schedule m).phase ≡ true
all_returned-turns remote config n schedule m h =
    all_returned-rank n _ (λ k l. rank-four remote config k schedule m (h k l))
