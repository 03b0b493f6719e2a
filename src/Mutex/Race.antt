-- ===== src/Mutex/Race.antt =====
-- `IsLocked` and `Lock` are two calls: what two handlers can do between them.
use grpc_gw_controller.Base.{
  ℕ, none, some, true, false, [], ◌≡◌, refl, ◌≢◌, sym, inl, inr, ◌==◌, ==_iff, bytes_Eq,
  bytes_eq_refl, Bool-cases,
}
use grpc_gw_controller.Base.Text.{Bytes}
use grpc_gw_controller.Base.Dict.{lookup, insert, erase, lookup-erase}
use grpc_gw_controller.Mutex.{is_locked}
use grpc_gw_controller.Mutex.Interleaving.{
  Handler, Machine, start, passed, holding, finished, set_phase, check_free, acquire, release,
  Reach, here, next, idle,
}

not-==_of_ne : (i j : ℕ) → i ≢ j → (i == j) ≡ false
not-==_of_ne i j h = elim (Bool-cases (i == j)) [
  | inl e ↦ absurd (h ((==_iff i j).0 e))
  | inr e ↦ e
]

==_refl : (i : ℕ) → (i == i) ≡ true
==_refl i = (==_iff i i).1 refl

none_locked : (k : Bytes) → is_locked {V = Unit {0}} k (some []) ≡ false
unfolding is_locked lookup
none_locked k = refl

module _ (handler : ℕ → Handler) (i j : ℕ) (differ : i ≢ j) where
  abbrev both_passed : Machine
  both_passed = record { locks = []; phase = set_phase j passed (set_phase i passed (λ n. start)) }

  abbrev both_hold : Machine
  both_hold = record {
    locks = insert (handler j).lock_key tt (insert (handler i).lock_key tt []);
    phase = set_phase j holding (set_phase i holding both_passed.phase);
  }

  apart : (i == j) ≡ false
  apart = not-==_of_ne i j differ

  apart' : (j == i) ≡ false
  apart' = not-==_of_ne j i (λ e. differ (sym e))

  Reach-both_hold : Reach handler (idle handler) both_hold
  Reach-both_hold =
      next
        (next
          (next (next here (check_free i refl (none_locked _) refl))
            (check_free j (rw apart' refl) (none_locked _) refl))
          (acquire i (rw (apart, ==_refl i) refl) refl))
        (acquire j (rw (apart', ==_refl j) refl) refl)

  i_holds : both_hold.phase i ≡ holding
  i_holds = rw (apart, ==_refl i) refl

  j_holds : both_hold.phase j ≡ holding
  j_holds = rw (==_refl j) refl

  -- Any two handlers, of one application too, can both hold their locks: both find no lock before
  -- either of them locks.
  pub two_holders :
      (m : Machine) × Reach handler (idle handler) m × (m.phase i ≡ holding) × (m.phase j ≡ holding)
  two_holders = (both_hold, Reach-both_hold, i_holds, j_holds)

  -- When the lock of the first of two handlers with one key is given back, the second works on with none.
  pub holder_without_lock :
      (handler i).lock_key ≡ (handler j).lock_key
      → (m : Machine) × Reach handler (idle handler) m
        × (m.phase j ≡ holding)
        × (lookup (handler j).lock_key m.locks ≡ none)
  holder_without_lock same = (
    record {
      locks = erase (handler i).lock_key both_hold.locks;
      phase = set_phase i finished both_hold.phase;
    },
    next Reach-both_hold (release i i_holds refl),
    rw (apart', ==_refl j) refl,
    rw same (rw lookup-erase (rw (bytes_eq_refl (handler j).lock_key) refl)),
  )
