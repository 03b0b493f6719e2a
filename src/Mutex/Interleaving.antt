-- ===== src/Mutex/Interleaving.antt =====
-- Goroutines that run handlers at the same time. The handlers of app/grpc/appmanager and
-- app/grpc/clustermanager call `mutex.IsLocked`, then `mutex.Lock`, then work, and call
-- `mutex.Unlock` when they return; between two of these calls any other goroutine may run. UpgradeCluster
-- returns with its lock held: the goroutine that it has started unlocks, before or after the return, or
-- never (app/grpc/clustermanager/common/lcm/upgrade_cluster.go). The map itself is taken to survive concurrent writes, which Go does not promise.
use grpc_gw_controller.Base.{
  ℕ, Option, none, some, Bool, true, false, [], ◌≡◌, refl, ◌≢◌, ◌⊎◌, inl, inr, sym, ap, ◌∙◌, ◌==◌,
  ==_iff, bytes_Eq, bytes_eq_iff, if◌then◌else◌, ◌≟◌, Bool-cases,
}
use grpc_gw_controller.Base.Text.{Bytes}
use grpc_gw_controller.Base.Dict.{lookup, insert, erase, lookup-insert, lookup-erase}
use grpc_gw_controller.Mutex.{Locks, is_locked}

-- What a goroutine has done: nothing, a check that found no lock, a check that found one, `Lock`, a
-- return with the lock held, or `Unlock`.
pub data Phase : Type 0 where
  start passed refused holding left_locked finished : Phase

-- The key that a handler gives to `IsLocked`, the one that it locks, and whether it leaves the unlocking
-- to a goroutine, as UpgradeCluster does.
pub record Handler : Type 0 where
  pub check_key : Bytes
  pub lock_key : Bytes
  pub leaves_lock : Bool

pub record Machine : Type 0 where
  pub locks : Locks (Unit {0})
  pub phase : ℕ → Phase

abbrev pub set_phase : ℕ → Phase → (ℕ → Phase) → ℕ → Phase
set_phase i p phase j = if j == i then p else phase j

module _ (handler : ℕ → Handler) where
  pub data Step (m n : Machine) : Type 0 where
    check_free :
        (i : ℕ)
        → m.phase i ≡ start
        → is_locked (handler i).check_key (some m.locks) ≡ false
        → n ≡ record m { phase = set_phase i passed m.phase }
        → Step m n
    check_busy :
        (i : ℕ)
        → m.phase i ≡ start
        → is_locked (handler i).check_key (some m.locks) ≡ true
        → n ≡ record m { phase = set_phase i refused m.phase }
        → Step m n
    acquire :
        (i : ℕ)
        → m.phase i ≡ passed
        → n ≡ record {
          locks = insert (handler i).lock_key tt m.locks;
          phase = set_phase i holding m.phase;
        }
        → Step m n
    leave :
        (i : ℕ)
        → m.phase i ≡ holding
        → (handler i).leaves_lock ≡ true
        → n ≡ record m { phase = set_phase i left_locked m.phase }
        → Step m n
    -- `Unlock`, by the deferred call of the handler or by the goroutine of UpgradeCluster.
    release :
        (i : ℕ)
        → m.phase i ≡ holding
        → n ≡ record {
          locks = erase (handler i).lock_key m.locks;
          phase = set_phase i finished m.phase;
        }
        → Step m n
    release_later :
        (i : ℕ)
        → m.phase i ≡ left_locked
        → n ≡ record {
          locks = erase (handler i).lock_key m.locks;
          phase = set_phase i finished m.phase;
        }
        → Step m n

  pub data Reach (s : Machine) : Machine → Type 0 where
    here : Reach s s
    next : {m n : Machine} → Reach s m → Step m n → Reach s n

  -- Whether a goroutine has locked its key and not unlocked it.
  abbrev has_lock : Bool → Phase → Bool
  has_lock leaves holding = true
  has_lock leaves left_locked = leaves
  has_lock leaves start = false
  has_lock leaves passed = false
  has_lock leaves refused = false
  has_lock leaves finished = false

  abbrev Holder : Machine → Bytes → Type 0
  Holder m k =
      (i : ℕ) × (has_lock (handler i).leaves_lock (m.phase i) ≡ true) × ((handler i).lock_key ≡ k)

  -- Every locked key has a holder.
  record HasHolders (m : Machine) : Type 0 where
    pub holder : (k : Bytes) → lookup k m.locks ≢ none → Holder m k

  -- The goroutine `i` changes its phase to `q`: a holder stays one, unless it is `i` and `q` has no lock.
  keep-Holder :
      (m : Machine) (i : ℕ) (q : Phase) (k : Bytes)
      → ((handler i).lock_key ≡ k
          → has_lock (handler i).leaves_lock (m.phase i) ≡ true
          → has_lock (handler i).leaves_lock q ≡ true)
      → Holder m k
      → Holder (record m { phase = set_phase i q m.phase }) k
  keep-Holder m i q k keeps (j, h, e) = elim (Bool-cases (j == i)) [
    | inl same ↦
        let eq = (==_iff j i).0 same in
        (
          i,
          rw ((==_iff i i).1 refl) (
              keeps (ap (λ (n : ℕ). (handler n).lock_key) (sym eq) ∙ e)
                (ap (λ n. has_lock (handler n).leaves_lock (m.phase n)) (sym eq) ∙ h)),
          ap (λ (n : ℕ). (handler n).lock_key) (sym eq) ∙ e,
        )
    | inr differs ↦ (j, rw differs h, e)
  ]

  -- A goroutine with no lock has none to lose.
  no_lock :
      (i : ℕ) (p q : Phase) (m : Machine)
      → m.phase i ≡ p
      → has_lock (handler i).leaves_lock p ≡ false
      → has_lock (handler i).leaves_lock (m.phase i) ≡ true
      → has_lock (handler i).leaves_lock q ≡ true
  no_lock i p q m e f h = absurd (cc (ap (has_lock (handler i).leaves_lock) e, f, h))

  acquired :
      (m : Machine) (i : ℕ) (k : Bytes)
      → m.phase i ≡ passed
      → HasHolders m
      → lookup k (insert (handler i).lock_key tt m.locks) ≢ none
      → Holder (record m { phase = set_phase i holding m.phase }) k
  acquired m i k p h found = elim (Bool-cases ((handler i).lock_key ≟ k)) [
    | inl e ↦ (i, rw ((==_iff i i).1 refl) refl, (bytes_eq_iff (handler i).lock_key k).0 e)
    | inr e ↦
        keep-Holder m i holding k (λ _ _. refl)
          (h.holder k (λ gone. found (rw lookup-insert (rw e gone))))
  ]

  released :
      (m : Machine) (i : ℕ) (k : Bytes)
      → HasHolders m
      → lookup k (erase (handler i).lock_key m.locks) ≢ none
      → Holder (record m { phase = set_phase i finished m.phase }) k
  released m i k h found = elim (Bool-cases ((handler i).lock_key ≟ k)) [
    | inl e ↦ absurd (found (rw lookup-erase (rw e refl)))
    | inr e ↦
        keep-Holder m i finished k
          (λ same _. absurd (cc ((bytes_eq_iff (handler i).lock_key k).1 same, e)))
          (h.holder k (λ gone. found (rw lookup-erase (rw e gone))))
  ]

  Step-HasHolders : {m n : Machine} → Step m n → HasHolders m → HasHolders n
  Step-HasHolders {m} {n} (check_free i p free e) h = rw e (record {
    holder = λ k found.
        keep-Holder m i passed k (λ _. no_lock i start passed m p refl) (h.holder k found);
  })
  Step-HasHolders {m} {n} (check_busy i p busy e) h = rw e (record {
    holder = λ k found.
        keep-Holder m i refused k (λ _. no_lock i start refused m p refl) (h.holder k found);
  })
  Step-HasHolders {m} {n} (acquire i p e) h =
      rw e (record { holder = λ k found. acquired m i k p h found })
  Step-HasHolders {m} {n} (leave i p l e) h =
      rw e
        (record { holder = λ k found. keep-Holder m i left_locked k (λ _ _. l) (h.holder k found) })
  Step-HasHolders {m} {n} (release i p e) h =
      rw e (record { holder = λ k found. released m i k h found })
  Step-HasHolders {m} {n} (release_later i p e) h =
      rw e (record { holder = λ k found. released m i k h found })

  abbrev pub idle : Machine
  idle = record { locks = []; phase = λ i. start }

  idle-HasHolders : HasHolders idle
  unfolding lookup
  idle-HasHolders = record { holder = λ k found. absurd (found refl) }

  Reach-HasHolders : {m : Machine} → Reach idle m → HasHolders m
  Reach-HasHolders here = idle-HasHolders
  Reach-HasHolders (next r st) = Step-HasHolders st (Reach-HasHolders r)

  -- What it is for a goroutine to have its lock.
  has_lock-cases :
      (leaves : Bool) (p : Phase)
      → has_lock leaves p ≡ true
      → (p ≡ holding) ⊎ ((p ≡ left_locked) × (leaves ≡ true))
  has_lock-cases leaves holding h = inl refl
  has_lock-cases leaves left_locked h = inr (refl, h)
  has_lock-cases leaves start h = absurd cc
  has_lock-cases leaves passed h = absurd cc
  has_lock-cases leaves refused h = absurd cc
  has_lock-cases leaves finished h = absurd cc

  -- However the handlers are interleaved from an idle server, a key is locked only while some handler
  -- that locked it has not returned, or after the return of one that leaves its lock to a goroutine, as
  -- UpgradeCluster does, as long as that goroutine has not unlocked the key.
  pub locked_has_holder :
      (m : Machine) (k : Bytes)
      → Reach idle m
      → lookup k m.locks ≢ none
      → (i : ℕ) × ((m.phase i ≡ holding)
          ⊎ ((m.phase i ≡ left_locked) × ((handler i).leaves_lock ≡ true)))
        × ((handler i).lock_key ≡ k)
  locked_has_holder m k r found =
      let (i, has, key) = (Reach-HasHolders r).holder k found in
      (i, has_lock-cases (handler i).leaves_lock (m.phase i) has, key)

  -- When no handler is at work and no goroutine is to unlock, no key is locked.
  pub quiet-unlocked :
      (m : Machine) (k : Bytes)
      → Reach idle m
      → ((i : ℕ) → m.phase i ≢ holding)
      → ((i : ℕ) → m.phase i ≢ left_locked)
      → lookup k m.locks ≡ none
  quiet-unlocked m k r quiet none_left = by_value (lookup k m.locks) refl
    where
      by_value : (o : Option (Unit {0})) → lookup k m.locks ≡ o → lookup k m.locks ≡ none
      by_value none e = e
      by_value (some v) e =
          let (i, held, key) = locked_has_holder m k r (λ gone. cc (gone, e)) in
          elim held [ inl h ↦ absurd (quiet i h) | inr h ↦ absurd (none_left i h.0) ]
