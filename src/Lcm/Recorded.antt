-- ===== src/Lcm/Recorded.antt =====
-- What an upgrade of the cluster records, and when it gives back the lock.
use grpc_gw_controller.Base.{
  ℕ, ◌≤◌, Option, none, some, Bool, true, false, List, [], ◌∷◌, ◌++◌, length, some-injective,
  Bool-cases, arith, All, bytes_eq_iff, ◌≡◌, ◌⊎◌, inl, inr, refl,
}
use mathlib.Core.Path.{subst}
use grpc_gw_controller.Base.Text.{Bytes, fields}
use grpc_gw_controller.Lcm.{
  Component, Upgrade, status_ok, status_error, component_name_apphoster_controller, cmd_prepare,
  Config, Remote, Pool, State, component_of, others, upgrade_controller, all_returned, any_failed,
  conclude, Run, finalize, after_controller_session, finish, wait_all, after_prepare,
  after_first_session, upgrade_cluster,
}
use grpc_gw_controller.Lcm.Turns.{FourTurns, all_returned-turns}

-- What an upgrade says of itself, with its components.
abbrev pub NoError : Component → Type 0
NoError c = c.error_message ≡ []

abbrev pub IsReport : Upgrade → Type 0
IsReport u =
    ((u.status ≡ status_ok) × (u.error_message ≡ []) × All NoError u.components)
    ⊎ ((u.status ≡ status_error) × ((u.components ≡ []) ⊎ (All NoError u.components → ⊥)))

any_failed-false : (cs : List Component) → any_failed cs ≡ false → All NoError cs
unfolding any_failed
any_failed-false [] h = tt
any_failed-false (c ∷ cs) h =
    (ground (arith, bytes_eq_iff c.error_message []), any_failed-false cs (ground arith))

any_failed-true : (cs : List Component) → any_failed cs ≡ true → All NoError cs → ⊥
unfolding any_failed
any_failed-true [] h k = cc
any_failed-true (c ∷ cs) h k =
    any_failed-true cs (ground (arith, (bytes_eq_iff c.error_message []).1 k.0)) k.1

pub conclude-IsReport : (cs : List Component) → IsReport (conclude cs none)
unfolding conclude
conclude-IsReport cs = elim (Bool-cases (any_failed cs)) [
  | inl e ↦ rw e (inr (refl, inr (any_failed-true cs e)))
  | inr e ↦ rw e (inl (refl, refl, any_failed-false cs e))
]

pub conclude-error : (e : Bytes) → IsReport (conclude [] (some e))
unfolding conclude
conclude-error e = inr (refl, inl refl)

pub wait_all-finish :
    {W B : Type 0} (remote : Remote W) (marshal : Upgrade → Bytes) (config : Config)
    (names : List Bytes) (m : Pool W) (s : State W B) (r : Run W B)
    → wait_all remote marshal config names m s ≡ some r
    → finish remote marshal config
        (upgrade_controller names)
        m.components
        (record s { world = m.world })
      ≡ r
wait_all-finish remote marshal config names m s r h =
    elim (Bool-cases (all_returned (length (others names)) m.phase)) [
      | inl e ↦ some-injective (rw e at h)
      | inr e ↦ absurd (cc (e, h))
    ]

-- What holds of every run, by what holds of every call of `finalize` that the program makes.
module _ {W B : Type 0} (remote : Remote W) (marshal : Upgrade → Bytes) (config : Config)
    (s : State W B) (P : Run W B → Type 0)
    (last : (cs : List Component) (w : W)
      → P (finalize remote marshal cs none (record s { world = w })))
    (early : (e : Bytes) (w : W)
      → P (finalize remote marshal [] (some e) (record s { world = w }))) where
  finish-all :
      (b : Bool) (cs : List Component) (w : W)
      → P (finish remote marshal config b cs (record s { world = w }))
  unfolding finish
  finish-all false cs w = last cs w
  finish-all true cs w =
      last (cs ++ component_of component_name_apphoster_controller none ∷ [])
        (after_controller_session remote config (remote.new_session w))

  wait_all-all :
      (names : List Bytes) (m : Pool W) (w : W) (r : Run W B)
      → wait_all remote marshal config names m (record s { world = w }) ≡ some r
      → P r
  wait_all-all names m w r h =
      subst P (wait_all-finish remote marshal config names m (record s { world = w }) r h)
        (finish-all (upgrade_controller names) m.components m.world)

  after_prepare-all :
      (schedule : List ℕ) (w : W) (o : Option Bytes × Bytes × W) (r : Run W B)
      → after_prepare remote marshal config schedule (record s { world = w }) o ≡ some r
      → P r
  after_prepare-all schedule w (none, o, v) r h = wait_all-all (fields o) _ v r h
  after_prepare-all schedule w (some e, o, v) r h = subst P (some-injective h) (early e v)

  after_first_session-all :
      (schedule : List ℕ) (o : Option Bytes × W) (r : Run W B)
      → after_first_session remote marshal config schedule s o ≡ some r
      → P r
  after_first_session-all schedule (none, w) r h =
      after_prepare-all schedule w (remote.output (cmd_prepare config) w) r h
  after_first_session-all schedule (some e, w) r h = subst P (some-injective h) (early e w)

  pub upgrade_cluster-all :
      (schedule : List ℕ) (r : Run W B)
      → upgrade_cluster remote marshal config schedule s ≡ some r
      → P r
  unfolding upgrade_cluster
  upgrade_cluster-all schedule r h =
      after_first_session-all schedule (remote.new_session s.world) r h

  module _ (n : ℕ)
      (few : (w : W) → length (others (fields (remote.output (cmd_prepare config) w).1)) ≤ n) where
    wait_all-some :
        (names : List Bytes) (m : Pool W) (w : W)
        → all_returned (length (others names)) m.phase ≡ true
        → (r : Run W B) × (wait_all remote marshal config names m (record s { world = w }) ≡ some r)
          × P r
    wait_all-some names m w e =
        rw e (_, refl, finish-all (upgrade_controller names) m.components m.world)

    after_prepare-some :
        (schedule : List ℕ) (w : W) (o : Option Bytes × Bytes × W)
        → length (others (fields o.1)) ≤ n
        → FourTurns n schedule
        → (r : Run W B) × (after_prepare remote marshal config schedule (record s { world = w }) o
            ≡ some r)
          × P r
    after_prepare-some schedule w (none, o, v) l h = wait_all-some (fields o) _ v (
        all_returned-turns remote config (length (others (fields o))) schedule _
          (λ k j. h k (omega (arith, j, l))))
    after_prepare-some schedule w (some e, o, v) l h = (_, refl, early e v)

    pub after_first_session-some :
        (schedule : List ℕ) (o : Option Bytes × W)
        → FourTurns n schedule
        → (r : Run W B) × (after_first_session remote marshal config schedule s o ≡ some r) × P r
    after_first_session-some schedule (none, w) h =
        after_prepare-some schedule w (remote.output (cmd_prepare config) w) (few w) h
    after_first_session-some schedule (some e, w) h = (_, refl, early e w)
