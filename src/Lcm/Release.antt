-- ===== src/Lcm/Release.antt =====
-- How an upgrade of the cluster ends.
use grpc_gw_controller.Base.{
  ℕ, ◌≤◌, Option, none, some, Bool, true, false, List, [], ◌∷◌, ◌++◌, length, Bool-cases, arith,
  bytes_eq, ◌≡◌, ◌≢◌, inl, inr, refl,
}
use mathlib.Core.Path.{subst}
use grpc_gw_controller.Base.Text.{Bytes, fields}
use grpc_gw_controller.Maps.{Map}
use grpc_gw_controller.Lcm.{
  Component, Upgrade, component_name_apphoster_controller, cmd_clean, cmd_prepare, Config, Remote,
  Pool, State, component_of, others, upgrade_controller, any_failed, status_ok, after_prepare,
  after_first_session, conclude, Run, finalize, after_controller_session, finish, wait_all,
  upgrade_cluster,
}
use grpc_gw_controller.Lcm.Turns.{FourTurns}
use grpc_gw_controller.Lcm.Finalize.{Records, Keeps, Cleans, clean_up-Keeps, clean_up-Records}
use grpc_gw_controller.Lcm.Recorded.{
  IsReport, conclude-IsReport, conclude-error, wait_all-finish, upgrade_cluster-all,
  after_first_session-some,
}

module _ {W B : Type 0} (remote : Remote W) (marshal : Upgrade → Bytes) where
  finalize-Keeps :
      (cs : List Component) (e : Option Bytes) (s : State W B)
      → ((w : W) → (remote.run_command cmd_clean w).0 ≢ none)
      → Keeps s (finalize remote marshal cs e s)
  unfolding finalize
  finalize-Keeps cs e s h =
      clean_up-Keeps remote marshal (conclude cs e) s (remote.new_session s.world) h

  finalize-Records :
      (cs : List Component) (e : Option Bytes) (s : State W B) (a : Map)
      → Cleans remote
      → s.annotations ≡ some a
      → Records remote marshal (conclude cs e) s (finalize remote marshal cs e s)
  unfolding finalize
  finalize-Records cs e s a c h =
      clean_up-Records remote marshal (conclude cs e) s a (remote.new_session s.world) c h
        (c.opens s.world)

-- Where sessions open, the clean-up succeeds, the default namespace has annotations and there are at
-- most `n` components, the upgrade ends in every schedule that gives four turns to each of the first `n`
-- goroutines: the lock of the upgrade is given back, a report is in the annotations, and the last call
-- has written these to the namespace. The report says OK with components that all have no error, or ERROR with no component or one that has an error.
pub upgrade_cluster-Releases :
    {W B : Type 0} (remote : Remote W) (marshal : Upgrade → Bytes) (config : Config)
    (schedule : List ℕ) (s : State W B) (n : ℕ) (a : Map)
    → Cleans remote
    → s.annotations ≡ some a
    → ((w : W) → length (others (fields (remote.output (cmd_prepare config) w).1)) ≤ n)
    → FourTurns n schedule
    → (r : Run W B) × (upgrade_cluster remote marshal config schedule s ≡ some r)
      × (u : Upgrade) × IsReport u
      × Records remote marshal u s r
unfolding upgrade_cluster
upgrade_cluster-Releases remote marshal config schedule s n a c h few turns_given =
    let res =
      after_first_session-some remote marshal config s
        (λ r. (u : Upgrade) × IsReport u × Records remote marshal u s r)
        (λ cs w. (
          conclude cs none,
          conclude-IsReport cs,
          finalize-Records remote marshal cs none (record s { world = w }) a c h,
        ))
        (λ e w. (
          conclude [] (some e),
          conclude-error e,
          finalize-Records remote marshal [] (some e) (record s { world = w }) a c h,
        ))
        n few schedule (remote.new_session s.world) turns_given in
    (res.0, res.1, res.2.0, res.2.1, res.2.2)

-- Where the command of the clean-up fails, no upgrade gives back the lock or records anything, whatever
-- the schedule and however the upgrade went.
pub upgrade_cluster-Keeps :
    {W B : Type 0} (remote : Remote W) (marshal : Upgrade → Bytes) (config : Config)
    (schedule : List ℕ) (s : State W B) (r : Run W B)
    → ((w : W) → (remote.run_command cmd_clean w).0 ≢ none)
    → upgrade_cluster remote marshal config schedule s ≡ some r
    → (r.1.mutex ≡ s.mutex) × (r.1.annotations ≡ s.annotations)
upgrade_cluster-Keeps remote marshal config schedule s r h eq =
    upgrade_cluster-all remote marshal config s (λ r. Keeps s r)
      (λ cs w. finalize-Keeps remote marshal cs none (record s { world = w }) h)
      (λ e w. finalize-Keeps remote marshal [] (some e) (record s { world = w }) h) schedule r eq

conclude-components : (cs : List Component) → (conclude cs none).components ≡ cs
unfolding conclude
conclude-components cs = elim (Bool-cases (any_failed cs)) [ inl e ↦ rw e refl | inr e ↦ rw e refl ]

any_failed-append :
    (cs : List Component)
    → any_failed cs ≡ false
    → any_failed (cs ++ component_of component_name_apphoster_controller none ∷ []) ≡ false
unfolding any_failed component_of bytes_eq
any_failed-append [] h = refl
any_failed-append (c ∷ cs) h = ground (arith, any_failed-append cs (ground arith))

conclude-ok :
    (cs : List Component)
    → any_failed cs ≡ false
    → (conclude (cs ++ component_of component_name_apphoster_controller none ∷ []) none).status
      ≡ status_ok
unfolding conclude
conclude-ok cs h = rw (any_failed-append cs h) refl

module _ {W B : Type 0} (remote : Remote W) (marshal : Upgrade → Bytes) (config : Config) (a : Map)
    (cleans : Cleans remote) where
  -- What is recorded has the controller last, with no error, and says OK where the others have none.
  abbrev EndsWell : State W B → Run W B → Type 0
  EndsWell s r =
      (cs : List Component) × (u : Upgrade) × Records remote marshal u s r
      × (u.components ≡ cs ++ component_of component_name_apphoster_controller none ∷ [])
      × (any_failed cs ≡ false → u.status ≡ status_ok)

  finish-EndsWell :
      (b : Bool) (cs : List Component) (w : W) (s : State W B)
      → b ≡ true
      → s.annotations ≡ some a
      → EndsWell s (finish remote marshal config b cs (record s { world = w }))
  unfolding finish finalize
  finish-EndsWell false cs w s h k = absurd cc
  finish-EndsWell true cs w s h k =
      let all = cs ++ component_of component_name_apphoster_controller none ∷ [] in
      let v = after_controller_session remote config (remote.new_session w) in
      (
        cs,
        conclude all none,
        clean_up-Records remote marshal (conclude all none) (record s { world = v }) a
            (remote.new_session v) cleans k (cleans.opens v),
        conclude-components all,
        conclude-ok cs,
      )

  wait_all-EndsWell :
      (names : List Bytes) (m : Pool W) (w : W) (s : State W B) (r : Run W B)
      → s.annotations ≡ some a
      → upgrade_controller names ≡ true
      → wait_all remote marshal config names m (record s { world = w }) ≡ some r
      → EndsWell s r
  wait_all-EndsWell names m w s r k c h =
      subst (EndsWell s)
        (wait_all-finish remote marshal config names m (record s { world = w }) r h)
        (finish-EndsWell (upgrade_controller names) m.components m.world s c k)

  after_prepare-EndsWell :
      (schedule : List ℕ) (w : W) (s : State W B) (r : Run W B) (o : Option Bytes × Bytes × W)
      → s.annotations ≡ some a
      → o.0 ≡ none
      → upgrade_controller (fields o.1) ≡ true
      → after_prepare remote marshal config schedule (record s { world = w }) o ≡ some r
      → EndsWell s r
  after_prepare-EndsWell schedule w s r (none, o, v) n h c eq =
      wait_all-EndsWell (fields o) _ v s r n c eq
  after_prepare-EndsWell schedule w s r (some e, o, v) n h c eq = absurd cc

  after_first_session-EndsWell :
      (schedule : List ℕ) (s : State W B) (r : Run W B) (o : Option Bytes × W)
      → s.annotations ≡ some a
      → o.0 ≡ none
      → (remote.output (cmd_prepare config) o.1).0 ≡ none
      → upgrade_controller (fields (remote.output (cmd_prepare config) o.1).1) ≡ true
      → after_first_session remote marshal config schedule s o ≡ some r
      → EndsWell s r
  after_first_session-EndsWell schedule s r (none, w) n h k c eq =
      after_prepare-EndsWell schedule w s r (remote.output (cmd_prepare config) w) n k c eq
  after_first_session-EndsWell schedule s r (some e, w) n h k c eq = absurd cc

-- Where sessions open, the clean-up succeeds, the default namespace has annotations, and the preparation
-- succeeds and names the controller, an upgrade that ends has given back the lock and written a report
-- to the namespace whose last component is the controller with the status OK and no error, whatever came
-- of its command; and the report says OK where no other component has failed.
pub upgrade_cluster-controller :
    {W B : Type 0} (remote : Remote W) (marshal : Upgrade → Bytes) (config : Config)
    (schedule : List ℕ) (s : State W B) (r : Run W B) (a : Map)
    → Cleans remote
    → s.annotations ≡ some a
    → (remote.output (cmd_prepare config) (remote.new_session s.world).1).0 ≡ none
    → upgrade_controller
        (fields (remote.output (cmd_prepare config) (remote.new_session s.world).1).1)
      ≡ true
    → upgrade_cluster remote marshal config schedule s ≡ some r
    → (cs : List Component) × (u : Upgrade) × Records remote marshal u s r
      × (u.components ≡ cs ++ component_of component_name_apphoster_controller none ∷ [])
      × (any_failed cs ≡ false → u.status ≡ status_ok)
unfolding upgrade_cluster
upgrade_cluster-controller remote marshal config schedule s r a cleans n k c eq =
    after_first_session-EndsWell remote marshal config a cleans schedule s r
      (remote.new_session s.world) n (cleans.opens s.world) k c eq
