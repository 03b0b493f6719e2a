-- ===== src/Lcm/Finalize.antt =====
-- The two ways in which `finalize` ends.
use grpc_gw_controller.Base.{Option, none, some, ok, ◌≡◌, ◌≢◌, refl}
use grpc_gw_controller.Base.Text.{Bytes}
use grpc_gw_controller.Mutex.{unlock, lock_action_upgrade_cluster}
use grpc_gw_controller.Maps.{Map, add}
use grpc_gw_controller.Lcm.{Upgrade, cmd_clean, Remote, State, Run, after_clean, clean_up}

-- The lock is given back, `u` is in the annotations, and the last call has written these to the
-- namespace.
abbrev pub Records :
    {W B : Type 0} → Remote W → (Upgrade → Bytes) → Upgrade → State W B → Run W B → Type 0
Records {W} remote marshal u s r =
    (a : Map) × (v : W) × (s.annotations ≡ some a)
    × (r.0 ≡ ok tt)
    × (r.1.mutex ≡ unlock lock_action_upgrade_cluster s.mutex)
    × (r.1.annotations ≡ some (add a "apphc.apph.last_upgrade" (marshal u)))
    × (r.1.world ≡ remote.update_namespace (add a "apphc.apph.last_upgrade" (marshal u)) v)

abbrev pub Keeps : {W B : Type 0} → State W B → Run W B → Type 0
Keeps s r = (r.1.mutex ≡ s.mutex) × (r.1.annotations ≡ s.annotations)

-- Sessions open and the clean-up succeeds.
pub record Cleans {W : Type 0} (remote : Remote W) : Type 0 where
  pub opens : (w : W) → (remote.new_session w).0 ≡ none
  pub cleans : (w : W) → (remote.run_command cmd_clean w).0 ≡ none

module _ {W B : Type 0} (remote : Remote W) (marshal : Upgrade → Bytes) where
  after_clean-Keeps :
      (u : Upgrade) (s : State W B) (r : Option Bytes × W)
      → r.0 ≢ none
      → Keeps s (after_clean remote marshal u s r)
  after_clean-Keeps u s (some e, w) h = (refl, refl)
  after_clean-Keeps u s (none, w) h = absurd (h refl)

  pub clean_up-Keeps :
      (u : Upgrade) (s : State W B) (r : Option Bytes × W)
      → ((w : W) → (remote.run_command cmd_clean w).0 ≢ none)
      → Keeps s (clean_up remote marshal u s r)
  clean_up-Keeps u s (some e, w) h = (refl, refl)
  clean_up-Keeps u s (none, w) h = after_clean-Keeps u s (remote.run_command cmd_clean w) (h w)

  after_clean-Records :
      (u : Upgrade) (s : State W B) (a : Map) (r : Option Bytes × W)
      → s.annotations ≡ some a
      → r.0 ≡ none
      → Records remote marshal u s (after_clean remote marshal u s r)
  after_clean-Records u s a (some e, w) k h = absurd cc
  after_clean-Records u s a (none, w) k h = rw k (a, w, refl, refl, refl, refl, refl)

  pub clean_up-Records :
      (u : Upgrade) (s : State W B) (a : Map) (r : Option Bytes × W)
      → Cleans remote
      → s.annotations ≡ some a
      → r.0 ≡ none
      → Records remote marshal u s (clean_up remote marshal u s r)
  clean_up-Records u s a (some e, w) c k h = absurd cc
  clean_up-Records u s a (none, w) c k h =
      after_clean-Records u s a (remote.run_command cmd_clean w) k (c.cleans w)
