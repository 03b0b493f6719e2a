-- ===== src/Mutex/Tests.antt =====
-- The theorems on the locks at two requests for one application.
use grpc_gw_controller.Base.{
  ℕ, none, some, true, false, ◌⊎◌, [], arith, ◌≡◌, refl, ◌≢◌, bytes_Eq, bytes_eq,
}
use grpc_gw_controller.Base.Text.{Bytes, bytes}
use grpc_gw_controller.Base.Dict.{lookup, insert}
use grpc_gw_controller.Mutex.{is_locked, lock_action_update_node_state, lock_action_any}
use grpc_gw_controller.Mutex.Laws.{is_locked-update_node_state}
use grpc_gw_controller.Mutex.Interleaving.{
  Handler, Machine, start, passed, holding, left_locked, set_phase, check_free, acquire, Reach,
  here, next, idle, locked_has_holder, quiet-unlocked,
}
use grpc_gw_controller.Mutex.Race.{two_holders, holder_without_lock}

abbrev app : ℕ → Handler
app i = record { check_key = bytes "app"; lock_key = bytes "app"; leaves_lock = false }

abbrev one_holds : Machine
one_holds = record {
  locks = insert (bytes "app") tt [];
  phase = set_phase 0 holding (set_phase 0 passed (λ i. start));
}

Reach-one_holds : Reach app (idle app) one_holds
unfolding is_locked lookup
Reach-one_holds = next (next here (check_free 0 refl refl refl)) (acquire 0 refl refl)

app_locked : lookup (bytes "app") one_holds.locks ≢ none
unfolding lookup insert bytes_eq
app_locked e = cc

locked_has_holder_example :
    (i : ℕ) × ((one_holds.phase i ≡ holding)
      ⊎ ((one_holds.phase i ≡ left_locked) × ((app i).leaves_lock ≡ true)))
    × ((app i).lock_key ≡ bytes "app")
locked_has_holder_example = locked_has_holder app one_holds (bytes "app") Reach-one_holds app_locked

quiet-unlocked_example : lookup (bytes "app") (idle app).locks ≡ none
quiet-unlocked_example = quiet-unlocked app (idle app) (bytes "app") here (λ i e. cc) (λ i e. cc)

two_holders_example :
    (m : Machine) × Reach app (idle app) m × (m.phase 0 ≡ holding) × (m.phase 1 ≡ holding)
two_holders_example = two_holders app 0 1 (omega arith)

holder_without_lock_example :
    (m : Machine) × Reach app (idle app) m
    × (m.phase 1 ≡ holding)
    × (lookup (bytes "app") m.locks ≡ none)
holder_without_lock_example = holder_without_lock app 0 1 (omega arith) refl

any-ne-update_node_state : lock_action_any ≢ lock_action_update_node_state
any-ne-update_node_state e = cc

is_locked-update_node_state_example :
    is_locked {V = Unit {0}} lock_action_any (some (insert lock_action_update_node_state tt []))
    ≡ is_locked {V = Unit {0}} lock_action_any (some [])
is_locked-update_node_state_example =
    is_locked-update_node_state lock_action_any tt [] any-ne-update_node_state

abbrev LockedBy : Bytes → Type 0
LockedBy k = is_locked {V = Unit {0}} (bytes "app") (some (insert k tt [])) ≡ true
