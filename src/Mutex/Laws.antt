-- ===== src/Mutex/Laws.antt =====
-- What a handler may rely on between its `IsLocked`, `Lock` and `Unlock`.
use grpc_gw_controller.Base.{
  none, some, true, false, arith, ◌≡◌, ◌≢◌, bytes_Eq, bytes_eq, bytes_eq_iff, ap,
}
use grpc_gw_controller.Base.Text.{Bytes}
use grpc_gw_controller.Base.Dict.{lookup, insert, lookup-insert, erase-insert}
use grpc_gw_controller.Mutex.{
  Locks, unlock, is_locked, lock_action_update_node_state, lock_action_enable_disable_apps,
  lock_action_delete_apps, lock_action_upgrade_cluster, lock_action_create_node,
  lock_action_delete_node,
}

module _ {ℓ} {V : Type ℓ} where
  -- A key that is not locked has no entry.
  pub is_locked-fresh :
      (key : Bytes) (m : Locks V) → is_locked key (some m) ≡ false → lookup key m ≡ none
  unfolding is_locked
  is_locked-fresh key m h = ground arith

  -- From a state in which the key is free, a lock and its unlock leave the map as it was.
  pub unlock-lock :
      (key : Bytes) (v : V) (m : Locks V)
      → is_locked key (some m) ≡ false
      → unlock key (some (insert key v m)) ≡ some m
  unfolding unlock
  unlock-lock key v m h = ap some (erase-insert key v m (is_locked-fresh key m h))

  pub is_locked-insert_self :
      (key : Bytes) (v : V) (m : Locks V) → is_locked key (some (insert key v m)) ≡ true
  unfolding is_locked
  is_locked-insert_self key v m = ground (arith, lookup-insert key key v m, bytes_eq_iff key key)

  -- The lock of a node's state change is seen by no check of another key.
  pub is_locked-update_node_state :
      (key : Bytes) (v : V) (m : Locks V)
      → key ≢ lock_action_update_node_state
      → is_locked key (some (insert lock_action_update_node_state v m)) ≡ is_locked key (some m)
  unfolding is_locked bytes_eq
  is_locked-update_node_state key v m differ =
      simp lookup-insert (ground (arith, bytes_eq_iff lock_action_update_node_state key))

  -- Each of the five global keys, once locked, locks every key.
  pub is_locked-global :
      (key : Bytes) (v : V) (m : Locks V)
      → (is_locked key (some (insert lock_action_enable_disable_apps v m)) ≡ true)
        × (is_locked key (some (insert lock_action_delete_apps v m)) ≡ true)
        × (is_locked key (some (insert lock_action_upgrade_cluster v m)) ≡ true)
        × (is_locked key (some (insert lock_action_create_node v m)) ≡ true)
        × (is_locked key (some (insert lock_action_delete_node v m)) ≡ true)
  unfolding is_locked bytes_eq
  is_locked-global key v m = (
    simp lookup-insert (ground arith),
    simp lookup-insert (ground arith),
    simp lookup-insert (ground arith),
    simp lookup-insert (ground arith),
    simp lookup-insert (ground arith),
  )
