-- ===== src/Mutex.antt =====
-- app/common/mutex/mutex.go: the map of named locks that all handlers of the process share.
-- A value of `Mutex` is the package's variable `instance`, and `none` the nil map before `New`.
pub mod Laws
pub mod Interleaving
pub mod Race
mod Tests
use grpc_gw_controller.Base.{
  Option, none, some, Bool, true, false, List, [], ◌∷◌, Outcome, ok, panic, ◌||◌, ℕ, bytes_Eq,
}
use grpc_gw_controller.Base.Text.{Bytes, bytes}
use grpc_gw_controller.Base.Dict.{Dict, lookup, insert, erase, is_some}

abbrev pub lock_action_upgrade_cluster : Bytes
lock_action_upgrade_cluster = bytes "UpgradeCluster"

abbrev pub lock_action_enable_disable_apps : Bytes
lock_action_enable_disable_apps = bytes "EnableDisableApps"

abbrev pub lock_action_delete_apps : Bytes
lock_action_delete_apps = bytes "DeleteApps"

abbrev pub lock_action_create_node : Bytes
lock_action_create_node = bytes "AddNode"

abbrev pub lock_action_update_node_state : Bytes
lock_action_update_node_state = bytes "UpdateNodeState"

abbrev pub lock_action_delete_node : Bytes
lock_action_delete_node = bytes "RemoveNode"

abbrev pub lock_action_any : Bytes
lock_action_any = bytes "AnyAction"

abbrev pub Locks {ℓ} : Type ℓ → Type ℓ
Locks V = Dict Bytes V

abbrev pub Mutex {ℓ} : Type ℓ → Type ℓ
Mutex V = Option (Locks V)

module _ {ℓ} {V : Type ℓ} where
  -- `once.Do` makes the map on the first call only.
  unfoldable pub new : Mutex V → Mutex V
  new none = some []
  new (some m) = some m

  -- A write to the nil map panics.
  unfoldable pub lock : Bytes → V → Mutex V → Outcome (Unit {ℓ}) (Mutex V)
  lock key value none = panic
  lock key value (some m) = ok (some (insert key value m))

  -- `delete` is called for a key that is there.
  unfoldable pub unlock : Bytes → Mutex V → Mutex V
  unlock key none = none
  unlock key (some m) = some (erase key m)

  abbrev pub has : Mutex V → Bytes → Bool
  has none k = false
  has (some m) k = is_some (lookup k m)

  abbrev any_of : Mutex V → List Bytes → Bool
  any_of m [] = false
  any_of m (k ∷ ks) = has m k || any_of m ks

  -- The list has neither the key of `UpdateNodeState` nor `AnyAction`.
  unfoldable pub is_locked : Bytes → Mutex V → Bool
  is_locked key m = any_of m (
      key ∷ lock_action_enable_disable_apps ∷ lock_action_delete_apps ∷ lock_action_upgrade_cluster
      ∷ lock_action_create_node ∷ lock_action_delete_node ∷ [])
