-- ===== src/ClusterManager.antt =====
-- app/grpc/clustermanager/clustermanager.go: the handlers that the lock map governs, over the adapter
-- and the hosts that they reach. `go lcm.UpgradeCluster` is a change of the world here.
pub mod Admission
mod Tests
use grpc_gw_controller.Base.{
  Option, none, some, Bool, true, false, List, [], ◌∷◌, Outcome, ok, err, panic, if◌then◌else◌,
}
use grpc_gw_controller.Base.Text.{Bytes, bytes, contains}
use grpc_gw_controller.Mutex.{
  Mutex, lock, unlock, is_locked, lock_action_any, lock_action_upgrade_cluster,
  lock_action_create_node, lock_action_delete_node, lock_action_update_node_state,
}

pub data Status : Type 0 where
  success error in_progress : Status

pub record Response (B : Type 0) : Type 0 where
  pub status : Status
  pub message : Bytes
  pub body : Option B

abbrev pub Reply : Type 0 → Type 0
Reply B = Outcome Bytes (Response B)

-- `GenerateResponse` with no body.
unfoldable pub respond : {B : Type 0} → Status → Bytes → Reply B
respond status msg = ok (record { status = status; message = msg; body = none })

-- `ClusterManagerAdapter`, without the quotas, which the handlers do not pass on to it. The requests
-- are the adapter's alone.
pub record ClusterManagerAdapter (R N W B : Type 0) : Type 0 where
  pub get_cluster_info : R → N → W → Reply B × W
  pub create_node : R → W → Reply B × W
  pub delete_node : R → W → Reply B × W
  pub update_node_state : R → W → Reply B × W

-- What `UpgradeCluster` does outside the process: the ssh client, its session, the command that asks
-- whether an upgrade is available, the default namespace, and the goroutine that upgrades.
pub record Host (N W : Type 0) : Type 0 where
  pub create_ssh_client : W → Option Bytes × W
  pub new_session : W → Option Bytes × W
  pub run_available : W → Option Bytes × W
  pub get_default_namespace : W → Outcome Bytes N × W
  pub start_upgrade : N → W → W

-- The value under a lock is the response of the upgrade, or `nil`.
pub record Server (W B : Type 0) : Type 0 where
  pub mutex : Mutex (Option (Reply B))
  pub world : W

abbrev pub upgrading : {B : Type 0} → Reply B
upgrading = respond in_progress (bytes "AppHoster cluster upgrade in progress")

abbrev pub cluster_locked : {B : Type 0} → Reply B
cluster_locked = respond in_progress (bytes "AppHoster cluster is locked")

unfoldable pub no_upgrade_text : Bytes → Bytes
no_upgrade_text e =
    if contains (bytes "Process exited with status 1") e
    then bytes "no upgrade available"
    else if contains (bytes "Process exited with status 2") e
    then bytes "found multiple upgrade resources"
    else bytes "internal error"

module _ {W B : Type 0} where
  abbrev pub locked_in :
      Bytes
      → (W → Reply B × W)
      → Server W B
      → Outcome (Unit {0}) (Mutex (Option (Reply B)))
      → Reply B × Server W B
  locked_in key body s (ok m) =
      let (r, w) = body s.world in (r, record { mutex = unlock key m; world = w })
  locked_in key body s (err e) = (panic, s)
  locked_in key body s panic = (panic, s)

  -- The body of the three handlers of nodes.
  unfoldable pub node_handler : Bytes → (W → Reply B × W) → Server W B → Reply B × Server W B
  node_handler key body s =
      if is_locked lock_action_any s.mutex
      then (cluster_locked, s)
      else locked_in key body s (lock key none s.mutex)

  -- An error of a step outside ends the handler with the text `said` of it.
  abbrev pub unless_error :
      (Bytes → Bytes)
      → Option Bytes × W
      → (Server W B → Reply B × Server W B)
      → Server W B
      → Reply B × Server W B
  unless_error said (none, w) rest s = rest (record s { world = w })
  unless_error said (some e, w) rest s = (respond error (said e), record s { world = w })

module _ {N W B : Type 0} where
  abbrev pub start_in :
      Host N W
      → N
      → Server W B
      → Outcome (Unit {0}) (Mutex (Option (Reply B)))
      → Reply B × Server W B
  start_in host n s (ok m) = (upgrading, record { mutex = m; world = host.start_upgrade n s.world })
  start_in host n s (err e) = (panic, s)
  start_in host n s panic = (panic, s)

  abbrev pub namespace_in : Host N W → Server W B → Outcome Bytes N × W → Reply B × Server W B
  namespace_in host s (ok n, w) =
      start_in host n (record s { world = w })
        (lock lock_action_upgrade_cluster (some upgrading) s.mutex)
  namespace_in host s (err e, w) = (respond error e, record s { world = w })
  namespace_in host s (panic, w) = (panic, record s { world = w })

  unfoldable pub upgrade_cluster : Host N W → Server W B → Reply B × Server W B
  upgrade_cluster host s =
      if is_locked lock_action_upgrade_cluster s.mutex
      then (upgrading, s)
      else unless_error (λ e. e) (host.create_ssh_client s.world)
          (λ s1.
            unless_error (λ e. e) (host.new_session s1.world)
              (λ s2.
                unless_error no_upgrade_text (host.run_available s2.world)
                  (λ s3. namespace_in host s3 (host.get_default_namespace s3.world)) s2)
              s1)
          s

module _ {R N W B : Type 0} where
  unfoldable pub create_node : ClusterManagerAdapter R N W B → R → Server W B → Reply B × Server W B
  create_node adapter req s = node_handler lock_action_create_node (adapter.create_node req) s

  unfoldable pub delete_node : ClusterManagerAdapter R N W B → R → Server W B → Reply B × Server W B
  delete_node adapter req s = node_handler lock_action_delete_node (adapter.delete_node req) s

  unfoldable pub update_node_state :
      ClusterManagerAdapter R N W B → R → Server W B → Reply B × Server W B
  update_node_state adapter req s =
      node_handler lock_action_update_node_state (adapter.update_node_state req) s

  abbrev pub info_in :
      ClusterManagerAdapter R N W B → R → Server W B → Outcome Bytes N × W → Reply B × Server W B
  info_in adapter req s (ok n, w) =
      let (r, w2) = adapter.get_cluster_info req n w in (r, record s { world = w2 })
  info_in adapter req s (err e, w) = (respond error e, record s { world = w })
  info_in adapter req s (panic, w) = (panic, record s { world = w })

  unfoldable pub get_cluster_info :
      ClusterManagerAdapter R N W B → Host N W → R → Server W B → Reply B × Server W B
  get_cluster_info adapter host req s =
      if is_locked lock_action_upgrade_cluster s.mutex
      then (upgrading, s)
      else info_in adapter req s (host.get_default_namespace s.world)
