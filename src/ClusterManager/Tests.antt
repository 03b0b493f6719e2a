-- ===== src/ClusterManager/Tests.antt =====
-- The theorems about the ClusterManager handlers at a concrete cluster.
use grpc_gw_controller.Base.{
  ℕ, ◌+◌, none, some, true, false, [], ok, ◌≡◌, ◌≢◌, refl, bytes_Eq, bytes_eq,
}
use grpc_gw_controller.Base.Text.{bytes, contains, has_prefix}
use grpc_gw_controller.Base.Dict.{erase, lookup, insert}
use grpc_gw_controller.Mutex.{is_locked, lock, lock_action_any, lock_action_update_node_state}
use grpc_gw_controller.ClusterManager.{
  success, in_progress, Reply, respond, ClusterManagerAdapter, Host, Server, cluster_locked,
  create_node, delete_node, update_node_state, upgrade_cluster, no_upgrade_text,
}
use grpc_gw_controller.ClusterManager.Admission.{
  status_of, upgrade_cluster-LocksOut, node_handlers-locks,
}

-- The world counts what was done to it.
abbrev host : Host ℕ ℕ
host = record {
  create_ssh_client = λ w. (none, w + 1);
  new_session = λ w. (none, w + 1);
  run_available = λ w. (none, w + 1);
  get_default_namespace = λ w. (ok 7, w + 1);
  start_upgrade = λ n w. w + n;
}

abbrev done_well : Reply ℕ
done_well = respond success (bytes "done")

abbrev adapter : ClusterManagerAdapter ℕ ℕ ℕ ℕ
adapter = record {
  get_cluster_info = λ r n w. (done_well, w);
  create_node = λ r w. (done_well, w + r);
  delete_node = λ r w. (done_well, w + r);
  update_node_state = λ r w. (done_well, w + r);
}

exit_status_runs :
    (no_upgrade_text (bytes "Process exited with status 2")
      ≡ bytes "found multiple upgrade resources")
    × (no_upgrade_text (bytes "timeout") ≡ bytes "internal error")
unfolding no_upgrade_text contains has_prefix bytes_eq
exit_status_runs = (refl, refl)

upgrade_runs :
    status_of (upgrade_cluster {B = ℕ} host (record { mutex = some []; world = 0 })).0
    ≡ some in_progress
unfolding upgrade_cluster is_locked lookup insert lock respond
upgrade_runs = refl

upgrade_cluster-LocksOut_example :
    let r = upgrade_cluster {B = ℕ} host (record { mutex = some []; world = 0 }) in
    (status_of r.0 ≡ some in_progress → is_locked (bytes "app") r.1.mutex ≡ true)
    × (status_of r.0 ≢ some in_progress → r.1.mutex ≡ some [])
upgrade_cluster-LocksOut_example = upgrade_cluster-LocksOut host [] 0 (bytes "app")

node_handlers-locks_example :
    let s : Server ℕ ℕ = record { mutex = some []; world = 0 } in
    (is_locked lock_action_any s.mutex ≡ true
      → (create_node adapter 1 s ≡ (cluster_locked, s))
        × (delete_node adapter 1 s ≡ (cluster_locked, s))
        × (update_node_state adapter 1 s ≡ (cluster_locked, s)))
    × (is_locked lock_action_any s.mutex ≡ false
        → (create_node adapter 1 s ≡ (done_well, record { mutex = some []; world = 1 }))
          × (delete_node adapter 1 s ≡ (done_well, record { mutex = some []; world = 1 }))
          × (update_node_state adapter 1 s ≡ (
            done_well,
            record { mutex = some (erase lock_action_update_node_state []); world = 1 },
          )))
node_handlers-locks_example = node_handlers-locks adapter 1 [] 0
