-- ===== src/ClusterManager/Admission.antt =====
-- What the lock of a cluster upgrade keeps out, and what the handlers of nodes do.
use grpc_gw_controller.Base.{
  Option, none, some, true, false, Outcome, ok, err, panic, ◌≡◌, ◌≢◌, ◌⊎◌, inl, inr, refl, arith,
  Bool-cases, bytes_Eq, ap, ◌∙◌,
}
use grpc_gw_controller.Base.Text.{Bytes}
use grpc_gw_controller.Base.Dict.{erase, erase_fresh, erase-insert_same}
use grpc_gw_controller.Mutex.{
  Mutex, Locks, lock, unlock, is_locked, lock_action_any, lock_action_upgrade_cluster,
  lock_action_create_node, lock_action_delete_node, lock_action_update_node_state,
}
use grpc_gw_controller.Mutex.Laws.{is_locked-global}
use grpc_gw_controller.ClusterManager.{
  Status, error, in_progress, Reply, respond, ClusterManagerAdapter, Host, Server, upgrading,
  cluster_locked, node_handler, create_node, delete_node, update_node_state, upgrade_cluster,
  unless_error, namespace_in,
}

abbrev pub status_of : {B : Type 0} → Reply B → Option Status
status_of (ok r) = some r.status
status_of (err e) = none
status_of panic = none

-- A global key, once locked, locks every key.
global-is_locked :
    {V : Type 0} (key : Bytes) (m : Mutex V)
    → is_locked lock_action_upgrade_cluster m ≡ true
    → is_locked key m ≡ true
unfolding is_locked
global-is_locked key none h = cc
global-is_locked key (some m) h = ground arith

any-is_locked :
    {V : Type 0} (m : Mutex V)
    → is_locked lock_action_create_node m ≡ true
    → is_locked lock_action_any m ≡ true
unfolding is_locked
any-is_locked none h = cc
any-is_locked (some m) h = ground arith

-- An "in progress" reply locks every key; any other leaves the locks as they were.
abbrev pub LocksOut :
    {W B : Type 0} → Locks (Option (Reply B)) → Bytes → Reply B × Server W B → Type 0
LocksOut m key r =
    (status_of r.0 ≡ some in_progress → is_locked key r.1.mutex ≡ true)
    × (status_of r.0 ≢ some in_progress → r.1.mutex ≡ some m)

module _ {N W B : Type 0} (host : Host N W) (m : Locks (Option (Reply B))) (key : Bytes) where
  error-LocksOut :
      (text : Bytes) (w : W)
      → LocksOut m key (respond error text, record { mutex = some m; world = w })
  unfolding respond
  error-LocksOut text w = (λ h. cc, λ n. refl)

  unless_error-LocksOut :
      (said : Bytes → Bytes) (o : Option Bytes) (w v : W) (rest : Server W B → Reply B × Server W B)
      → ((u : W) → LocksOut m key (rest (record { mutex = some m; world = u })))
      → LocksOut m key (unless_error said (o, w) rest (record { mutex = some m; world = v }))
  unless_error-LocksOut said none w v rest h = h w
  unless_error-LocksOut said (some e) w v rest h = error-LocksOut (said e) w

  namespace_in-LocksOut :
      (o : Outcome Bytes N) (w v : W)
      → LocksOut m key (namespace_in host (record { mutex = some m; world = v }) (o, w))
  unfolding respond lock
  namespace_in-LocksOut (ok n) w v =
      (λ h. (is_locked-global key (some upgrading) m).2, λ n. absurd (n refl))
  namespace_in-LocksOut (err e) w v = error-LocksOut e w
  namespace_in-LocksOut panic w v = (λ h. cc, λ n. refl)

  busy-LocksOut :
      (w : W)
      → is_locked lock_action_upgrade_cluster (some m) ≡ true
      → LocksOut m key (upgrading, record { mutex = some m; world = w })
  unfolding respond
  busy-LocksOut w h = (λ _. global-is_locked key (some m) h, λ n. absurd (n refl))

-- Once the map of locks is made, a reply of UpgradeCluster that the upgrade is in progress means that
-- every key is locked when it is sent, for this service and the AppManager; after any other reply the
-- locks are as they were.
pub upgrade_cluster-LocksOut :
    {N W B : Type 0} (host : Host N W) (m : Locks (Option (Reply B))) (w : W) (key : Bytes)
    → let r = upgrade_cluster host (record { mutex = some m; world = w }) in
      (status_of r.0 ≡ some in_progress → is_locked key r.1.mutex ≡ true)
      × (status_of r.0 ≢ some in_progress → r.1.mutex ≡ some m)
unfolding upgrade_cluster
upgrade_cluster-LocksOut host m w key =
    elim (Bool-cases (is_locked lock_action_upgrade_cluster (some m))) [
      | inl e ↦ rw e (busy-LocksOut host m key w e)
      | inr e ↦ rw e (
          unless_error-LocksOut host m key _ (host.create_ssh_client w).0
            (host.create_ssh_client w).1 w _
            (λ u.
              unless_error-LocksOut host m key _ (host.new_session u).0 (host.new_session u).1 u _
                (λ v.
                  unless_error-LocksOut host m key _ (host.run_available v).0
                    (host.run_available v).1 v _
                    (λ x.
                      namespace_in-LocksOut host m key (host.get_default_namespace x).0
                        (host.get_default_namespace x).1 x))))
    ]

module _ {W B : Type 0} (key : Bytes) (body : W → Reply B × W) (m : Locks (Option (Reply B)))
    (w : W) where
  node_handler-refused :
      is_locked lock_action_any (some m) ≡ true
      → node_handler key body (record { mutex = some m; world = w })
        ≡ (cluster_locked, record { mutex = some m; world = w })
  unfolding node_handler
  node_handler-refused h = rw h refl

  node_handler-admitted :
      is_locked lock_action_any (some m) ≡ false
      → node_handler key body (record { mutex = some m; world = w })
        ≡ ((body w).0, record { mutex = some (erase key m); world = (body w).1 })
  unfolding node_handler lock unlock
  node_handler-admitted h = rw h (
      ap (λ d. ((body w).0, record { mutex = some d; world = (body w).1 }))
        (erase-insert_same key none m))

-- A key of the five that every check looks at is free where no key is locked.
free_key :
    {V : Type 0} (m : Locks V) (key : Bytes)
    → (key ≡ lock_action_create_node) ⊎ (key ≡ lock_action_delete_node)
    → is_locked lock_action_any (some m) ≡ false
    → erase key m ≡ m
unfolding is_locked
free_key m key (inl e) h = erase_fresh key m (rw e (ground arith))
free_key m key (inr e) h = erase_fresh key m (rw e (ground arith))

-- Once the map of locks is made, the three handlers of nodes refuse while a global key or AnyAction is
-- locked, and then change nothing. Otherwise each does the adapter's work; creating and deleting a
-- node leave the locks as they were, while a change of a node's state removes the lock of that action,
-- whoever took it.
pub node_handlers-locks :
    {R N W B : Type 0} (adapter : ClusterManagerAdapter R N W B) (req : R)
    (m : Locks (Option (Reply B))) (w : W)
    → let s : Server W B = record { mutex = some m; world = w } in
      (is_locked lock_action_any (some m) ≡ true
        → (create_node adapter req s ≡ (cluster_locked, s))
          × (delete_node adapter req s ≡ (cluster_locked, s))
          × (update_node_state adapter req s ≡ (cluster_locked, s)))
      × (is_locked lock_action_any (some m) ≡ false
          → (create_node adapter req s ≡ (
            (adapter.create_node req w).0,
            record { mutex = some m; world = (adapter.create_node req w).1 },
          ))
            × (delete_node adapter req s ≡ (
              (adapter.delete_node req w).0,
              record { mutex = some m; world = (adapter.delete_node req w).1 },
            ))
            × (update_node_state adapter req s ≡ (
              (adapter.update_node_state req w).0,
              record {
                mutex = some (erase lock_action_update_node_state m);
                world = (adapter.update_node_state req w).1;
              },
            )))
unfolding create_node delete_node update_node_state
node_handlers-locks adapter req m w = (
  λ h. (
    node_handler-refused _ _ m w h,
    node_handler-refused _ _ m w h,
    node_handler-refused _ _ m w h,
  ),
  λ h. (
    node_handler-admitted lock_action_create_node (adapter.create_node req) m w h
        ∙ rw (free_key m lock_action_create_node (inl refl) h) refl,
    node_handler-admitted lock_action_delete_node (adapter.delete_node req) m w h
        ∙ rw (free_key m lock_action_delete_node (inr refl) h) refl,
    node_handler-admitted lock_action_update_node_state (adapter.update_node_state req) m w h,
  ),
)
