-- ===== src/Nodes/Outcomes.antt =====
-- What has been done where DeleteNode and UpdateNodeState reply with success.
use grpc_gw_controller.Base.{ℕ, Option, none, some, Outcome, ◌≡◌, ◌⊎◌, inl, inr, refl}
use grpc_gw_controller.Base.Text.{Bytes, bytes}
use grpc_gw_controller.ClusterManager.{success, Reply, respond}
use grpc_gw_controller.ClusterManager.Admission.{status_of}
use grpc_gw_controller.Quotas.{respond_with}
use grpc_gw_controller.Nodes.{
  Node, NodeState, active, unschedulable, maintenance, other, node_state_drained, NodeClient,
  get_node_by_hostname, Body, node_state, UpdateNodeStateRequest, Run, unless_error, after_wait,
  drained_then, with_node, delete_node, switch_state, update_node_state,
}
use grpc_gw_controller.Nodes.Drained.{IsClock, Waited, wait_for_drained-Waited}

module _ {W B : Type 0} (client : NodeClient W) (marshal : Body → Outcome Bytes B) where
  -- The handler ends, and a success has what `P` says.
  abbrev pub EndsWith : (Reply B × W → Type 0) → Run client marshal → Type 0
  EndsWith P o = (r : Reply B × W) × (o ≡ some r) × (status_of r.0 ≡ some success → P r)

  -- A node of the hostname was drained, and `v` is the world in which that was seen.
  abbrev pub DrainedBefore : Bytes → Node → W → W → Type 0
  DrainedBefore host_name n w v =
      ((client.action_drain n w).0 ≡ none)
      × (u : W) × (m : Node) × (get_node_by_hostname client host_name u ≡ (inr m, v))
      × (m.state ≡ node_state_drained)

  unless_error-EndsWith :
      (P : Reply B × W → Type 0) (r : Option Bytes × W) (rest : W → Run client marshal)
      → (r.0 ≡ none → EndsWith P (rest r.1))
      → EndsWith P (unless_error client marshal r rest)
  unfolding respond
  unless_error-EndsWith P (some e, w) rest h = (_, refl, λ s. absurd cc)
  unless_error-EndsWith P (none, w) rest h = h refl

  after_wait-EndsWith :
      (P : Reply B × W → Type 0) (host_name : Bytes) (start : ℕ) (r : Option Bytes × W)
      (rest : W → Run client marshal)
      → Waited client host_name start r
      → ((u v : W) (m : Node)
          → get_node_by_hostname client host_name u ≡ (inr m, v)
          → m.state ≡ node_state_drained
          → EndsWith P (rest v))
      → EndsWith P (after_wait client marshal (some r) rest)
  unfolding respond
  after_wait-EndsWith P host_name start (some e, w) rest a h = (_, refl, λ s. absurd cc)
  after_wait-EndsWith P host_name start (none, w) rest (inl (z, u, m, g, d)) h = h u w m g d
  after_wait-EndsWith P host_name start (none, w) rest (inr (inl (e, u, z, g))) h = absurd cc
  after_wait-EndsWith P host_name start (none, w) rest (inr (inr (z, g))) h = absurd cc

  drained_then-EndsWith :
      (P : Reply B × W → Type 0) (host_name : Bytes) (n : Node) (w : W)
      (rest : W → Run client marshal)
      → IsClock client
      → ((v : W) → DrainedBefore host_name n w v → EndsWith P (rest v))
      → EndsWith P (drained_then client marshal host_name n w rest)
  drained_then-EndsWith P host_name n w rest c h =
      unless_error-EndsWith P (client.action_drain n w) _ (λ d.
        let v0 = (client.action_drain n w).1 in
        let wait = wait_for_drained-Waited client host_name v0 c in
        rw (wait.1) (
          after_wait-EndsWith P host_name (client.now v0) wait.0 rest wait.2
            (λ u v m g s. h v (d, u, m, g, s))))

  -- The node that the handler looked up first.
  abbrev pub Found : Bytes → W → (Node → W → Type 0) → Type 0
  Found host_name w P =
      (n : Node) × (v : W) × (get_node_by_hostname client host_name w ≡ (inr n, v)) × P n v

  with_node-EndsWith :
      (host_name : Bytes) (w : W) (P : Node → W → Reply B × W → Type 0) (found : (Bytes ⊎ Node) × W)
      (rest : Node → W → Run client marshal)
      → get_node_by_hostname client host_name w ≡ found
      → ((n : Node) (v : W) → EndsWith (P n v) (rest n v))
      → EndsWith (λ r. Found host_name w (λ n v. P n v r)) (with_node client marshal found rest)
  unfolding respond
  with_node-EndsWith host_name w P (inl e, v) rest eq h = (_, refl, λ s. absurd cc)
  with_node-EndsWith host_name w P (inr n, v) rest eq h =
      let r = h n v in (r.0, r.1, λ s. (n, v, eq, r.2 s))

  abbrev pub DeletedAfter : Bytes → Node → W → Reply B × W → Type 0
  DeletedAfter host_name n w r =
      (v : W) × DrainedBefore host_name n w v × (client.delete n v ≡ (none, r.1))

  -- What was done for a state, and what the reply says.
  abbrev pub ShowsState : Node → NodeState → Reply B → Type 0
  ShowsState n state reply =
      reply
      ≡ respond_with (bytes "The node was set to the new state")
          (marshal (node_state n.id n.hostname state))

  abbrev pub SetState : Bytes → NodeState → Node → W → Reply B × W → Type 0
  SetState host_name unschedulable n w r =
      (client.action_cordon n w ≡ (none, r.1)) × ShowsState n unschedulable r.0
  SetState host_name maintenance n w r =
      DrainedBefore host_name n w r.1 × ShowsState n maintenance r.0
  SetState host_name active n w r =
      (client.action_uncordon n w ≡ (none, r.1)) × ShowsState n active r.0
  SetState host_name (other k) n w r = (w ≡ r.1) × ShowsState n active r.0

  switch_state-EndsWith :
      (host_name : Bytes) (state : NodeState) (n : Node) (w : W)
      → IsClock client
      → EndsWith (SetState host_name state n w) (switch_state client marshal state host_name n w)
  unfolding switch_state
  switch_state-EndsWith host_name unschedulable n w c =
      unless_error-EndsWith _ (client.action_cordon n w) _ (λ z. (_, refl, λ s. (cc, refl)))
  switch_state-EndsWith host_name maintenance n w c =
      drained_then-EndsWith _ host_name n w _ c (λ v d. (_, refl, λ s. (d, refl)))
  switch_state-EndsWith host_name active n w c =
      unless_error-EndsWith _ (client.action_uncordon n w) _ (λ z. (_, refl, λ s. (cc, refl)))
  switch_state-EndsWith host_name (other k) n w c = (_, refl, λ s. (refl, refl))

-- DeleteNode ends, where the clock does not go back and a sleep takes its time. Where it replies with
-- success, the first node of the hostname was drained, a node of the hostname was then seen as drained,
-- and after that the first one was deleted; nothing was done later.
pub delete_node-Drains :
    {W B : Type 0} (client : NodeClient W) (marshal : Body → Outcome Bytes B) (host_name : Bytes)
    (w : W)
    → IsClock client
    → EndsWith client marshal
        (λ r. Found client marshal host_name w (λ n v. DeletedAfter client marshal host_name n v r))
        (delete_node client marshal host_name w)
unfolding delete_node
delete_node-Drains client marshal host_name w c =
    with_node-EndsWith client marshal host_name w (DeletedAfter client marshal host_name)
      (get_node_by_hostname client host_name w) _ refl
      (λ n w1. drained_then-EndsWith client marshal _ host_name n w1 _ c (λ w2 d.
        unless_error-EndsWith client marshal _ (client.delete n w2) _
          (λ z. (_, refl, λ s. (w2, d, cc)))))

-- UpdateNodeState ends, where the clock does not go back and a sleep takes its time. Where it replies
-- with success, the first node of the hostname was cordoned, or drained and seen as drained, or
-- uncordoned, as the state of the request says, and the reply shows that state. A state that is none of
-- the three changes nothing, and the reply shows the state active.
pub update_node_state-Sets :
    {W B : Type 0} (client : NodeClient W) (marshal : Body → Outcome Bytes B)
    (req : UpdateNodeStateRequest) (w : W)
    → IsClock client
    → EndsWith client marshal
        (λ r.
          Found client marshal req.hostname w
            (λ n v. SetState client marshal req.hostname req.state n v r))
        (update_node_state client marshal req w)
unfolding update_node_state
update_node_state-Sets client marshal req w c =
    with_node-EndsWith client marshal req.hostname w
      (SetState client marshal req.hostname req.state) (get_node_by_hostname client req.hostname w)
      _ refl (λ n v. switch_state-EndsWith client marshal req.hostname req.state n v c)
