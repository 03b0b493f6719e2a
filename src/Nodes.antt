-- ===== src/Nodes.antt =====
-- app/grpc/clustermanager/adapters/rancher/adapter.go: `DeleteNode`, `UpdateNodeState` and `CreateNode`
-- of the Rancher adapter, with `getNodeByHostname` and `waitForDrained`. The Rancher client and the
-- clock, in nanoseconds, are given. The loop of `waitForDrained` runs on fuel: it asks at most once a
-- second and gives up after 181 seconds, so that 182 rounds are enough.
pub mod Drained
pub mod Outcomes
mod Tests
use grpc_gw_controller.Base.{
  ℕ, zero, suc, ◌-◌, ◌/◌, ◌*◌, Option, none, some, Bool, List, [], ◌∷◌, ◌++◌, Outcome, ◌⊎◌, inl,
  inr, if◌then◌else◌, ltb, bytes_eq,
}
use grpc_gw_controller.Base.Text.{Bytes, bytes}
use grpc_gw_controller.ClusterManager.{Reply, error, respond}
use grpc_gw_controller.Quotas.{respond_with}

abbrev pub node_state_active : Bytes
node_state_active = bytes "active"

abbrev pub node_state_cordoned : Bytes
node_state_cordoned = bytes "cordoned"

abbrev pub node_state_drained : Bytes
node_state_drained = bytes "drained"

-- A number that is none of the three reaches the handler too.
pub data NodeState : Type 0 where
  active unschedulable maintenance : NodeState
  other : ℕ → NodeState

unfoldable pub get_state : Bytes → NodeState
get_state state =
    if bytes_eq state node_state_active
    then active
    else if bytes_eq state node_state_cordoned
    then unschedulable
    else if bytes_eq state node_state_drained
    then maintenance
    else active

pub record Node : Type 0 where
  pub id : Bytes
  pub hostname : Bytes
  pub state : Bytes

-- `Node.List` by hostname, or of all nodes, the actions on a node, and the clock.
pub record NodeClient (W : Type 0) : Type 0 where
  pub list_by_hostname : Bytes → W → Option Bytes × List Node × W
  pub list_all : W → Option Bytes × List Node × W
  pub action_drain : Node → W → Option Bytes × W
  pub action_cordon : Node → W → Option Bytes × W
  pub action_uncordon : Node → W → Option Bytes × W
  pub delete : Node → W → Option Bytes × W
  pub now : W → ℕ
  pub sleep : ℕ → W → W

abbrev pub first_node : Bytes → List Node → Bytes ⊎ Node
first_node host_name [] = inl (bytes "node " ++ (host_name ++ bytes " not found"))
first_node host_name (n ∷ ns) = inr n

abbrev pub second : ℕ
second = 1000000000

module _ {W : Type 0} (client : NodeClient W) where
  abbrev pub node_of : Bytes → Option Bytes × List Node × W → (Bytes ⊎ Node) × W
  node_of host_name (some e, ns, w) = (inl e, w)
  node_of host_name (none, ns, w) = (first_node host_name ns, w)

  unfoldable pub get_node_by_hostname : Bytes → W → (Bytes ⊎ Node) × W
  get_node_by_hostname host_name w = node_of host_name (client.list_by_hostname host_name w)

  -- One round, and the rounds that follow it.
  abbrev pub drain_round :
      Bytes → ℕ → (W → Option (Option Bytes × W)) → (Bytes ⊎ Node) × W → Option (Option Bytes × W)
  drain_round host_name start rest (inr h, w) =
      if bytes_eq h.state node_state_drained
      then some (none, w)
      else if ltb 180 ((client.now w - start) / second)
      then some (some (bytes "timed out waiting for draining the node " ++ host_name), w)
      else rest (client.sleep second w)
  drain_round host_name start rest (inl e, w) = some (some e, w)

  unfoldable pub drain_rounds : ℕ → Bytes → ℕ → W → Option (Option Bytes × W)
  drain_rounds zero host_name start w = none
  drain_rounds (suc fuel) host_name start w =
      drain_round host_name start (drain_rounds fuel host_name start)
        (get_node_by_hostname host_name w)

  unfoldable pub wait_for_drained : Bytes → W → Option (Option Bytes × W)
  wait_for_drained host_name w = drain_rounds 182 host_name (client.now w) w

-- The bodies of the responses: of `DeleteNode` it has no state.
pub data Body : Type 0 where
  deleted_node : Bytes → Bytes → Body
  node_state : Bytes → Bytes → NodeState → Body
  new_node : Bytes → Bytes → Bool → Body

pub record CreateNodeRequest : Type 0 where
  pub hostname : Bytes
  pub master : Bool

pub record UpdateNodeStateRequest : Type 0 where
  pub hostname : Bytes
  pub state : NodeState

module _ {W B : Type 0} (client : NodeClient W) (marshal : Body → Outcome Bytes B) where
  abbrev pub Run : Type 0
  Run = Option (Reply B × W)

  -- An error of a call ends the handler with its text.
  abbrev pub unless_error : Option Bytes × W → (W → Run) → Run
  unless_error (some e, w) rest = some (respond error e, w)
  unless_error (none, w) rest = rest w

  -- Drain and wait.
  abbrev pub after_wait : Option (Option Bytes × W) → (W → Run) → Run
  after_wait none rest = none
  after_wait (some r) rest = unless_error r rest

  abbrev pub drained_then : Bytes → Node → W → (W → Run) → Run
  drained_then host_name n w rest =
      unless_error (client.action_drain n w)
        (λ v. after_wait (wait_for_drained client host_name v) rest)

  abbrev pub with_node : (Bytes ⊎ Node) × W → (Node → W → Run) → Run
  with_node (inr n, w) rest = rest n w
  with_node (inl e, w) rest = some (respond error e, w)

  unfoldable pub delete_node : Bytes → W → Run
  delete_node host_name w = with_node (get_node_by_hostname client host_name w) (λ n w1.
      drained_then host_name n w1 (λ w2. unless_error (client.delete n w2) (λ w3. some (
        respond_with (bytes "The node was deleted") (marshal (deleted_node n.id n.hostname)),
        w3,
      ))))

  abbrev pub set_to : Node → NodeState → W → Run
  set_to n state w = some (
    respond_with (bytes "The node was set to the new state")
        (marshal (node_state n.id n.hostname state)),
    w,
  )

  -- The `switch`: a state that is none of the three is no case, and the body keeps the zero value.
  unfoldable pub switch_state : NodeState → Bytes → Node → W → Run
  switch_state unschedulable host_name n w =
      unless_error (client.action_cordon n w) (set_to n unschedulable)
  switch_state maintenance host_name n w = drained_then host_name n w (set_to n maintenance)
  switch_state active host_name n w = unless_error (client.action_uncordon n w) (set_to n active)
  switch_state (other k) host_name n w = set_to n active w

  unfoldable pub update_node_state : UpdateNodeStateRequest → W → Run
  update_node_state req w =
      with_node (get_node_by_hostname client req.hostname w) (switch_state req.state req.hostname)

  abbrev pub after_list_nodes : CreateNodeRequest → Option Bytes × List Node × W → Reply B × W
  after_list_nodes req (some e, ns, w) = (respond error e, w)
  after_list_nodes req (none, [], w) = (respond error (bytes "no AppHoster nodes found"), w)
  after_list_nodes req (none, n ∷ ns, w) = (
    respond_with (bytes "The new node was added")
        (marshal (new_node (bytes "dummyID") req.hostname req.master)),
    w,
  )

  unfoldable pub create_node : CreateNodeRequest → W → Reply B × W
  create_node req w = after_list_nodes req (client.list_all w)
