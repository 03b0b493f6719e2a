-- ===== src/Nodes/Tests.antt =====
-- A cluster of one node, which takes three seconds to drain.
use grpc_gw_controller.Base.{
  ℕ, ◌+◌, ◌*◌, Option, none, some, List, [], ◌∷◌, Outcome, ok, bytes_eq, if◌then◌else◌, leb, arith,
  ◌≡◌, refl,
}
use grpc_gw_controller.Base.Text.{Bytes, bytes}
use grpc_gw_controller.Quotas.{respond_with}
use grpc_gw_controller.Nodes.{
  Node, active, maintenance, other, NodeClient, get_state, second, get_node_by_hostname,
  drain_rounds, wait_for_drained, Body, deleted_node, node_state, delete_node, switch_state,
  update_node_state,
}
use grpc_gw_controller.Nodes.Drained.{IsClock, Waited, wait_for_drained-Waited}
use grpc_gw_controller.Nodes.Outcomes.{
  EndsWith, Found, DeletedAfter, SetState, delete_node-Drains, update_node_state-Sets,
}

abbrev reply_body : Body → Outcome Bytes Body
reply_body b = ok b

record Cluster : Type 0 where
  pub time : ℕ
  pub drained_at : ℕ
  pub nodes : List Node

abbrev worker : Node
worker = record { id = bytes "n1"; hostname = bytes "worker"; state = bytes "active" }

abbrev drained : List Node → List Node
drained [] = []
drained (n ∷ ns) = record n { state = bytes "drained" } ∷ ns

abbrev shown : Cluster → List Node
shown w = if leb w.drained_at w.time then drained w.nodes else w.nodes

abbrev cluster_client : NodeClient Cluster
cluster_client = record {
  list_by_hostname = λ h w. (none, shown w, w);
  list_all = λ w. (none, shown w, w);
  action_drain = λ n w. (none, record w { drained_at = w.time + 3 * second });
  action_cordon = λ n w. (none, w);
  action_uncordon = λ n w. (some (bytes "not allowed"), w);
  delete = λ n w. (none, record w { nodes = [] });
  now = λ w. w.time;
  sleep = λ d w. record w { time = w.time + d };
}

abbrev quiet : Cluster
quiet = record { time = 0; drained_at = 1000 * second; nodes = worker ∷ [] }

cluster_client-IsClock : IsClock cluster_client
cluster_client-IsClock = record { sleeps = λ d w. omega arith; lists = λ h w. omega arith }

nodes_runs :
    (delete_node cluster_client reply_body (bytes "worker") quiet
      ≡ some (
        respond_with
            (bytes "The node was deleted")
            (ok (deleted_node (bytes "n1") (bytes "worker"))),
        record { time = 3 * second; drained_at = 3 * second; nodes = [] },
      ))
    × (update_node_state cluster_client reply_body
          (record { hostname = bytes "worker"; state = other 7 })
          quiet
        ≡ some (
          respond_with
              (bytes "The node was set to the new state")
              (ok (node_state (bytes "n1") (bytes "worker") active)),
          quiet,
        ))
    × (get_state (bytes "drained") ≡ maintenance)
    × (get_state (bytes "removed") ≡ active)
unfolding delete_node update_node_state get_node_by_hostname wait_for_drained drain_rounds bytes_eq
    switch_state get_state
nodes_runs = (refl, refl, refl, refl)

wait_for_drained-Waited_example :
    (r : Option Bytes × Cluster) × (wait_for_drained cluster_client (bytes "worker") quiet ≡ some r)
    × Waited cluster_client (bytes "worker") 0 r
wait_for_drained-Waited_example =
    wait_for_drained-Waited cluster_client (bytes "worker") quiet cluster_client-IsClock

delete_node-Drains_example :
    EndsWith cluster_client reply_body
      (λ r.
        Found cluster_client reply_body
          (bytes "worker")
          quiet
          (λ n v. DeletedAfter cluster_client reply_body (bytes "worker") n v r))
      (delete_node cluster_client reply_body (bytes "worker") quiet)
delete_node-Drains_example =
    delete_node-Drains cluster_client reply_body (bytes "worker") quiet cluster_client-IsClock

update_node_state-Sets_example :
    EndsWith cluster_client reply_body
      (λ r.
        Found cluster_client reply_body
          (bytes "worker")
          quiet
          (λ n v. SetState cluster_client reply_body (bytes "worker") maintenance n v r))
      (update_node_state cluster_client reply_body
        (record { hostname = bytes "worker"; state = maintenance })
        quiet)
update_node_state-Sets_example =
    update_node_state-Sets cluster_client reply_body
      (record { hostname = bytes "worker"; state = maintenance }) quiet cluster_client-IsClock
