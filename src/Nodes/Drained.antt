-- ===== src/Nodes/Drained.antt =====
-- `waitForDrained` ends, and what its end means.
use grpc_gw_controller.Base.{
  ℕ, zero, suc, ◌+◌, ◌-◌, ◌*◌, ◌/◌, ◌≤◌, Option, none, some, ◌++◌, true, List, ltb, bytes_eq,
  bytes_eq_iff, ltb-false→le, Bool-cases, arith, ◌≡◌, ◌⊎◌, inl, inr, refl,
}
use grpc_gw_controller.Base.Text.{Bytes, bytes}
use grpc_gw_controller.Nodes.{
  Node, NodeClient, node_state_drained, second, get_node_by_hostname, drain_round, drain_rounds,
  wait_for_drained, node_of,
}

-- The clock does not go back, and a sleep takes its time.
pub record IsClock {W : Type 0} (client : NodeClient W) : Type 0 where
  pub sleeps : (d : ℕ) (w : W) → client.now w + d ≤ client.now (client.sleep d w)
  pub lists : (h : Bytes) (w : W) → client.now w ≤ client.now (client.list_by_hostname h w).2

module _ {W : Type 0} (client : NodeClient W) (host_name : Bytes) (start : ℕ) where
  -- The wait ended because a node is drained, because a list failed, or because it was too long.
  abbrev pub Waited : Option Bytes × W → Type 0
  Waited r =
      ((r.0 ≡ none)
        × (u : W) × (n : Node) × (get_node_by_hostname client host_name u ≡ (inr n, r.1))
        × (n.state ≡ node_state_drained))
      ⊎ (((e : Bytes) × (u : W) × (r.0 ≡ some e)
            × (get_node_by_hostname client host_name u ≡ (inl e, r.1)))
          ⊎ ((r.0 ≡ some (bytes "timed out waiting for draining the node " ++ host_name))
              × (start + 181 * second ≤ client.now r.1)))

  abbrev Ends : Option (Option Bytes × W) → Type 0
  Ends o = (r : Option Bytes × W) × (o ≡ some r) × Waited r

  late-Ends :
      (v : W)
      → ltb 180 ((client.now v - start) / second) ≡ true
      → Waited (some (bytes "timed out waiting for draining the node " ++ host_name), v)
  late-Ends v h = inr (inr (refl, ground arith))

  drain_round-Ends :
      (f : ℕ) (rest : W → Option (Option Bytes × W)) (u : W) (found : (Bytes ⊎ Node) × W)
      → get_node_by_hostname client host_name u ≡ found
      → IsClock client
      → f ≤ 181
      → start + (181 - f) * second ≤ client.now found.1
      → (1 ≤ f → (v : W) → start + (182 - f) * second ≤ client.now v → Ends (rest v))
      → Ends (drain_round client host_name start rest found)
  drain_round-Ends f rest u (inl e, w) eq c l h go = ((some e, w), refl, inr (inl (e, u, refl, eq)))
  drain_round-Ends f rest u (inr n, w) eq c l h go =
      elim (Bool-cases (bytes_eq n.state node_state_drained)) [
        | inl d ↦
            rw d
              ((none, w), refl, inl (refl, u, n, eq, (bytes_eq_iff n.state node_state_drained).0 d))
        | inr d ↦ rw d (elim (Bool-cases (ltb 180 ((client.now w - start) / second))) [
          | inl t ↦ rw t (_, refl, late-Ends w t)
          | inr t ↦ rw t (
              go (omega (arith, ltb-false→le 180 ((client.now w - start) / second) t, h, l))
                (client.sleep second w) (omega (arith, c.sleeps second w, h, l)))
        ])
      ]

  now-node_of :
      (u : W)
      → IsClock client
      → client.now u ≤ client.now (get_node_by_hostname client host_name u).1
  unfolding get_node_by_hostname
  now-node_of u c = go (client.list_by_hostname host_name u) (c.lists host_name u)
    where
      go :
          (o : Option Bytes × List Node × W)
          → client.now u ≤ client.now o.2
          → client.now u ≤ client.now (node_of client host_name o).1
      go (some e, ns, w) h = h
      go (none, ns, w) h = h

  drain_rounds-Ends :
      (fuel : ℕ) (u : W)
      → IsClock client
      → 1 ≤ fuel
      → fuel ≤ 182
      → start + (182 - fuel) * second ≤ client.now u
      → Ends (drain_rounds client fuel host_name start u)
  unfolding drain_rounds
  drain_rounds-Ends zero u c p l h = absurd (omega (arith, p))
  drain_rounds-Ends (suc f) u c p l h =
      drain_round-Ends f (drain_rounds client f host_name start) u
        (get_node_by_hostname client host_name u) refl c (omega (arith, l))
        (omega (arith, now-node_of u c, h, l))
        (λ q v k. drain_rounds-Ends f v c q (omega (arith, l)) k)

-- Where the clock does not go back and a sleep takes its time, `waitForDrained` returns. It returns no
-- error only where it last saw a drained node of the hostname, and otherwise the error of the last
-- lookup, or that of a time-out, which comes after 181 seconds or more.
pub wait_for_drained-Waited :
    {W : Type 0} (client : NodeClient W) (host_name : Bytes) (w : W)
    → IsClock client
    → (r : Option Bytes × W) × (wait_for_drained client host_name w ≡ some r)
      × Waited client host_name (client.now w) r
unfolding wait_for_drained
wait_for_drained-Waited client host_name w c =
    drain_rounds-Ends client host_name (client.now w) 182 w c (omega arith) (omega arith)
      (omega arith)
