-- ===== src/ClusterInfo/Counted.antt =====
-- What the figures on applications and nodes of GetClusterInfo count.
use grpc_gw_controller.Base.{
  ok-injective, bind-ok, ℕ, ◌+◌, ◌%◌, ◌^◌, ◌<◌, ◌≤◌, ◌&&◌, List, [], ◌∷◌, string_eq, bytes_Eq,
  bytes_eq, bytes_eq_iff, ok, ◌⊎◌, inl, inr, if◌then◌else◌, length, All, Bool-cases, arith, ◌≡◌,
  refl, sym, ap, ◌∙◌,
}
use grpc_gw_controller.Base.Text.{Bytes}
use grpc_gw_controller.Base.Dict.{Dict, is_some, lookup, lookup-insert}
use grpc_gw_controller.Maps.{Map, get}
use grpc_gw_controller.ClusterInfo.{
  Cluster, Info, InfoClient, Counts, or_zero, next, count_up, is_enabled, app_of, count_app,
  count_apps, no_counts, workloads_of, AppInfo, Workloads, app_infos,
}
use mathlib.Core.Path.{subst}
use grpc_gw_controller.ClusterInfo.Distinct.{
  number_of, is_instance_of, has_name, distinct, any_app, distinct_bound, count_apps-names,
}
use grpc_gw_controller.ClusterInfo.Body.{listed, parsed, last_upgrade, node_infos, cluster_info}
use grpc_gw_controller.Amounts.{get_allocated_cpu}

abbrev pub value_of : Bytes → Dict Bytes ℕ → ℕ
value_of k d = or_zero (lookup k d)

value_of-count_up :
    (name k : Bytes) (d : Dict Bytes ℕ)
    → value_of name d + 1 < 2 ^ 32
    → value_of k (count_up name d) ≡ (if bytes_eq name k then 1 else 0) + value_of k d
unfolding count_up
value_of-count_up name k d h =
    let law = lookup-insert name k (next (value_of name d)) d in
    elim (Bool-cases (bytes_eq name k)) [
      | inl e ↦
          let same = (bytes_eq_iff name k).0 e in
          rw e (ap or_zero (rw e at law) ∙ (omega (arith, h) ∙ ap (λ j. 1 + value_of j d) same))
      | inr e ↦ rw e (omega (arith, ap or_zero (rw e at law)))
    ]

-- The counts of a name, among the applications seen so far, and room for those to come.
abbrev HasRoom : Counts → List Map → Type 0
HasRoom c items =
    ((k : Bytes) → value_of k c.created + length items < 2 ^ 32)
    × ((k : Bytes) → value_of k c.active + length items < 2 ^ 32)
    × (c.instances + length items < 2 ^ 32)
    × (c.active_instances + length items < 2 ^ 32)

-- The counts after some applications.
abbrev CountsOf : Counts → List Map → Counts → Type 0
CountsOf c items d =
    ((k : Bytes) → value_of k d.created ≡ number_of (is_instance_of k) items + value_of k c.created)
    × ((k : Bytes)
        → value_of k d.active
          ≡ number_of (λ a. is_enabled a && is_instance_of k a) items + value_of k c.active)
    × (d.instances ≡ length items + c.instances)
    × (d.active_instances ≡ number_of is_enabled items + c.active_instances)

at_most_one : (name k : Bytes) → (if bytes_eq name k then 1 else 0) ≤ 1
at_most_one name k = ground arith

count_app-step :
    (a : Map) (as' : List Map) (c : Counts)
    → HasRoom c (a ∷ as')
    → CountsOf c (a ∷ []) (count_app a c) × HasRoom (count_app a c) as'
unfolding count_app
count_app-step a as' c h =
    let one =
      λ (k : Bytes). value_of-count_up (app_of a) k c.created (omega (arith, h.0 (app_of a))) in
    let two =
      λ (k : Bytes). value_of-count_up (app_of a) k c.active (omega (arith, h.1 (app_of a))) in
    elim (Bool-cases (is_enabled a)) [
      | inl e ↦ rw e (
        (
          λ k. omega (arith, one k),
          λ k. omega (arith, two k),
          omega (arith, h.2),
          omega (arith, h.3),
        ),
        (
          λ k. omega (arith, one k, h.0 k, at_most_one (app_of a) k),
          λ k. omega (arith, two k, h.1 k, at_most_one (app_of a) k),
          omega (arith, h.2),
          omega (arith, h.3),
        ),
      )
      | inr e ↦ rw e (
        (λ k. omega (arith, one k), λ k. omega arith, omega (arith, h.2), omega arith),
        (
          λ k. omega (arith, one k, h.0 k, at_most_one (app_of a) k),
          λ k. omega (arith, h.1 k),
          omega (arith, h.2),
          omega (arith, h.3),
        ),
      )
    ]

count_apps-CountsOf :
    (items : List Map) (c : Counts) → HasRoom c items → CountsOf c items (count_apps items c)
unfolding count_apps
count_apps-CountsOf [] c h = (λ k. omega arith, λ k. omega arith, omega arith, omega arith)
count_apps-CountsOf (a ∷ as') c h =
    let step = count_app-step a as' c h in
    let rest = count_apps-CountsOf as' (count_app a c) step.1 in
    (
      λ k. omega (arith, step.0.0 k, rest.0 k),
      λ k. omega (arith, step.0.1 k, rest.1 k),
      omega (arith, step.0.2, rest.2),
      omega (arith, step.0.3, rest.3),
    )

listed-same : {A : Type 0} (o : Bytes ⊎ A) (a b : A) → o ≡ inr a → listed o ≡ ok b → a ≡ b
listed-same (inl e) a b h k = absurd cc
listed-same (inr x) a b h k = cc (h, ok-injective x b k)

-- The list of the applications with their numbers of instances.
abbrev pub numbers : List AppInfo → Dict Bytes ℕ
numbers [] = []
numbers (x ∷ xs) = (x.name, x.number_of_instances) ∷ numbers xs

numbers-app_infos : (act d : Dict Bytes ℕ) → numbers (app_infos act d) ≡ d
numbers-app_infos act [] = refl
numbers-app_infos act ((name, n) ∷ d) = ap (λ l. (name, n) ∷ l) (numbers-app_infos act d)

-- An application is shown as active exactly where one of its instances is enabled.
abbrev pub ShownActive : List Map → AppInfo → Type 0
ShownActive apps x = x.is_active ≡ has_name is_enabled x.name apps

app_infos-ShownActive :
    (apps : List Map) (act d : Dict Bytes ℕ)
    → ((k : Bytes) → is_some (lookup k act) ≡ has_name is_enabled k apps)
    → All (ShownActive apps) (app_infos act d)
app_infos-ShownActive apps act [] h = tt
app_infos-ShownActive apps act ((name, n) ∷ d) h = (h name, app_infos-ShownActive apps act d h)

-- What the workloads are for the annotations of the applications.
abbrev pub Figures : List Map → Workloads → Type 0
Figures apps ws =
    (ws.number_of_apps ≡ distinct any_app [] apps)
    × (ws.number_of_active_apps ≡ distinct is_enabled [] apps)
    × (ws.number_of_instances ≡ length apps)
    × (ws.number_of_active_instances ≡ number_of is_enabled apps)
    × ((k : Bytes) → value_of k (numbers ws.apps) ≡ number_of (is_instance_of k) apps)
    × All (ShownActive apps) ws.apps

workloads_of-Figures :
    (apps : List Map)
    → length apps < 2 ^ 32
    → Figures apps (workloads_of (count_apps apps no_counts))
unfolding workloads_of lookup
workloads_of-Figures apps l =
    let d = count_apps apps no_counts in
    let c =
      count_apps-CountsOf apps no_counts
        (λ k. omega (arith, l), λ k. omega (arith, l), omega (arith, l), omega (arith, l)) in
    let names = count_apps-names apps in
    (
      omega (arith, names.0, l, distinct_bound any_app [] apps),
      omega (arith, names.1, l, distinct_bound is_enabled [] apps),
      omega (arith, c.2),
      omega (arith, c.3),
      λ k. ap (value_of k) (numbers-app_infos d.active d.created) ∙ omega (arith, c.0 k),
      app_infos-ShownActive apps d.active d.created names.2,
    )

-- Where there are fewer than 2 ^ 32 applications and GetClusterInfo has figures, the workloads show how many
-- names there are among all applications and among the enabled ones, how many applications there are of
-- either, for each name how many have it, and as active exactly the names of enabled ones. The number of
-- nodes is that of the applications, whatever the nodes are.
pub cluster_info-Figures :
    (client : InfoClient) (annotations : Map) (c : Cluster) (apps : List Map) (i : Info)
    → client.apps ≡ inr apps
    → length apps < 2 ^ 32
    → cluster_info client annotations c ≡ ok i
    → Figures apps i.workloads × (i.number_of_nodes ≡ length apps)
unfolding cluster_info lookup
cluster_info-Figures client annotations c apps i h l e =
    let b1 = bind-ok (last_upgrade client annotations) _ i e in
    let b2 = bind-ok client.endpoint _ i b1.2 in
    let b3 = bind-ok (client.services_url b2.0) _ i b2.2 in
    let b4 =
      bind-ok (parsed client (get_allocated_cpu client.print_ratio (get c.requested "cpu"))) _ i
        b3.2 in
    let b5 = bind-ok (listed client.apps) _ i b4.2 in
    let b6 = bind-ok (listed client.nodes) _ i b5.2 in
    let b7 = bind-ok (node_infos client b2.0 b6.0) _ i b6.2 in
    let same : apps ≡ b5.0 = listed-same client.apps apps b5.0 h b5.1 in
    let made = ok-injective _ i b7.2 in
    (
      subst (Figures apps)
          (ap (λ l. workloads_of (count_apps l no_counts)) same ∙ ap (λ x. x.workloads) made)
          (workloads_of-Figures apps l),
      sym (ap (λ x. x.number_of_nodes) made)
          ∙ (ap (λ l. length l % 2 ^ 32) (sym same) ∙ omega (arith, l)),
    )
