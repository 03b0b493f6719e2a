-- ===== src/Quotas/Prefix.antt =====
-- Which quotas are set after SetClusterResourceQuotas.
use grpc_gw_controller.Base.{
  Option, none, some, List, [], ◌∷◌, ◌++◌, Outcome, ok, err, panic, if◌then◌else◌, bytes_Eq,
  bytes_eq, ◌≡◌, ◌≢◌, refl, sym, ◌∙◌, ap,
}
use mathlib.Core.Path.{fun_ext}
use grpc_gw_controller.Base.Text.{Bytes}
use grpc_gw_controller.Base.Float.{Float64}
use grpc_gw_controller.Messages.Validate.{Verdict}
use grpc_gw_controller.ClusterManager.{success, Reply, respond}
use grpc_gw_controller.ClusterManager.Admission.{status_of}
use grpc_gw_controller.Quotas.{
  Quota, ResourceQuota, KubeError, already_exists, other_error, QuotaClient, update_after,
  quota_object, created, put, create_update_resource_quotas, go_on, apply_quotas,
  validate_set_cluster_resource_quotas, after_quotas, behind_verdict, set_cluster_resource_quotas,
}

-- What the quotas of the cluster are, by namespace.
abbrev pub View : Type 0 → Type 0
View Q = Bytes → Option (ResourceQuota Q)

-- A call of the client writes its object where it succeeds, and nothing where it fails.
pub record WritesWhole {Q W : Type 0} (client : QuotaClient Q W) (view : W → View Q) : Type 0 where
  pub create_writes :
      (n : Bytes) (o : ResourceQuota Q) (w : W)
      → (client.create n o w).0 ≡ none
      → (k : Bytes) → view (client.create n o w).1 k ≡ (if bytes_eq n k then some o else view w k)
  pub create_fails :
      (n : Bytes) (o : ResourceQuota Q) (w : W)
      → (client.create n o w).0 ≢ none
      → (k : Bytes) → view (client.create n o w).1 k ≡ view w k
  pub update_writes :
      (n : Bytes) (o : ResourceQuota Q) (w : W)
      → (client.update n o w).0 ≡ none
      → (k : Bytes) → view (client.update n o w).1 k ≡ (if bytes_eq n k then some o else view w k)
  pub update_fails :
      (n : Bytes) (o : ResourceQuota Q) (w : W)
      → (client.update n o w).0 ≢ none
      → (k : Bytes) → view (client.update n o w).1 k ≡ view w k

module _ {F Q W : Type 0} (fl : Float64 F) (client : QuotaClient Q W) where
  abbrev pub written : Quota F → View Q → View Q
  written q v k = if bytes_eq q.namespace k then quota_object fl client q else v k

  -- Each quota in its turn, a later one of a namespace over an earlier one.
  abbrev pub overlay : List (Quota F) → View Q → View Q
  overlay [] v = v
  overlay (q ∷ qs) v = overlay qs (written q v)

  module _ (view : W → View Q) (h : WritesWhole client view) where
    -- The two outcomes of a call, by whether it returned no error.
    abbrev Sets : Quota F → W → Outcome Bytes (Unit {0}) × W → Type 0
    Sets q w r =
        (r.0 ≡ ok tt → (k : Bytes) → view r.1 k ≡ written q (view w) k)
        × (r.0 ≢ ok tt → (k : Bytes) → view r.1 k ≡ view w k)

    update-Sets :
        (q : Quota F) (o : ResourceQuota Q) (w v : W) (e : Option KubeError) (u : W)
        → quota_object fl client q ≡ some o
        → ((k : Bytes) → view v k ≡ view w k)
        → client.update q.namespace o v ≡ (e, u)
        → Sets q w (update_after (e, u))
    update-Sets q o w v none u eq same x =
        let r = h.update_writes q.namespace o v (ap (λ p. p.0) x) in
        (λ _ k. ap (λ p. view p.1 k) (sym x) ∙ (r k ∙ rw (eq, same k) refl), λ n. absurd (n refl))
    update-Sets q o w v (some e) u eq same x =
        let r = h.update_fails q.namespace o v (λ y. cc (y, x)) in
        (λ y. cc, λ _ k. ap (λ p. view p.1 k) (sym x) ∙ (r k ∙ same k))

    created-Sets :
        (q : Quota F) (o : ResourceQuota Q) (w : W) (e : Option KubeError) (u : W)
        → quota_object fl client q ≡ some o
        → client.create q.namespace o w ≡ (e, u)
        → Sets q w (created fl client q.namespace o (e, u))
    created-Sets q o w none u eq x =
        let r = h.create_writes q.namespace o w (ap (λ p. p.0) x) in
        (λ _ k. ap (λ p. view p.1 k) (sym x) ∙ (r k ∙ rw eq refl), λ n. absurd (n refl))
    created-Sets q o w (some (already_exists e)) u eq x =
        let r = h.create_fails q.namespace o w (λ y. cc (y, x)) in
        update-Sets q o w u (client.update q.namespace o u).0 (client.update q.namespace o u).1 eq
          (λ k. ap (λ p. view p.1 k) (sym x) ∙ r k) refl
    created-Sets q o w (some (other_error e)) u eq x =
        let r = h.create_fails q.namespace o w (λ y. cc (y, x)) in
        (λ y. cc, λ _ k. ap (λ p. view p.1 k) (sym x) ∙ r k)

    put-Sets :
        (q : Quota F) (w : W) (o : Option (ResourceQuota Q))
        → quota_object fl client q ≡ o
        → Sets q w (put fl client q.namespace o w)
    put-Sets q w none eq = (λ y. cc, λ _ k. refl)
    put-Sets q w (some o) eq =
        created-Sets q o w (client.create q.namespace o w).0 (client.create q.namespace o w).1 eq
          refl

    -- A first part of the quotas is set; it is all of them where there was no error.
    abbrev pub SetsFirst : List (Quota F) → W → Outcome Bytes (Unit {0}) × W → Type 0
    SetsFirst quotas w r =
        (ps : List (Quota F)) × (qs : List (Quota F)) × (quotas ≡ ps ++ qs)
        × (view r.1 ≡ overlay ps (view w))
        × (r.0 ≡ ok tt → qs ≡ [])

    go_on-SetsFirst :
        (q : Quota F) (quotas : List (Quota F)) (w : W) (r : Outcome Bytes (Unit {0}) × W)
        → Sets q w r
        → SetsFirst quotas r.1 (apply_quotas fl client quotas r.1)
        → SetsFirst (q ∷ quotas) w (go_on fl client (apply_quotas fl client quotas) r)
    go_on-SetsFirst q quotas w (ok u, v) s (ps, qs, split, same, all) = (
      q ∷ ps,
      qs,
      ap (λ l. q ∷ l) split,
      same ∙ ap (λ x. overlay ps x) (fun_ext (λ k. s.0 refl k)),
      all,
    )
    go_on-SetsFirst q quotas w (err e, v) s rest =
        ([], q ∷ quotas, refl, fun_ext (λ k. s.1 (λ y. cc) k), λ y. cc)
    go_on-SetsFirst q quotas w (panic, v) s rest =
        ([], q ∷ quotas, refl, fun_ext (λ k. s.1 (λ y. cc) k), λ y. cc)

    apply_quotas-SetsFirst :
        (quotas : List (Quota F)) (w : W) → SetsFirst quotas w (apply_quotas fl client quotas w)
    unfolding apply_quotas create_update_resource_quotas
    apply_quotas-SetsFirst [] w = ([], [], refl, refl, λ _. refl)
    apply_quotas-SetsFirst (q ∷ quotas) w =
        let r = create_update_resource_quotas fl client q w in
        go_on-SetsFirst q quotas w r (put-Sets q w (quota_object fl client q) refl)
          (apply_quotas-SetsFirst quotas r.1)

module _ {F Q W B : Type 0} (fl : Float64 F) (client : QuotaClient Q W)
    (marshal : List (Quota F) → Outcome Bytes B) (view : W → View Q) (quotas : List (Quota F))
    (w : W) where
  abbrev Set : Reply B × W → Type 0
  Set r =
      (status_of r.0 ≡ some success → view r.1 ≡ overlay fl client quotas (view w))
      × (ps : List (Quota F)) × (qs : List (Quota F)) × (quotas ≡ ps ++ qs)
      × (view r.1 ≡ overlay fl client ps (view w))

  append-nothing : (l : List (Quota F)) → l ++ [] ≡ l
  append-nothing [] = refl
  append-nothing (q ∷ l) = ap (λ x. q ∷ x) (append-nothing l)

  after_quotas-Set :
      (h : WritesWhole client view) (r : Outcome Bytes (Unit {0}) × W)
      → SetsFirst fl client view h quotas w r
      → Set (after_quotas fl client marshal quotas r)
  unfolding respond
  after_quotas-Set h (ok u, v) (ps, qs, split, same, all) = (
    λ _.
        same
        ∙ ap (λ l. overlay fl client l (view w))
            (sym (append-nothing ps) ∙ (ap (λ l. ps ++ l) (sym (all refl)) ∙ sym split)),
    ps,
    qs,
    split,
    same,
  )
  after_quotas-Set h (err e, v) (ps, qs, split, same, all) = (λ x. cc, ps, qs, split, same)
  after_quotas-Set h (panic, v) (ps, qs, split, same, all) = (λ x. cc, ps, qs, split, same)

  behind_verdict-Set :
      WritesWhole client view → (o : Verdict) → Set (behind_verdict fl client marshal quotas o w)
  unfolding respond
  behind_verdict-Set h (some e) = (λ x. cc, [], quotas, refl, refl)
  behind_verdict-Set h none =
      after_quotas-Set h (apply_quotas fl client quotas w)
        (apply_quotas-SetsFirst fl client view h quotas w)

-- Where a call of the client writes its object or nothing, a reply of success means that each namespace
-- of the request has the last quota that the request gives it and every other namespace the quota it
-- had; after any other reply that is so of some first part of the request, of which nothing is taken
-- back.
pub set_cluster_resource_quotas-prefix :
    {F Q W B : Type 0} (fl : Float64 F) (client : QuotaClient Q W)
    (marshal : List (Quota F) → Outcome Bytes B) (view : W → View Q) (quotas : List (Quota F))
    (w : W)
    → WritesWhole client view
    → let r = set_cluster_resource_quotas fl client marshal quotas w in
      (status_of r.0 ≡ some success → view r.1 ≡ overlay fl client quotas (view w))
      × (ps : List (Quota F)) × (qs : List (Quota F)) × (quotas ≡ ps ++ qs)
      × (view r.1 ≡ overlay fl client ps (view w))
unfolding set_cluster_resource_quotas
set_cluster_resource_quotas-prefix fl client marshal view quotas w h =
    behind_verdict-Set fl client marshal view quotas w h
      (validate_set_cluster_resource_quotas fl quotas)
