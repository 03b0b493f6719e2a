-- ===== src/Quotas/Tests.antt =====
-- The quotas of a small cluster.
use grpc_gw_controller.Base.{
  ℕ, zero, suc, ◌*◌, Option, none, some, true, List, [], ◌∷◌, ◌++◌, ok, ltb, leb, ◌≡◌, ◌≢◌, refl,
  if◌then◌else◌, bytes_Eq, Bool-cases, inl, inr,
}
use grpc_gw_controller.Base.Text.{Bytes, bytes}
use grpc_gw_controller.Base.Decimal.{decimal}
use grpc_gw_controller.Base.Dict.{Dict, lookup, insert, lookup-insert, is_some}
use grpc_gw_controller.Base.Float.{Float64}
use grpc_gw_controller.ClusterManager.{success}
use grpc_gw_controller.ClusterManager.Admission.{status_of}
use grpc_gw_controller.Quotas.{
  Quota, ResourceQuota, KubeError, already_exists, QuotaClient, set_cluster_resource_quotas,
}
use grpc_gw_controller.Quotas.Prefix.{
  View, WritesWhole, overlay, set_cluster_resource_quotas-prefix,
}

-- Floats by thousandths.
abbrev thousandths : Float64 ℕ
thousandths = record {
  lt = ltb;
  le = leb;
  scaled = λ n k. elim k [ zero ↦ n * 1000 | suc _ ↦ n * 100 ];
  print_f = decimal;
  print_2f = decimal;
}

abbrev Cluster : Type 0
Cluster = Dict Bytes (ResourceQuota Bytes)

unfoldable create_in : Bytes → ResourceQuota Bytes → Cluster → Option KubeError × Cluster
create_in n o w =
    if is_some (lookup n w)
    then (some (already_exists (bytes "exists")), w)
    else (none, insert n o w)

abbrev kube : QuotaClient Bytes Cluster
kube = record {
  create = create_in;
  update = λ n o w. (none, insert n o w);
  must_parse = λ t. some t;
}

abbrev seen : Cluster → View Bytes
seen w k = lookup k w

taken :
    (n : Bytes) (o : ResourceQuota Bytes) (w : Cluster)
    → is_some (lookup n w) ≡ true
    → (kube.create n o w).0 ≢ none
unfolding create_in
taken n o w e = rw e (λ h. cc)

kube-WritesWhole : WritesWhole kube seen
unfolding create_in
kube-WritesWhole = record {
  create_writes = λ n o w h k. elim (Bool-cases (is_some (lookup n w))) [
    | inl e ↦ absurd (taken n o w e h)
    | inr e ↦ rw e (lookup-insert n k o w)
  ];
  create_fails = λ n o w h k. elim (Bool-cases (is_some (lookup n w))) [
    | inl e ↦ rw e refl
    | inr e ↦ absurd (h (rw e refl))
  ];
  update_writes = λ n o w h k. lookup-insert n k o w;
  update_fails = λ n o w h k. absurd (h refl);
}

abbrev quotas : List (Quota ℕ)
quotas = record { namespace = bytes "shop"; memory = 64; cpu = 500 } ∷ []

set_cluster_resource_quotas-prefix_example :
    let r = set_cluster_resource_quotas thousandths kube (λ q. ok (1 * 1)) quotas [] in
    (status_of r.0 ≡ some success → seen r.1 ≡ overlay thousandths kube quotas (seen []))
    × (ps : List (Quota ℕ)) × (qs : List (Quota ℕ)) × (quotas ≡ ps ++ qs)
    × (seen r.1 ≡ overlay thousandths kube ps (seen []))
set_cluster_resource_quotas-prefix_example =
    set_cluster_resource_quotas-prefix thousandths kube (λ q. ok (1 * 1)) seen quotas []
      kube-WritesWhole
