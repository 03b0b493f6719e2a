-- ===== src/Quotas/Read/Tests.antt =====
-- Quotas that are read back.
use grpc_gw_controller.Base.{
  ℕ, zero, suc, ◌*◌, none, some, true, List, [], ◌∷◌, ok, err, ltb, leb, bytes_eq, ◌≡◌, refl, arith,
}
use grpc_gw_controller.Base.Text.{bytes, has_suffix}
use grpc_gw_controller.Base.Decimal.{ℤ, pos, negsuc, uint32, invalid_syntax, atoi, decimal}
use grpc_gw_controller.Base.Float.{Float64}
use grpc_gw_controller.ClusterManager.{success, error, respond}
use grpc_gw_controller.Quotas.{Quota, respond_with}
use grpc_gw_controller.Quotas.Read.{
  Hard, failed, ReadClient, Numbers, get_resource_quotas, read_hard, read_cpu, read_memory,
  read_mebibytes, read_quotas, validate_get_cluster_resource_quotas, get_cluster_resource_quotas,
  delete_cluster_resource_quotas,
}
use grpc_gw_controller.Quotas.Read.Units.{
  amount, IsStored, read_as, limits, get_cluster_resource_quotas-units,
}

-- Floats by thousandths.
abbrev thousandths : Float64 ℕ
thousandths = record {
  lt = ltb;
  le = leb;
  scaled = λ n k. elim k [ zero ↦ n * 1000 | suc _ ↦ n * 100 ];
  print_f = decimal;
  print_2f = decimal;
}

abbrev by_thousandths : ℤ → ℕ
by_thousandths (pos n) = n
by_thousandths (negsuc n) = 0

abbrev numbers : Numbers ℕ
numbers = record {
  thousandths = by_thousandths;
  parse_float = λ s. err (invalid_syntax s);
  print_error = λ e. bytes "not a number";
}

abbrev hard : Hard
hard = record { cpu = amount (bytes "500m"); memory = amount (bytes "2Gi") }

-- Every namespace has the same quota, and a deletion is refused.
abbrev kube : ReadClient (Unit {0})
kube = record { get = λ n w. (none, hard); delete = λ n w. (some (bytes "denied"), w) }

abbrev broken : ReadClient (Unit {0})
broken = record {
  get = λ n w. (
    some (failed (bytes "no route")),
    record {
      cpu = record { is_zero = true; text = [] };
      memory = record { is_zero = true; text = [] };
    },
  );
  delete = λ n w. (none, w);
}

abbrev read_back : List (Quota ℕ)
read_back = record { namespace = bytes "shop"; memory = 2; cpu = 500 } ∷ []

read_runs :
    (get_resource_quotas thousandths numbers kube (bytes "shop") tt ≡ ok (500, 2))
    × (get_cluster_resource_quotas thousandths numbers broken (λ q. ok q) (bytes "shop" ∷ []) tt
        ≡ respond error (bytes "no route"))
    × (delete_cluster_resource_quotas {B = ℕ} broken (bytes "shop") tt
        ≡ (respond success (bytes "Quotas were removed successfully from the namespace shop"), tt))
unfolding get_resource_quotas get_cluster_resource_quotas delete_cluster_resource_quotas read_hard
    read_cpu has_suffix bytes_eq atoi read_memory read_mebibytes uint32 respond
    validate_get_cluster_resource_quotas read_quotas
read_runs = (refl, refl, refl)

get_cluster_resource_quotas-units_example :
    get_cluster_resource_quotas thousandths numbers kube (λ q. ok q) (bytes "shop" ∷ []) tt
    ≡ respond_with (bytes "List of quotas") (ok read_back)
unfolding IsStored decimal read_as
get_cluster_resource_quotas-units_example =
    get_cluster_resource_quotas-units thousandths numbers kube (λ q. ok q)
      (bytes "shop", limits 500 2 b'G' b'i') [] tt
      ((refl, refl, refl, omega arith, omega arith), tt)
