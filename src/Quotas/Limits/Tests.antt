-- ===== src/Quotas/Limits/Tests.antt =====
-- Limits of a namespace.
use grpc_gw_controller.Base.{
  ℕ, zero, suc, ◌+◌, ◌*◌, ◌/◌, none, some, [], ok, err, panic, ltb, leb, bytes_eq, ◌≡◌, ◌≢◌, refl,
  ap, sym, arith, if◌then◌else◌,
}
use grpc_gw_controller.Base.Text.{Bytes, bytes}
use grpc_gw_controller.Base.Decimal.{ℤ, pos, negsuc, invalid_syntax, decimal}
use grpc_gw_controller.Base.Float.{Float64}
use grpc_gw_controller.Quotas.{already_exists}
use grpc_gw_controller.Quotas.Read.{not_found, failed, Numbers}
use grpc_gw_controller.Quotas.Limits.{
  LimitRange, LimitClient, Wanted, create_update_limit_range, delete_limit_range,
  get_resources_limit,
}
use grpc_gw_controller.Quotas.Limits.RoundTrip.{
  hundredths, Writes, Readable, get_resources_limit-create_update,
}

-- Floats by thousandths.
abbrev thousandths : Float64 ℕ
thousandths = record {
  lt = ltb;
  le = leb;
  scaled = λ n k. elim k [ zero ↦ n * 1000 | suc _ ↦ n * 100 ];
  print_f = decimal;
  print_2f = λ n. hundredths ((n + 5) / 10);
}

abbrev by_thousandths : ℤ → ℕ
by_thousandths (pos n) = n
by_thousandths (negsuc n) = 0

abbrev numbers : Numbers ℕ
numbers = record {
  thousandths = by_thousandths;
  parse_float = λ s. err (invalid_syntax s);
  print_error = λ e. bytes "not a number";
}

-- One namespace, whose limits are there already.
abbrev kube : LimitClient Bytes (LimitRange Bytes)
kube = record {
  create = λ n o w. (some (already_exists (bytes "exists")), w);
  update = λ n o w. (none, o);
  get = λ n w. (none, w);
  delete = λ n w. (some not_found, w);
  must_parse = λ t. some t;
  print = λ q.
      if bytes_eq q (bytes "2048Mi")
      then bytes "2Gi"
      else if bytes_eq q (bytes "0.13")
      then bytes "130m"
      else q;
}

abbrev empty_range : LimitRange Bytes
empty_range = record { name = []; limits = [] }

abbrev broken : LimitClient Bytes (LimitRange Bytes)
broken = record {
  create = λ n o w. (none, w);
  update = λ n o w. (none, w);
  get = λ n w. (some (failed (bytes "no route")), w);
  delete = λ n w. (some (failed (bytes "no route")), w);
  must_parse = λ t. none;
  print = λ q. q;
}

abbrev wanted : Wanted ℕ
wanted = record {
  cpu = 126;
  memory = 2048;
  default_cpu = bytes "50m";
  default_memory = bytes "64Mi";
}

-- An error of the client is a panic in GetResourcesLimit.
limits_runs :
    (get_resources_limit thousandths numbers broken (bytes "shop") empty_range ≡ panic)
    × (delete_limit_range broken (bytes "shop") empty_range ≡ (err (bytes "no route"), empty_range))
    × (delete_limit_range kube (bytes "shop") empty_range ≡ (ok tt, empty_range))
unfolding get_resources_limit delete_limit_range
limits_runs = (refl, refl, refl)

kube-Writes : Writes kube
kube-Writes = record {
  create_writes = λ n o w w' h. cc;
  update_writes = λ n o w w' h. ap (λ p. (none, p.1)) (sym h);
}

wanted-Readable : Readable thousandths kube wanted 13 2 b'G' b'i'
unfolding decimal bytes_eq
wanted-Readable = record {
  lowest_cpu = bytes "50m";
  lowest_memory = bytes "64Mi";
  highest_cpu = bytes "0.13";
  highest_memory = bytes "2048Mi";
  has_cpu = refl;
  has_memory = refl;
  parse_lowest_cpu = refl;
  parse_lowest_memory = refl;
  cpu_text = refl;
  parse_cpu = refl;
  parse_memory = refl;
  print_cpu = refl;
  print_memory = refl;
  cpu_fits = omega arith;
  memory_fits = omega arith;
}

get_resources_limit-create_update_example :
    let r = create_update_limit_range thousandths kube (bytes "shop") wanted empty_range in
    (r.0 ≢ panic)
    × (r.0 ≡ ok tt → get_resources_limit thousandths numbers kube (bytes "shop") r.1 ≡ ok (130, 2))
get_resources_limit-create_update_example =
    get_resources_limit-create_update thousandths numbers kube wanted (bytes "shop") empty_range
      kube-Writes wanted-Readable
