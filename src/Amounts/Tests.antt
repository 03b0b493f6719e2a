-- ===== src/Amounts/Tests.antt =====
-- The memory of a node with 4 GiB, and a volume of 2 GiB.
use grpc_gw_controller.Base.{
  ◌+◌, ◌/◌, ◌%◌, ◌^◌, ◌≤◌, ◌<◌, ◌++◌, ok, err, ◌≡◌, refl, arith, bytes_eq,
}
use grpc_gw_controller.Base.Text.{bytes, has_suffix}
use grpc_gw_controller.Base.Decimal.{pos, negsuc, invalid_syntax, atoi, decimal, uint32}
use grpc_gw_controller.Amounts.{
  Usage, parse_all_memory_string, get_memory, parse_cpu_string, get_allocated_cpu,
  get_storage_gb_int, total_memory, parse_memory_string, without_m,
}
use grpc_gw_controller.Amounts.Free.{parse_all_memory_string-free}

amounts_runs :
    (get_memory (bytes "4194304Ki") (bytes "5120Mi")
      ≡ ok (record { total = bytes "4096"; allocated = bytes "5120"; free = bytes "4294966272" }))
    × (get_memory (bytes "4194304Ki") (bytes "1Gi") ≡ err (invalid_syntax (bytes "1Gi")))
    × (get_memory (bytes "") (bytes "") ≡ err (invalid_syntax (bytes "")))
    × (get_storage_gb_int (bytes "-2049Ki") ≡ ok (negsuc 1))
    × (parse_cpu_string atoi (bytes "m500m") ≡ ok (pos 500))
    × (get_allocated_cpu (λ n k. decimal k) (bytes "m") ≡ err (invalid_syntax (bytes "")))
unfolding get_memory get_storage_gb_int parse_cpu_string get_allocated_cpu parse_all_memory_string
    total_memory has_suffix bytes_eq atoi parse_memory_string decimal uint32 without_m
amounts_runs = (refl, refl, refl, refl, refl, refl)

parse_all_memory_string-free_example :
    (u : Usage _) × (v : Usage _) × (parse_all_memory_string
        (decimal 4194304 ++ bytes "Ki")
        (decimal 5120 ++ bytes "Mi")
      ≡ ok u)
    × (parse_all_memory_string (decimal 4194304 ++ bytes "Ki") (decimal 5120) ≡ ok u)
    × (parse_all_memory_string (bytes "4Gi") (decimal 5120) ≡ ok v)
    × (u.total ≡ 4194304 / 1024 % 2 ^ 32)
    × (u.allocated ≡ 5120 % 2 ^ 32)
    × (u.allocated ≤ u.total → u.free + u.allocated ≡ u.total)
    × (u.total < u.allocated → u.total < u.free)
    × (v.total ≡ 0)
    × (v.allocated ≡ 5120 % 2 ^ 32)
unfolding has_suffix bytes_eq
parse_all_memory_string-free_example =
    parse_all_memory_string-free 4194304 5120 (bytes "4Gi") (omega arith) (omega arith) refl
