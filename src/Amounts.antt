-- ===== src/Amounts.antt =====
-- Amounts of memory, CPU and storage as Kubernetes writes them: `ParseAllMemoryString`,
-- `ParseMemoryString` and `ParseCpuString` of app/grpc/common/resourcemgr/common.go, `GetStorageGbInt`
-- of app/grpc/common/common.go, and `getAllocatedCpu` and `getMemory` of
-- app/grpc/clustermanager/adapters/rancher/adapter.go.
pub mod Free
mod Tests
use grpc_gw_controller.Base.{
  ℕ, zero, suc, ◌+◌, ◌-◌, ◌/◌, ◌%◌, ◌^◌, Bool, true, false, not, List, [], ◌∷◌, Outcome, ok, err,
  panic, if◌then◌else◌, ◌==◌, ◌>>=◌,
}
use grpc_gw_controller.Base.Text.{Bytes, bytes, has_suffix, cut_end}
use grpc_gw_controller.Base.Decimal.{ℤ, pos, negsuc, uint32, ParseError, atoi, decimal}

abbrev negative : ℕ → ℤ
negative zero = pos 0
negative (suc n) = negsuc n

-- Go's quotient by a positive constant goes towards zero.
abbrev pub quotient : ℤ → ℕ → ℤ
quotient (pos n) d = pos (n / d)
quotient (negsuc n) d = negative (suc n / d)

-- A difference of two uint32.
abbrev pub sub32 : ℕ → ℕ → ℕ
sub32 a b = (a + 2 ^ 32 - b) % 2 ^ 32

unfoldable pub parse_memory_string : Bytes → Outcome ParseError ℕ
parse_memory_string memory =
    (if has_suffix memory (bytes "Mi") then atoi (cut_end 2 memory) else atoi memory) >>= λ n.
    ok (uint32 n)

-- A total with no "Ki" stays 0.
unfoldable pub total_memory : Bytes → Outcome ParseError ℕ
total_memory allocatable =
    if has_suffix allocatable (bytes "Ki")
    then (atoi (cut_end 2 allocatable) >>= λ n. ok (uint32 (quotient n 1024)))
    else ok 0

pub record Usage (A : Type 0) : Type 0 where
  pub total : A
  pub allocated : A
  pub free : A

unfoldable pub parse_all_memory_string : Bytes → Bytes → Outcome ParseError (Usage ℕ)
parse_all_memory_string allocatable_mem allocated_mem = total_memory allocatable_mem >>= λ t.
    parse_memory_string allocated_mem >>= λ a.
    ok (record { total = t; allocated = a; free = sub32 t a })

-- The message Memory, by the texts of its fields.
unfoldable pub get_memory : Bytes → Bytes → Outcome ParseError (Usage Bytes)
get_memory capacity_mem allocated_mem = parse_all_memory_string capacity_mem allocated_mem >>= λ u.
    ok (record { total = decimal u.total; allocated = decimal u.allocated; free = decimal u.free })

-- `strings.Replace(s, "m", "", -1)`
unfoldable pub without_m : Bytes → Bytes
without_m [] = []
without_m (c ∷ s) = let rest = without_m s in if c == b'm' then rest else c ∷ rest

-- `strconv.ParseFloat` is given.
unfoldable pub parse_cpu_string :
    {F : Type 0} → (Bytes → Outcome ParseError F) → Bytes → Outcome ParseError F
parse_cpu_string parse_float cpu =
    if has_suffix cpu (bytes "m") then parse_float (without_m cpu) else parse_float cpu

-- Of float32 the program takes the quotient of two integers, printed by `%.2f`: `print_ratio` is given.
unfoldable pub get_allocated_cpu : (ℤ → ℕ → Bytes) → Bytes → Outcome ParseError Bytes
get_allocated_cpu print_ratio req =
    if has_suffix req (bytes "m")
    then (atoi (cut_end 1 req) >>= λ n. ok (print_ratio n 1000))
    else ok req

unfoldable pub get_storage_gb_int : Bytes → Outcome ParseError ℤ
get_storage_gb_int size =
    if has_suffix size (bytes "Ki")
    then (atoi (cut_end 2 size) >>= λ n. ok (quotient n 1024))
    else if has_suffix size (bytes "Gi")
    then atoi (cut_end 2 size)
    else atoi size
