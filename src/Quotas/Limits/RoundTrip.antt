-- ===== src/Quotas/Limits/RoundTrip.antt =====
-- Limits that are read after they have been created or updated.
use grpc_gw_controller.Base.{
  ℕ, ◌+◌, ◌*◌, ◌/◌, ◌%◌, ◌^◌, ◌<◌, Option, none, some, true, [], ◌∷◌, ◌++◌, Outcome, ok, panic, ◌≡◌,
  ◌≢◌, refl, ltb,
}
use grpc_gw_controller.Base.Text.{Bytes, bytes}
use grpc_gw_controller.Base.Decimal.{pos, decimal}
use grpc_gw_controller.Base.Float.{Float64}
use grpc_gw_controller.ResourceInputs.{float_zero}
use grpc_gw_controller.Quotas.{KubeError, already_exists, other_error, update_after}
use grpc_gw_controller.Quotas.Read.{Numbers}
use grpc_gw_controller.Quotas.Read.Units.{read_mebibytes-unit, read_cpu-millicores}
use grpc_gw_controller.Quotas.Limits.{
  LimitType, pod, container, LimitItem, LimitRange, LimitClient, Wanted, default_for, created_range,
  bounds, limit_item, limit_range, create_update_limit_range, get_resources_limit,
}

-- A call that reports no error has written its object.
pub record Writes {Q W : Type 0} (client : LimitClient Q W) : Type 0 where
  pub create_writes :
      (n : Bytes) (o : LimitRange Q) (w w' : W)
      → client.create n o w ≡ (none, w')
      → client.get n w' ≡ (none, o)
  pub update_writes :
      (n : Bytes) (o : LimitRange Q) (w w' : W)
      → client.update n o w ≡ (none, w')
      → client.get n w' ≡ (none, o)

-- `c` hundredths with two digits after the point.
abbrev pub hundredths : ℕ → Bytes
hundredths c = decimal (c / 100) ++ (b'.' ∷ (48 + c / 10 % 10) ∷ (48 + c % 10) ∷ [])

-- Both limits are set. That on CPU is printed with two digits as `c` hundredths, which Kubernetes prints
-- as 10 * c millicores, as it does where c is not a whole number of CPUs; the quantity of the memory is
-- printed as `n` with a unit of two bytes.
pub record Readable {F Q W : Type 0} (fl : Float64 F) (client : LimitClient Q W) (v : Wanted F)
    (c n a b : ℕ) : Type 0 where
  pub lowest_cpu : Q
  pub lowest_memory : Q
  pub highest_cpu : Q
  pub highest_memory : Q
  pub has_cpu : fl.lt (float_zero fl) v.cpu ≡ true
  pub has_memory : ltb 0 v.memory ≡ true
  pub parse_lowest_cpu : client.must_parse v.default_cpu ≡ some lowest_cpu
  pub parse_lowest_memory : client.must_parse v.default_memory ≡ some lowest_memory
  pub cpu_text : fl.print_2f v.cpu ≡ hundredths c
  pub parse_cpu : client.must_parse (hundredths c) ≡ some highest_cpu
  pub parse_memory : client.must_parse (decimal v.memory ++ bytes "Mi") ≡ some highest_memory
  pub print_cpu : client.print highest_cpu ≡ decimal (10 * c) ++ bytes "m"
  pub print_memory : client.print highest_memory ≡ decimal n ++ a ∷ b ∷ []
  pub cpu_fits : 10 * c < 2 ^ 63
  pub memory_fits : n < 2 ^ 63

module _ {F Q W : Type 0} (fl : Float64 F) (client : LimitClient Q W) (v : Wanted F) where
  item_made : {c n a b : ℕ} → Readable fl client v c n a b → LimitType → LimitItem Q
  item_made r t = record {
    kind = t;
    cpu = record {
      min = some r.lowest_cpu;
      max = some r.highest_cpu;
      default_request = default_for t r.lowest_cpu;
    };
    memory = record {
      min = some r.lowest_memory;
      max = some r.highest_memory;
      default_request = default_for t r.lowest_memory;
    };
  }

  limit_item-made :
      {c n a b : ℕ} (r : Readable fl client v c n a b) (t : LimitType)
      → limit_item fl client v t ≡ ok (item_made r t)
  unfolding limit_item bounds item_made
  limit_item-made r t =
      rw
        (
          r.has_cpu, r.has_memory, r.cpu_text, r.parse_lowest_cpu, r.parse_lowest_memory,
          r.parse_cpu, r.parse_memory,
        )
        refl

  range_made : {c n a b : ℕ} → Readable fl client v c n a b → Bytes → LimitRange Q
  range_made r namespace = record {
    name = namespace;
    limits = item_made r pod ∷ item_made r container ∷ [];
  }

  limit_range-made :
      {c n a b : ℕ} (r : Readable fl client v c n a b) (namespace : Bytes)
      → limit_range fl client namespace v ≡ ok (range_made r namespace)
  unfolding limit_range range_made
  limit_range-made r namespace = rw (limit_item-made r pod, limit_item-made r container) refl

module _ {F Q W : Type 0} (fl : Float64 F) (client : LimitClient Q W) (writes : Writes client)
    (namespace : Bytes) (o : LimitRange Q) (w : W) where
  -- The object is there where the outcome is a success, and there is no panic.
  abbrev Written : Outcome Bytes (Unit {0}) × W → Type 0
  Written r = (r.0 ≢ panic) × (r.0 ≡ ok tt → client.get namespace r.1 ≡ (none, o))

  update_after-Written :
      (u : W) (x : Option KubeError × W)
      → client.update namespace o u ≡ x
      → Written (update_after x)
  update_after-Written u (none, w') e = (λ p. cc, λ p. writes.update_writes namespace o u w' e)
  update_after-Written u (some k, w') e = (λ p. cc, λ p. cc)

  created_range-Written :
      (x : Option KubeError × W)
      → client.create namespace o w ≡ x
      → Written (created_range fl client namespace o x)
  created_range-Written (none, w') e = (λ p. cc, λ p. writes.create_writes namespace o w w' e)
  created_range-Written (some (already_exists k), w') e =
      update_after-Written w' (client.update namespace o w') refl
  created_range-Written (some (other_error k), w') e = (λ p. cc, λ p. cc)

module _ {F Q W : Type 0} (fl : Float64 F) (num : Numbers F) (client : LimitClient Q W)
    (v : Wanted F) where
  get_resources_limit-made :
      {c n a b : ℕ} (r : Readable fl client v c n a b) (namespace : Bytes) (w : W)
      → client.get namespace w ≡ (none, range_made fl client v r namespace)
      → get_resources_limit fl num client namespace w
        ≡ ok (num.thousandths (pos (10 * c)), n % 2 ^ 32)
  unfolding get_resources_limit range_made item_made
  get_resources_limit-made {c} {n} {a} {b} r namespace w h =
      rw
        (
          h,
          r.print_cpu,
          read_cpu-millicores num (10 * c) r.cpu_fits,
          r.print_memory,
          read_mebibytes-unit n a b r.memory_fits,
        )
        refl

  -- For a limit on CPU that is printed with two digits as c hundredths, which Kubernetes prints as 10 * c
  -- millicores, for one on memory that it prints as a number n and a unit of two bytes, 10 * c and n below
  -- 2 ^ 63, and for a client whose calls write their object where they report no error:
  -- CreateUpdateLimitRange does not panic, and where it succeeds GetResourcesLimit reads the CPU as
  -- 10 * c / 1000, which is what its text has left of the limit, and the memory as the low 32 bits
  -- of n, whatever the unit is.
  pub get_resources_limit-create_update :
      {c n a b : ℕ} (namespace : Bytes) (w : W)
      → Writes client
      → Readable fl client v c n a b
      → let r = create_update_limit_range fl client namespace v w in
        (r.0 ≢ panic)
        × (r.0 ≡ ok tt
            → get_resources_limit fl num client namespace r.1
              ≡ ok (num.thousandths (pos (10 * c)), n % 2 ^ 32))
  unfolding create_update_limit_range
  get_resources_limit-create_update namespace w writes r =
      let o = range_made fl client v r namespace in
      let d = created_range-Written fl client writes namespace o w _ refl in
      rw (limit_range-made fl client v r namespace)
        (d.0, λ h. get_resources_limit-made r namespace _ (d.1 h))
