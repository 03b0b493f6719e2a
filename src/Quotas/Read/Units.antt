-- ===== src/Quotas/Read/Units.antt =====
-- What GetClusterResourceQuotas reads of the units of a quota.
use grpc_gw_controller.Base.{
  ℕ, ◌%◌, ◌^◌, ◌<◌, Option, none, some, true, false, List, [], ◌∷◌, ◌++◌, ok, length, length-append,
  map, All, Outcome, ◌≡◌, refl, ap, ◌∙◌, arith, ltb,
}
use grpc_gw_controller.Base.Text.{Bytes, bytes, cut_end}
use grpc_gw_controller.Base.Decimal.{pos, uint32, atoi, decimal}
use grpc_gw_controller.Base.Decimal.RoundTrip.{atoi-decimal}
use grpc_gw_controller.Base.Float.{Float64}
use grpc_gw_controller.ResourceInputs.{float_zero}
use grpc_gw_controller.Amounts.Free.{has_suffix-append, cut_end-append, atoi-cut_end}
use grpc_gw_controller.Quotas.{Quota, respond_with}
use grpc_gw_controller.Quotas.Read.{
  read_mebibytes, Amount, Hard, GetError, not_found, ReadClient, Numbers, read_memory, read_cpu,
  read_hard, fetched, get_resource_quotas, quota_of, read_quotas,
  validate_get_cluster_resource_quotas, get_cluster_resource_quotas,
}

-- A quantity that is not zero.
abbrev pub amount : Bytes → Amount
amount t = record { is_zero = false; text = t }

pub read_mebibytes-unit :
    (n a b : ℕ) → n < 2 ^ 63 → read_mebibytes (decimal n ++ a ∷ b ∷ []) ≡ ok (n % 2 ^ 32)
unfolding read_mebibytes uint32
read_mebibytes-unit n a b h =
    let long : ltb (length (decimal n ++ a ∷ b ∷ [])) 2 ≡ false =
      ground (arith, length-append (decimal n) (a ∷ b ∷ [])) in
    rw (long, atoi-cut_end n (a ∷ b ∷ []) refl h) refl

pub read_cpu-millicores :
    {F : Type 0} (num : Numbers F) (i : ℕ)
    → i < 2 ^ 63
    → read_cpu num (decimal i ++ bytes "m") ≡ ok (num.thousandths (pos i))
unfolding read_cpu
read_cpu-millicores num i h =
    let cut : atoi (cut_end 1 (decimal i ++ bytes "m")) ≡ ok (pos i) =
      ap atoi (cut_end-append 1 (decimal i) (bytes "m") refl) ∙ atoi-decimal i h in
    rw (has_suffix-append (decimal i) (bytes "m"), cut) refl

-- What is stored for a namespace: no object, an object with no limit on CPU, or one with `i`
-- millicores and a memory of `n` in the unit of the two bytes.
pub data Limits : Type 0 where
  no_object : Limits
  memory_only : Limits
  limits : ℕ → ℕ → ℕ → ℕ → Limits

unfoldable pub IsStored : Limits → Option GetError × Hard → Type 0
IsStored no_object r = r.0 ≡ some not_found
IsStored memory_only r = (r.0 ≡ none) × (r.1.cpu.is_zero ≡ true)
IsStored (limits i n a b) r =
    (r.0 ≡ none)
    × (r.1.cpu ≡ amount (decimal i ++ bytes "m"))
    × (r.1.memory ≡ amount (decimal n ++ a ∷ b ∷ []))
    × (i < 2 ^ 63)
    × (n < 2 ^ 63)

module _ {F : Type 0} (fl : Float64 F) (num : Numbers F) where
  -- The unit of the memory has no part in it.
  unfoldable pub read_as : Limits → F × ℕ
  read_as no_object = (float_zero fl, 0)
  read_as memory_only = (float_zero fl, 0)
  read_as (limits i n a b) = (num.thousandths (pos i), n % 2 ^ 32)

  fetched-stored :
      (l : Limits) (r : Option GetError × Hard) → IsStored l r → fetched fl num r ≡ ok (read_as l)
  unfolding read_hard read_memory IsStored read_as
  fetched-stored no_object (e, hard) h = rw h refl
  fetched-stored memory_only (e, hard) h = rw (h.0, h.1) refl
  fetched-stored (limits i n a b) (e, hard) h =
      rw (h.0, h.1, h.2, read_cpu-millicores num i h.3, read_mebibytes-unit n a b h.4) refl

-- The names of namespaces with what is stored for each.
abbrev Stored : Type 0
Stored = List (Bytes × Limits)

abbrev names : Stored → List Bytes
names = map (λ x. x.0)

module _ {F W : Type 0} (fl : Float64 F) (num : Numbers F) (client : ReadClient W) where
  abbrev AllStored : Stored → W → Type 0
  AllStored xs w = All (λ x. IsStored x.1 (client.get x.0 w)) xs

  abbrev quotas_read : Stored → List (Quota F)
  quotas_read = map (λ x. quota_of x.0 (read_as fl num x.1))

  read_quotas-stored :
      (xs : Stored) (w : W)
      → AllStored xs w
      → read_quotas fl num client (names xs) w ≡ ok (quotas_read xs)
  unfolding read_quotas get_resource_quotas
  read_quotas-stored [] w h = refl
  read_quotas-stored (x ∷ xs) w h =
      rw (fetched-stored fl num x.1 (client.get x.0 w) h.0, read_quotas-stored xs w h.1) refl

  -- Where for each namespace of a request, of which there is at least one, there is no quota, one with
  -- no limit on CPU, or one of i millicores and of a memory that is a number n and a unit of two bytes,
  -- both numbers below 2 ^ 63, GetClusterResourceQuotas replies with a quota per namespace, in the order
  -- of the request. It has i / 1000 and the low 32 bits of n, whatever the unit is, in the third case,
  -- and no CPU and no memory in the first two, also where there is a limit on memory.
  pub get_cluster_resource_quotas-units :
      {B : Type 0} (marshal : List (Quota F) → Outcome Bytes B) (x : Bytes × Limits) (xs : Stored)
      (w : W)
      → AllStored (x ∷ xs) w
      → get_cluster_resource_quotas fl num client marshal (names (x ∷ xs)) w
        ≡ respond_with (bytes "List of quotas") (marshal (quotas_read (x ∷ xs)))
  unfolding get_cluster_resource_quotas validate_get_cluster_resource_quotas
  get_cluster_resource_quotas-units marshal x xs w h =
      let some_names : ltb (length (names (x ∷ xs))) 1 ≡ false = ground arith in
      rw (some_names, read_quotas-stored (x ∷ xs) w h) refl
