-- ===== src/Quotas/Limits.antt =====
-- The limit ranges of app/grpc/common/resourcemgr/limitranges.go. The LimitRange objects of Kubernetes
-- are behind a client that is given, as are the parser and the printer of quantities.
pub mod RoundTrip
mod Tests
use grpc_gw_controller.Base.{
  ℕ, Option, none, some, Bool, true, false, List, [], ◌∷◌, ◌++◌, Outcome, ok, err, panic, ltb,
  ◌>>=◌,
}
use grpc_gw_controller.Base.Text.{Bytes, bytes}
use grpc_gw_controller.Base.Decimal.{decimal}
use grpc_gw_controller.Base.Float.{Float64}
use grpc_gw_controller.ResourceInputs.{float_zero}
use grpc_gw_controller.Quotas.{KubeError, already_exists, other_error, update_after}
use grpc_gw_controller.Quotas.Read.{
  GetError, not_found, failed, QuotaError, of_kube, Numbers, read_cpu, read_mebibytes,
}

pub data LimitType : Type 0 where
  pod : LimitType
  container : LimitType

-- The entries of `Min`, `Max` and `DefaultRequest` under one resource, as far as they are set.
pub record Bounds (Q : Type 0) : Type 0 where
  pub min : Option Q
  pub max : Option Q
  pub default_request : Option Q

pub record LimitItem (Q : Type 0) : Type 0 where
  pub kind : LimitType
  pub cpu : Bounds Q
  pub memory : Bounds Q

pub record LimitRange (Q : Type 0) : Type 0 where
  pub name : Bytes
  pub limits : List (LimitItem Q)

-- `Get` returns an object whether there is an error or not.
pub record LimitClient (Q W : Type 0) : Type 0 where
  pub create : Bytes → LimitRange Q → W → Option KubeError × W
  pub update : Bytes → LimitRange Q → W → Option KubeError × W
  pub get : Bytes → W → Option GetError × LimitRange Q
  pub delete : Bytes → W → Option GetError × W
  -- `resource.MustParse`, which panics where there is no result, and `String`.
  pub must_parse : Bytes → Option Q
  pub print : Q → Bytes

-- What CreateUpdateLimitRange is called with.
pub record Wanted (F : Type 0) : Type 0 where
  pub cpu : F
  pub memory : ℕ
  pub default_cpu : Bytes
  pub default_memory : Bytes

abbrev must : {Q : Type 0} → Option Q → Outcome Bytes Q
must (some q) = ok q
must none = panic

abbrev pub default_for : {Q : Type 0} → LimitType → Q → Option Q
default_for pod q = none
default_for container q = some q

module _ {F Q W : Type 0} (fl : Float64 F) (client : LimitClient Q W) where
  -- `Bounds` under a resource that is limited or not.
  unfoldable pub bounds : Bool → LimitType → Bytes → Bytes → Outcome Bytes (Bounds Q)
  bounds false t lowest highest = ok (record { min = none; max = none; default_request = none })
  bounds true t lowest highest = must (client.must_parse lowest) >>= λ lo.
      must (client.must_parse highest) >>= λ hi.
      ok (record { min = some lo; max = some hi; default_request = default_for t lo })

  unfoldable pub limit_item : Wanted F → LimitType → Outcome Bytes (LimitItem Q)
  limit_item v t = bounds (fl.lt (float_zero fl) v.cpu) t v.default_cpu (fl.print_2f v.cpu) >>= λ c.
      bounds (ltb 0 v.memory) t v.default_memory (decimal v.memory ++ bytes "Mi") >>= λ m.
      ok (record { kind = t; cpu = c; memory = m })

  unfoldable pub limit_range : Bytes → Wanted F → Outcome Bytes (LimitRange Q)
  limit_range namespace v = limit_item v pod >>= λ p.
      limit_item v container >>= λ c. ok (record { name = namespace; limits = p ∷ c ∷ [] })

  abbrev pub created_range :
      Bytes → LimitRange Q → Option KubeError × W → Outcome Bytes (Unit {0}) × W
  created_range namespace o (none, w) = (ok tt, w)
  created_range namespace o (some (already_exists e), w) =
      update_after (client.update namespace o w)
  created_range namespace o (some (other_error e), w) = (err e, w)

  abbrev pub put_range : Bytes → Outcome Bytes (LimitRange Q) → W → Outcome Bytes (Unit {0}) × W
  put_range namespace (ok o) w = created_range namespace o (client.create namespace o w)
  put_range namespace (err e) w = (err e, w)
  put_range namespace panic w = (panic, w)

  unfoldable pub create_update_limit_range : Bytes → Wanted F → W → Outcome Bytes (Unit {0}) × W
  create_update_limit_range namespace v w = put_range namespace (limit_range namespace v) w

module _ {Q W : Type 0} (client : LimitClient Q W) where
  abbrev pub deleted_range : Option GetError × W → Outcome Bytes (Unit {0}) × W
  deleted_range (some not_found, w) = (ok tt, w)
  deleted_range (some (failed e), w) = (err e, w)
  deleted_range (none, w) = (ok tt, w)

  unfoldable pub delete_limit_range : Bytes → W → Outcome Bytes (Unit {0}) × W
  delete_limit_range namespace w = deleted_range (client.delete namespace w)

module _ {F Q W : Type 0} (fl : Float64 F) (num : Numbers F) (client : LimitClient Q W) where
  abbrev pub max_cpu : Option Q → Outcome QuotaError F
  max_cpu none = ok (float_zero fl)
  max_cpu (some q) = read_cpu num (client.print q)

  abbrev pub max_memory : Option Q → Outcome QuotaError ℕ
  max_memory none = ok 0
  max_memory (some q) = read_mebibytes (client.print q)

  -- The error of `Get` stays in the named result until a number is read.
  abbrev pub left_error : Option Bytes → Option Q → Option Q → F × ℕ → Outcome QuotaError (F × ℕ)
  left_error none c m r = ok r
  left_error (some e) none none r = err (of_kube e)
  left_error (some e) (some q) m r = ok r
  left_error (some e) none (some q) r = ok r

  -- Only the first item is read: with no items it is a panic.
  abbrev pub first_limits : Option Bytes → List (LimitItem Q) → Outcome QuotaError (F × ℕ)
  first_limits e [] = panic
  first_limits e (item ∷ items) = max_cpu item.cpu.max >>= λ c.
      max_memory item.memory.max >>= λ m. left_error e item.cpu.max item.memory.max (c, m)

  -- An error other than `not_found` is not looked at before the items.
  abbrev pub limits_of : Option GetError × LimitRange Q → Outcome QuotaError (F × ℕ)
  limits_of (some not_found, o) = ok (float_zero fl, 0)
  limits_of (some (failed e), o) = first_limits (some e) o.limits
  limits_of (none, o) = first_limits none o.limits

  unfoldable pub get_resources_limit : Bytes → W → Outcome QuotaError (F × ℕ)
  get_resources_limit namespace w = limits_of (client.get namespace w)
