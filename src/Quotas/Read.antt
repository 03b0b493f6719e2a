-- ===== src/Quotas/Read.antt =====
-- GetClusterResourceQuotas and DeleteClusterResourceQuotas of
-- app/grpc/clustermanager/clustermanager.go, with GetResourceQuotas and DeleteResourceQuotas of
-- app/grpc/common/resourcemgr/resource_quotas.go.
pub mod Units
mod Tests
use grpc_gw_controller.Base.{
  ℕ, Option, none, some, Bool, List, [], ◌∷◌, ◌++◌, Outcome, ok, err, panic, if◌then◌else◌, ltb,
  length, ◌>>=◌,
}
use grpc_gw_controller.Base.Text.{Bytes, bytes, has_suffix, cut_end}
use grpc_gw_controller.Base.Decimal.{ℤ, uint32, ParseError, atoi}
use grpc_gw_controller.Base.Float.{Float64}
use grpc_gw_controller.ResourceInputs.{float_zero}
use grpc_gw_controller.Messages.Validate.{Verdict, error_text, reject_if}
use grpc_gw_controller.ClusterManager.{success, error, Reply, respond}
use grpc_gw_controller.Quotas.{Quota, respond_with}

-- A quantity by `IsZero` and `String`.
pub record Amount : Type 0 where
  pub is_zero : Bool
  pub text : Bytes

pub record Hard : Type 0 where
  pub cpu : Amount
  pub memory : Amount

pub data GetError : Type 0 where
  not_found : GetError
  failed : Bytes → GetError

-- The client of Kubernetes: `Get`, which returns an object whether there is an error or not, and
-- `Delete`, with the text of its error.
pub record ReadClient (W : Type 0) : Type 0 where
  pub get : Bytes → W → Option GetError × Hard
  pub delete : Bytes → W → Option Bytes × W

pub data QuotaError : Type 0 where
  of_kube : Bytes → QuotaError
  of_number : ParseError → QuotaError

abbrev pub number : {A : Type 0} → Outcome ParseError A → Outcome QuotaError A
number (ok a) = ok a
number (err e) = err (of_number e)
number panic = panic

-- What the package strconv and the operations of float64 give: `float64(i) / 1000`, `ParseFloat` and
-- the texts of their errors.
pub record Numbers (F : Type 0) : Type 0 where
  pub thousandths : ℤ → F
  pub parse_float : Bytes → Outcome ParseError F
  pub print_error : ParseError → Bytes

abbrev pub print_quota_error : {F : Type 0} → Numbers F → QuotaError → Bytes
print_quota_error num (of_kube e) = e
print_quota_error num (of_number e) = num.print_error e

-- The last two bytes are cut off whatever they are; a shorter text is a panic.
unfoldable pub read_mebibytes : Bytes → Outcome QuotaError ℕ
read_mebibytes value =
    if ltb (length value) 2 then panic else (number (atoi (cut_end 2 value)) >>= λ n. ok (uint32 n))

unfoldable pub read_memory : Amount → Outcome QuotaError ℕ
read_memory v = if v.is_zero then ok 0 else read_mebibytes v.text

module _ {F : Type 0} (num : Numbers F) where
  unfoldable pub read_cpu : Bytes → Outcome QuotaError F
  read_cpu value =
      if has_suffix value (bytes "m")
      then (number (atoi (cut_end 1 value)) >>= λ i. ok (num.thousandths i))
      else number (num.parse_float value)

abbrev pub quota_of : {F : Type 0} → Bytes → F × ℕ → Quota F
quota_of ns (c, m) = record { namespace = ns; memory = m; cpu = c }

module _ {F : Type 0} (fl : Float64 F) (num : Numbers F) where
  -- The error of `Get`, where there is no CPU.
  abbrev pub no_cpu : Option GetError → Outcome QuotaError (F × ℕ)
  no_cpu (some (failed e)) = err (of_kube e)
  no_cpu (some not_found) = ok (float_zero fl, 0)
  no_cpu none = ok (float_zero fl, 0)

  unfoldable pub read_hard : Option GetError → Hard → Outcome QuotaError (F × ℕ)
  read_hard e hard =
      if hard.cpu.is_zero
      then no_cpu e
      else (read_cpu num hard.cpu.text >>= λ cpu. read_memory hard.memory >>= λ m. ok (cpu, m))

  abbrev pub fetched : Option GetError × Hard → Outcome QuotaError (F × ℕ)
  fetched (some not_found, hard) = ok (float_zero fl, 0)
  fetched (some (failed e), hard) = read_hard (some (failed e)) hard
  fetched (none, hard) = read_hard none hard

module _ {F W : Type 0} (fl : Float64 F) (num : Numbers F) (client : ReadClient W) where
  unfoldable pub get_resource_quotas : Bytes → W → Outcome QuotaError (F × ℕ)
  get_resource_quotas namespace w = fetched fl num (client.get namespace w)

  -- The loop of the handler, which stops at the first error.
  unfoldable pub read_quotas : List Bytes → W → Outcome QuotaError (List (Quota F))
  read_quotas [] w = ok []
  read_quotas (ns ∷ nss) w =
      get_resource_quotas ns w >>= λ q. read_quotas nss w >>= λ qs. ok (quota_of ns q ∷ qs)

unfoldable pub validate_get_cluster_resource_quotas : List Bytes → Verdict
validate_get_cluster_resource_quotas namespaces =
    reject_if "GetClusterResourceQuotasRequest" (ltb (length namespaces) 1) "Namespaces"
      "value must contain at least 1 item(s)"

module _ {F W B : Type 0} (fl : Float64 F) (num : Numbers F) (client : ReadClient W)
    (marshal : List (Quota F) → Outcome Bytes B) where
  abbrev pub after_read : Outcome QuotaError (List (Quota F)) → Reply B
  after_read (ok qs) = respond_with (bytes "List of quotas") (marshal qs)
  after_read (err e) = respond error (print_quota_error num e)
  after_read panic = panic

  abbrev pub behind_get : List Bytes → Verdict → W → Reply B
  behind_get namespaces (some e) w = respond error (error_text e)
  behind_get namespaces none w = after_read (read_quotas fl num client namespaces w)

  unfoldable pub get_cluster_resource_quotas : List Bytes → W → Reply B
  get_cluster_resource_quotas namespaces w =
      behind_get namespaces (validate_get_cluster_resource_quotas namespaces) w

module _ {W B : Type 0} (client : ReadClient W) where
  abbrev pub after_quota_delete : Bytes → Option Bytes × W → Reply B × W
  after_quota_delete namespace (none, w) = (
    respond success (bytes "Quotas were removed successfully from the namespace " ++ namespace),
    w,
  )
  after_quota_delete namespace (some e, w) = (respond error e, w)

  -- DeleteResourceQuotas deletes the object that has the name of its namespace.
  unfoldable pub delete_cluster_resource_quotas : Bytes → W → Reply B × W
  delete_cluster_resource_quotas namespace w =
      after_quota_delete namespace (client.delete namespace w)
