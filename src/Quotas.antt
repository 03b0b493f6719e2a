-- ===== src/Quotas.antt =====
-- SetClusterResourceQuotas of app/grpc/clustermanager/clustermanager.go, with its validation and
-- CreateUpdateResourceQuotas of app/grpc/common/resourcemgr/resource_quotas.go. The ResourceQuota
-- objects of Kubernetes are behind a client that is given, as is the parser of quantities.
pub mod Prefix
pub mod Read
pub mod Limits
mod Tests
use grpc_gw_controller.Base.{
  ℕ, suc, Option, none, some, Bool, true, false, List, [], ◌∷◌, ◌++◌, Outcome, ok, err, panic,
  if◌then◌else◌, ltb, ◌==◌, length, bytes_eq,
}
use grpc_gw_controller.Base.Text.{Bytes, bytes}
use grpc_gw_controller.Base.Decimal.{decimal}
use grpc_gw_controller.Base.Float.{Float64}
use grpc_gw_controller.ResourceInputs.{float_zero}
use grpc_gw_controller.Messages.Validate.{
  ValidationError, Verdict, error_text, reject_if, embedded, ◌and_then◌,
}
use grpc_gw_controller.ClusterManager.{Status, success, error, Response, Reply, respond}

pub record Quota (F : Type 0) : Type 0 where
  pub namespace : Bytes
  pub memory : ℕ
  pub cpu : F

-- `Spec.Hard`, as far as it is set.
pub record ResourceQuota (Q : Type 0) : Type 0 where
  pub name : Bytes
  pub hard_cpu : Option Q
  pub hard_memory : Option Q

pub data KubeError : Type 0 where
  already_exists other_error : Bytes → KubeError

abbrev pub kube_text : KubeError → Bytes
kube_text (already_exists e) = e
kube_text (other_error e) = e

pub record QuotaClient (Q W : Type 0) : Type 0 where
  pub create : Bytes → ResourceQuota Q → W → Option KubeError × W
  pub update : Bytes → ResourceQuota Q → W → Option KubeError × W
  -- `resource.MustParse`, which panics where there is no result.
  pub must_parse : Bytes → Option Q

abbrev pub update_after : {W : Type 0} → Option KubeError × W → Outcome Bytes (Unit {0}) × W
update_after (none, w) = (ok tt, w)
update_after (some e, w) = (err (kube_text e), w)

module _ {F Q W : Type 0} (fl : Float64 F) (client : QuotaClient Q W) where
  -- A limit of 0 sets nothing: `none` inside. No outer result is a panic.
  unfoldable pub cpu_limit : F → Option (Option Q)
  cpu_limit cpu =
      if fl.lt (float_zero fl) cpu
      then (elim (client.must_parse (fl.print_2f cpu)) [ none ↦ none | some q ↦ some (some q) ])
      else some none

  unfoldable pub memory_limit : ℕ → Option (Option Q)
  memory_limit memory =
      if ltb 0 memory
      then (elim (client.must_parse (decimal memory ++ bytes "Mi")) [
        | none ↦ none
        | some q ↦ some (some q)
      ])
      else some none

  -- The object, unless a limit is no quantity.
  unfoldable pub quota_object : Quota F → Option (ResourceQuota Q)
  quota_object q = elim (cpu_limit q.cpu) [
    | none ↦ none
    | some c ↦ elim (memory_limit q.memory) [
      | none ↦ none
      | some m ↦ some (record { name = q.namespace; hard_cpu = c; hard_memory = m })
    ]
  ]

  abbrev pub created : Bytes → ResourceQuota Q → Option KubeError × W → Outcome Bytes (Unit {0}) × W
  created namespace o (none, w) = (ok tt, w)
  created namespace o (some (already_exists e), w) = update_after (client.update namespace o w)
  created namespace o (some (other_error e), w) = (err e, w)

  abbrev pub put : Bytes → Option (ResourceQuota Q) → W → Outcome Bytes (Unit {0}) × W
  put namespace none w = (panic, w)
  put namespace (some o) w = created namespace o (client.create namespace o w)

  unfoldable pub create_update_resource_quotas : Quota F → W → Outcome Bytes (Unit {0}) × W
  create_update_resource_quotas q w = put q.namespace (quota_object q) w

  abbrev pub go_on :
      (W → Outcome Bytes (Unit {0}) × W)
      → Outcome Bytes (Unit {0}) × W
      → Outcome Bytes (Unit {0}) × W
  go_on rest (ok u, w) = rest w
  go_on rest (err e, w) = (err e, w)
  go_on rest (panic, w) = (panic, w)

  -- The loop of the handler, which stops at the first error.
  unfoldable pub apply_quotas : List (Quota F) → W → Outcome Bytes (Unit {0}) × W
  apply_quotas [] w = (ok tt, w)
  apply_quotas (q ∷ qs) w = go_on (apply_quotas qs) (create_update_resource_quotas q w)

module _ {F : Type 0} (fl : Float64 F) where
  unfoldable pub validate_quota : Quota F → Verdict
  validate_quota q =
      reject_if "Quota" (ltb (length q.namespace) 1) "Namespace"
        "value length must be at least 1 bytes"
      and_then (reject_if "Quota" (q.memory == 0) "Memory" "value must be greater than 0"
          and_then reject_if "Quota" (fl.le q.cpu (float_zero fl)) "Cpu"
              "value must be greater than 0")

  unfoldable pub validate_quotas : ℕ → List (Quota F) → Verdict
  validate_quotas idx [] = none
  validate_quotas idx (q ∷ qs) =
      embedded "SetClusterResourceQuotasRequest" (bytes "Quotas[" ++ (decimal idx ++ bytes "]"))
        (validate_quota q)
      and_then validate_quotas (suc idx) qs

  unfoldable pub validate_set_cluster_resource_quotas : List (Quota F) → Verdict
  validate_set_cluster_resource_quotas quotas =
      reject_if "SetClusterResourceQuotasRequest" (ltb (length quotas) 1) "Quotas"
        "value must contain at least 1 item(s)"
      and_then validate_quotas 0 quotas

-- `GenerateResponse` with the quotas as the body: where they cannot be marshalled the error takes the
-- place of the message.
unfoldable pub respond_with : {B : Type 0} → Bytes → Outcome Bytes B → Reply B
respond_with msg (ok b) = ok (record { status = success; message = msg; body = some b })
respond_with msg (err e) = ok (record { status = success; message = e; body = none })
respond_with msg panic = panic

module _ {F Q W B : Type 0} (fl : Float64 F) (client : QuotaClient Q W)
    (marshal : List (Quota F) → Outcome Bytes B) where
  abbrev pub after_quotas : List (Quota F) → Outcome Bytes (Unit {0}) × W → Reply B × W
  after_quotas quotas (ok u, w) =
      (respond_with (bytes "Successfully applied resource quotas") (marshal quotas), w)
  after_quotas quotas (err e, w) = (respond error e, w)
  after_quotas quotas (panic, w) = (panic, w)

  abbrev pub behind_verdict : List (Quota F) → Verdict → W → Reply B × W
  behind_verdict quotas (some e) w = (respond error (error_text e), w)
  behind_verdict quotas none w = after_quotas quotas (apply_quotas fl client quotas w)

  unfoldable pub set_cluster_resource_quotas : List (Quota F) → W → Reply B × W
  set_cluster_resource_quotas quotas w =
      behind_verdict quotas (validate_set_cluster_resource_quotas fl quotas) w
