-- ===== src/Adapter/Deploy.antt =====
-- What `CreateApp` and `updateUpgradeApps` of app/grpc/appmanager/adapters/rancher/adapter.go share: the
-- calls outside, the making of charts and the work on the instances.
use grpc_gw_controller.Base.{
  ℕ, Option, none, some, Bool, List, ◌∷◌, Outcome, ok, err, panic, String,
}
use grpc_gw_controller.Base.Text.{Bytes, bytes}
use grpc_gw_controller.Base.Decimal.{ParseError}
use grpc_gw_controller.Base.Dict.{Dict}
use grpc_gw_controller.Base.Float.{Float64}
use grpc_gw_controller.Messages.{AppRequest, Limits}
use grpc_gw_controller.AppManager.{Reply, failure}
use grpc_gw_controller.Apps.{AppInstanceData, GenericRequester}
use grpc_gw_controller.Apps.Running.{RancherApp, RunningError, client, number}
use grpc_gw_controller.Charts.{Fields, Reader, FlexApi}
use grpc_gw_controller.Quotas.Limits.{LimitClient, create_update_limit_range}
use grpc_gw_controller.Workers.{AppInstance, ApiClient, create_upgrade_apps, run, start}
use grpc_gw_controller.Adapter.{Body, unless_error}
use grpc_gw_controller.Adapter.Catalog.{CatalogClient}

-- The calls outside: the caches, Rancher by the functions of the package apiclient, the files and the
-- charts. `create_chart` gives the description that the instance has afterwards, which is made up where
-- there was none.
pub record DeployClient (F Q W : Type 0) : Type 0 where
  pub sync_cache : W → Option Bytes × W
  pub catalog : CatalogClient W
  pub list_apps : W → Outcome Bytes (List RancherApp) × W
  pub parse_query : Bytes → Outcome Bytes (Dict String (List Bytes))
  pub create_namespace : Bytes → W → Option Bytes × W
  pub create_shared_storage : Bytes → Bytes → Bytes → ℕ → W → Option Bytes × W
  pub delete_storage : Bytes → Bytes → W → Option Bytes × W
  pub check_available_resources : ℕ → Limits F → W → Option Bytes × W
  pub create_chart : Bytes → Bytes → Bytes → Bytes → AppInstanceData → W → Outcome Bytes Bytes × W
  pub copy_chart : Bytes → Bytes → Bytes → Bytes → W → Option Bytes × W
  pub delete_chart : Bytes → Bytes → Bytes → W → Option Bytes × W
  pub parse_last_good_config : Bytes → W → Outcome Bytes Fields
  pub random_id : W → Outcome Bytes Bytes × W
  pub remove_all : Bytes → W → W
  pub make_dir : Bytes → W → Option Bytes × W
  pub is_missing : Bytes → W → Bool
  pub reader : W → Reader
  pub join_path : List Bytes → Bytes
  pub limits : LimitClient Q W
  pub instances : ApiClient W

pub record DeploySettings : Type 0 where
  pub apps_catalog_name : Bytes
  pub cache_path : Bytes
  pub recreate_policy : Bool
  pub flex_api : FlexApi

abbrev pub requester_of : {F : Type 0} → AppRequest F → GenericRequester
requester_of req = record {
  name = req.name;
  version = req.version;
  root_group_id = req.root_group_id;
  group_ids = req.group_ids;
}

-- The texts of the errors of `AppendRunningAppsData`.
abbrev pub running_text :
    {A : Type 0} → (ParseError → Bytes) → Outcome (RunningError Bytes) A → Outcome Bytes A
running_text print (ok a) = ok a
running_text print (err (client e)) = err e
running_text print (err (number e)) = err (print e)
running_text print panic = panic

-- A call that may panic, before the rest.
abbrev pub unless_failed :
    {W : Type 0} → Outcome Bytes (Unit {0}) × W → (W → Reply Body × W) → Reply Body × W
unless_failed (ok u, w) rest = rest w
unless_failed (err e, w) rest = (failure e, w)
unless_failed (panic, w) rest = (panic, w)

-- A call with a result, before the rest.
abbrev pub with_call :
    {W A : Type 0} → Outcome Bytes A × W → (A → W → Reply Body × W) → Reply Body × W
with_call (ok a, w) rest = rest a w
with_call (err e, w) rest = (failure e, w)
with_call (panic, w) rest = (panic, w)

-- One call after another.
abbrev pub then_call :
    {W A B : Type 0} → Outcome Bytes A × W → (A → W → Outcome Bytes B × W) → Outcome Bytes B × W
then_call (ok a, w) rest = rest a w
then_call (err e, w) rest = (err e, w)
then_call (panic, w) rest = (panic, w)

abbrev pub then_cons :
    {W A : Type 0}
    → Outcome Bytes A × W
    → (W → Outcome Bytes (List A) × W)
    → Outcome Bytes (List A) × W
then_cons x rest = then_call x (λ a w. then_call (rest w) (λ as' w1. (ok (a ∷ as'), w1)))

module _ {F Q W : Type 0} (cl : DeployClient F Q W) (settings : DeploySettings) where
  -- Whether the limits, where there are some, can be met.
  abbrev pub check_limits : ℕ → Option (Limits F) → (W → Reply Body × W) → W → Reply Body × W
  check_limits count none rest w = rest w
  check_limits count (some l) rest w = unless_error (cl.check_available_resources count l w) rest

  -- `createUpgradeApps`, with the world that it leaves.
  unfoldable pub work : List AppInstanceData → List ℕ → W → Outcome Bytes (List AppInstance) × W
  work is schedule w = (
    create_upgrade_apps cl.instances settings.apps_catalog_name is schedule w,
    (run cl.instances settings.apps_catalog_name is schedule (start is w)).world,
  )

  -- The bounds that are set on the CPU and the memory of a namespace.
  abbrev pub set_limits : Float64 F → Bytes → Limits F → W → Outcome Bytes (Unit {0}) × W
  set_limits fl namespace l w =
      create_update_limit_range fl cl.limits namespace
        (record {
          cpu = l.cpu;
          memory = l.memory;
          default_cpu = bytes "0.1";
          default_memory = bytes "20Mi";
        })
        w
