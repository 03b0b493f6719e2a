-- ===== src/ClusterInfo.antt =====
-- `GetClusterInfo` of app/grpc/clustermanager/adapters/rancher/adapter.go. It changes nothing: what the
-- Rancher client lists is given, and so are the endpoint of the monitoring service, the URLs made from
-- it by templates, the parser of the annotation of the last upgrade, and the printer of float32.
pub mod Body
pub mod Distinct
pub mod Counted
mod Tests
use grpc_gw_controller.Base.{
  ℕ, zero, suc, ◌+◌, ◌-◌, ◌%◌, ◌^◌, Option, none, some, Bool, true, false, not, ◌&&◌, ◌||◌, List,
  [], ◌∷◌, ◌++◌, map, String, string_eq, bytes_Eq, bytes_eq, Outcome, ok, err, panic, ◌⊎◌, inl, inr,
  ltb, if◌then◌else◌, length, ◌>>=◌,
}
use grpc_gw_controller.Base.Text.{Bytes, bytes}
use grpc_gw_controller.Base.Decimal.{
  ℤ, pos, negsuc, ParseError, invalid_syntax, out_of_range, decimal,
}
use grpc_gw_controller.Base.Dict.{Dict, lookup, insert, is_some}
use grpc_gw_controller.Maps.{Map, get}
use grpc_gw_controller.Amounts.{Usage, quotient, get_memory, get_allocated_cpu, get_storage_gb_int}
use grpc_gw_controller.ClusterManager.{Reply, error, respond}
use grpc_gw_controller.Quotas.{respond_with}
use grpc_gw_controller.Lcm.{Upgrade}
use grpc_gw_controller.Nodes.{NodeState, active, get_state}

pub data ConditionStatus : Type 0 where
  condition_ok condition_error condition_warning : ConditionStatus

pub record Condition : Type 0 where
  pub status : ConditionStatus
  pub state : NodeState
  pub errors : List Bytes

-- A condition of a cluster or of a node, as the Rancher client gives it.
pub record KubeCondition : Type 0 where
  pub kind : Bytes
  pub reason : Bytes
  pub status : Bytes
  pub message : Bytes

pub record Cluster : Type 0 where
  pub id : Bytes
  pub name : Bytes
  pub created : Bytes
  pub allocatable : Map
  pub requested : Map
  pub conditions : List KubeCondition

pub record ClusterNode : Type 0 where
  pub id : Bytes
  pub hostname : Bytes
  pub control_plane : Bool
  pub worker : Bool
  pub etcd : Bool
  pub ip_address : Bytes
  pub external_ip_address : Bytes
  pub state : Bytes
  pub transitioning : Bytes
  pub transitioning_message : Bytes
  pub conditions : List KubeCondition
  pub allocatable : Map
  pub requested : Map
  pub capacity : Map

pub record Cpu : Type 0 where
  pub total : Bytes
  pub allocated : Bytes

pub record Storage : Type 0 where
  pub total : Bytes
  pub free : Bytes
  pub used : Bytes

-- `GetClusterInfoResponseBody_Node`; the memory may be nil.
pub record NodeInfo : Type 0 where
  pub id : Bytes
  pub hostname : Bytes
  pub monitor_url : Bytes
  pub master : Bool
  pub worker : Bool
  pub etcd : Bool
  pub external_ip : Bytes
  pub condition : Condition
  pub cpu_cores : Cpu
  pub memory : Option (Usage Bytes)
  pub local_storage : Storage

pub record AppInfo : Type 0 where
  pub name : Bytes
  pub number_of_instances : ℕ
  pub is_active : Bool

pub record Workloads : Type 0 where
  pub number_of_apps : ℕ
  pub number_of_instances : ℕ
  pub number_of_active_apps : ℕ
  pub number_of_active_instances : ℕ
  pub apps : List AppInfo

pub record Info : Type 0 where
  pub id : Bytes
  pub cluster_name : Bytes
  pub creation_date : Bytes
  pub condition : Condition
  pub cpu_cores : Cpu
  pub memory : Option (Usage Bytes)
  pub last_upgrade_status : Option Upgrade
  pub svc_monitor_url : Bytes
  pub workloads : Workloads
  pub number_of_nodes : ℕ
  pub nodes : List NodeInfo

-- The applications are given by their annotations.
pub record InfoClient : Type 0 where
  pub clusters : Bytes ⊎ List Cluster
  pub apps : Bytes ⊎ List Map
  pub nodes : Bytes ⊎ List ClusterNode
  pub endpoint : Outcome Bytes Bytes
  pub services_url : Bytes → Outcome Bytes Bytes
  pub node_url : Bytes → Bytes → Outcome Bytes Bytes
  pub parse_upgrade : Bytes → Outcome Bytes Upgrade
  pub print_ratio : ℤ → ℕ → Bytes
  pub parse_error_text : ParseError → Bytes

-- The counts of the loop over the applications; every count is a uint32.
pub record Counts : Type 0 where
  pub created : Dict Bytes ℕ
  pub active : Dict Bytes ℕ
  pub instances : ℕ
  pub active_instances : ℕ

abbrev pub or_zero : Option ℕ → ℕ
or_zero none = 0
or_zero (some n) = n

-- `++` on a uint32.
abbrev pub next : ℕ → ℕ
next n = (n + 1) % 2 ^ 32

unfoldable pub count_up : Bytes → Dict Bytes ℕ → Dict Bytes ℕ
count_up name d = insert name (next (or_zero (lookup name d))) d

abbrev pub is_enabled : Map → Bool
is_enabled a = bytes_eq (get a "apphc.app.instance.state") (bytes "1")

abbrev pub app_of : Map → Bytes
app_of a = get a "apphc.app.basename"

unfoldable pub count_app : Map → Counts → Counts
count_app a c =
    let d = record c { created = count_up (app_of a) c.created; instances = next c.instances } in
    if is_enabled a
    then record d {
      active = count_up (app_of a) c.active;
      active_instances = next c.active_instances;
    }
    else d

unfoldable pub count_apps : List Map → Counts → Counts
count_apps [] c = c
count_apps (a ∷ as') c = count_apps as' (count_app a c)

abbrev pub no_counts : Counts
no_counts = record { created = []; active = []; instances = 0; active_instances = 0 }

-- The list of the applications, in the order of the map.
abbrev pub app_infos : Dict Bytes ℕ → Dict Bytes ℕ → List AppInfo
app_infos active_apps [] = []
app_infos active_apps ((name, n) ∷ d) =
    record { name = name; number_of_instances = n; is_active = is_some (lookup name active_apps) }
    ∷ app_infos active_apps d

unfoldable pub workloads_of : Counts → Workloads
workloads_of c = record {
  number_of_apps = length c.created % 2 ^ 32;
  number_of_instances = c.instances;
  number_of_active_apps = length c.active % 2 ^ 32;
  number_of_active_instances = c.active_instances;
  apps = app_infos c.active c.created;
}
