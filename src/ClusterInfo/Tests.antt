-- ===== src/ClusterInfo/Tests.antt =====
-- A cluster of one node with two instances of one application, of which one runs.
use grpc_gw_controller.Base.{
  ℕ, none, some, true, false, List, [], ◌∷◌, string_eq, bytes_Eq, bytes_eq, Outcome, ok, err, inr,
  length, arith, ◌≡◌, refl,
}
use grpc_gw_controller.Base.Text.{Bytes, bytes, has_suffix}
use grpc_gw_controller.Base.Decimal.{atoi, decimal, uint32}
use grpc_gw_controller.Base.Dict.{lookup, insert}
use grpc_gw_controller.Maps.{Map, get}
use grpc_gw_controller.Amounts.{
  get_memory, get_allocated_cpu, get_storage_gb_int, parse_all_memory_string, parse_memory_string,
  total_memory,
}
use grpc_gw_controller.Nodes.{active, get_state}
use grpc_gw_controller.ClusterInfo.{
  KubeCondition, Cluster, ClusterNode, condition_error, condition_warning, NodeInfo, Info,
  InfoClient, count_up, count_app, count_apps, no_counts, workloads_of,
}
use grpc_gw_controller.ClusterInfo.Body.{
  messages, status_after, node_storage, node_info, node_infos, last_upgrade, cluster_info,
}
use grpc_gw_controller.ClusterInfo.Counted.{Figures, cluster_info-Figures}

abbrev pressure : KubeCondition
pressure = record {
  kind = bytes "DiskPressure";
  reason = bytes "full";
  status = bytes "True";
  message = bytes "disk is full";
}

abbrev local : Cluster
local = record {
  id = bytes "c-1";
  name = bytes "local";
  created = bytes "today";
  allocatable = ("memory", bytes "2048Ki") ∷ [];
  requested = ("memory", bytes "1Mi") ∷ ("cpu", bytes "2") ∷ [];
  conditions = pressure ∷ [];
}

abbrev worker : ClusterNode
worker = record {
  id = bytes "n1";
  hostname = bytes "worker";
  control_plane = false;
  worker = true;
  etcd = false;
  ip_address = bytes "10.0.0.1";
  external_ip_address = [];
  state = bytes "active";
  transitioning = [];
  transitioning_message = [];
  conditions = pressure ∷ [];
  allocatable = ("ephemeral-storage", bytes "1048576") ∷ [];
  requested = [];
  capacity = ("ephemeral-storage", bytes "2048Ki") ∷ [];
}

abbrev instance_in : Bytes → Map
instance_in state =
    ("apphc.app.basename", bytes "editor") ∷ ("apphc.app.instance.state", state) ∷ []

abbrev editors : List Map
editors = instance_in (bytes "1") ∷ instance_in (bytes "0") ∷ []

abbrev client : InfoClient
client = record {
  clusters = inr (local ∷ []);
  apps = inr editors;
  nodes = inr (worker ∷ []);
  endpoint = ok (bytes "10.0.0.1:3000");
  services_url = λ e. ok e;
  node_url = λ e ip. ok ip;
  parse_upgrade = λ a. err a;
  print_ratio = λ n k. [];
  parse_error_text = λ e. bytes "invalid syntax";
}

abbrev figures : Outcome Bytes Info → List ℕ
figures (ok i) =
    i.number_of_nodes ∷ i.workloads.number_of_apps ∷ i.workloads.number_of_instances
    ∷ i.workloads.number_of_active_instances ∷ []
figures _ = []

cluster_info_run : figures (cluster_info client [] local) ≡ 2 ∷ 1 ∷ 2 ∷ 1 ∷ []
unfolding cluster_info last_upgrade bytes_eq get lookup get_allocated_cpu has_suffix node_infos
    node_info node_storage get_storage_gb_int atoi workloads_of count_apps count_app count_up insert
cluster_info_run = refl

-- The error of the cluster becomes a warning, since its node has one too.
status_after_run : status_after condition_error (worker ∷ []) ≡ condition_warning
unfolding status_after messages bytes_eq
status_after_run = refl

abbrev shown_worker : NodeInfo
shown_worker = record {
  id = bytes "n1";
  hostname = bytes "worker";
  monitor_url = bytes "10.0.0.1";
  master = false;
  worker = true;
  etcd = false;
  external_ip = [];
  condition = record {
    status = condition_error;
    state = active;
    errors = bytes "disk is full" ∷ [];
  };
  cpu_cores = record { total = []; allocated = [] };
  memory = none;
  local_storage = record { total = decimal 2; free = decimal 1; used = decimal 1 };
}

abbrev shown : Info
shown = record {
  id = bytes "c-1";
  cluster_name = bytes "local";
  creation_date = bytes "today";
  condition = record {
    status = condition_warning;
    state = active;
    errors = bytes "disk is full" ∷ [];
  };
  cpu_cores = record { total = []; allocated = bytes "2" };
  memory = some (record { total = decimal 2; allocated = decimal 1; free = decimal 1 });
  last_upgrade_status = none;
  svc_monitor_url = bytes "10.0.0.1:3000";
  workloads = workloads_of (count_apps editors no_counts);
  number_of_nodes = 2;
  nodes = shown_worker ∷ [];
}

cluster_info-Figures_example :
    Figures editors shown.workloads × (shown.number_of_nodes ≡ length editors)
unfolding cluster_info last_upgrade bytes_eq get lookup get_allocated_cpu has_suffix node_infos
    node_info node_storage get_storage_gb_int atoi workloads_of count_apps count_app count_up insert
    get_memory status_after messages parse_all_memory_string get_state total_memory
    parse_memory_string uint32
cluster_info-Figures_example =
    cluster_info-Figures client [] local editors shown refl (omega arith) refl
