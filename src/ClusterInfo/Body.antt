-- ===== src/ClusterInfo/Body.antt =====
-- The body of the response of `GetClusterInfo`, with the loops over conditions and nodes.
use grpc_gw_controller.Base.{
  suc, ◌+◌, ◌-◌, ◌%◌, ◌^◌, Option, none, some, Bool, not, ◌&&◌, List, [], ◌∷◌, ◌++◌, string_eq,
  bytes_eq, Outcome, ok, err, panic, ◌⊎◌, inl, inr, ltb, if◌then◌else◌, length, ◌>>=◌,
}
use grpc_gw_controller.Base.Text.{Bytes, bytes}
use grpc_gw_controller.Base.Decimal.{ℤ, pos, negsuc, ParseError, decimal}
use grpc_gw_controller.Maps.{Map, get}
use grpc_gw_controller.Amounts.{Usage, quotient, get_memory, get_allocated_cpu, get_storage_gb_int}
use grpc_gw_controller.ClusterManager.{Reply, error, respond}
use grpc_gw_controller.Quotas.{respond_with}
use grpc_gw_controller.Lcm.{Upgrade}
use grpc_gw_controller.Nodes.{active, get_state}
use grpc_gw_controller.ClusterInfo.{
  ConditionStatus, condition_ok, condition_error, condition_warning, KubeCondition, Cluster,
  ClusterNode, Storage, NodeInfo, Info, InfoClient, count_apps, no_counts, workloads_of,
}

-- A difference of two `int`.
abbrev sub_int : ℤ → ℤ → ℤ
sub_int (pos a) (pos b) = if ltb a b then negsuc (b - a - 1) else pos (a - b)
sub_int (pos a) (negsuc b) = pos (a + suc b)
sub_int (negsuc a) (pos b) = negsuc (a + b)
sub_int (negsuc a) (negsuc b) = if ltb b a then negsuc (a - b - 1) else pos (b - a)

abbrev print_int : ℤ → Bytes
print_int (pos n) = decimal n
print_int (negsuc n) = bytes "-" ++ decimal (suc n)

abbrev fails : KubeCondition → Bool
fails c = not (bytes_eq c.reason []) && bytes_eq c.status (bytes "True")

-- The messages of the conditions that pass a test.
unfoldable pub messages : (KubeCondition → Bool) → List KubeCondition → List Bytes
messages p [] = []
messages p (c ∷ cs) = let rest = messages p cs in if p c then c.message ∷ rest else rest

abbrev pub status_of_errors : List Bytes → ConditionStatus
status_of_errors [] = condition_ok
status_of_errors (e ∷ es) = condition_error

abbrev pub cluster_errors : Cluster → List Bytes
cluster_errors c = messages fails c.conditions

abbrev pub node_errors : ClusterNode → List Bytes
node_errors n =
    (if bytes_eq n.transitioning (bytes "error") then n.transitioning_message ∷ [] else [])
    ++ messages (λ c. fails c && not (bytes_eq c.kind (bytes "Ready"))) n.conditions

-- The status of the cluster after the nodes: an error of a node makes it a warning.
unfoldable pub status_after : ConditionStatus → List ClusterNode → ConditionStatus
status_after s [] = s
status_after s (n ∷ ns) =
    status_after (elim (node_errors n) [ [] ↦ s | e ∷ es ↦ condition_warning ]) ns

abbrev pub listed : {A : Type 0} → Bytes ⊎ A → Outcome Bytes A
listed (inl e) = err e
listed (inr a) = ok a

-- The error of `getMemory` is dropped.
abbrev pub memory_or_nil : Outcome ParseError (Usage Bytes) → Option (Usage Bytes)
memory_or_nil (ok u) = some u
memory_or_nil (err e) = none
memory_or_nil panic = none

module _ (client : InfoClient) where
  abbrev pub parsed : {A : Type 0} → Outcome ParseError A → Outcome Bytes A
  parsed (ok a) = ok a
  parsed (err e) = err (client.parse_error_text e)
  parsed panic = panic

  unfoldable pub node_storage : ClusterNode → Outcome Bytes Storage
  node_storage n = parsed (get_storage_gb_int (get n.capacity "ephemeral-storage")) >>= λ cap.
      parsed (get_storage_gb_int (get n.allocatable "ephemeral-storage")) >>= λ s.
      (let free = quotient (quotient s 1024) 1024 in
        ok (record {
          total = print_int cap;
          free = print_int free;
          used = print_int (sub_int cap free);
        }))

  unfoldable pub node_info : Bytes → ClusterNode → Outcome Bytes NodeInfo
  node_info endpoint n = client.node_url endpoint n.ip_address >>= λ url.
      parsed (get_allocated_cpu client.print_ratio (get n.requested "cpu")) >>= λ cpu.
      node_storage n >>= λ storage. ok (record {
        id = n.id;
        hostname = n.hostname;
        monitor_url = url;
        master = n.control_plane;
        worker = n.worker;
        etcd = n.etcd;
        external_ip = n.external_ip_address;
        condition = record {
          status = status_of_errors (node_errors n);
          state = get_state n.state;
          errors = node_errors n;
        };
        cpu_cores = record { total = get n.allocatable "cpu"; allocated = cpu };
        memory = memory_or_nil (get_memory (get n.allocatable "memory") (get n.requested "memory"));
        local_storage = storage;
      })

  unfoldable pub node_infos : Bytes → List ClusterNode → Outcome Bytes (List NodeInfo)
  node_infos endpoint [] = ok []
  node_infos endpoint (n ∷ ns) =
      node_info endpoint n >>= λ i. node_infos endpoint ns >>= λ is. ok (i ∷ is)

  unfoldable pub last_upgrade : Map → Outcome Bytes (Option Upgrade)
  last_upgrade annotations =
      let a = get annotations "apphc.apph.last_upgrade" in
      if bytes_eq a [] then ok none else client.parse_upgrade a >>= λ u. ok (some u)

  -- The number of nodes is taken from the list of the applications.
  unfoldable pub cluster_info : Map → Cluster → Outcome Bytes Info
  cluster_info annotations c = last_upgrade annotations >>= λ upgrade.
      client.endpoint >>= λ endpoint. client.services_url endpoint >>= λ url.
      parsed (get_allocated_cpu client.print_ratio (get c.requested "cpu")) >>= λ cpu.
      listed client.apps >>= λ apps. listed client.nodes >>= λ nodes.
      node_infos endpoint nodes >>= λ infos. ok (record {
        id = c.id;
        cluster_name = c.name;
        creation_date = c.created;
        condition = record {
          status = status_after (status_of_errors (cluster_errors c)) nodes;
          state = active;
          errors = cluster_errors c;
        };
        cpu_cores = record { total = get c.allocatable "cpu"; allocated = cpu };
        memory = memory_or_nil (get_memory (get c.allocatable "memory") (get c.requested "memory"));
        last_upgrade_status = upgrade;
        svc_monitor_url = url;
        workloads = workloads_of (count_apps apps no_counts);
        number_of_nodes = length apps % 2 ^ 32;
        nodes = infos;
      })

  abbrev pub answer : {B : Type 0} → (Info → Outcome Bytes B) → Outcome Bytes Info → Reply B
  answer marshal (ok i) = respond_with (bytes "Cluster information") (marshal i)
  answer marshal (err e) = respond error e
  answer marshal panic = panic

  -- An error of the list of clusters is no response; the first cluster of an empty list panics.
  abbrev pub with_clusters :
      {B : Type 0} → (Info → Outcome Bytes B) → Map → Bytes ⊎ List Cluster → Reply B
  with_clusters marshal annotations (inl e) = err e
  with_clusters marshal annotations (inr []) = panic
  with_clusters marshal annotations (inr (c ∷ cs)) = answer marshal (cluster_info annotations c)

  unfoldable pub get_cluster_info : {B : Type 0} → (Info → Outcome Bytes B) → Map → Reply B
  get_cluster_info marshal annotations = with_clusters marshal annotations client.clusters
