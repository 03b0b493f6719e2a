-- ===== src/Rancher/Tests.antt =====
-- A server with one cluster and the apps of a project.
use grpc_gw_controller.Base.{
  none, some, List, [], ◌∷◌, ok, err, panic, inr, bytes_eq, if◌then◌else◌, ◌≡◌, refl,
}
use grpc_gw_controller.Base.Text.{Bytes, bytes, to_lower}
use grpc_gw_controller.Rancher.{
  Resource, not_found, ApiClient, MasterClient, matching_type, get_resource_type, has_type,
  schema_client, ask, multiple_named, lookup_types, lookup, ProjectApi,
}
use grpc_gw_controller.Rancher.Lookup.{IsChoice, hits, lookup-IsChoice}

abbrev local : Resource
local = record { id = bytes "c-1"; kind = bytes "cluster" }

abbrev management : ApiClient
management = record {
  types = bytes "Cluster" ∷ bytes "project" ∷ [];
  by_id = λ t n. not_found;
  list = λ t n. inr (if bytes_eq n (bytes "local") then local ∷ [] else []);
}

abbrev client : MasterClient
client = record {
  management_client = some management;
  project_client = none;
  cluster_client = none;
}

-- There is a project client and no cluster client.
abbrev half_client : MasterClient
half_client = record client { project_client = some (record management { types = [] }) }

abbrev projects : ProjectApi
projects = record {
  list = λ n. inr [];
  create = λ n c. inr (record { id = bytes "p-1"; name = n; cluster_id = c });
}

rancher_runs :
    (lookup client (bytes "local") (bytes "cluster" ∷ []) ≡ ok local)
    × (lookup client (bytes "remote") (bytes "cluster" ∷ []) ≡ err (bytes "not found: remote"))
    × (lookup client (bytes "local") (bytes "cluster" ∷ bytes "project" ∷ [])
        ≡ err (bytes "multiple resources named local: cluster:c-1, cluster:c-1"))
    × (lookup half_client (bytes "local") (bytes "app" ∷ []) ≡ panic)
unfolding lookup lookup_types ask get_resource_type matching_type has_type schema_client to_lower
    bytes_eq multiple_named
rancher_runs = (refl, refl, refl, refl)

abbrev clusters : Bytes → List Resource
clusters t = local ∷ []

lookup-IsChoice_example :
    IsChoice
      (bytes "local")
      (hits clusters (bytes "cluster" ∷ []))
      (lookup client (bytes "local") (bytes "cluster" ∷ []))
unfolding ask get_resource_type matching_type has_type schema_client to_lower bytes_eq
lookup-IsChoice_example =
    lookup-IsChoice client (bytes "local") clusters (bytes "cluster" ∷ []) (refl, tt)
