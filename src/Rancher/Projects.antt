-- ===== src/Rancher/Projects.antt =====
-- The cluster of a new project.
use grpc_gw_controller.Base.{some, [], ◌∷◌, ok, bytes_eq, ◌≡◌, ◌≢◌, inr, refl}
use grpc_gw_controller.Base.Text.{Bytes, bytes}
use grpc_gw_controller.Rancher.{
  not_found, ApiClient, MasterClient, get_resource_type, schema_client, ask, lookup_types, lookup,
  ProjectApi, returned, get_project_context,
}

-- Where the name of the cluster is not set, the project is not there, the cluster API is served and the
-- server has no resource with an empty ID, GetProjectContext does not report the missing setting: it
-- creates the project with an empty cluster ID.
get_project_context-no_cluster :
    (c : MasterClient) (api : ProjectApi) (project_name rt : Bytes) (a : ApiClient)
    → project_name ≢ []
    → api.list project_name ≡ inr []
    → get_resource_type c (bytes "cluster") ≡ ok rt
    → schema_client c rt ≡ some a
    → a.by_id (bytes "cluster") [] ≡ not_found
    → get_project_context c api [] project_name ≡ returned (api.create project_name [])
unfolding get_project_context lookup lookup_types ask bytes_eq
get_project_context-no_cluster c api [] rt a ne l t s n = absurd (ne refl)
get_project_context-no_cluster c api (x ∷ xs) rt a ne l t s n = rw (l, t, s, n) refl
