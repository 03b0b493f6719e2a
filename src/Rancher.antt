-- ===== src/Rancher.antt =====
-- app/grpc/common/rancher/common.go: the lookups of the Rancher client. What the server has is given,
-- and stays as it is during a lookup; a creation and a move of a namespace are given with their errors.
pub mod Lookup
pub mod Clients
pub mod Projects
mod Tests
use grpc_gw_controller.Base.{
  Option, none, some, Bool, true, false, ◌||◌, ◌&&◌, List, [], ◌∷◌, ◌++◌, Outcome, ok, err, panic,
  ◌⊎◌, inl, inr, if◌then◌else◌, ℕ, bytes_eq, ◌>>=◌,
}
use grpc_gw_controller.Base.Text.{Bytes, bytes, to_lower, join}
use grpc_gw_controller.Base.Decimal.{decimal}

-- `ntypes.Resource`. The zero value has empty fields.
pub record Resource : Type 0 where
  pub id : Bytes
  pub kind : Bytes

abbrev pub zero_resource : Resource
zero_resource = record { id = []; kind = [] }

pub data ById : Type 0 where
  found : Resource → ById
  not_found : ById
  failed : Bytes → ById

-- A client of one of the three APIs: the keys of its schema, `ByID` and `List` with a name.
pub record ApiClient : Type 0 where
  pub types : List Bytes
  pub by_id : Bytes → Bytes → ById
  pub list : Bytes → Bytes → Bytes ⊎ List Resource

pub record MasterClient : Type 0 where
  pub management_client : Option ApiClient
  pub project_client : Option ApiClient
  pub cluster_client : Option ApiClient

-- The order of a Go map is not fixed: where two keys differ only in case either may come first, and
-- here the first of the list does.
unfoldable pub matching_type : List Bytes → Bytes → Option Bytes
matching_type [] resource = none
matching_type (key ∷ keys) resource =
    let rest = matching_type keys resource in
    if bytes_eq (to_lower key) (to_lower resource) then some key else rest

abbrev pub type_in : Option ApiClient → Bytes → Option Bytes
type_in none resource = none
type_in (some c) resource = matching_type c.types resource

abbrev pub found_or : Option Bytes → Outcome Bytes Bytes → Outcome Bytes Bytes
found_or (some key) rest = ok key
found_or none rest = rest

-- The keys of the cluster client are looked at where there is a project client.
abbrev pub cluster_type : Option ApiClient → Option ApiClient → Bytes → Outcome Bytes Bytes
cluster_type none cluster resource = err (bytes "unknown resource type: " ++ resource)
cluster_type (some p) none resource = panic
cluster_type (some p) (some c) resource =
    found_or (matching_type c.types resource) (err (bytes "unknown resource type: " ++ resource))

unfoldable pub get_resource_type : MasterClient → Bytes → Outcome Bytes Bytes
get_resource_type c resource = found_or (type_in c.management_client resource) (
    found_or (type_in c.project_client resource)
      (cluster_type c.project_client c.cluster_client resource))

unfoldable pub has_type : List Bytes → Bytes → Bool
has_type [] rt = false
has_type (key ∷ keys) rt = bytes_eq key rt || has_type keys rt

abbrev pub or_client : Option ApiClient → Bytes → Option ApiClient → Option ApiClient
or_client none rt before = before
or_client (some c) rt before = if has_type c.types rt then some c else before

-- The last client that has the type.
unfoldable pub schema_client : MasterClient → Bytes → Option ApiClient
schema_client c rt =
    or_client c.cluster_client rt
      (or_client c.project_client rt (or_client c.management_client rt none))

-- What one type has for a name.
pub data Answer : Type 0 where
  with_id : Resource → Answer
  named : List Resource → Answer

abbrev pub named_in : Bytes ⊎ List Resource → Outcome Bytes Answer
named_in (inl e) = err e
named_in (inr rs) = ok (named rs)

-- The resource stays zero where it is not found.
abbrev pub id_or_name : Bytes → Bytes ⊎ List Resource → Resource → Outcome Bytes Answer
id_or_name name listed resource =
    if bytes_eq resource.id name then ok (with_id resource) else named_in listed

abbrev pub by_id_or_name : Bytes → Bytes ⊎ List Resource → ById → Outcome Bytes Answer
by_id_or_name name listed (found r) = id_or_name name listed r
by_id_or_name name listed not_found = id_or_name name listed zero_resource
by_id_or_name name listed (failed e) = err e

abbrev pub ask_client : Option ApiClient → Bytes → Bytes → Outcome Bytes Answer
ask_client none name schema_type = panic
ask_client (some c) name schema_type =
    by_id_or_name name (c.list schema_type name) (c.by_id schema_type name)

unfoldable pub ask : MasterClient → Bytes → Bytes → Outcome Bytes Answer
ask c name schema_type =
    get_resource_type c schema_type >>= λ rt. ask_client (schema_client c rt) name schema_type

unfoldable pub ids : List Resource → List Bytes
ids [] = []
ids (r ∷ rs) = r.id ∷ ids rs

unfoldable pub multiple_of_type : Bytes → Bytes → List Resource → Bytes
multiple_of_type schema_type name rs =
    bytes "multiple resources of type "
    ++ (schema_type
        ++ (bytes " found for name "
            ++ (name ++ (bytes ": [" ++ (join (ids rs) (bytes " ") ++ bytes "]")))))

unfoldable pub multiple_named : Bytes → Resource → Resource → Bytes
multiple_named name r by_name =
    bytes "multiple resources named "
    ++ (name
        ++ (bytes ": "
            ++ (r.kind
                ++ (bytes ":"
                    ++ (r.id ++ (bytes ", " ++ (by_name.kind ++ (bytes ":" ++ by_name.id))))))))

abbrev pub chosen : Bytes → Option Resource → Outcome Bytes Resource
chosen name none = err (bytes "not found: " ++ name)
chosen name (some r) = ok r

-- The rest of the loop, after what a type has.
abbrev pub next_type :
    Bytes
    → Bytes
    → Option Resource
    → (Option Resource → Outcome Bytes Resource)
    → Answer
    → Outcome Bytes Resource
next_type name schema_type by_name rest (with_id r) = ok r
next_type name schema_type by_name rest (named []) = rest by_name
next_type name schema_type none rest (named (r ∷ [])) = rest (some r)
next_type name schema_type (some b) rest (named (r ∷ [])) = err (multiple_named name r b)
next_type name schema_type by_name rest (named (r ∷ q ∷ rs)) =
    err (multiple_of_type schema_type name (r ∷ q ∷ rs))

unfoldable pub lookup_types :
    MasterClient → Bytes → List Bytes → Option Resource → Outcome Bytes Resource
lookup_types c name [] by_name = chosen name by_name
lookup_types c name (t ∷ ts) by_name =
    ask c name t >>= next_type name t by_name (lookup_types c name ts)

unfoldable pub lookup : MasterClient → Bytes → List Bytes → Outcome Bytes Resource
lookup c name types = lookup_types c name types none

pub record Project : Type 0 where
  pub id : Bytes
  pub name : Bytes
  pub cluster_id : Bytes

-- `Project.List` by name, and `Project.Create` of a name and a cluster.
pub record ProjectApi : Type 0 where
  pub list : Bytes → Bytes ⊎ List Project
  pub create : Bytes → Bytes → Bytes ⊎ Project

abbrev pub returned : {A : Type 0} → Bytes ⊎ A → Outcome Bytes A
returned (inl e) = err e
returned (inr a) = ok a

abbrev pub project_or_create :
    MasterClient → ProjectApi → Bytes → Bytes → List Project → Outcome Bytes Project
project_or_create c api cluster_name project_name (p ∷ ps) = ok p
project_or_create c api cluster_name project_name [] =
    if bytes_eq project_name []
    then err (bytes "missing cluster configuration: " ++ bytes "adapters_rancher_cluster_name")
    else lookup c cluster_name (bytes "cluster" ∷ []) >>= λ r.
        returned (api.create project_name r.id)

-- `cluster_name` is the setting of the cluster's name.
unfoldable pub get_project_context :
    MasterClient → ProjectApi → Bytes → Bytes → Outcome Bytes Project
get_project_context c api cluster_name project_name =
    if bytes_eq project_name []
    then err (bytes "missing project configuration: " ++ project_name)
    else returned (api.list project_name) >>= project_or_create c api cluster_name project_name
