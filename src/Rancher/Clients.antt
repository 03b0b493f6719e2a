-- ===== src/Rancher/Clients.antt =====
-- Lookups call no client that is missing.
use grpc_gw_controller.Base.{
  Option, none, some, true, List, [], ◌∷◌, ◌++◌, Outcome, ok, err, panic, bytes_eq, Bool-cases, ◌≡◌,
  ◌≢◌, ◌⊎◌, inl, inr, refl, ◌>>=◌,
}
use grpc_gw_controller.Base.Text.{Bytes, bytes}
use grpc_gw_controller.Rancher.{
  Resource, zero_resource, ById, found, not_found, failed, ApiClient, MasterClient, type_in,
  found_or, cluster_type, get_resource_type, has_type, or_client, schema_client, Answer, with_id,
  named, named_in, id_or_name, by_id_or_name, ask_client, ask, next_type, lookup_types, lookup,
  matching_type,
}
use grpc_gw_controller.Rancher.Lookup.{matching_type-some}

-- A client of the type is there.
abbrev IsServed : MasterClient → Bytes → Type 0
IsServed c rt = schema_client c rt ≢ none

or_client-has :
    (a : ApiClient) (rt : Bytes) (before : Option ApiClient)
    → has_type a.types rt ≡ true
    → or_client (some a) rt before ≢ none
or_client-has a rt before h k = cc (rw h at k)

or_client-keeps :
    (o : Option ApiClient) (rt : Bytes) (before : Option ApiClient)
    → before ≢ none
    → or_client o rt before ≢ none
or_client-keeps none rt before h = h
or_client-keeps (some a) rt before h = elim (Bool-cases (has_type a.types rt)) [
  | inl e ↦ λ k. cc (rw e at k)
  | inr e ↦ λ k. h (rw e at k)
]

-- Which types the process can ask for without a nil pointer.
abbrev pub HasClients : MasterClient → Type 0
HasClients c = (c.project_client ≡ none) ⊎ (c.cluster_client ≢ none)

type_in-or_client :
    (o : Option ApiClient) (resource key : Bytes) (before : Option ApiClient)
    → type_in o resource ≡ some key
    → or_client o key before ≢ none
type_in-or_client none resource key before h = absurd cc
type_in-or_client (some a) resource key before h =
    or_client-has a key before (matching_type-some a.types resource key h).0

-- What a chain of searches gives is what one of them gave.
found_or-cases :
    (o : Option Bytes) (rest : Outcome Bytes Bytes) (key : Bytes)
    → found_or o rest ≡ ok key
    → (o ≡ some key) ⊎ (rest ≡ ok key)
found_or-cases none rest key h = inr h
found_or-cases (some k) rest key h = inl cc

cluster_type-ok :
    (p o : Option ApiClient) (resource key : Bytes)
    → cluster_type p o resource ≡ ok key
    → type_in o resource ≡ some key
cluster_type-ok none o resource key h = absurd cc
cluster_type-ok (some p) none resource key h = absurd cc
cluster_type-ok (some p) (some a) resource key h =
    elim (found_or-cases (matching_type a.types resource)
      (err (bytes "unknown resource type: " ++ resource)) key h) [ inl e ↦ e | inr e ↦ absurd cc ]

get_resource_type-IsServed :
    (c : MasterClient) (resource key : Bytes)
    → get_resource_type c resource ≡ ok key
    → IsServed c key
unfolding get_resource_type schema_client
get_resource_type-IsServed c resource key h = elim (found_or-cases _ _ key h) [
  | inl e ↦ or_client-keeps c.cluster_client key _ (
      or_client-keeps c.project_client key _
        (type_in-or_client c.management_client resource key none e))
  | inr e ↦ elim (found_or-cases _ _ key e) [
    | inl f ↦
        or_client-keeps c.cluster_client key _ (type_in-or_client c.project_client resource key _ f)
    | inr f ↦
        type_in-or_client c.cluster_client resource key _
          (cluster_type-ok c.project_client c.cluster_client resource key f)
  ]
]

found_or-no_panic :
    (o : Option Bytes) (rest : Outcome Bytes Bytes) → rest ≢ panic → found_or o rest ≢ panic
found_or-no_panic none rest h = h
found_or-no_panic (some k) rest h = λ e. cc

cluster_type-no_panic :
    (p o : Option ApiClient) (resource : Bytes)
    → (p ≡ none) ⊎ (o ≢ none)
    → cluster_type p o resource ≢ panic
cluster_type-no_panic none o resource h = λ e. cc
cluster_type-no_panic (some p) none resource (inl e) = absurd cc
cluster_type-no_panic (some p) none resource (inr e) = absurd (e refl)
cluster_type-no_panic (some p) (some a) resource h =
    found_or-no_panic (matching_type a.types resource) _ (λ e. cc)

get_resource_type-no_panic :
    (c : MasterClient) (resource : Bytes) → HasClients c → get_resource_type c resource ≢ panic
unfolding get_resource_type
get_resource_type-no_panic c resource h =
    found_or-no_panic (type_in c.management_client resource) _ (
      found_or-no_panic (type_in c.project_client resource) _
        (cluster_type-no_panic c.project_client c.cluster_client resource h))

id_or_name-no_panic :
    (name : Bytes) (l : Bytes ⊎ List Resource) (r : Resource) → id_or_name name l r ≢ panic
id_or_name-no_panic name l r = elim (Bool-cases (bytes_eq r.id name)) [
  | inl e ↦ λ k. cc (rw e at k)
  | inr e ↦ λ k. named_in-no_panic l (rw e at k)
]
  where
    named_in-no_panic : (l : Bytes ⊎ List Resource) → named_in l ≢ panic
    named_in-no_panic (inl e) = λ k. cc
    named_in-no_panic (inr rs) = λ k. cc

ask_client-no_panic :
    (o : Option ApiClient) (name schema_type : Bytes)
    → o ≢ none
    → ask_client o name schema_type ≢ panic
ask_client-no_panic none name schema_type h = absurd (h refl)
ask_client-no_panic (some a) name schema_type h = go (a.by_id schema_type name)
  where
    go : (b : ById) → by_id_or_name name (a.list schema_type name) b ≢ panic
    go (found r) = id_or_name-no_panic name (a.list schema_type name) r
    go not_found = id_or_name-no_panic name (a.list schema_type name) zero_resource
    go (failed e) = λ k. cc

ask-no_panic :
    (c : MasterClient) (name schema_type : Bytes) → HasClients c → ask c name schema_type ≢ panic
unfolding ask
ask-no_panic c name schema_type h = go (get_resource_type c schema_type) refl
  where
    go :
        (o : Outcome Bytes Bytes)
        → get_resource_type c schema_type ≡ o
        → (o >>= λ rt. ask_client (schema_client c rt) name schema_type) ≢ panic
    go (ok rt) e =
        ask_client-no_panic (schema_client c rt) name schema_type
          (get_resource_type-IsServed c schema_type rt e)
    go (err x) e = λ k. cc
    go panic e = absurd (get_resource_type-no_panic c schema_type h e)

next_type-no_panic :
    (name t : Bytes) (b : Option Resource) (rest : Option Resource → Outcome Bytes Resource)
    (a : Answer)
    → ((b : Option Resource) → rest b ≢ panic)
    → next_type name t b rest a ≢ panic
next_type-no_panic name t b rest (with_id r) h = λ k. cc
next_type-no_panic name t b rest (named []) h = h b
next_type-no_panic name t none rest (named (r ∷ [])) h = h (some r)
next_type-no_panic name t (some q) rest (named (r ∷ [])) h = λ k. cc
next_type-no_panic name t b rest (named (r ∷ q ∷ rs)) h = λ k. cc

bind-no_panic :
    {A B : Type 0} (o : Outcome Bytes A) (f : A → Outcome Bytes B)
    → o ≢ panic
    → ((a : A) → f a ≢ panic)
    → (o >>= f) ≢ panic
bind-no_panic (ok a) f n h = h a
bind-no_panic (err e) f n h = λ k. cc
bind-no_panic panic f n h = absurd (n refl)

lookup_types-no_panic :
    (c : MasterClient) (name : Bytes) (types : List Bytes) (b : Option Resource)
    → HasClients c
    → lookup_types c name types b ≢ panic
unfolding lookup_types
lookup_types-no_panic c name [] none h = λ k. cc
lookup_types-no_panic c name [] (some r) h = λ k. cc
lookup_types-no_panic c name (t ∷ ts) b h =
    bind-no_panic (ask c name t) _ (ask-no_panic c name t h) (λ a.
      next_type-no_panic name t b (lookup_types c name ts) a
        (λ d. lookup_types-no_panic c name ts d h))

-- A lookup does not panic where there is no project client or there is a cluster client, whatever the
-- server answers.
lookup-no_panic :
    (c : MasterClient) (name : Bytes) (types : List Bytes)
    → HasClients c
    → lookup c name types ≢ panic
unfolding lookup
lookup-no_panic c name types h = lookup_types-no_panic c name types none h
