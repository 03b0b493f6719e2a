-- ===== src/Rancher/Lookup.antt =====
-- What a lookup by name finds.
use grpc_gw_controller.Base.{
  none, some, true, List, [], ◌∷◌, ◌++◌, Outcome, ok, err, All, bytes_eq, bytes_eq_iff, Bool-cases,
  arith, ◌≡◌, inl, inr, refl, sym, ap, ◌∙◌,
}
use grpc_gw_controller.Base.Text.{Bytes, bytes, to_lower}
use grpc_gw_controller.Rancher.{
  Resource, MasterClient, named, ask, next_type, lookup_types, lookup, matching_type, has_type,
}

-- The resources of a name over all types.
abbrev pub hits : (Bytes → List Resource) → List Bytes → List Resource
hits has [] = []
hits has (t ∷ ts) = has t ++ hits has ts

-- What is made of the resources of a name: the only one, or an error.
abbrev pub IsChoice : Bytes → List Resource → Outcome Bytes Resource → Type 0
IsChoice name [] o = o ≡ err (bytes "not found: " ++ name)
IsChoice name (r ∷ []) o = o ≡ ok r
IsChoice name (r ∷ q ∷ rs) o = (e : Bytes) × (o ≡ err e)

-- The same where one was chosen before.
abbrev IsLater : Resource → List Resource → Outcome Bytes Resource → Type 0
IsLater b [] o = o ≡ ok b
IsLater b (r ∷ rs) o = (e : Bytes) × (o ≡ err e)

module _ (c : MasterClient) (name : Bytes) (has : Bytes → List Resource) where
  -- Each type answers with its resources of the name, and none has the name as its ID.
  abbrev pub AllNamed : List Bytes → Type 0
  AllNamed ts = All (λ t. ask c name t ≡ ok (named (has t))) ts

  next-IsLater :
      (b : Resource) (t : Bytes) (ts : List Bytes) (rs : List Resource)
      → IsLater b (hits has ts) (lookup_types c name ts (some b))
      → IsLater b
          (rs ++ hits has ts)
          (next_type name t (some b) (lookup_types c name ts) (named rs))
  next-IsLater b t ts [] h = h
  next-IsLater b t ts (r ∷ []) h = (_, refl)
  next-IsLater b t ts (r ∷ q ∷ rs) h = (_, refl)

  lookup_types-IsLater :
      (b : Resource) (ts : List Bytes)
      → AllNamed ts
      → IsLater b (hits has ts) (lookup_types c name ts (some b))
  unfolding lookup_types
  lookup_types-IsLater b [] h = refl
  lookup_types-IsLater b (t ∷ ts) h =
      rw (h.0) (next-IsLater b t ts (has t) (lookup_types-IsLater b ts h.1))

  later-IsChoice :
      (r : Resource) (rs : List Resource) (o : Outcome Bytes Resource)
      → IsLater r rs o
      → IsChoice name (r ∷ rs) o
  later-IsChoice r [] o h = h
  later-IsChoice r (q ∷ rs) o h = h

  next-IsChoice :
      (t : Bytes) (ts : List Bytes) (rs : List Resource)
      → AllNamed ts
      → IsChoice name (hits has ts) (lookup_types c name ts none)
      → IsChoice name
          (rs ++ hits has ts)
          (next_type name t none (lookup_types c name ts) (named rs))
  next-IsChoice t ts [] a h = h
  next-IsChoice t ts (r ∷ []) a h =
      later-IsChoice r (hits has ts) (lookup_types c name ts (some r)) (lookup_types-IsLater r ts a)
  next-IsChoice t ts (r ∷ q ∷ rs) a h = (_, refl)

  lookup_types-IsChoice :
      (ts : List Bytes) → AllNamed ts → IsChoice name (hits has ts) (lookup_types c name ts none)
  unfolding lookup_types
  lookup_types-IsChoice [] h = refl
  lookup_types-IsChoice (t ∷ ts) h =
      rw (h.0) (next-IsChoice t ts (has t) h.1 (lookup_types-IsChoice ts h.1))

-- Where every type answers and none has a resource whose ID is the name, the lookup gives the only
-- resource of that name over all types; it is an error where there is none or more than one, of one type
-- or of several.
pub lookup-IsChoice :
    (c : MasterClient) (name : Bytes) (has : Bytes → List Resource) (types : List Bytes)
    → AllNamed c name has types
    → IsChoice name (hits has types) (lookup c name types)
unfolding lookup
lookup-IsChoice c name has types h = lookup_types-IsChoice c name has types h

-- A key of a schema that differs from the type in case at most.
pub matching_type-some :
    (keys : List Bytes) (resource key : Bytes)
    → matching_type keys resource ≡ some key
    → (has_type keys key ≡ true) × (to_lower key ≡ to_lower resource)
unfolding matching_type has_type
matching_type-some [] resource key h = absurd cc
matching_type-some (k ∷ keys) resource key h =
    elim (Bool-cases (bytes_eq (to_lower k) (to_lower resource))) [
      | inl e ↦
          let same = ap (λ o. elim o [ none ↦ k | some x ↦ x ]) (rw e at h) in
          (
            rw ((bytes_eq_iff k key).1 same) refl,
            ap to_lower (sym same) ∙ (bytes_eq_iff (to_lower k) (to_lower resource)).0 e,
          )
      | inr e ↦
          let rest = matching_type-some keys resource key (rw e at h) in
          (ground (arith, rest.0), rest.1)
    ]
