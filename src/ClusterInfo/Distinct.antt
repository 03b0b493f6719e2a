-- ===== src/ClusterInfo/Distinct.antt =====
-- The names of the applications that GetClusterInfo counts, each of them once.
use grpc_gw_controller.Base.{
  ℕ, ◌+◌, ◌≤◌, Bool, true, false, not, ◌&&◌, ◌||◌, List, [], ◌∷◌, string_eq, bytes_Eq, bytes_eq,
  if◌then◌else◌, length, Bool-cases, inl, inr, arith, ◌≡◌, refl, ap, sym, ◌∙◌,
}
use mathlib.Core.Path.{subst}
use grpc_gw_controller.Base.Text.{Bytes}
use grpc_gw_controller.Base.Dict.{Dict, lookup, insert, is_some, lookup-insert}
use grpc_gw_controller.Maps.{Map}
use grpc_gw_controller.ClusterInfo.{
  Counts, or_zero, next, count_up, is_enabled, app_of, count_app, count_apps, no_counts,
}

-- How many of the applications pass a test.
abbrev pub number_of : (Map → Bool) → List Map → ℕ
number_of p [] = 0
number_of p (a ∷ as') = (if p a then 1 else 0) + number_of p as'

abbrev pub is_instance_of : Bytes → Map → Bool
is_instance_of name a = bytes_eq (app_of a) name

-- Whether one of them that passes the test has the name.
abbrev pub has_name : (Map → Bool) → Bytes → List Map → Bool
has_name p k [] = false
has_name p k (a ∷ as') = (p a && is_instance_of k a) || has_name p k as'

-- How many names there are among those that pass the test, besides the names already seen.
abbrev pub distinct : (Map → Bool) → List Map → List Map → ℕ
distinct p seen [] = 0
distinct p seen (a ∷ as') =
    (if p a && not (has_name p (app_of a) seen) then 1 else 0) + distinct p (a ∷ seen) as'

-- The applications that have been seen, the last one first.
abbrev seen_after : List Map → List Map → List Map
seen_after [] seen = seen
seen_after (a ∷ as') seen = seen_after as' (a ∷ seen)

abbrev pub any_app : Map → Bool
any_app a = true

has_name-seen_after :
    (p : Map → Bool) (k : Bytes) (items seen : List Map)
    → has_name p k (seen_after items seen) ≡ (has_name p k items || has_name p k seen)
has_name-seen_after p k [] seen = refl
has_name-seen_after p k (a ∷ as') seen = ground (arith, has_name-seen_after p k as' (a ∷ seen))

pub distinct_bound : (p : Map → Bool) (seen items : List Map) → distinct p seen items ≤ length items
distinct_bound p seen [] = omega arith
distinct_bound p seen (a ∷ as') = ground (arith, distinct_bound p (a ∷ seen) as')

-- A dictionary has the names seen.
abbrev Tracks : (Map → Bool) → List Map → Dict Bytes ℕ → Type 0
Tracks p seen d = (k : Bytes) → is_some (lookup k d) ≡ has_name p k seen

length-insert :
    (k : Bytes) (v : ℕ) (d : Dict Bytes ℕ)
    → length (insert k v d) ≡ (if is_some (lookup k d) then 0 else 1) + length d
unfolding insert lookup
length-insert k v [] = refl
length-insert k v ((j, w) ∷ d) = elim (Bool-cases (bytes_eq j k)) [
  | inl e ↦ rw e (omega arith)
  | inr e ↦ rw e (omega (arith, length-insert k v d))
]

length-count_up :
    (name : Bytes) (d : Dict Bytes ℕ)
    → length (count_up name d) ≡ (if is_some (lookup name d) then 0 else 1) + length d
unfolding count_up
length-count_up name d = length-insert name (next (or_zero (lookup name d))) d

Tracks-hit :
    (p : Map → Bool) (a : Map) (seen : List Map) (d : Dict Bytes ℕ)
    → p a ≡ true
    → Tracks p seen d
    → Tracks p (a ∷ seen) (count_up (app_of a) d)
unfolding count_up
Tracks-hit p a seen d h t k =
    let law = lookup-insert (app_of a) k (next (or_zero (lookup (app_of a) d))) d in
    elim (Bool-cases (bytes_eq (app_of a) k)) [
      | inl e ↦ rw (h, e) (ap is_some (rw e at law))
      | inr e ↦ rw (h, e) (ap is_some (rw e at law) ∙ t k)
    ]

Tracks-miss :
    (p : Map → Bool) (a : Map) (seen : List Map) (d : Dict Bytes ℕ)
    → p a ≡ false
    → Tracks p seen d
    → Tracks p (a ∷ seen) d
Tracks-miss p a seen d h t k = rw h (t k)

-- The dictionary of those that pass the test, after one more application.
abbrev counted : (Map → Bool) → Map → Dict Bytes ℕ → Dict Bytes ℕ
counted p a d = if p a then count_up (app_of a) d else d

Tracks-counted :
    (p : Map → Bool) (a : Map) (seen : List Map) (d : Dict Bytes ℕ)
    → Tracks p seen d
    → Tracks p (a ∷ seen) (counted p a d)
Tracks-counted p a seen d t = elim (Bool-cases (p a)) [
  | inl e ↦
      let same : count_up (app_of a) d ≡ counted p a d = rw e refl in
      subst (Tracks p (a ∷ seen)) same (Tracks-hit p a seen d e t)
  | inr e ↦
      let same : d ≡ counted p a d = rw e refl in
      subst (Tracks p (a ∷ seen)) same (Tracks-miss p a seen d e t)
]

length-counted :
    (p : Map → Bool) (a : Map) (seen : List Map) (d : Dict Bytes ℕ)
    → Tracks p seen d
    → length (counted p a d) ≡ (if p a && not (has_name p (app_of a) seen) then 1 else 0) + length d
length-counted p a seen d t = ground (arith, length-count_up (app_of a) d, t (app_of a))

count_app-counted :
    (a : Map) (c : Counts)
    → ((count_app a c).created ≡ counted any_app a c.created)
      × ((count_app a c).active ≡ counted is_enabled a c.active)
unfolding count_app
count_app-counted a c = elim (Bool-cases (is_enabled a)) [
  | inl e ↦ rw e (refl, refl)
  | inr e ↦ rw e (refl, refl)
]

-- Names seen before, and the rest of the loop.
pub count_apps-distinct :
    (items seen : List Map) (c : Counts)
    → Tracks any_app seen c.created
    → Tracks is_enabled seen c.active
    → (length (count_apps items c).created ≡ distinct any_app seen items + length c.created)
      × (length (count_apps items c).active ≡ distinct is_enabled seen items + length c.active)
      × Tracks is_enabled (seen_after items seen) (count_apps items c).active
unfolding count_apps
count_apps-distinct [] seen c t u = (omega arith, omega arith, u)
count_apps-distinct (a ∷ as') seen c t u =
    let same = count_app-counted a c in
    let rest =
      count_apps-distinct as' (a ∷ seen) (count_app a c)
        (subst (Tracks any_app (a ∷ seen)) (sym same.0) (Tracks-counted any_app a seen c.created t))
        (subst (Tracks is_enabled (a ∷ seen)) (sym same.1)
          (Tracks-counted is_enabled a seen c.active u)) in
    (
      omega (arith, rest.0, ap length same.0, length-counted any_app a seen c.created t),
      omega (arith, rest.1, ap length same.1, length-counted is_enabled a seen c.active u),
      rest.2,
    )

-- From no counts on.
pub count_apps-names :
    (apps : List Map)
    → (length (count_apps apps no_counts).created ≡ distinct any_app [] apps)
      × (length (count_apps apps no_counts).active ≡ distinct is_enabled [] apps)
      × ((k : Bytes)
          → is_some (lookup k (count_apps apps no_counts).active) ≡ has_name is_enabled k apps)
unfolding lookup
count_apps-names apps =
    let r = count_apps-distinct apps [] no_counts (λ k. refl) (λ k. refl) in
    (
      omega (arith, r.0),
      omega (arith, r.1),
      λ k.
          r.2 k
          ∙ (has_name-seen_after is_enabled k apps [] ∙ or_false (has_name is_enabled k apps)),
    )
  where
    or_false : (b : Bool) → (b || false) ≡ b
    or_false true = refl
    or_false false = refl
