-- ===== src/Apps/Names.antt =====
-- The names that the program gives to the instances of an application.
use grpc_gw_controller.Base.{
  ℕ, zero, suc, ◌+◌, ◌-◌, ◌≤◌, ◌<◌, Bool, true, not, ◌&&◌, List, [], ◌∷◌, ◌++◌, map, bytes_eq,
  if◌then◌else◌, ltb, leb, ◌==◌, length, drop, All, length-append, length-take-le, arith, ◌≡◌, refl,
  Bool-cases, lt→ltb, inl, inr,
}
use mathlib.Core.Path.{subst}
use grpc_gw_controller.Base.Text.{Bytes, to_lower, replace, join, lower, replace_byte}
use grpc_gw_controller.Apps.{
  trunc_app_name, trunc_app_group_id, trunc_root_group_id, kube_conv_name, target_namespace_of,
}

-- Neither an ASCII capital nor an underscore.
abbrev pub is_name_byte : ℕ → Bool
is_name_byte c = not (leb 65 c && leb c 90) && not (c == 95)

abbrev pub IsName : Bytes → Type 0
IsName s = All (λ c. is_name_byte c ≡ true) s

lowered : (s : Bytes) → IsName (to_lower (replace 95 45 s))
unfolding to_lower replace
lowered [] = tt
lowered (c ∷ s) = (ground arith, lowered s)

replaced : (s : Bytes) → IsName (replace 95 45 (to_lower s))
unfolding to_lower replace
replaced [] = tt
replaced (c ∷ s) = (ground arith, replaced s)

pub length-map : (f : ℕ → ℕ) (s : Bytes) → length (map f s) ≡ length s
length-map f [] = refl
length-map f (c ∷ s) = omega (arith, length-map f s)

pub length-drop : {A : Type 0} (n : ℕ) (xs : List A) → length (drop n xs) ≡ length xs - n
length-drop zero xs = omega arith
length-drop (suc n) [] = omega arith
length-drop (suc n) (x ∷ xs) = omega (arith, length-drop n xs)

pub length-to_lower : (s : Bytes) → length (to_lower s) ≡ length s
unfolding to_lower
length-to_lower s = length-map lower s

pub length-replace : (x y : ℕ) (s : Bytes) → length (replace x y s) ≡ length s
unfolding replace
length-replace x y s = length-map (replace_byte x y) s

length-trunc_app_name : (name : Bytes) → length (trunc_app_name name) ≤ 15
unfolding trunc_app_name
length-trunc_app_name name = elim (Bool-cases (ltb 15 (length name))) [
  | inl e ↦ rw e (omega (arith, length-take-le 14 name))
  | inr e ↦ rw e (ground arith)
]

length-trunc_root_group_id : (root : Bytes) → length (trunc_root_group_id root) ≤ 20
unfolding trunc_root_group_id
length-trunc_root_group_id root = elim (Bool-cases (ltb 20 (length root))) [
  | inl e ↦ rw e (omega (arith, length-take-le 19 root))
  | inr e ↦ rw e (ground arith)
]

length-trunc_app_group_id :
    (gid : Bytes)
    → length (trunc_app_group_id gid)
      ≡ (if ltb 15 (length gid) then length gid - 14 else length gid)
unfolding trunc_app_group_id
length-trunc_app_group_id gid = elim (Bool-cases (ltb 15 (length gid))) [
  | inl e ↦ rw e (length-drop 14 gid)
  | inr e ↦ rw e refl
]

-- The name is the text of at most 36 bytes, a dash and the end of the group ID.
length-kube :
    (name root gid : Bytes)
    → (n : ℕ) × (n ≤ 36)
      × (length (kube_conv_name name root gid) ≡ n + 1 + length (trunc_app_group_id gid))
unfolding kube_conv_name join
length-kube name root gid =
    let t = trunc_app_name name in
    let g = trunc_app_group_id gid in
    let r = trunc_root_group_id root in
    elim (Bool-cases (bytes_eq root [])) [
      | inl e ↦ rw e (
        length t,
        omega (arith, length-trunc_app_name name),
        simp (length-to_lower, length-replace) (omega (arith, length-append t (45 ∷ g))),
      )
      | inr e ↦ rw e (
        length t + 1 + length r,
        omega (arith, length-trunc_app_name name, length-trunc_root_group_id root),
        simp (length-to_lower, length-replace)
            (omega (arith, length-append t (45 ∷ (r ++ 45 ∷ g)), length-append r (45 ∷ g))),
      )
    ]

kube_conv_name-bytes : (name root gid : Bytes) → IsName (kube_conv_name name root gid)
unfolding kube_conv_name
kube_conv_name-bytes name root gid = lowered _

-- A name has neither capitals nor underscores. While the group ID has at most 40 bytes the name
-- stays within the 63 bytes of a Kubernetes label, however long the other parts are; from 77 bytes
-- on it does not, since a long group ID loses only its first 14.
pub kube_conv_name-IsName :
    (name root gid : Bytes)
    → IsName (kube_conv_name name root gid)
      × (length gid ≤ 40 → length (kube_conv_name name root gid) ≤ 63)
      × (77 ≤ length gid → 63 < length (kube_conv_name name root gid))
kube_conv_name-IsName name root gid =
    let l = length-kube name root gid in
    (
      kube_conv_name-bytes name root gid,
      λ h. ground (arith, l, length-trunc_app_group_id gid),
      λ h. ground (arith, l, length-trunc_app_group_id gid),
    )

pub target_namespace_of-IsName : (name : Bytes) → IsName (target_namespace_of name)
unfolding target_namespace_of
target_namespace_of-IsName name = replaced name

drop-append : {A : Type 0} (p s : List A) → drop (length p) (p ++ s) ≡ s
drop-append [] s = refl
drop-append (x ∷ p) s = drop-append p s

trunc_app_group_id-append :
    (p s : Bytes) → length p ≡ 14 → 2 ≤ length s → trunc_app_group_id (p ++ s) ≡ s
unfolding trunc_app_group_id
trunc_app_group_id-append p s e h =
    rw (lt→ltb 15 (length (p ++ s)) (omega (arith, length-append p s)))
      (subst (λ n. drop n (p ++ s) ≡ s) e (drop-append p s))

-- Two group IDs that differ only in their first 14 bytes, with at least two more bytes, give their
-- instances of one application the same name.
kube_conv_name-collide :
    (name root p q s : Bytes)
    → length p ≡ 14
    → length q ≡ 14
    → 2 ≤ length s
    → kube_conv_name name root (p ++ s) ≡ kube_conv_name name root (q ++ s)
unfolding kube_conv_name
kube_conv_name-collide name root p q s e f h =
    rw (trunc_app_group_id-append p s e h, trunc_app_group_id-append q s f h) refl
