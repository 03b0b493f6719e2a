-- ===== src/Adapter/Metadata/Names.antt =====
-- Which charts DeleteAppMetadata can find.
use grpc_gw_controller.Base.{
  ℕ, suc, ◌+◌, ◌≤◌, [], ◌∷◌, ◌++◌, Bool, true, false, if◌then◌else◌, ltb, length, length-append,
  length-take-le, bytes_eq, bytes_eq_iff, Bool-cases, ltb→lt, ltb-false→le, arith, ◌≡◌, ◌↔◌, inl,
  inr, refl, sym, ap, ◌∙◌,
}
use grpc_gw_controller.Base.Text.{Bytes, bytes, join, to_lower, replace, lower, replace_byte}
use grpc_gw_controller.Apps.{
  trunc_app_name, trunc_app_group_id, trunc_root_group_id, kube_conv_name,
}
use grpc_gw_controller.Apps.Names.{length-drop, length-to_lower, length-replace}
use grpc_gw_controller.Adapter.Metadata.{chart_name}

-- The changes of case before the replacement make no difference.
to_lower-replace-to_lower :
    (s : Bytes) → to_lower (replace 95 45 (to_lower s)) ≡ to_lower (replace 95 45 s)
unfolding to_lower replace
to_lower-replace-to_lower [] = refl
to_lower-replace-to_lower (c ∷ s) =
    let same : lower (replace_byte 95 45 (lower c)) ≡ lower (replace_byte 95 45 c) = ground arith in
    ap (λ d. d ∷ to_lower (replace 95 45 (to_lower s))) same
    ∙ ap (λ t. lower (replace_byte 95 45 c) ∷ t) (to_lower-replace-to_lower s)

-- A part of a name: as it is within its bound, and shorter beyond it.
abbrev Shortens : (Bytes → Bytes) → ℕ → Bytes → Type 0
Shortens f n s =
    (length s ≤ n → f s ≡ s) × (length (f s) ≤ length s) × (length (f s) ≡ length s → length s ≤ n)

trunc_app_name-Shortens : (name : Bytes) → Shortens trunc_app_name 15 name
unfolding trunc_app_name
trunc_app_name-Shortens name =
    let cut = length-take-le 14 name in
    elim (Bool-cases (ltb 15 (length name))) [
      | inl e ↦
          let large = ltb→lt 15 (length name) e in
          rw e (
            λ h. absurd (omega (arith, h, large)),
            omega (arith, cut, large),
            λ h. omega (arith, cut, large, h),
          )
      | inr e ↦ rw e (λ h. refl, omega arith, λ h. ltb-false→le 15 (length name) e)
    ]

trunc_root_group_id-Shortens : (root : Bytes) → Shortens trunc_root_group_id 20 root
unfolding trunc_root_group_id
trunc_root_group_id-Shortens root =
    let cut = length-take-le 19 root in
    elim (Bool-cases (ltb 20 (length root))) [
      | inl e ↦
          let large = ltb→lt 20 (length root) e in
          rw e (
            λ h. absurd (omega (arith, h, large)),
            omega (arith, cut, large),
            λ h. omega (arith, cut, large, h),
          )
      | inr e ↦ rw e (λ h. refl, omega arith, λ h. ltb-false→le 20 (length root) e)
    ]

trunc_app_group_id-Shortens : (gid : Bytes) → Shortens trunc_app_group_id 15 gid
unfolding trunc_app_group_id
trunc_app_group_id-Shortens gid =
    let cut = length-drop 14 gid in
    elim (Bool-cases (ltb 15 (length gid))) [
      | inl e ↦
          let large = ltb→lt 15 (length gid) e in
          rw e (
            λ h. absurd (omega (arith, h, large)),
            omega (arith, cut, large),
            λ h. omega (arith, cut, large, h),
          )
      | inr e ↦ rw e (λ h. refl, omega arith, λ h. ltb-false→le 15 (length gid) e)
    ]

-- The parts before the changes of bytes.
abbrev raw : Bool → Bytes → Bytes → Bytes → Bytes
raw true name root gid = name ++ (bytes "-" ++ gid)
raw false name root gid = name ++ (bytes "-" ++ (root ++ (bytes "-" ++ gid)))

chart_name-raw :
    (name root gid : Bytes)
    → chart_name name root gid ≡ to_lower (replace 95 45 (raw (bytes_eq root []) name root gid))
unfolding chart_name
chart_name-raw name root gid = elim (Bool-cases (bytes_eq root [])) [
  | inl e ↦ rw e refl
  | inr e ↦ rw e refl
]

kube_conv_name-raw :
    (name root gid : Bytes)
    → kube_conv_name name root gid
      ≡ to_lower (
          replace 95 45 (
            raw
              (bytes_eq root [])
              (trunc_app_name name)
              (trunc_root_group_id root)
              (trunc_app_group_id gid)))
unfolding kube_conv_name join
kube_conv_name-raw name root gid = elim (Bool-cases (bytes_eq root [])) [
  | inl e ↦ rw e (to_lower-replace-to_lower _)
  | inr e ↦ rw e (to_lower-replace-to_lower _)
]

length-raw :
    (b : Bool) (name root gid : Bytes)
    → length (to_lower (replace 95 45 (raw b name root gid)))
      ≡ length name + (if b then 0 else suc (length root)) + suc (length gid)
length-raw true name root gid = omega (
  arith,
  length-to_lower (replace 95 45 (raw true name root gid)),
  length-replace 95 45 (raw true name root gid),
  length-append name (bytes "-" ++ gid),
)
length-raw false name root gid = omega (
  arith,
  length-to_lower (replace 95 45 (raw false name root gid)),
  length-replace 95 45 (raw false name root gid),
  length-append name (bytes "-" ++ (root ++ (bytes "-" ++ gid))),
  length-append root (bytes "-" ++ gid),
)

-- The parts are short where shortening them keeps the length of the name.
abbrev pub AllShort : Bytes → Bytes → Bytes → Type 0
AllShort name root gid = (length name ≤ 15) × (length root ≤ 20) × (length gid ≤ 15)

lengths-AllShort :
    (b : Bool) (name root gid : Bytes)
    → bytes_eq root [] ≡ b
    → length (to_lower (replace 95 45 (raw b name root gid)))
      ≡ length (
          to_lower (
            replace 95 45
              (raw b (trunc_app_name name) (trunc_root_group_id root) (trunc_app_group_id gid))))
    → AllShort name root gid
lengths-AllShort true name root gid e h =
    let n = trunc_app_name-Shortens name in
    let g = trunc_app_group_id-Shortens gid in
    let l = length-raw true name root gid in
    let k =
      length-raw true (trunc_app_name name) (trunc_root_group_id root) (trunc_app_group_id gid) in
    let empty : length root ≡ 0 = ap (λ s. length s) ((bytes_eq_iff root []).0 e) in
    (
      n.2 (omega (arith, h, l, k, n.1, g.1)),
      omega (arith, empty),
      g.2 (omega (arith, h, l, k, n.1, g.1)),
    )
lengths-AllShort false name root gid e h =
    let n = trunc_app_name-Shortens name in
    let r = trunc_root_group_id-Shortens root in
    let g = trunc_app_group_id-Shortens gid in
    let l = length-raw false name root gid in
    let k =
      length-raw false (trunc_app_name name) (trunc_root_group_id root) (trunc_app_group_id gid) in
    (
      n.2 (omega (arith, h, l, k, n.1, r.1, g.1)),
      r.2 (omega (arith, h, l, k, n.1, r.1, g.1)),
      g.2 (omega (arith, h, l, k, n.1, r.1, g.1)),
    )

-- The name under which DeleteAppMetadata looks for the chart of a group is the name of the instance
-- exactly where the name of the application has at most 15 bytes, the root group ID at most 20 and the
-- group ID at most 15: of longer ones the instance's name has a part only.
pub chart_name-kube_conv_name :
    (name root gid : Bytes)
    → (chart_name name root gid ≡ kube_conv_name name root gid)
      ↔ ((length name ≤ 15) × (length root ≤ 20) × (length gid ≤ 15))
chart_name-kube_conv_name name root gid = (
  λ h. lengths-AllShort (bytes_eq root []) name root gid refl (
      ap (λ s. length s)
        (sym (chart_name-raw name root gid) ∙ (h ∙ kube_conv_name-raw name root gid))),
  λ a.
      chart_name-raw name root gid
      ∙ sym (
          kube_conv_name-raw name root gid
          ∙ rw
              (
                (trunc_app_name-Shortens name).0 a.0,
                (trunc_root_group_id-Shortens root).0 a.1,
                (trunc_app_group_id-Shortens gid).0 a.2,
              )
              refl),
)
