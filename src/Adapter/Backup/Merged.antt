-- ===== src/Adapter/Backup/Merged.antt =====
-- What the instances of a request take from the running instances of its application.
use grpc_gw_controller.Base.{
  ok-injective, bind-ok, none, some, Bool, List, [], ◌∷◌, ◌++◌, ok, if◌then◌else◌, bytes_eq,
  bytes_eq_iff, Bool-cases, get_last?, All, ◌≡◌, ◌≢◌, inl, inr, refl, ◌∙◌, ap, sym,
}
use mathlib.Core.Path.{subst}
use grpc_gw_controller.Base.Text.{Bytes}
use grpc_gw_controller.Apps.{AppInstanceData}
use grpc_gw_controller.Adapter.Backup.{
  get_backup_data, Plan, inherit, same_instance, merge_existing, merge_all, plan,
}

module _ (policy : Bool) (version : Bytes) where
  -- The name stays; the size of the storage is that of the last running instance, whatever its name, and so
  -- is the version where the request has none. Where no running instance has the name the action stays.
  abbrev pub IsMerged : List AppInstanceData → AppInstanceData → AppInstanceData → Type 0
  IsMerged es n m =
      (m.instance_name ≡ n.instance_name)
      × (version ≢ [] → m.requested_version ≡ n.requested_version)
      × ((e : AppInstanceData)
          → get_last? es ≡ some e
          → (m.instance_storage_size ≡ e.instance_storage_size)
            × (version ≡ [] → m.requested_version ≡ e.requested_version))
      × (All (λ e. n.instance_name ≢ e.instance_name) es → m.next_action ≡ n.next_action)
      × (get_last? es ≡ none → m ≡ n)

  step-IsMerged :
      (n n1 e m : AppInstanceData) (es : List AppInstanceData)
      → n1.instance_name ≡ n.instance_name
      → (n.instance_name ≢ e.instance_name → n1.next_action ≡ n.next_action)
      → n1.instance_storage_size ≡ e.instance_storage_size
      → (version ≢ [] → n1.requested_version ≡ n.requested_version)
      → (version ≡ [] → n1.requested_version ≡ e.requested_version)
      → IsMerged es n1 m
      → IsMerged (e ∷ es) n m
  step-IsMerged n n1 e m [] name act size keep take h =
      let same = h.4 refl in
      (
        h.0 ∙ name,
        λ v. h.1 v ∙ keep v,
        λ f l. (cc (same, size, l), λ v. cc (same, take v, l)),
        λ d. cc (same, act d.0),
        λ x. cc,
      )
  step-IsMerged n n1 e m (f ∷ es) name act size keep take h = (
    h.0 ∙ name,
    λ v. h.1 v ∙ keep v,
    λ g l. h.2 g l,
    λ d. h.3 (subst (λ x. All (λ e. x ≢ e.instance_name) (f ∷ es)) (sym name) d.1) ∙ act d.0,
    λ x. absurd (no_last f es x),
  )
    where
      no_last : (f : AppInstanceData) (es : List AppInstanceData) → get_last? (f ∷ es) ≢ none
      no_last f [] = λ k. cc
      no_last f (g ∷ gs) = no_last g gs

  merge_existing-IsMerged :
      (n : AppInstanceData) (es backups : List AppInstanceData)
      (r : AppInstanceData × List AppInstanceData)
      → merge_existing policy version n es backups ≡ ok r
      → IsMerged es n r.0
  unfolding merge_existing inherit same_instance
  merge_existing-IsMerged n [] backups r h =
      let same : n ≡ r.0 = ap (λ x. x.0) (ok-injective (n, backups) r h) in
      (cc same, λ v. cc same, λ e l. absurd cc, λ d. cc same, λ x. cc same)
  merge_existing-IsMerged n (e ∷ es) backups r h =
      elim (Bool-cases (bytes_eq n.instance_name e.instance_name)) [
        | inl t ↦
            let b = bind-ok (get_backup_data policy e) _ r (rw t at h) in
            step-IsMerged n _ e r.0 es refl
              (λ d. absurd (d ((bytes_eq_iff n.instance_name e.instance_name).0 t))) refl
              (keeps n e) (takes n e)
              (merge_existing-IsMerged (inherit policy version (same_instance policy version n e) e)
                es (backups ++ b.0 ∷ []) r b.2)
        | inr t ↦
            step-IsMerged n _ e r.0 es refl (λ d. refl) refl (keeps n e) (takes n e)
              (merge_existing-IsMerged (inherit policy version n e) es backups r (rw t at h))
      ]
    where
      keeps :
          (n e : AppInstanceData)
          → version ≢ []
          → (if bytes_eq version [] then e.requested_version else n.requested_version)
            ≡ n.requested_version
      keeps n e v = elim (Bool-cases (bytes_eq version [])) [
        | inl t ↦ absurd (v ((bytes_eq_iff version []).0 t))
        | inr t ↦ rw t refl
      ]

      takes :
          (n e : AppInstanceData)
          → version ≡ []
          → (if bytes_eq version [] then e.requested_version else n.requested_version)
            ≡ e.requested_version
      takes n e v = rw ((bytes_eq_iff version []).1 v) refl

  -- One instance of the plan for each of the request, in their order.
  abbrev pub Pairs :
      (AppInstanceData → AppInstanceData → Type 0)
      → List AppInstanceData
      → List AppInstanceData
      → Type 0
  Pairs R [] [] = Unit {0}
  Pairs R [] (m ∷ ms) = ⊥
  Pairs R (n ∷ ns) [] = ⊥
  Pairs R (n ∷ ns) (m ∷ ms) = R n m × Pairs R ns ms

  merge_all-Pairs :
      (ns es backups : List AppInstanceData) (p : Plan)
      → merge_all policy version ns es backups ≡ ok p
      → Pairs (IsMerged es) ns p.instances
  unfolding merge_all
  merge_all-Pairs [] es backups p h =
      subst (λ q. Pairs (IsMerged es) [] q.instances) (ok-injective _ p h) tt
  merge_all-Pairs (n ∷ ns) es backups p h =
      let a = bind-ok (merge_existing policy version n es backups) _ p h in
      let b = bind-ok (merge_all policy version ns es a.0.1) _ p a.2 in
      let made : Plan = record { instances = a.0.0 ∷ b.0.instances; backups = b.0.backups } in
      subst (λ q. Pairs (IsMerged es) (n ∷ ns) q.instances) (ok-injective made p b.2)
        (merge_existing-IsMerged n es backups a.0 a.1, merge_all-Pairs ns es a.0.1 b.0 b.1)

-- Where the plan of a request with instances succeeds, it has one instance for each of the request, in
-- their order and with their names. Each has the size of the storage of the last running instance of the
-- application, whatever the name of that one; so it has its version where the request has none, and
-- otherwise the version of the request. An instance that no running one has the name of keeps its action;
-- where nothing runs it stays as it is.
pub plan-IsMerged :
    (policy : Bool) (version : Bytes) (n : AppInstanceData) (ns existing : List AppInstanceData)
    (p : Plan)
    → plan policy version (n ∷ ns) existing ≡ ok p
    → Pairs policy version (IsMerged policy version existing) (n ∷ ns) p.instances
unfolding plan
plan-IsMerged policy version n ns existing p h =
    merge_all-Pairs policy version (n ∷ ns) existing [] p h
