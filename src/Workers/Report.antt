-- ===== src/Workers/Report.antt =====
-- What `createUpgradeApps` returns after a run of its goroutines.
use grpc_gw_controller.Base.{
  ℕ, Option, none, some, List, [], ◌∷◌, get_elem?, All, ◌≡◌, ◌≢◌, refl, inl, inr, ◌⊎◌, ok, err,
}
use grpc_gw_controller.Base.Text.{Bytes}
use grpc_gw_controller.Apps.{
  AppInstanceData, NextAction, no_value, create, upgrade, delete, recreate, keep,
}
use grpc_gw_controller.Workers.{
  AppInstance, ApiClient, reported_error, Pool, step_at, run, start, phase_for, phase_at_start,
  collect, create_upgrade_apps,
}
use grpc_gw_controller.Workers.Results.{IsQuiet, HasWorker, IsConsistent, step-IsConsistent}

phase_for-IsQuiet : (a : NextAction) → IsQuiet (phase_for a)
phase_for-IsQuiet keep = (λ h. cc, λ h. cc, λ l h. cc)
phase_for-IsQuiet no_value = (λ h. cc, λ h. cc, λ l h. cc)
phase_for-IsQuiet create = (λ h. cc, λ h. cc, λ l h. cc)
phase_for-IsQuiet upgrade = (λ h. cc, λ h. cc, λ l h. cc)
phase_for-IsQuiet delete = (λ h. cc, λ h. cc, λ l h. cc)
phase_for-IsQuiet recreate = (λ h. cc, λ h. cc, λ l h. cc)

start-IsQuiet : (o : Option AppInstanceData) → IsQuiet (phase_at_start o)
start-IsQuiet none = (λ h. cc, λ h. cc, λ l h. cc)
start-IsQuiet (some i) = phase_for-IsQuiet i.next_action

no_error-collect : (es : List Bytes) (l : List AppInstance) → es ≡ [] → collect es l ≡ ok l
unfolding collect
no_error-collect [] l h = refl
no_error-collect (e ∷ es) l h = cc

error-collect :
    (es : List Bytes) (l : List AppInstance) → es ≢ [] → (e : Bytes) × (collect es l ≡ err e)
unfolding collect
error-collect [] l h = absurd (h refl)
error-collect (e ∷ es) l h = (e, refl)

empty_cases : (es : List Bytes) → (es ≡ []) ⊎ (es ≢ [])
empty_cases [] = inl refl
empty_cases (e ∷ es) = inr (λ h. cc)

module _ {W : Type 0} (api : ApiClient W) (catalog_id : Bytes)
    (instances : List AppInstanceData) where
  start-IsConsistent : (w : W) → IsConsistent api catalog_id instances (start instances w)
  unfolding start
  start-IsConsistent w = record {
    errors_reported =
        (λ j h. absurd ((start-IsQuiet (get_elem? instances j)).0 h), λ h. absurd (h refl));
    entries_done = tt;
    read_done = λ k l h. absurd ((start-IsQuiet (get_elem? instances k)).2 l h);
  }

  step_at-IsConsistent :
      (k : ℕ) (o : Option AppInstanceData) (m : Pool W)
      → get_elem? instances k ≡ o
      → IsConsistent api catalog_id instances m
      → IsConsistent api catalog_id instances (step_at api catalog_id k o m)
  step_at-IsConsistent k none m e c = c
  step_at-IsConsistent k (some i) m e c =
      step-IsConsistent api catalog_id instances k i (m.phase k) m e refl c

  run-IsConsistent :
      (ks : List ℕ) (m : Pool W)
      → IsConsistent api catalog_id instances m
      → IsConsistent api catalog_id instances (run api catalog_id instances ks m)
  unfolding run
  run-IsConsistent [] m c = c
  run-IsConsistent (k ∷ ks) m c =
      let n = step_at api catalog_id k (get_elem? instances k) m in
      run-IsConsistent ks n (step_at-IsConsistent k (get_elem? instances k) m refl c)

-- However the goroutines are scheduled, the call returns an error exactly when some goroutine has
-- reported one, and its list of instances otherwise; each entry of the list was made by a
-- goroutine that has reported its own instance done.
pub create_upgrade_apps-report :
    {W : Type 0} (api : ApiClient W) (catalog_id : Bytes) (instances : List AppInstanceData)
    (schedule : List ℕ) (w : W)
    → let m = run api catalog_id instances schedule (start instances w) in
      (((k : ℕ) → m.phase k ≢ reported_error)
        → create_upgrade_apps api catalog_id instances schedule w ≡ ok m.done_list)
      × ((k : ℕ)
          → m.phase k ≡ reported_error
          → (e : Bytes) × (create_upgrade_apps api catalog_id instances schedule w ≡ err e))
      × All (HasWorker api catalog_id instances m.phase) m.done_list
unfolding create_upgrade_apps
create_upgrade_apps-report api catalog_id instances schedule w =
    let m = run api catalog_id instances schedule (start instances w) in
    let c =
      run-IsConsistent api catalog_id instances schedule (start instances w)
        (start-IsConsistent api catalog_id instances w) in
    (
      λ h. no_error-collect m.errors m.done_list (elim (empty_cases m.errors) [
        | inl e ↦ e
        | inr n ↦ let r = c.errors_reported.1 n in absurd (h r.0 r.1)
      ]),
      λ k h. error-collect m.errors m.done_list (c.errors_reported.0 k h),
      c.entries_done,
    )
