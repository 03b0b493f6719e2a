-- ===== src/Apps/Growth.antt =====
-- The running instances in the temporary data, and how a step of a loop adds to them.
use grpc_gw_controller.Base.{
  List, [], ◌∷◌, ◌++◌, bytes_Eq, map, bytes_eq, bytes_eq_iff, if◌then◌else◌, All, All-append, arith,
  ◌≡◌, inl, inr, refl, Bool-cases,
}
use grpc_gw_controller.Base.Text.{Bytes}
use grpc_gw_controller.Base.Dict.{lookup, lookup-insert}
use grpc_gw_controller.Messages.{AppStateAfterDeployment}
use grpc_gw_controller.Apps.{AppInstanceData, AppsData}
use grpc_gw_controller.Apps.Running.{RancherApp, with_sample, or_nil, add_running}
use grpc_gw_controller.Apps.Selection.{IsOneOf}

abbrev pub running : Bytes → AppsData → List AppInstanceData
running k apps = or_nil (lookup k apps.running_apps_data)

pub running-add_running :
    (k name : Bytes) (i : AppInstanceData) (apps : AppsData)
    → running k (add_running name i apps)
      ≡ (if bytes_eq name k then running k apps ++ i ∷ [] else running k apps)
unfolding add_running
running-add_running k name i apps = rw lookup-insert (ground (arith, bytes_eq_iff name k))

abbrev pub names : List AppInstanceData → List Bytes
names l = map (λ (i : AppInstanceData). i.instance_name) l

IsOneOf-append :
    (n : Bytes) (l m : List AppInstanceData) → IsOneOf n (names l) → IsOneOf n (names (l ++ m))
IsOneOf-append n [] m h = absurd h
IsOneOf-append n (i ∷ l) m h = ground (arith, IsOneOf-append n l m)

pub IsOneOf-last :
    (l : List AppInstanceData) (i : AppInstanceData) → IsOneOf i.instance_name (names (l ++ i ∷ []))
IsOneOf-last [] i = inl refl
IsOneOf-last (j ∷ l) i = inr (IsOneOf-last l i)

-- `P k i` is what should hold of an instance that is recorded under the application `k`.
module _ (P : Bytes → AppInstanceData → Type 0) where
  abbrev pub AllRecorded : AppsData → Type 0
  AllRecorded apps = (k : Bytes) → All (P k) (running k apps)

  -- From `apps` to `after`: what is recorded is right, and no name is lost.
  abbrev pub Grows : AppsData → AppsData → Type 0
  Grows apps after =
      (AllRecorded apps → AllRecorded after)
      × ((n k : Bytes) → IsOneOf n (names (running k apps)) → IsOneOf n (names (running k after)))

  pub with_sample-Grows :
      (item : RancherApp) (s : AppStateAfterDeployment) (apps : AppsData)
      → Grows apps (with_sample item s apps)
  unfolding with_sample
  with_sample-Grows item s apps = (λ h. h, λ n k h. h)

  pub add_running-Grows :
      (name : Bytes) (i : AppInstanceData) (apps : AppsData)
      → P name i
      → Grows apps (add_running name i apps)
  add_running-Grows name i apps r = (
    λ h k. elim (Bool-cases (bytes_eq name k)) [
      | inl e ↦
          rw (running-add_running k name i apps, e)
            (All-append (P k) (running k apps) (i ∷ []) (h k)
              (rw ((bytes_eq_iff name k).0 e) at r, tt))
      | inr e ↦ rw (running-add_running k name i apps, e) (h k)
    ],
    λ n k h. elim (Bool-cases (bytes_eq name k)) [
      | inl e ↦
          rw (running-add_running k name i apps, e) (IsOneOf-append n (running k apps) (i ∷ []) h)
      | inr e ↦ rw (running-add_running k name i apps, e) h
    ],
  )
