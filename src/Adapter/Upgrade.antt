-- ===== src/Adapter/Upgrade.antt =====
-- `updateUpgradeApps` of app/grpc/appmanager/adapters/rancher/adapter.go, and `UpgradeApp` and
-- `UpdateApp`.
use grpc_gw_controller.Base.{
  ℕ, Option, none, some, Bool, List, [], ◌∷◌, ◌++◌, Outcome, ok, err, panic, if◌then◌else◌, ltb,
}
use grpc_gw_controller.Base.Text.{Bytes, bytes}
use grpc_gw_controller.Base.Decimal.{ParseError}
use grpc_gw_controller.Base.Float.{Float64}
use grpc_gw_controller.Maps.{get}
use grpc_gw_controller.Messages.{AppRequest, Limits, success, error, not_found}
use grpc_gw_controller.AppManager.{Reply, failure}
use grpc_gw_controller.Apps.{AppInstanceData, target_namespace_of}
use grpc_gw_controller.Charts.{Fields, no_fields}
use grpc_gw_controller.Quotas.Read.{QuotaError, Numbers, print_quota_error}
use grpc_gw_controller.Quotas.Limits.{delete_limit_range, get_resources_limit}
use grpc_gw_controller.Workers.{AppInstance}
use grpc_gw_controller.Adapter.{Body, app_body, unless_error, with_result, reply_with}
use grpc_gw_controller.Adapter.Backup.{Plan, rolls_back}
use grpc_gw_controller.Adapter.Catalog.{sync_catalog}
use grpc_gw_controller.Adapter.Deploy.{
  DeployClient, DeploySettings, unless_failed, with_call, work, set_limits,
}
use grpc_gw_controller.Adapter.Restore.{
  with_state, reused_instance, shared_maps, upgrade_charts, restore_charts, values_file, chart_dir,
}

-- What the plan gives, with the charts made: the instances and the backups.
abbrev pub number_text :
    {A : Type 0} → (ParseError → Bytes) → Outcome ParseError A → Outcome Bytes A
number_text print (ok a) = ok a
number_text print (err e) = err (print e)
number_text print panic = panic

abbrev quota_text : {F A : Type 0} → Numbers F → Outcome QuotaError A → Outcome Bytes A
quota_text num (ok a) = ok a
quota_text num (err e) = err (print_quota_error num e)
quota_text num panic = panic

-- The new instances are the running ones where the request names none.
abbrev pub backups_for :
    List AppInstanceData → List AppInstanceData → List AppInstanceData → List AppInstanceData
backups_for [] made backups = shared_maps made backups
backups_for (n ∷ ns) made backups = backups

module _ {F Q W : Type 0} (cl : DeployClient F Q W) (settings : DeploySettings) (fl : Float64 F)
    (num : Numbers F) (marshal : Body → Option Bytes) (first second : List ℕ) (req : AppRequest F)
    (reuse : Bool) where
  -- The limits of the request, or those of the namespace where values are reused.
  abbrev limits_found : Outcome Bytes (F × ℕ) → Outcome Bytes (Option (Limits F))
  limits_found (ok (c, m)) = ok (some (record { memory = m; cpu = c }))
  limits_found (err e) = err e
  limits_found panic = panic

  abbrev pub limits_or_reused : Option (Limits F) → W → Outcome Bytes (Option (Limits F))
  limits_or_reused (some l) w = ok (some l)
  limits_or_reused none w =
      if reuse
      then limits_found (quota_text num (get_resources_limit fl num cl.limits req.name w))
      else ok none

  -- `limits == nil && !reuseValues`, and a nil pointer that is read.
  unfoldable pub limit_namespace : Option (Limits F) → W → Outcome Bytes (Unit {0}) × W
  limit_namespace (some l) w = set_limits cl settings fl (target_namespace_of req.name) l w
  limit_namespace none w = if reuse then (panic, w) else delete_limit_range cl.limits req.name w

  abbrev pub app_reply : List AppInstance → Body
  app_reply done = app_body (record { name = req.name; cycle = req.cycle; instances = done })

  -- The reply when the roll-back has ended: always an error.
  abbrev pub rolled_back : Outcome Bytes (List AppInstance) × W → Reply Body × W
  rolled_back (ok done, w) = (
    reply_with marshal error
        (bytes "upgrade failed, the application was rolled back to previous state")
        (some (app_reply done)),
    w,
  )
  rolled_back (err e, w) = (failure (bytes "upgrade and rollback failed: " ++ e), w)
  rolled_back (panic, w) = (panic, w)

  unfoldable pub roll_back : Bytes → List AppInstanceData → W → Reply Body × W
  roll_back root backups w = unless_failed (restore_charts cl settings req root backups w) (λ w1.
      with_call (sync_catalog cl.catalog backups [] w1)
        (λ restored w2. rolled_back (work cl settings restored second w2)))

  abbrev pub after_work :
      Bytes → List AppInstanceData → Outcome Bytes (List AppInstance) × W → Reply Body × W
  after_work root backups (ok done, w) = (
    reply_with marshal success (bytes "Application updated/upgraded successfully")
        (some (app_reply done)),
    w,
  )
  after_work root backups (err e, w) =
      if rolls_back req.from_catalog backups e then roll_back root backups w else (failure e, w)
  after_work root backups (panic, w) = (panic, w)

  abbrev pub shared_storage : Bytes → W → Option Bytes × W
  shared_storage kube w =
      if ltb 0 req.shared_storage
      then cl.create_shared_storage req.name kube kube req.shared_storage w
      else cl.delete_storage (kube ++ bytes "-shared-pv") (kube ++ bytes "-shared-pvc") w

  -- `apps.NewAppInstancesData[0]`
  abbrev pub with_first : List AppInstanceData → (Bytes → W → Reply Body × W) → W → Reply Body × W
  with_first [] rest w = (panic, w)
  with_first (i ∷ is) rest w = rest i.target_namespace w

  -- From the limits of the namespace on.
  unfoldable pub finish_upgrade :
      Bytes → Option (Limits F) → List AppInstanceData → List AppInstanceData → W → Reply Body × W
  finish_upgrade root l instances backups w = unless_failed (limit_namespace l w) (λ w1.
      with_first instances
        (λ kube w2.
          unless_error (shared_storage kube w2)
            (λ w3. after_work root backups (work cl settings instances first w3)))
        w1)

  -- The values that are reused, with the directory of their chart.
  abbrev pub with_values :
      Option AppInstanceData → (Bytes → Fields → W → Reply Body × W) → W → Reply Body × W
  with_values none rest w =
      (reply_with marshal not_found (bytes "Nothing to update/upgrade") none, w)
  with_values (some i) rest w =
      with_result (cl.parse_last_good_config (values_file cl settings req i) w)
        (λ cfg.
          with_result (with_state (get i.annotations "apphc.app.instance.state") cfg)
            (λ values. rest (chart_dir cl settings req i i.current_version) values w) w)
        w

  unfoldable pub upgrade_from :
      Bytes
      → Bytes
      → Option (Limits F)
      → List AppInstanceData
      → Plan
      → Bytes
      → Fields
      → W
      → Reply Body × W
  upgrade_from chart_type root l ns p dir values w =
      with_call (upgrade_charts cl settings req chart_type root dir values p.instances w)
        (λ made w1.
          with_call (sync_catalog cl.catalog made req.description w1)
            (λ ready w2. finish_upgrade root l ready (backups_for ns ready p.backups) w2))

  unfoldable pub with_charts :
      Bytes
      → Bytes
      → Option (Limits F)
      → List AppInstanceData
      → List AppInstanceData
      → Option AppInstanceData
      → Plan
      → W
      → Reply Body × W
  with_charts chart_type root l ns existing sample p w =
      if req.from_catalog
      then finish_upgrade root l p.instances p.backups w
      else if reuse
      then with_values (reused_instance existing sample) (upgrade_from chart_type root l ns p) w
      else upgrade_from chart_type root l ns p [] no_fields w
