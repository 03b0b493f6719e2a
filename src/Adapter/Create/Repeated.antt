-- ===== src/Adapter/Create/Repeated.antt =====
-- `CreateApp` for instances that run already.
use grpc_gw_controller.Base.{
  ℕ, zero, suc, Option, none, some, List, [], ◌∷◌, ok, All, All-map, Holds, get_elem?, length, ◌≡◌,
  refl, ltb,
}
use grpc_gw_controller.Base.Text.{Bytes}
use grpc_gw_controller.Base.Float.{Float64}
use grpc_gw_controller.Messages.{AppRequest, get_limits}
use grpc_gw_controller.AppManager.{generate_response}
use grpc_gw_controller.Apps.{AppInstanceData}
use grpc_gw_controller.Workers.{
  Pool, idle, phase_at_start, ApiClient, step, step_at, run, start, collect, create_upgrade_apps,
  AppInstance,
}
use grpc_gw_controller.Adapter.{Body}
use grpc_gw_controller.Adapter.NoSuccess.{
  NoSuccess, unless_error-NoSuccess, unless_failed-NoSuccess, with_call-NoSuccess,
  check_limits-NoSuccess, if_NoSuccess,
}
use grpc_gw_controller.Adapter.Deploy.{DeployClient, DeploySettings, work}
use grpc_gw_controller.Adapter.Create.{
  mark_all, make_charts, any_missing, publish, charts_for, limit_namespace, deployed, deploy,
  create_new,
}
use grpc_gw_controller.Adapter.Create.Kept.{Idle, Stays}
use grpc_gw_controller.Adapter.Create.Marked.{
  IsRepeated, then_call-Holds, if_Holds, mark_all-Idle, make_charts-Stays,
}
use grpc_gw_controller.Adapter.Create.Published.{sync_catalog-Stays}

-- Goroutines with nothing to do.
module _ {W : Type 0} (api : ApiClient W) (catalog_id : Bytes) where
  pub phase-idle :
      (is : List AppInstanceData) (k : ℕ) → All Stays is → phase_at_start (get_elem? is k) ≡ idle
  phase-idle [] k h = refl
  phase-idle (i ∷ is) zero h = rw h.0 refl
  phase-idle (i ∷ is) (suc k) h = phase-idle is k h.1

  step_at-idle :
      (k : ℕ) (o : Option AppInstanceData) (m : Pool W)
      → m.phase k ≡ idle
      → step_at api catalog_id k o m ≡ m
  unfolding step
  step_at-idle k none m h = refl
  step_at-idle k (some i) m h = rw h refl

  pub run-idle :
      (is : List AppInstanceData) (ks : List ℕ) (m : Pool W)
      → ((k : ℕ) → m.phase k ≡ idle)
      → run api catalog_id is ks m ≡ m
  unfolding run
  run-idle is [] m h = refl
  run-idle is (k ∷ ks) m h = rw (step_at-idle k (get_elem? is k) m (h k)) (run-idle is ks m h)

  create_upgrade_apps-idle :
      (is : List AppInstanceData) (ks : List ℕ) (w : W)
      → All Stays is
      → create_upgrade_apps api catalog_id is ks w ≡ ok []
  unfolding create_upgrade_apps start collect
  create_upgrade_apps-idle is ks w h =
      rw (run-idle is ks (start is w) (λ k. phase-idle is k h)) refl

module _ {F Q W : Type 0} (cl : DeployClient F Q W) (settings : DeploySettings) (fl : Float64 F)
    (marshal : Body → Option Bytes) (schedule : List ℕ) (req : AppRequest F)
    (chart_type : Bytes) where
  pub charts_for-Stays :
      (is : List AppInstanceData) (w : W)
      → All Idle is
      → Holds (All Stays) (charts_for cl settings req chart_type is w).0
  unfolding publish
  charts_for-Stays is w h =
      let stays = All-map Idle Stays (λ i p. p.0) is h in
      if_Holds (All Stays) req.from_catalog (ok is, w) (publish cl settings req chart_type is w)
        stays
        (if_Holds (All Stays) (any_missing cl settings req chart_type is) _ (ok is, w)
          (then_call-Holds (All Stays) (All Stays) (make_charts cl settings req chart_type is w) _
            (make_charts-Stays cl settings req chart_type is w h)
            (λ made w1. sync_catalog-Stays cl.catalog made req.description w1))
          stays)

  pub work-idle :
      (is : List AppInstanceData) (w : W)
      → All Stays is
      → Holds (λ l. l ≡ []) (work cl settings is schedule w).0
  unfolding work
  work-idle is w h =
      rw (create_upgrade_apps-idle cl.instances settings.apps_catalog_name is schedule w h) refl

  deployed-NoSuccess :
      (l : List AppInstance) (w : W)
      → l ≡ []
      → NoSuccess (deployed cl settings fl marshal schedule req l w)
  unfolding generate_response
  deployed-NoSuccess [] w h = λ k. cc
  deployed-NoSuccess (a ∷ l) w h = absurd cc

  deploy-NoSuccess :
      (namespace : Bytes) (ns rs : List AppInstanceData) (w : W)
      → All (IsRepeated cl settings rs) ns
      → NoSuccess (deploy cl settings fl marshal schedule req chart_type namespace ns (some rs) w)
  unfolding deploy
  deploy-NoSuccess namespace ns rs w h =
      with_call-NoSuccess (All Idle) (mark_all cl settings ns rs w) _
        (mark_all-Idle cl settings ns rs w h)
        (λ marked w1 m.
          check_limits-NoSuccess cl settings (length ns) (get_limits req.spec) _ w1 (λ w2.
            with_call-NoSuccess (All Stays) (charts_for cl settings req chart_type marked w2) _
              (charts_for-Stays marked w2 m)
              (λ ready w3 s.
                unless_failed-NoSuccess
                  (limit_namespace cl settings fl marshal schedule namespace (get_limits req.spec)
                    w3)
                  _
                  (λ w4.
                    with_call-NoSuccess (λ l. l ≡ []) (work cl settings ready schedule w4) _
                      (work-idle ready w4 s) deployed-NoSuccess))))

  pub create_new-NoSuccess :
      (ns rs : List AppInstanceData) (w : W)
      → All (IsRepeated cl settings rs) ns
      → NoSuccess (create_new cl settings fl marshal schedule req chart_type ns (some rs) w)
  unfolding generate_response
  create_new-NoSuccess [] rs w h = λ k. cc
  create_new-NoSuccess (n ∷ ns) rs w h =
      unless_error-NoSuccess (cl.create_namespace n.target_namespace w) _ (λ w1.
        if_NoSuccess (ltb 0 req.shared_storage) _ _
          (unless_error-NoSuccess
            (cl.create_shared_storage req.name n.target_namespace n.target_namespace
              req.shared_storage w1)
            _ (λ w2. deploy-NoSuccess n.target_namespace (n ∷ ns) rs w2 h))
          (deploy-NoSuccess n.target_namespace (n ∷ ns) rs w1 h))
