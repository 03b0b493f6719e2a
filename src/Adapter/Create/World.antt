-- ===== src/Adapter/Create/World.antt =====
-- What `CreateApp` leaves as it was for instances that run already.
use grpc_gw_controller.Base.{ℕ, Option, none, some, List, [], ◌∷◌, All, length, ltb, ◌≡◌}
use grpc_gw_controller.Base.Text.{Bytes}
use grpc_gw_controller.Base.Float.{Float64}
use grpc_gw_controller.Messages.{AppRequest, Limits, get_limits}
use grpc_gw_controller.Apps.{AppInstanceData}
use grpc_gw_controller.Workers.{AppInstance, start}
use grpc_gw_controller.Adapter.{Body}
use grpc_gw_controller.Adapter.Deploy.{DeployClient, DeploySettings, work}
use grpc_gw_controller.Adapter.Create.{
  mark_all, charts_for, limit_namespace, deployed, deploy, create_new,
}
use grpc_gw_controller.Adapter.Create.Kept.{Idle, Stays}
use grpc_gw_controller.Adapter.Create.Marked.{IsRepeated, mark_all-Idle}
use grpc_gw_controller.Adapter.Create.Repeated.{run-idle, phase-idle, charts_for-Stays, work-idle}
use grpc_gw_controller.Adapter.Create.Untouched.{
  IsUntouched, unless_error-K, unless_failed-K, with_call-K, if_K, mark_all-K, check_limits-K,
}
use grpc_gw_controller.Adapter.Create.Charted.{charts_for-K, set_limits-K, delete_limit_range-K}

module _ {F Q W : Type 0} (cl : DeployClient F Q W) (K : W → Type 0) (u : IsUntouched cl K)
    (settings : DeploySettings) (fl : Float64 F) (marshal : Body → Option Bytes) (schedule : List ℕ)
    (req : AppRequest F) (chart_type : Bytes) where
  limit_namespace-K :
      (namespace : Bytes) (l : Option (Limits F)) (w : W)
      → K w
      → K (limit_namespace cl settings fl marshal schedule namespace l w).1
  limit_namespace-K namespace none w h = delete_limit_range-K cl K u settings fl namespace w h
  limit_namespace-K namespace (some l) w h = set_limits-K cl K u settings fl namespace l w h

  -- Goroutines with nothing to do.
  work-K :
      (is : List AppInstanceData) (w : W)
      → All Stays is
      → K w
      → K (work cl settings is schedule w).1
  unfolding work start
  work-K is w s h =
      rw
        (run-idle cl.instances settings.apps_catalog_name is schedule (start is w)
          (λ k. phase-idle cl.instances settings.apps_catalog_name is k s))
        h

  deployed-K :
      (l : List AppInstance) (w : W) → K w → K (deployed cl settings fl marshal schedule req l w).1
  deployed-K [] w h = h
  deployed-K (a ∷ l) w h = h

  deploy-K :
      (namespace : Bytes) (ns rs : List AppInstanceData) (w : W)
      → All (IsRepeated cl settings rs) ns
      → K w
      → K (deploy cl settings fl marshal schedule req chart_type namespace ns (some rs) w).1
  unfolding deploy
  deploy-K namespace ns rs w r h =
      with_call-K K (All Idle) (mark_all cl settings ns rs w) _
        (mark_all-Idle cl settings ns rs w r) (mark_all-K cl K u settings ns rs w h)
        (λ marked w1 m k1.
          check_limits-K cl K u settings (length ns) (get_limits req.spec) _ w1 k1 (λ w2 k2.
            with_call-K K (All Stays) (charts_for cl settings req chart_type marked w2) _
              (charts_for-Stays cl settings fl marshal schedule req chart_type marked w2 m)
              (charts_for-K cl K u settings req chart_type marked w2 k2)
              (λ ready w3 s k3.
                unless_failed-K K
                  (limit_namespace cl settings fl marshal schedule namespace (get_limits req.spec)
                    w3)
                  _ (limit_namespace-K namespace (get_limits req.spec) w3 k3)
                  (λ w4 k4.
                    with_call-K K (λ l. l ≡ []) (work cl settings ready schedule w4) _
                      (work-idle cl settings fl marshal schedule req chart_type ready w4 s)
                      (work-K ready w4 s k4) (λ l w5 e k5. deployed-K l w5 k5)))))

  pub create_new-K :
      (ns rs : List AppInstanceData) (w : W)
      → All (IsRepeated cl settings rs) ns
      → K w
      → K (create_new cl settings fl marshal schedule req chart_type ns (some rs) w).1
  create_new-K [] rs w r h = h
  create_new-K (n ∷ ns) rs w r h =
      unless_error-K K (cl.create_namespace n.target_namespace w) _
        (u.namespace n.target_namespace w h)
        (λ w1 k1.
          if_K K (ltb 0 req.shared_storage) _ _
            (unless_error-K K
              (cl.create_shared_storage req.name n.target_namespace n.target_namespace
                req.shared_storage w1)
              _ (u.storage req.name n.target_namespace n.target_namespace req.shared_storage w1 k1)
              (λ w2 k2. deploy-K n.target_namespace (n ∷ ns) rs w2 r k2))
            (deploy-K n.target_namespace (n ∷ ns) rs w1 r k1))
