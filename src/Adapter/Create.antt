-- ===== src/Adapter/Create.antt =====
-- `CreateApp` of app/grpc/appmanager/adapters/rancher/adapter.go.
pub mod Kept
pub mod Marked
pub mod Published
pub mod Repeated
pub mod Untouched
pub mod Charted
pub mod World
pub mod AlreadyRuns
use grpc_gw_controller.Base.{
  ℕ, suc, Option, none, some, Bool, true, false, List, [], ◌∷◌, ◌++◌, Outcome, ok, err, panic,
  if◌then◌else◌, bytes_eq, ltb, length,
}
use grpc_gw_controller.Base.Text.{Bytes, bytes}
use grpc_gw_controller.Base.Float.{Float64}
use grpc_gw_controller.Maps.{get}
use grpc_gw_controller.AppTypes.{app_type_to_app_cycle}
use grpc_gw_controller.Messages.{
  AppRequest, Limits, success, not_found, unchanged, state_eq, enabled, get_limits,
}
use grpc_gw_controller.AppManager.{Reply, failure}
use grpc_gw_controller.Apps.{
  AppInstanceData, keep, AppsData, new_apps_data, append_new_app_instances, get_running_app_data,
  get_number_of_new_instances,
}
use grpc_gw_controller.Apps.Running.{append_running_apps_data}
use grpc_gw_controller.Charts.{no_fields}
use grpc_gw_controller.Charts.SetData.{set_chart_data}
use grpc_gw_controller.Quotas.Limits.{delete_limit_range}
use grpc_gw_controller.Workers.{AppInstance}
use grpc_gw_controller.Adapter.{Body, app_body, unless_error, with_result, reply_with}
use grpc_gw_controller.Adapter.Catalog.{sync_catalog}
use grpc_gw_controller.Adapter.Deploy.{
  check_limits, DeployClient, DeploySettings, requester_of, running_text, unless_failed, with_call,
  then_call, then_cons, work, set_limits,
}

module _ {F Q W : Type 0} (cl : DeployClient F Q W) (settings : DeploySettings) where
  abbrev template_of : AppInstanceData → Bytes
  template_of i = get i.annotations "apphc.app.instance.template_name"

  -- The inner loop: each running instance is another look at the catalog, unless it is the instance.
  unfoldable pub mark :
      AppInstanceData → List AppInstanceData → W → Outcome Bytes AppInstanceData × W
  mark n [] w = (ok n, w)
  mark n (r ∷ rs) w =
      if bytes_eq n.instance_name r.instance_name
      then mark (record n { next_action = keep; template_available = true }) rs w
      else then_call (cl.catalog.template_available (template_of n) n.requested_version w)
          (λ b w1. mark (record n { template_available = b }) rs w1)

  unfoldable pub mark_all :
      List AppInstanceData → List AppInstanceData → W → Outcome Bytes (List AppInstanceData) × W
  mark_all [] running w = (ok [], w)
  mark_all (n ∷ ns) running w = then_cons (mark n running w) (mark_all ns running)

  -- Where no instance of the application runs there is nothing to mark.
  abbrev pub mark_running :
      List AppInstanceData
      → Option (List AppInstanceData)
      → W
      → Outcome Bytes (List AppInstanceData) × W
  mark_running ns none w = (ok ns, w)
  mark_running ns (some running) w = mark_all ns running w

  module _ (req : AppRequest F) (chart_type : Bytes) where
    abbrev pub chart_dir : AppInstanceData → Bytes
    chart_dir i =
        cl.join_path
          (settings.cache_path ∷ bytes "apps" ∷ req.name ∷ template_of i ∷ i.requested_version ∷ [])

    abbrev pub template_dir : Bytes
    template_dir = cl.join_path (settings.cache_path ∷ bytes "templates" ∷ chart_type ∷ [])

    -- A new chart for an instance whose template is not available.
    unfoldable pub make_chart : AppInstanceData → W → Outcome Bytes AppInstanceData × W
    make_chart i w =
        if i.template_available
        then (ok i, w)
        else then_call
            (set_chart_data (cl.reader w) settings.flex_api req (chart_dir i) no_fields i, w)
            (λ e w1.
              then_call (cl.create_chart template_dir (chart_dir i) chart_type req.name e w1)
                (λ d w2. (ok (record e { description = d }), w2)))

    unfoldable pub make_charts : List AppInstanceData → W → Outcome Bytes (List AppInstanceData) × W
    make_charts [] w = (ok [], w)
    make_charts (i ∷ is) w = then_cons (make_chart i w) (make_charts is)

    -- `createdEntries > 0`
    unfoldable pub any_missing : List AppInstanceData → Bool
    any_missing [] = false
    any_missing (i ∷ is) = let rest = any_missing is in if i.template_available then rest else true

    unfoldable pub publish : List AppInstanceData → W → Outcome Bytes (List AppInstanceData) × W
    publish is w =
        if any_missing is
        then then_call (make_charts is w)
            (λ made w1. sync_catalog cl.catalog made req.description w1)
        else (ok is, w)

    abbrev pub charts_for : List AppInstanceData → W → Outcome Bytes (List AppInstanceData) × W
    charts_for is w = if req.from_catalog then (ok is, w) else publish is w

module _ {F Q W : Type 0} (cl : DeployClient F Q W) (settings : DeploySettings) (fl : Float64 F)
    (marshal : Body → Option Bytes) (schedule : List ℕ) where
  -- The limits of the namespace: those of the request, or none.
  abbrev pub limit_namespace : Bytes → Option (Limits F) → W → Outcome Bytes (Unit {0}) × W
  limit_namespace namespace none w = delete_limit_range cl.limits namespace w
  limit_namespace namespace (some l) w = set_limits cl settings fl namespace l w

  abbrev pub shared_storage : AppRequest F → Bytes → (W → Reply Body × W) → W → Reply Body × W
  shared_storage req namespace rest w =
      if ltb 0 req.shared_storage
      then unless_error (cl.create_shared_storage req.name namespace namespace req.shared_storage w)
          rest
      else rest w

  abbrev pub deployed : AppRequest F → List AppInstance → W → Reply Body × W
  deployed req [] w = (
    reply_with marshal unchanged (bytes "application " ++ (req.name ++ bytes " already deployed"))
        none,
    w,
  )
  deployed req (a ∷ as') w = (
    reply_with marshal success
        (if state_eq req.app_state enabled
          then bytes "Application deployed successfully"
          else bytes "Application deployed successfully but disabled")
        (some (app_body (record { name = req.name; cycle = req.cycle; instances = a ∷ as' }))),
    w,
  )

  -- From the marks on, for the instances of the request.
  unfoldable pub deploy :
      AppRequest F
      → Bytes
      → Bytes
      → List AppInstanceData
      → Option (List AppInstanceData)
      → W
      → Reply Body × W
  deploy req chart_type namespace ns running w =
      with_call (mark_running cl settings ns running w) (λ marked w1.
        check_limits cl settings (length ns) (get_limits req.spec)
          (λ w2. with_call (charts_for cl settings req chart_type marked w2) (λ ready w3.
            unless_failed (limit_namespace namespace (get_limits req.spec) w3)
              (λ w4. with_call (work cl settings ready schedule w4) (deployed req))))
          w1)

  -- The first instance gives the namespace.
  abbrev pub create_new :
      AppRequest F
      → Bytes
      → List AppInstanceData
      → Option (List AppInstanceData)
      → W
      → Reply Body × W
  create_new req chart_type [] running w =
      (reply_with marshal not_found (bytes "Nothing to deploy") none, w)
  create_new req chart_type (n ∷ ns) running w =
      unless_error (cl.create_namespace n.target_namespace w) (λ w1.
        shared_storage req n.target_namespace
          (deploy req chart_type n.target_namespace (n ∷ ns) running) w1)

  abbrev pub create_with : AppRequest F → AppsData → W → Reply Body × W
  create_with req apps w =
      with_result (app_type_to_app_cycle req.cycle)
        (λ chart_type.
          let more =
            append_new_app_instances (requester_of req) chart_type req.description req.app_state
              apps in
          create_new req chart_type more.new_app_instances_data (get_running_app_data more req.name)
            w)
        w

  unfoldable pub create_app : AppRequest F → W → Reply Body × W
  create_app req w = unless_error (cl.sync_cache w) (λ w1.
      unless_error (cl.catalog.refresh_catalog w1) (λ w2.
        let r = cl.list_apps w2 in
        with_result
          (running_text (cl.reader r.1).print_error (
            append_running_apps_data cl.parse_query r.0 (requester_of req) req.cycle req.app_state
              new_apps_data))
          (λ apps. create_with req apps r.1) r.1))
