-- ===== src/Adapter/Create/Charted.antt =====
-- What the work of `CreateApp` on charts, the catalog and limits leaves as it was.
use grpc_gw_controller.Base.{
  ℕ, zero, suc, Option, none, some, Bool, true, false, List, [], ◌∷◌, Outcome, ok, err, panic,
}
use grpc_gw_controller.Base.Text.{Bytes}
use grpc_gw_controller.Base.Float.{Float64}
use grpc_gw_controller.Messages.{AppRequest, Limits}
use grpc_gw_controller.Apps.{AppInstanceData}
use grpc_gw_controller.Charts.{no_fields}
use grpc_gw_controller.Charts.SetData.{set_chart_data}
use grpc_gw_controller.Quotas.{KubeError, already_exists, other_error, update_after}
use grpc_gw_controller.Quotas.Read.{GetError, not_found, failed}
use grpc_gw_controller.Quotas.Limits.{
  LimitRange, created_range, put_range, create_update_limit_range, deleted_range,
  delete_limit_range, limit_range,
}
use grpc_gw_controller.Adapter.Catalog.{
  Checked, prepend, after_check, check_all, next_round, wait_rounds, after_catalog, and_then,
  wait_for_catalog_entry, sync_catalog,
}
use grpc_gw_controller.Adapter.Deploy.{DeployClient, DeploySettings, set_limits}
use grpc_gw_controller.Adapter.Create.{
  chart_dir, template_dir, make_chart, make_charts, any_missing, publish, charts_for,
}
use grpc_gw_controller.Adapter.Create.Untouched.{IsUntouched, then_call-K, then_cons-K, if_K}

module _ {F Q W : Type 0} (cl : DeployClient F Q W) (K : W → Type 0) (u : IsUntouched cl K)
    (settings : DeploySettings) where
  prepend-K : (i : AppInstanceData) (r : Checked W) → K r.1 → K (prepend cl.catalog i r).1
  prepend-K i (ok (is, ms), w) h = h
  prepend-K i (err e, w) h = h
  prepend-K i (panic, w) h = h

  after_check-K :
      (i : AppInstanceData) (ms : List Bytes) (rest : List Bytes → W → Checked W)
      (r : Outcome Bytes Bool × W)
      → K r.1
      → ((l : List Bytes) (w : W) → K w → K (rest l w).1)
      → K (after_check cl.catalog i ms rest r).1
  after_check-K i ms rest (ok true, w) h g = prepend-K _ _ (g _ w h)
  after_check-K i ms rest (ok false, w) h g = prepend-K _ _ (g _ w h)
  after_check-K i ms rest (err e, w) h g = h
  after_check-K i ms rest (panic, w) h g = h

  check_all-K :
      (is : List AppInstanceData) (ms : List Bytes) (w : W)
      → K w
      → K (check_all cl.catalog is ms w).1
  unfolding check_all
  check_all-K [] ms w h = h
  check_all-K (i ∷ is) ms w h =
      after_check-K i ms (check_all cl.catalog is) (cl.catalog.template_available _ _ w)
        (u.available _ _ w h) (check_all-K is)

  next_round-K :
      (rest : List AppInstanceData → List Bytes → W → Checked W) (r : Checked W)
      → K r.1
      → ((is : List AppInstanceData) (ms : List Bytes) (w : W) → K w → K (rest is ms w).1)
      → K (next_round cl.catalog rest r).1
  next_round-K rest (ok (is, []), w) h g = h
  next_round-K rest (ok (is, m ∷ ms), w) h g = g is (m ∷ ms) _ (u.sleep w h)
  next_round-K rest (err e, w) h g = h
  next_round-K rest (panic, w) h g = h

  wait_rounds-K :
      (k : ℕ) (is : List AppInstanceData) (ms : List Bytes) (w : W)
      → K w
      → K (wait_rounds cl.catalog k is ms w).1
  unfolding wait_rounds
  wait_rounds-K zero is ms w h = h
  wait_rounds-K (suc k) is ms w h =
      next_round-K (wait_rounds cl.catalog k) (check_all cl.catalog is ms w) (check_all-K is ms w h)
        (wait_rounds-K k)

  after_catalog-K : (r : Checked W) → K r.1 → K (after_catalog cl.catalog r).1
  after_catalog-K (ok (is, []), w) h = h
  after_catalog-K (ok (is, m ∷ ms), w) h = h
  after_catalog-K (err e, w) h = h
  after_catalog-K (panic, w) h = h

  and_then-K :
      (x : Option Bytes × W) (rest : W → Outcome Bytes (List AppInstanceData) × W)
      → K x.1
      → ((w : W) → K w → K (rest w).1)
      → K (and_then cl.catalog x rest).1
  and_then-K (some e, w) rest h g = h
  and_then-K (none, w) rest h g = g w h

  sync_catalog-K :
      (is : List AppInstanceData) (d : Bytes) (w : W) → K w → K (sync_catalog cl.catalog is d w).1
  unfolding sync_catalog wait_for_catalog_entry
  sync_catalog-K is d w h = and_then-K (cl.catalog.push d w) _ (u.push d w h) (λ w1 k.
      and_then-K (cl.catalog.refresh_catalog w1) (wait_for_catalog_entry cl.catalog is)
        (u.refresh w1 k)
        (λ w2 k2.
          after_catalog-K (wait_rounds cl.catalog 20 is [] w2) (wait_rounds-K 20 is [] w2 k2)))

  module _ (req : AppRequest F) (ct : Bytes) where
    make_chart-K : (i : AppInstanceData) (w : W) → K w → K (make_chart cl settings req ct i w).1
    unfolding make_chart
    make_chart-K i w h =
        if_K K i.template_available (ok i, w) _ h
          (then_call-K K
            (
              set_chart_data (cl.reader w) settings.flex_api req (chart_dir cl settings req ct i)
                  no_fields i,
              w,
            )
            _ h
            (λ e w1 k.
              then_call-K K
                (cl.create_chart (template_dir cl settings req ct) (chart_dir cl settings req ct i)
                  ct req.name e w1)
                _ (u.chart _ _ _ _ e w1 k) (λ d w2 k2. k2)))

    make_charts-K :
        (is : List AppInstanceData) (w : W) → K w → K (make_charts cl settings req ct is w).1
    unfolding make_charts
    make_charts-K [] w h = h
    make_charts-K (i ∷ is) w h =
        then_cons-K K (make_chart cl settings req ct i w) (make_charts cl settings req ct is)
          (make_chart-K i w h) (make_charts-K is)

    pub charts_for-K :
        (is : List AppInstanceData) (w : W) → K w → K (charts_for cl settings req ct is w).1
    unfolding publish
    charts_for-K is w h =
        if_K K req.from_catalog (ok is, w) _ h
          (if_K K (any_missing cl settings req ct is) _ (ok is, w)
            (then_call-K K (make_charts cl settings req ct is w) _ (make_charts-K is w h)
              (λ made w1. sync_catalog-K made req.description w1))
            h)

  -- The limits of the namespace.
  module _ (fl : Float64 F) (namespace : Bytes) where
    update_after-K : (x : Option KubeError × W) → K x.1 → K (update_after x).1
    update_after-K (none, w) h = h
    update_after-K (some e, w) h = h

    created_range-K :
        (o : LimitRange Q) (x : Option KubeError × W)
        → K x.1
        → K (created_range fl cl.limits namespace o x).1
    created_range-K o (none, w) h = h
    created_range-K o (some (already_exists e), w) h =
        update_after-K (cl.limits.update namespace o w) (u.update_limits namespace o w h)
    created_range-K o (some (other_error e), w) h = h

    put_range-K :
        (o : Outcome Bytes (LimitRange Q)) (w : W)
        → K w
        → K (put_range fl cl.limits namespace o w).1
    put_range-K (ok o) w h =
        created_range-K o (cl.limits.create namespace o w) (u.create_limits namespace o w h)
    put_range-K (err e) w h = h
    put_range-K panic w h = h

    pub set_limits-K : (l : Limits F) (w : W) → K w → K (set_limits cl settings fl namespace l w).1
    unfolding create_update_limit_range
    set_limits-K l w h = put_range-K (limit_range fl cl.limits namespace _) w h

    deleted_range-K : (x : Option GetError × W) → K x.1 → K (deleted_range cl.limits x).1
    deleted_range-K (some not_found, w) h = h
    deleted_range-K (some (failed e), w) h = h
    deleted_range-K (none, w) h = h

    pub delete_limit_range-K : (w : W) → K w → K (delete_limit_range cl.limits namespace w).1
    unfolding delete_limit_range
    delete_limit_range-K w h =
        deleted_range-K (cl.limits.delete namespace w) (u.delete_limits namespace w h)
