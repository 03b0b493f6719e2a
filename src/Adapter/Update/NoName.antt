-- ===== src/Adapter/Update/NoName.antt =====
-- `UpdateApp` for charts whose values have an image with no name.
use grpc_gw_controller.Base.{
  ℕ, Option, none, some, Bool, true, false, List, [], ◌∷◌, ok, err, panic, String, string_eq, Holds,
  Holds-if, if◌then◌else◌, bytes_eq, length, ◌≡◌, refl, arith, ◌∙◌, Holds-bind,
}
use grpc_gw_controller.Base.Text.{Bytes}
use grpc_gw_controller.Base.Float.{Float64}
use grpc_gw_controller.AppTypes.{app_type_to_app_cycle}
use grpc_gw_controller.Messages.{AppRequest, Limits}
use grpc_gw_controller.AppManager.{Reply, generate_response}
use grpc_gw_controller.Apps.{AppInstanceData, target_namespace_of}
use grpc_gw_controller.Apps.Running.{or_nil}
use grpc_gw_controller.Charts.{
  name, no_text, Value, mapping, Fields, no_fields, field, at, as_mapping,
}
use grpc_gw_controller.Charts.SetData.{set_chart_data}
use grpc_gw_controller.Charts.NoName.{set_chart_data-no_image_name}
use grpc_gw_controller.Quotas.Read.{Numbers}
use grpc_gw_controller.Adapter.{Body}
use grpc_gw_controller.Adapter.Backup.{Plan}
use grpc_gw_controller.Adapter.Catalog.{sync_catalog}
use grpc_gw_controller.Adapter.Deploy.{DeployClient, DeploySettings}
use grpc_gw_controller.Adapter.NoSuccess.{
  NoSuccess, unless_error-NoSuccess, unless_failed-NoSuccess, with_call-NoSuccess,
  with_result-NoSuccess, check_limits-NoSuccess, Holds-trivial,
}
use grpc_gw_controller.Adapter.Create.Marked.{then_call-Holds}
use grpc_gw_controller.Adapter.Update.Nothing.{Empty, never-Holds, sync_catalog-Empty}
use grpc_gw_controller.Adapter.Restore.{
  put_field, with_state, reused_instance, upgrade_chart, upgrade_charts,
}
use grpc_gw_controller.Adapter.Upgrade.{
  limit_namespace, finish_upgrade, with_values, upgrade_from, with_charts, backups_for,
}
use grpc_gw_controller.Adapter.Update.{
  then_remove, with_plan, update_found, update_upgrade_apps, update_app,
}

-- The image of the values has no name.
abbrev pub HasNoImageName : Fields → Type 0
HasNoImageName vs =
    (image : Fields) × (at vs "image" ≡ some (mapping image)) × (at image "name" ≡ none)

at-put_field :
    (fs : Fields) (k j : String) (v : Value)
    → (string_eq.beq k j) ≡ false
    → at (put_field fs k v) j ≡ at fs j
unfolding at put_field
at-put_field no_fields k j v h = rw h refl
at-put_field (field (name f) u fs) k j v h =
    ground (arith, at-put_field fs k j v h, string_eq.beq_iff f k, string_eq.beq_iff f j)
at-put_field (field no_text u fs) k j v h = at-put_field fs k j v h

with_state-HasNoImageName :
    (state : Bytes) (cfg : Fields)
    → HasNoImageName cfg
    → Holds HasNoImageName (with_state state cfg)
unfolding with_state
with_state-HasNoImageName state cfg h = Holds-if HasNoImageName (bytes_eq state []) (ok cfg) _ h (
    Holds-bind HasNoImageName (as_mapping (at cfg "annotations")) _
      (λ a. (h.0, at-put_field cfg "annotations" "image" _ refl ∙ h.1, h.2)))

if_false :
    {W : Type 0} (b : Bool) (x y : Reply Body × W)
    → b ≡ false
    → NoSuccess y
    → NoSuccess (if b then x else y)
if_false true x y h g = absurd cc
if_false false x y h g = g

module _ {F Q W : Type 0} (cl : DeployClient F Q W) (settings : DeploySettings) (req : AppRequest F)
    (chart_type root dir : Bytes) (values : Fields) (lacks : HasNoImageName values) where
  -- A chart is made of no instance.
  upgrade_charts-Empty :
      (is : List AppInstanceData) (w : W)
      → Holds Empty (upgrade_charts cl settings req chart_type root dir values is w).0
  unfolding upgrade_charts upgrade_chart
  upgrade_charts-Empty [] w = refl
  upgrade_charts-Empty (i ∷ is) w =
      then_call-Holds (λ _. ⊥) Empty (upgrade_chart cl settings req chart_type root dir values i w)
        _
        (then_call-Holds (λ _. ⊥) (λ _. ⊥)
          (set_chart_data (cl.reader w) settings.flex_api req dir values i, w) _
          (never-Holds (set_chart_data (cl.reader w) settings.flex_api req dir values i) (λ e.
            set_chart_data-no_image_name (cl.reader w) settings.flex_api req dir values lacks.0 i e
              lacks.1 lacks.2))
          (λ e w1 h. absurd h))
        (λ e w1 h. absurd h)

module _ {F Q W : Type 0} (cl : DeployClient F Q W) (settings : DeploySettings) (fl : Float64 F)
    (num : Numbers F) (marshal : Body → Option Bytes) (first second : List ℕ) (req : AppRequest F)
    (own_chart : req.from_catalog ≡ false)
    (lacks : (path : Bytes) (w : W) → Holds HasNoImageName (cl.parse_last_good_config path w)) where
  finish_upgrade-Empty :
      (root : Bytes) (l : Option (Limits F)) (is bs : List AppInstanceData) (w : W)
      → is ≡ []
      → NoSuccess (finish_upgrade cl settings fl num marshal first second req true root l is bs w)
  unfolding finish_upgrade
  finish_upgrade-Empty root l [] bs w h =
      unless_failed-NoSuccess (limit_namespace cl settings fl num marshal first second req true l w)
        _ (λ w1. tt)
  finish_upgrade-Empty root l (i ∷ is) bs w h = absurd cc

  upgrade_from-NoSuccess :
      (ct root : Bytes) (l : Option (Limits F)) (ns : List AppInstanceData) (p : Plan) (dir : Bytes)
      (values : Fields) (w : W)
      → HasNoImageName values
      → NoSuccess (
          upgrade_from cl settings fl num marshal first second req true ct root l ns p dir values w)
  unfolding upgrade_from
  upgrade_from-NoSuccess ct root l ns p dir values w h =
      with_call-NoSuccess Empty (upgrade_charts cl settings req ct root dir values p.instances w) _
        (upgrade_charts-Empty cl settings req ct root dir values h p.instances w)
        (λ made w1 e.
          with_call-NoSuccess Empty (sync_catalog cl.catalog made req.description w1) _
            (sync_catalog-Empty cl.catalog made req.description w1 e)
            (λ ready w2 g. finish_upgrade-Empty root l ready (backups_for ns ready p.backups) w2 g))

  with_values-NoSuccess :
      (o : Option AppInstanceData) (rest : Bytes → Fields → W → Reply Body × W) (w : W)
      → ((dir : Bytes) (vs : Fields) (w1 : W) → HasNoImageName vs → NoSuccess (rest dir vs w1))
      → NoSuccess (with_values cl settings fl num marshal first second req true o rest w)
  unfolding generate_response
  with_values-NoSuccess none rest w g = λ h. cc
  with_values-NoSuccess (some i) rest w g =
      with_result-NoSuccess HasNoImageName (cl.parse_last_good_config _ w) _ w (lacks _ w) (λ cfg h.
        with_result-NoSuccess HasNoImageName (with_state _ cfg) _ w
          (with_state-HasNoImageName _ cfg h) (λ vs k. g _ vs w k))

  with_charts-NoSuccess :
      (ct root : Bytes) (l : Option (Limits F)) (ns existing : List AppInstanceData)
      (sample : Option AppInstanceData) (p : Plan) (w : W)
      → NoSuccess (
          with_charts cl settings fl num marshal first second req true ct root l ns existing sample
            p w)
  unfolding with_charts
  with_charts-NoSuccess ct root l ns existing sample p w = if_false req.from_catalog _ _ own_chart (
      with_values-NoSuccess (reused_instance existing sample) _ w
        (upgrade_from-NoSuccess ct root l ns p))

  then_remove-NoSuccess :
      (root : Bytes) (r : Reply Body × W)
      → NoSuccess r
      → NoSuccess (then_remove cl settings fl num marshal first second req true root r)
  then_remove-NoSuccess root (ok r, w) h = h
  then_remove-NoSuccess root (err e, w) h = tt
  then_remove-NoSuccess root (panic, w) h = tt

  with_plan-NoSuccess :
      (ct : Bytes) (ns existing : List AppInstanceData) (sample : Option AppInstanceData) (w : W)
      → NoSuccess
          (with_plan cl settings fl num marshal first second req true ct ns existing sample w)
  unfolding with_plan
  with_plan-NoSuccess ct ns existing sample w =
      with_result-NoSuccess (λ _. Unit {0}) _ _ w (Holds-trivial _)
        (λ p _.
          with_result-NoSuccess (λ _. Unit {0}) _ _ w (Holds-trivial _)
            (λ l _. check_limits-NoSuccess cl settings (length p.instances) l _ w (λ w1.
              with_call-NoSuccess (λ _. Unit {0}) (cl.random_id w1) _
                (Holds-trivial (cl.random_id w1).0)
                (λ id w2 _.
                  then_remove-NoSuccess _ _
                    (with_charts-NoSuccess ct _ l ns existing sample p w2)))))

  update_found-NoSuccess :
      (ct : Bytes) (ns : List AppInstanceData) (existing : Option (List AppInstanceData))
      (sample : Option AppInstanceData) (w : W)
      → NoSuccess
          (update_found cl settings fl num marshal first second req true ct ns existing sample w)
  unfolding generate_response
  update_found-NoSuccess ct [] none sample w = λ h. cc
  update_found-NoSuccess ct [] (some existing) sample w =
      unless_error-NoSuccess (cl.create_namespace (target_namespace_of req.name) w) _
        (with_plan-NoSuccess ct [] existing sample)
  update_found-NoSuccess ct (n ∷ ns) existing sample w =
      unless_error-NoSuccess (cl.create_namespace (target_namespace_of req.name) w) _
        (with_plan-NoSuccess ct (n ∷ ns) (or_nil existing) sample)

-- For a request that takes no chart from the catalog, where every file of values of a last chart that can
-- be parsed has an image with no name, UpdateApp never replies with success, whatever the other calls
-- return.
pub update_app-NoSuccess :
    {F Q W : Type 0} (cl : DeployClient F Q W) (settings : DeploySettings) (fl : Float64 F)
    (num : Numbers F) (marshal : Body → Option Bytes) (first second : List ℕ) (req : AppRequest F)
    (w : W)
    → req.from_catalog ≡ false
    → ((path : Bytes) (w1 : W) → Holds HasNoImageName (cl.parse_last_good_config path w1))
    → NoSuccess (update_app cl settings fl num marshal first second req w)
unfolding update_app update_upgrade_apps
update_app-NoSuccess cl settings fl num marshal first second req w own lacks =
    unless_error-NoSuccess (cl.sync_cache w) _ (λ w1.
      unless_error-NoSuccess (cl.catalog.refresh_catalog w1) _ (λ w2.
        with_result-NoSuccess (λ _. Unit {0}) _ _ _ (Holds-trivial _)
          (λ apps _.
            with_result-NoSuccess (λ _. Unit {0}) (app_type_to_app_cycle req.cycle) _ _
              (Holds-trivial (app_type_to_app_cycle req.cycle))
              (λ ct _.
                update_found-NoSuccess cl settings fl num marshal first second req own lacks ct _ _
                  _ _))))
