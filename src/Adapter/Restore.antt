-- ===== src/Adapter/Restore.antt =====
-- The charts and backups of `updateUpgradeApps` in app/grpc/appmanager/adapters/rancher/adapter.go: how
-- the charts of an upgrade are made, with copies of the old ones, and how a roll-back restores these.
use grpc_gw_controller.Base.{
  Option, none, some, List, [], ◌∷◌, String, string_eq, Outcome, ok, err, if◌then◌else◌, bytes_eq,
  ◌>>=◌,
}
use grpc_gw_controller.Base.Text.{Bytes, bytes}
use grpc_gw_controller.Maps.{get}
use grpc_gw_controller.Messages.{AppRequest}
use grpc_gw_controller.Apps.{AppInstanceData}
use grpc_gw_controller.Charts.{
  name, Value, text, mapping, Fields, no_fields, field, at, as_mapping, is_named,
}
use grpc_gw_controller.Charts.SetData.{set_chart_data}
use grpc_gw_controller.Adapter.Deploy.{DeployClient, DeploySettings, then_call, then_cons}

-- `m[k] = v` of a mapping.
unfoldable pub put_field : Fields → String → Value → Fields
put_field no_fields k v = field (name k) v no_fields
put_field (field f u fs) k v =
    let rest = put_field fs k v in if is_named f k then field f v fs else field f u rest

-- The state of the running instance goes into the annotations of the values.
unfoldable pub with_state : Bytes → Fields → Outcome Bytes Fields
with_state state cfg =
    if bytes_eq state []
    then ok cfg
    else (as_mapping (at cfg "annotations") >>= λ a. ok (
        put_field cfg "annotations"
          (mapping (put_field a "apphc.app.instance.state" (text state)))))

-- The instance whose last values are reused: the first running one, or the sample.
unfoldable pub reused_instance :
    List AppInstanceData → Option AppInstanceData → Option AppInstanceData
reused_instance [] sample = sample
reused_instance (e ∷ es) sample = some e

-- An instance that runs is its own new instance where the request names no group ID, and its backup has
-- the same maps, so that what is added to them is in the backup too.
unfoldable pub shared_maps : List AppInstanceData → List AppInstanceData → List AppInstanceData
shared_maps [] bs = bs
shared_maps (i ∷ is) [] = []
shared_maps (i ∷ is) (b ∷ bs) =
    record b { annotations = i.annotations; labels = i.labels } ∷ shared_maps is bs

abbrev pub from_call : {W : Type 0} → Option Bytes × W → Outcome Bytes (Unit {0}) × W
from_call (none, w) = (ok tt, w)
from_call (some e, w) = (err e, w)

module _ {F Q W : Type 0} (cl : DeployClient F Q W) (settings : DeploySettings)
    (req : AppRequest F) where
  abbrev template_of : AppInstanceData → Bytes
  template_of i = get i.annotations "apphc.app.instance.template_name"

  abbrev pub chart_app : Bytes
  chart_app = cl.join_path (settings.cache_path ∷ bytes "apps" ∷ req.name ∷ [])

  abbrev pub chart_dir : AppInstanceData → Bytes → Bytes
  chart_dir i version = cl.join_path (chart_app ∷ template_of i ∷ version ∷ [])

  abbrev pub backup_dir : Bytes → AppInstanceData → Bytes
  backup_dir root i = cl.join_path (settings.cache_path ∷ root ∷ req.name ∷ template_of i ∷ [])

  abbrev pub values_file : AppInstanceData → Bytes
  values_file i = cl.join_path (chart_dir i i.current_version ∷ bytes "values.yaml" ∷ [])

  -- The old chart is copied where it is there.
  unfoldable pub back_up : Bytes → AppInstanceData → W → Outcome Bytes (Unit {0}) × W
  back_up root i w =
      then_call (from_call (cl.make_dir (backup_dir root i) (cl.remove_all (backup_dir root i) w)))
        (λ _ w1.
          if cl.is_missing (chart_dir i i.current_version) w1
          then (ok tt, w1)
          else from_call (
              cl.copy_chart (chart_dir i i.current_version)
                (cl.join_path (backup_dir root i ∷ i.current_version ∷ [])) i.instance_name
                i.current_version w1))

  -- The old chart of one backup takes the place of the new one.
  unfoldable pub restore_chart : Bytes → AppInstanceData → W → Outcome Bytes (Unit {0}) × W
  restore_chart root b w =
      let dst = chart_dir b b.requested_version in
      then_call (from_call (cl.delete_chart dst b.instance_name b.requested_version w)) (λ _ w1.
        from_call (
          cl.copy_chart (cl.join_path (backup_dir root b ∷ b.requested_version ∷ [])) dst
            b.instance_name b.requested_version w1))

  unfoldable pub restore_charts : Bytes → List AppInstanceData → W → Outcome Bytes (Unit {0}) × W
  restore_charts root [] w = (ok tt, w)
  restore_charts root (b ∷ bs) w =
      then_call (restore_chart root b w) (λ _ w1. restore_charts root bs w1)

  module _ (chart_type root values_dir : Bytes) (values : Fields) where
    abbrev pub template_dir : Bytes
    template_dir = cl.join_path (settings.cache_path ∷ bytes "templates" ∷ chart_type ∷ [])

    abbrev pub replace_chart : AppInstanceData → W → Outcome Bytes AppInstanceData × W
    replace_chart i w =
        let dst = chart_dir i i.requested_version in
        then_call (from_call (cl.delete_chart dst i.instance_name i.requested_version w)) (λ _ w1.
          then_call (cl.create_chart template_dir dst chart_type req.name i w1)
            (λ d w2. (ok (record i { description = d }), w2)))

    unfoldable pub upgrade_chart : AppInstanceData → W → Outcome Bytes AppInstanceData × W
    upgrade_chart i w =
        then_call (set_chart_data (cl.reader w) settings.flex_api req values_dir values i, w)
          (λ e w1. then_call (back_up root e w1) (λ _ w2. replace_chart e w2))

    unfoldable pub upgrade_charts :
        List AppInstanceData → W → Outcome Bytes (List AppInstanceData) × W
    upgrade_charts [] w = (ok [], w)
    upgrade_charts (i ∷ is) w = then_cons (upgrade_chart i w) (upgrade_charts is)
