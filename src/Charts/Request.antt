-- ===== src/Charts/Request.antt =====
-- The texts of the request that `SetChartData` takes: annotations, labels, configuration and schedule.
use grpc_gw_controller.Base.{
  Option, none, some, List, [], ◌∷◌, String, string_eq, Outcome, ok, err, panic, if◌then◌else◌,
  bytes_eq, ◌>>=◌,
}
use grpc_gw_controller.Base.Text.{Bytes, bytes}
use grpc_gw_controller.Maps.{Map, get, map_merge}
use grpc_gw_controller.AppTypes.{type_periodic}
use grpc_gw_controller.Cron.{CyclePeriodicReqAttr, NoFuel, periodic_to_cron_string}
use grpc_gw_controller.Messages.{AppRequest}
use grpc_gw_controller.Apps.{AppInstanceData}
use grpc_gw_controller.Charts.{add_env, add_annotation, add_label, image_or_new}

abbrev pub reserved_annotations : List String
reserved_annotations =
    "apphc.app.basename" ∷ "apphc.app.cycle" ∷ "apphc.app.schedule"
    ∷ "apphc.app.instance.root_group_id" ∷ "apphc.app.instance.group_id" ∷ "apphc.app.instance.id"
    ∷ "apphc.app.instance.version" ∷ "apphc.app.instance.template_name"
    ∷ "apphc.app.instance.volume.size" ∷ []

abbrev pub reserved_labels : List String
reserved_labels =
    "apphc.app.basename" ∷ "apphc.app.cycle" ∷ "apphc.app.instance.root_group_id"
    ∷ "apphc.app.instance.group_id" ∷ "apphc.app.instance.id" ∷ "apphc.app.instance.version"
    ∷ "apphc.app.instance.template_name" ∷ "apphc.app.instance.volume.size" ∷ []

unfoldable pub with_defaults : AppInstanceData → AppInstanceData
unfolding add_env
with_defaults d = add_env "APP_STORAGE_DIR" (bytes "/opt/app/storage/shared") (
    add_env "APP_INSTANCE_STORAGE_DIR" (bytes "/opt/app/storage/instance") (
      add_env "APP_INSTANCE_CONFIG_DIR" (bytes "/opt/app/config/") (
        add_env "APP_INSTANCE_SECRETS_DIR" (bytes "/opt/app/secret/")
          (record d { image = some (image_or_new d.image) }))))

module _ {F : Type 0} (req : AppRequest F) where
  unfoldable pub merge_annotations : AppInstanceData → AppInstanceData
  merge_annotations d =
      add_annotation "apphc.app.instance.version" d.requested_version (record d {
        annotations = (map_merge d.annotations req.annotations reserved_annotations).0;
      })

  -- `MapMerge` deletes the reserved labels from the request, and its second call adds the rest again.
  unfoldable pub merged_labels : Map → Map
  merged_labels labels =
      let r = map_merge labels req.labels reserved_labels in (map_merge r.0 r.1 []).0

  -- The labels of the request, as they are left.
  unfoldable pub labels_left : Map
  labels_left = (map_merge [] req.labels reserved_labels).1

  unfoldable pub add_draft : AppInstanceData → AppInstanceData
  add_draft d =
      if bytes_eq (get labels_left "apphc.draft.app.basename") []
      then d
      else add_label "draft" d.instance_name d

  unfoldable pub merge_labels : AppInstanceData → AppInstanceData
  merge_labels d =
      let e = add_draft (record d { labels = merged_labels d.labels }) in
      add_label "apphc.mon.app_basename" (get e.annotations "apphc.app.basename") e

  unfoldable pub merge_data : AppInstanceData → AppInstanceData
  merge_data d = record d {
    app_configs = (map_merge d.app_configs req.app_configs []).0;
    env_vars = (map_merge d.env_vars req.env_vars []).0;
    secrets = (map_merge d.secrets req.secrets []).0;
  }

  -- The loop over the hours that does not end counts as a panic: neither comes back. The fuel of 24 is
  -- enough for the hours of a day.
  abbrev pub with_cron : AppInstanceData → Outcome NoFuel Bytes → Outcome Bytes AppInstanceData
  with_cron d (ok s) = ok (record d { cycle_periodic_sched = s })
  with_cron d (err e) = panic
  with_cron d panic = panic

  abbrev pub new_schedule :
      Option CyclePeriodicReqAttr → AppInstanceData → Outcome Bytes AppInstanceData
  new_schedule none d = ok d
  new_schedule (some c) d = with_cron d (periodic_to_cron_string 24 (some c))

  -- A periodic application gets the schedule of the request, or keeps its own.
  unfoldable pub set_schedule : AppInstanceData → Outcome Bytes AppInstanceData
  set_schedule d =
      if bytes_eq (get d.annotations "apphc.app.cycle") type_periodic
      then (new_schedule req.cycle_periodic_attr d >>= λ e.
          ok (add_annotation "apphc.app.schedule" e.cycle_periodic_sched e))
      else ok d
