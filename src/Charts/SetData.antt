-- ===== src/Charts/SetData.antt =====
-- `SetChartData` as a whole.
use grpc_gw_controller.Base.{
  Bool, true, false, [], string_eq, Outcome, ok, if◌then◌else◌, bytes_eq, ◌>>=◌,
}
use grpc_gw_controller.Base.Text.{Bytes}
use grpc_gw_controller.Maps.{get}
use grpc_gw_controller.Messages.{AppRequest}
use grpc_gw_controller.Apps.{AppInstanceData}
use grpc_gw_controller.Charts.{Fields, no_fields, field, Reader, FlexApi, add_env}
use grpc_gw_controller.Charts.Reuse.{reuse_values}
use grpc_gw_controller.Charts.Request.{
  with_defaults, merge_annotations, merge_labels, merge_data, set_schedule,
}
use grpc_gw_controller.Charts.Spec.{set_description, set_repo, set_tag, set_ports, set_storage}

abbrev pub add_root : Bytes → AppInstanceData → AppInstanceData
add_root root d = if bytes_eq root [] then d else add_env "APP_INSTANCE_ROOT_GROUP_ID" root d

-- The variables of the environment that tell an instance what it is.
unfoldable pub add_identity : FlexApi → AppInstanceData → AppInstanceData
add_identity flex d =
    let e = add_root (get d.annotations "apphc.app.instance.root_group_id") d in
    let named = add_env "APP_INSTANCE_ID" (get d.annotations "apphc.app.instance.id") (
      add_env "APP_INSTANCE_NAME" d.instance_name
        (add_env "APP_NAME" (get d.annotations "apphc.app.basename") e)) in
    let versioned =
      add_env "APP_INSTANCE_VERSION" d.requested_version
        (add_env "APP_INSTANCE_GROUP_ID" (get d.annotations "apphc.app.instance.group_id") named) in
    add_env "APP_INSTANCE_SECRET_KEY" (get d.secrets "secret_key") (
      add_env "APP_INSTANCE_APP_ID" (get d.secrets "app_id") (
        add_env "APP_INSTANCE_FLEX_API_PORT" flex.port
          (add_env "APP_INSTANCE_FLEX_API_HOST" flex.host versioned)))

abbrev pub is_reused : Fields → Bool
is_reused no_fields = false
is_reused (field k v fs) = true

module _ {F : Type 0} (r : Reader) (flex : FlexApi) (req : AppRequest F) where
  -- What the request sets, before the storage.
  unfoldable pub set_requested : AppInstanceData → Outcome Bytes AppInstanceData
  set_requested d =
      set_schedule req (merge_data req (merge_labels req (merge_annotations req d))) >>= λ e.
      ok (set_ports req (set_tag req (set_repo req (set_description req e))))

  abbrev pub reused : Bytes → Fields → AppInstanceData → Outcome Bytes AppInstanceData
  reused dir no_fields d = ok d
  reused dir (field k v fs) d = reuse_values r dir (field k v fs) d

  -- An empty mapping stands for no values, too.
  unfoldable pub set_chart_data : Bytes → Fields → AppInstanceData → Outcome Bytes AppInstanceData
  set_chart_data dir values d = reused dir values (with_defaults d) >>= λ e.
      set_requested e >>= λ f. ok (add_identity flex (set_storage req (is_reused values) f))
