-- ===== src/Charts/Tests.antt =====
-- The data of a shop, from a request and from the values of its last chart.
use grpc_gw_controller.Base.{none, false, [], ◌∷◌, string_eq, err, Holds, bytes_eq, refl}
use grpc_gw_controller.Base.Text.{bytes}
use grpc_gw_controller.Base.Dict.{lookup}
use grpc_gw_controller.Messages.{AppRequest, enabled}
use grpc_gw_controller.Apps.{AppInstanceData, zero_instance}
use grpc_gw_controller.Charts.{name, text, flag, mapping, Fields, no_fields, field, Reader, FlexApi}
use grpc_gw_controller.Charts.Kept.{Identified}
use grpc_gw_controller.Charts.Identity.{base_name, set_chart_data-Identified}
use grpc_gw_controller.Charts.SetData.{set_chart_data}

-- There are no files.
abbrev files : Reader
files = record {
  read_dir = λ p. err (bytes "no such directory");
  read_file = λ p. err (bytes "no such file");
  join_path = λ a b. a;
  print_error = λ e. bytes "not a number";
}

abbrev flex : FlexApi
flex = record { host = bytes "flex"; port = bytes "80" }

-- The request tries to set the name of the application.
abbrev request : AppRequest (Unit {0})
request = record {
  name = bytes "shop";
  app_state = enabled;
  version = bytes "2.0";
  from_catalog = false;
  description = bytes "A shop";
  cycle = bytes "daemon";
  cycle_periodic_attr = none;
  root_group_id = [];
  group_ids = bytes "g1" ∷ [];
  app_configs = [];
  env_vars = [];
  secrets = [];
  labels = [];
  annotations = ("apphc.app.basename", bytes "bank") ∷ ("owner", bytes "me") ∷ [];
  shared_storage = 0;
  spec = none;
}

abbrev instance_data : AppInstanceData
instance_data = record zero_instance {
  instance_name = bytes "shop-g1";
  requested_version = bytes "2.0";
  annotations = ("apphc.app.basename", bytes "shop") ∷ [];
}

-- What the chart of an instance has: an image with no name.
abbrev image_values : Fields
image_values =
    field (name "repository") (text (bytes "reg/shop"))
      (field (name "tag") (text (bytes "1.0")) no_fields)

abbrev disabled_values : Fields
disabled_values = field (name "enabled") (flag false) no_fields

abbrev last_values : Fields
last_values = field (name "configs") (mapping disabled_values) (
    field (name "secrets") (mapping disabled_values)
      (field (name "image") (mapping image_values) no_fields))

set_chart_data-Identified_example :
    Holds
      (Identified instance_data.instance_name instance_data.target_namespace "apphc.app.basename"
        (bytes "shop"))
      (set_chart_data files flex request (bytes "apps") no_fields instance_data)
unfolding lookup bytes_eq
set_chart_data-Identified_example =
    set_chart_data-Identified files flex request (bytes "apps") no_fields instance_data base_name
      (bytes "shop") (refl, (refl, tt)) refl refl
