-- ===== src/Adapter/Update/Tests.antt =====
-- A shop that runs, a request that creates it again, and an update of it.
use grpc_gw_controller.Base.{
  ℕ, ◌+◌, zero, suc, none, some, true, false, [], ◌∷◌, string_eq, ok, err, ltb, leb, ◌*◌, bytes_eq,
  bytes_Eq, ◌≡◌, refl, inl,
}
use grpc_gw_controller.Base.Text.{Bytes, bytes, join, to_lower, replace}
use grpc_gw_controller.Base.Decimal.{ℤ, pos, negsuc, atoi, decimal, invalid_syntax}
use grpc_gw_controller.Base.Dict.{lookup, insert}
use grpc_gw_controller.Base.Float.{Float64}
use grpc_gw_controller.Maps.{get}
use grpc_gw_controller.Messages.{AppRequest, enabled, disabled, state_eq}
use grpc_gw_controller.Apps.{
  AppInstanceData, AppsData, new_apps_data, kube_conv_name, trunc_app_name, trunc_app_group_id,
  get_running_app_data,
}
use grpc_gw_controller.Apps.Running.{
  RancherApp, passes_filters, new_state, sample_of, with_sample, add_running, running_instance,
  external_version, append_running_instance, append_running_app, append_running_items,
  append_running_apps_data, group_found,
}
use grpc_gw_controller.Charts.{name, text, mapping, Fields, no_fields, field, at}
use grpc_gw_controller.Quotas.Read.{Numbers, not_found}
use grpc_gw_controller.Adapter.Deploy.{DeployClient, DeploySettings, requester_of}
use grpc_gw_controller.Adapter.NoSuccess.{NoSuccess}
use grpc_gw_controller.Adapter.Create.{create_app}
use grpc_gw_controller.Adapter.Create.Untouched.{IsUntouched}
use grpc_gw_controller.Adapter.Create.AlreadyRuns.{AllRun, create_app-already_runs}
use grpc_gw_controller.Adapter.Update.{update_app}
use grpc_gw_controller.Adapter.Update.NoName.{update_app-NoSuccess}

-- Floats by thousandths.
abbrev thousandths : Float64 ℕ
thousandths = record {
  lt = ltb;
  le = leb;
  scaled = λ n k. elim k [ zero ↦ n * 1000 | suc _ ↦ n * 100 ];
  print_f = decimal;
  print_2f = decimal;
}

abbrev by_thousandths : ℤ → ℕ
by_thousandths (pos n) = n
by_thousandths (negsuc n) = 0

abbrev numbers : Numbers ℕ
numbers = record {
  thousandths = by_thousandths;
  parse_float = λ s. err (invalid_syntax s);
  print_error = λ e. bytes "not a number";
}

abbrev shop : RancherApp
shop = record {
  name = bytes "shop-g1";
  description = [];
  external_id = bytes "1.0";
  target_namespace = bytes "shop";
  annotations =
      ("apphc.app.basename", bytes "shop")
      ∷ ("apphc.app.cycle", bytes "daemon")
      ∷ ("apphc.app.instance.group_id", bytes "g1")
      ∷ ("apphc.app.instance.volume.size", bytes "0")
      ∷ [];
  labels = [];
}

abbrev request : AppRequest ℕ
request = record {
  name = bytes "shop";
  app_state = enabled;
  version = bytes "1.0";
  from_catalog = false;
  description = [];
  cycle = bytes "daemon";
  cycle_periodic_attr = none;
  root_group_id = [];
  group_ids = bytes "g1" ∷ [];
  app_configs = [];
  env_vars = [];
  secrets = [];
  labels = [];
  annotations = [];
  shared_storage = 0;
  spec = none;
}

abbrev image_values : Fields
image_values =
    field (name "repository") (text (bytes "reg/shop"))
      (field (name "tag") (text (bytes "1.0")) no_fields)

abbrev last_values : Fields
last_values = field (name "image") (mapping image_values) no_fields

-- Every call succeeds, and the world counts the calls that work on instances; the values of the last chart have an image with no name.
abbrev client : DeployClient ℕ Bytes ℕ
client = record {
  sync_cache = λ w. (none, w);
  catalog = record {
    push = λ d w. (none, w);
    refresh_catalog = λ w. (none, w);
    template_available = λ n v w. (ok true, w);
    sleep = λ w. w;
  };
  list_apps = λ w. (ok (shop ∷ []), w);
  parse_query = λ e. ok (("version", e ∷ []) ∷ []);
  create_namespace = λ n w. (none, w);
  create_shared_storage = λ n k s z w. (none, w);
  delete_storage = λ v c w. (none, w);
  check_available_resources = λ n l w. (none, w);
  create_chart = λ s d t n i w. (ok [], w);
  copy_chart = λ s d n v w. (none, w);
  delete_chart = λ p n v w. (none, w);
  parse_last_good_config = λ p w. ok last_values;
  random_id = λ w. (ok (bytes "1"), w);
  remove_all = λ p w. w;
  make_dir = λ p w. (none, w);
  is_missing = λ p w. true;
  reader = λ w. record {
    read_dir = λ p. ok [];
    read_file = λ p. ok [];
    join_path = λ a b. a;
    print_error = λ e. bytes "not a number";
  };
  join_path = λ ps. join ps (bytes "/");
  limits = record {
    create = λ n o w. (none, w);
    update = λ n o w. (none, w);
    get = λ n w. (some not_found, record { name = []; limits = [] });
    delete = λ n w. (none, w);
    must_parse = λ t. some t;
    print = λ q. q;
  };
  instances = record {
    create_app_instance = λ i v w. (none, w + 1);
    upgrade_app_instance = λ i w. (none, w + 1);
    delete_app_instance = λ i v w. (none, w + 1);
  };
}

abbrev settings : DeploySettings
settings = record {
  apps_catalog_name = bytes "apps";
  cache_path = bytes "/cache";
  recreate_policy = false;
  flex_api = record { host = []; port = [] };
}

abbrev running_shop : AppInstanceData
running_shop = running_instance (requester_of request) shop disabled (bytes "1.0") (pos 0)

abbrev running_apps : AppsData
running_apps = record {
  new_app_instances_data = [];
  running_apps_data = (bytes "shop", running_shop ∷ []) ∷ [];
  sample_instance = some (sample_of shop disabled);
}

shop_runs :
    append_running_apps_data client.parse_query
      (ok (shop ∷ []))
      (requester_of request)
      (bytes "daemon")
      enabled
      new_apps_data
    ≡ ok running_apps
unfolding append_running_apps_data append_running_items append_running_app append_running_instance
    external_version passes_filters new_state with_sample add_running new_apps_data get lookup
    insert bytes_eq atoi state_eq group_found
shop_runs = refl

shop_found : get_running_app_data running_apps (bytes "shop") ≡ some (running_shop ∷ [])
unfolding get_running_app_data lookup bytes_eq
shop_found = refl

all_run : AllRun request (running_shop ∷ [])
unfolding kube_conv_name trunc_app_name trunc_app_group_id join to_lower replace bytes_eq
    running_instance
all_run = (inl refl, tt)

-- No instance has been worked on.
abbrev Untouched : ℕ → Type 0
Untouched w = w ≡ 0

client-IsUntouched : IsUntouched client Untouched
client-IsUntouched = record {
  sync_cache = λ w h. h;
  push = λ d w h. h;
  refresh = λ w h. h;
  available = λ n v w h. h;
  sleep = λ w h. h;
  list_apps = λ w h. h;
  namespace = λ n w h. h;
  storage = λ a b c n w h. h;
  resources = λ n l w h. h;
  chart = λ a b c d i w h. h;
  create_limits = λ n o w h. h;
  update_limits = λ n o w h. h;
  delete_limits = λ n w h. h;
}

create_app-already_runs_example :
    NoSuccess (create_app client settings thousandths (λ b. none) (0 ∷ []) request 0)
    × ((create_app client settings thousandths (λ b. none) (0 ∷ []) request 0).1 ≡ 0)
create_app-already_runs_example =
    create_app-already_runs client settings thousandths (λ b. none) (0 ∷ []) request (shop ∷ [])
      running_apps (running_shop ∷ []) 0 Untouched client-IsUntouched refl (λ w. refl) shop_runs
      shop_found all_run

update_app-NoSuccess_example :
    NoSuccess (update_app client settings thousandths numbers (λ b. none) (0 ∷ []) [] request 0)
unfolding at
update_app-NoSuccess_example =
    update_app-NoSuccess client settings thousandths numbers (λ b. none) (0 ∷ []) [] request 0 refl
      (λ p w. (image_values, refl, refl))
