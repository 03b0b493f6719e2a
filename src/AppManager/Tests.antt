-- ===== src/AppManager/Tests.antt =====
-- A small world for the AppManager service, and its theorems there.
use grpc_gw_controller.Base.{
  ℕ, zero, suc, ◌+◌, ◌*◌, none, some, false, [], ◌∷◌, ◌≡◌, bytes_Eq, ok, ltb, leb,
}
use grpc_gw_controller.Base.Text.{bytes}
use grpc_gw_controller.Base.Float.{Float64}
use grpc_gw_controller.Messages.{AppRequest, success, disabled, DeleteAppRequest}
use grpc_gw_controller.DockerImage.{Registry}
use grpc_gw_controller.AppManager.{Reply, AppManagerAdapter, Server}
use grpc_gw_controller.AppManager.Gate.{behind}
use grpc_gw_controller.AppManager.Service.{create, delete, serve, serve_all}
use grpc_gw_controller.AppManager.Admission.{gate, act, serve-behind, mutex-serve_all}

-- Floats by thousandths.
abbrev thousandths : Float64 ℕ
thousandths = record {
  lt = ltb;
  le = leb;
  scaled = λ n k. elim k [ zero ↦ n * 1000 | suc _ ↦ n * 100 ];
  print_f = λ n. [];
  print_2f = λ n. [];
}

abbrev local : ℕ → Registry
local w = record {
  connect = λ url. none;
  connect_insecure = λ url. none;
  tags = λ url image. ok (bytes "1.0" ∷ []);
}

-- A world that counts the calls.
abbrev counting : AppManagerAdapter ℕ ℕ (Unit {0})
counting = record {
  create_app = λ r w. (done, w + 1);
  upgrade_app = λ r w. (done, w + 1);
  update_app = λ r w. (done, w + 1);
  delete_app = λ r w. (done, w + 1);
  delete_apps = λ r w. (done, w + 1);
  get_apps = λ r w. (done, w);
  delete_app_metadata = λ r w. (done, w + 1);
  enable_disable_app = λ r w. (done, w + 1);
}
  where
    done : Reply (Unit {0})
    done = ok (record { status = success; message = []; body = none })

abbrev bare : AppRequest ℕ
bare = record {
  name = bytes "app";
  app_state = disabled;
  version = bytes "1.0";
  from_catalog = false;
  description = [];
  cycle = bytes "daemon";
  cycle_periodic_attr = none;
  root_group_id = [];
  group_ids = bytes "g" ∷ [];
  app_configs = [];
  env_vars = [];
  secrets = [];
  labels = [];
  annotations = [];
  shared_storage = 0;
  spec = none;
}

abbrev removal : DeleteAppRequest
removal = record {
  name = bytes "app";
  version = [];
  root_group_id = [];
  group_ids = [];
  purge = false;
}

abbrev fresh : Server (Unit {0}) ℕ
fresh = record { mutex = some []; world = 0 }

serve-behind_example :
    serve thousandths (bytes "registry") local counting (create bare) fresh
    ≡ behind
        (gate thousandths (bytes "registry") local counting (create bare) fresh)
        (act counting (create bare))
        fresh
serve-behind_example = serve-behind thousandths (bytes "registry") local counting (create bare) [] 0

mutex-serve_all_example :
    (serve_all thousandths
      (bytes "registry")
      local
      counting
      (create bare ∷ delete removal ∷ [])
      fresh).mutex
    ≡ some []
mutex-serve_all_example =
    mutex-serve_all thousandths (bytes "registry") local counting
      (create bare ∷ delete removal ∷ []) [] 0
