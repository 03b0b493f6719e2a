-- ===== src/AppManager.antt =====
-- app/grpc/appmanager/appmanager.go: the handlers of the AppManager service, with the responses of
-- app/grpc/appmanager/common/common.go. A handler is a function of the process's state: the map of
-- locks, and the world that the adapter works on.
pub mod Service
pub mod Gate
pub mod Admission
mod Tests
use grpc_gw_controller.Base.{
  ℕ, Option, none, some, Bool, true, false, not, List, [], ◌∷◌, ◌++◌, Outcome, ok, err, panic,
  if◌then◌else◌, bytes_eq,
}
use grpc_gw_controller.Base.Text.{Bytes, bytes}
use grpc_gw_controller.Base.Float.{Float64}
use grpc_gw_controller.Mutex.{
  Mutex, lock, unlock, is_locked, lock_action_enable_disable_apps, lock_action_delete_apps,
}
use grpc_gw_controller.Messages.{
  Status, success, error, AppRequest, GetAppsRequest, DeleteAppRequest, DeleteAppMetadataRequest,
  DeleteAppsRequest, EnableDisableAppRequest, Response, Spec, Image, Port, get_image, get_repo,
  get_tag, get_ports, get_limits, get_memory, get_cpu,
}
use grpc_gw_controller.Messages.Validate.{
  ValidationError, Verdict, error_text, validate_create_app, validate_upgrade_app,
  validate_update_app, validate_get_apps, validate_delete_app, validate_delete_app_metadata,
  validate_delete_apps, validate_image, validate_port, unless_nil, ◌and_then◌,
}
use grpc_gw_controller.DockerImage.{Registry, validate_docker_image}
use grpc_gw_controller.ResourceInputs.{float_zero, validate_inputs}

-- What a handler returns: a response and a nil error, an error, or a panic.
abbrev pub Reply : Type 0 → Type 0
Reply B = Outcome Bytes (Response B)

-- `GenerateResponse`: a body that cannot be marshalled replaces the message by its error.
unfoldable pub generate_response :
    {B : Type 0} → (B → Option Bytes) → Status → Bytes → Option B → Response B
generate_response marshal status msg none = record { status = status; message = msg; body = none }
generate_response marshal status msg (some m) = elim (marshal m) [
  | none ↦ record { status = status; message = msg; body = some m }
  | some e ↦ record { status = status; message = e; body = none }
]

-- `GenerateResponse(pb.Status_ERROR, msg, nil)`
unfoldable pub failure : {B : Type 0} → Bytes → Reply B
failure msg = ok (record { status = error; message = msg; body = none })

-- `AppManagerAdapter` of app/grpc/appmanager/common/interfaces.go.
pub record AppManagerAdapter (F W B : Type 0) : Type 0 where
  pub create_app : AppRequest F → W → Reply B × W
  pub upgrade_app : AppRequest F → W → Reply B × W
  pub update_app : AppRequest F → W → Reply B × W
  pub delete_app : DeleteAppRequest → W → Reply B × W
  pub delete_apps : DeleteAppsRequest → W → Reply B × W
  pub get_apps : GetAppsRequest → W → Reply B × W
  pub delete_app_metadata : DeleteAppMetadataRequest → W → Reply B × W
  pub enable_disable_app : EnableDisableAppRequest → W → Reply B × W

-- The handlers lock with a nil value. `V` is the type of the values that others lock with.
pub record Server (V W : Type 0) : Type 0 where
  pub mutex : Mutex (Option V)
  pub world : W

abbrev pub app_locked : Bytes → Bytes
app_locked name = bytes "application " ++ (name ++ bytes " is locked")

-- `req.Name + "" + req.RootGroupId`
unfoldable pub app_locker : Bytes → Bytes → Bytes
app_locker name root_group_id = name ++ root_group_id

module _ {V W B : Type 0} where
  abbrev locked_in :
      Bytes
      → (W → Reply B × W)
      → Server V W
      → Outcome (Unit {0}) (Mutex (Option V))
      → Reply B × Server V W
  locked_in key body s (ok m) =
      let (r, w) = body s.world in (r, record { mutex = unlock key m; world = w })
  locked_in key body s (err e) = (panic, s)
  locked_in key body s panic = (panic, s)

  -- `mutex.Lock(key, nil); defer mutex.Unlock(key)` before the rest of a handler.
  unfoldable pub with_lock : Bytes → (W → Reply B × W) → Server V W → Reply B × Server V W
  with_lock key body s = locked_in key body s (lock key none s.mutex)

  abbrev pub refuse_if_some :
      Option Bytes → (Server V W → Reply B × Server V W) → Server V W → Reply B × Server V W
  refuse_if_some none rest s = rest s
  refuse_if_some (some e) rest s = (failure e, s)

abbrev pub text_of : Verdict → Option Bytes
text_of none = none
text_of (some e) = some (error_text e)

-- The work behind an image check that reads the registry, and changes nothing.
abbrev pub checked : {W B : Type 0} → Outcome Bytes (Unit {0}) → (W → Reply B × W) → W → Reply B × W
checked (ok _) body w = body w
checked (err e) body w = (failure e, w)
checked panic body w = (panic, w)

abbrev pub first_bad_port : List Port → Verdict
first_bad_port [] = none
first_bad_port (p ∷ ps) = validate_port p and_then first_bad_port ps

-- The checks of `UpdateApp` under its lock.
unfoldable pub update_checks : {F : Type 0} → AppRequest F → Option Bytes
update_checks req =
    elim (unless_nil validate_image (get_image req.spec)
      and_then first_bad_port (get_ports req.spec)) [
        | some e ↦ some (error_text e)
        | none ↦
            if bytes_eq req.version []
            then none
            else some (bytes "the field version is not supported by the UpdateApp request")
      ]

abbrev pub refused_in : {W B : Type 0} → Option Bytes → (W → Reply B × W) → W → Reply B × W
refused_in none body w = body w
refused_in (some e) body w = (failure e, w)

module _ {F W B : Type 0} (private_registry : Bytes) (registry : W → Registry) where
  abbrev pub image_then : AppRequest F → (W → Reply B × W) → W → Reply B × W
  image_then req body w =
      checked
        (validate_docker_image private_registry (registry w) (get_repo (get_image req.spec))
          (get_tag (get_image req.spec)))
        body w

module _ {F V W B : Type 0} (fl : Float64 F) (private_registry : Bytes) (registry : W → Registry)
    (adapter : AppManagerAdapter F W B) where
  unfoldable pub create_app : AppRequest F → Server V W → Reply B × Server V W
  create_app req s =
      if is_locked (app_locker req.name req.root_group_id) s.mutex
      then (failure (app_locked req.name), s)
      else refuse_if_some (text_of (validate_create_app req))
          (refuse_if_some
            (validate_inputs fl (get_cpu (float_zero fl) (get_limits req.spec)) (fl.scaled 1 1)
              (get_memory (get_limits req.spec)) 20)
            (with_lock (app_locker req.name req.root_group_id)
              (image_then private_registry registry req (adapter.create_app req))))
          s

  unfoldable pub upgrade_app : AppRequest F → Server V W → Reply B × Server V W
  upgrade_app req s =
      if is_locked (app_locker req.name req.root_group_id) s.mutex
      then (failure (app_locked req.name), s)
      else refuse_if_some (text_of (validate_upgrade_app req))
          (with_lock (app_locker req.name req.root_group_id)
            (image_then private_registry registry req (adapter.upgrade_app req)))
          s

  unfoldable pub update_app : AppRequest F → Server V W → Reply B × Server V W
  update_app req s =
      if is_locked (app_locker req.name req.root_group_id) s.mutex
      then (failure (app_locked req.name), s)
      else refuse_if_some (text_of (validate_update_app req))
          (with_lock (app_locker req.name req.root_group_id) (
            refused_in (update_checks req)
              (image_then private_registry registry req (adapter.update_app req))))
          s

  -- The handler does not call `Validate`.
  unfoldable pub enable_disable_app : EnableDisableAppRequest → Server V W → Reply B × Server V W
  enable_disable_app req s =
      if is_locked lock_action_enable_disable_apps s.mutex
      then (failure (app_locked req.name), s)
      else with_lock lock_action_enable_disable_apps (adapter.enable_disable_app req) s

  unfoldable pub delete_app : DeleteAppRequest → Server V W → Reply B × Server V W
  delete_app req s =
      if is_locked (app_locker req.name req.root_group_id) s.mutex
      then (failure (app_locked req.name), s)
      else refuse_if_some (text_of (validate_delete_app req))
          (with_lock (app_locker req.name req.root_group_id) (adapter.delete_app req)) s

  unfoldable pub delete_apps : DeleteAppsRequest → Server V W → Reply B × Server V W
  delete_apps req s =
      if is_locked lock_action_delete_apps s.mutex
      then (failure (bytes "applications are locked"), s)
      else refuse_if_some (text_of (validate_delete_apps req))
          (with_lock lock_action_delete_apps (adapter.delete_apps req)) s

  -- The handler takes no lock.
  unfoldable pub get_apps : GetAppsRequest → Server V W → Reply B × Server V W
  get_apps req s =
      refuse_if_some (text_of (validate_get_apps req))
        (λ t. let (r, w) = adapter.get_apps req t.world in (r, record t { world = w })) s

  unfoldable pub delete_app_metadata : DeleteAppMetadataRequest → Server V W → Reply B × Server V W
  delete_app_metadata req s =
      if is_locked req.app_name s.mutex
      then (failure (bytes "metadata for application " ++ (req.app_name ++ bytes " is locked")), s)
      else refuse_if_some (text_of (validate_delete_app_metadata req))
          (with_lock req.app_name (adapter.delete_app_metadata req)) s
