-- ===== src/Messages.antt =====
-- api/v1/appmanager/appmanager.proto, as compiled to appmanager.pb.go: the messages of the
-- AppManager service. A pointer to a message that may be nil is an `Option`, and a getter of a nil
-- message returns the zero value. The messages CreateAppRequest, UpgradeAppRequest and
-- UpdateAppRequest have the same fields, and are the record `AppRequest`.
pub mod Validate
use grpc_gw_controller.Base.{
  ◌==◌, if◌then◌else◌, true, false, ℕ, Option, none, some, Bool, true, false, List, [], String,
}
use grpc_gw_controller.Base.Text.{Bytes}
use grpc_gw_controller.Base.Decimal.{ℤ, uint32}
use grpc_gw_controller.Base.Dict.{Dict}
use grpc_gw_controller.Cron.{CyclePeriodicReqAttr}

-- An enumeration of proto3 is open: `other` holds the 32 bits of a value with no name.
pub data AppStateAfterDeployment : Type 0 where
  disabled enabled : AppStateAfterDeployment
  other : ℕ → AppStateAfterDeployment

-- `AppStateAfterDeployment(i)` of an `int`.
unfoldable pub state_of_int : ℤ → AppStateAfterDeployment
state_of_int z =
    if uint32 z == 0 then disabled else if uint32 z == 1 then enabled else other (uint32 z)

unfoldable pub state_eq : AppStateAfterDeployment → AppStateAfterDeployment → Bool
state_eq disabled disabled = true
state_eq enabled enabled = true
state_eq (other n) (other k) = n == k
state_eq _ _ = false

pub data Status : Type 0 where
  success error not_found unchanged : Status

pub record Image : Type 0 where
  pub repo : Bytes
  pub tag : Bytes

pub data Proto : Type 0 where
  tcp udp : Proto

pub record Port : Type 0 where
  pub name : Bytes
  pub number : ℕ
  pub proto : Proto

pub record Limits (F : Type 0) : Type 0 where
  pub memory : ℕ
  pub cpu : F

pub record Resources (F : Type 0) : Type 0 where
  pub persistent_storage : ℕ
  pub limits : Option (Limits F)

pub record Spec (F : Type 0) : Type 0 where
  pub image : Option Image
  pub ports : List Port
  pub resources : Option (Resources F)

pub record AppRequest (F : Type 0) : Type 0 where
  pub name : Bytes
  pub app_state : AppStateAfterDeployment
  pub version : Bytes
  pub from_catalog : Bool
  pub description : Bytes
  pub cycle : Bytes
  pub cycle_periodic_attr : Option CyclePeriodicReqAttr
  pub root_group_id : Bytes
  pub group_ids : List Bytes
  pub app_configs : Dict String Bytes
  pub env_vars : Dict String Bytes
  pub secrets : Dict String Bytes
  pub labels : Dict String Bytes
  pub annotations : Dict String Bytes
  pub shared_storage : ℕ
  pub spec : Option (Spec F)

pub record GetAppsRequest : Type 0 where
  pub name : Bytes
  pub version : Bytes
  pub cycle : Bytes
  pub root_group_id : Bytes
  pub group_ids : List Bytes
  pub verbose : Bool

pub record DeleteAppRequest : Type 0 where
  pub name : Bytes
  pub version : Bytes
  pub root_group_id : Bytes
  pub group_ids : List Bytes
  pub purge : Bool

pub record DeleteAppMetadataRequest : Type 0 where
  pub app_name : Bytes
  pub version : Bytes
  pub root_group_id : Bytes
  pub group_ids : List Bytes

pub record DeleteAppsRequest : Type 0 where
  pub purge : Bool

pub record EnableDisableAppRequest : Type 0 where
  pub name : Bytes
  pub version : Bytes
  pub root_group_id : Bytes
  pub group_ids : List Bytes
  pub disable : Bool

-- A response without its time stamp. The body is one of the messages of the type `B`.
pub record Response (B : Type 0) : Type 0 where
  pub status : Status
  pub message : Bytes
  pub body : Option B

-- `req.GetSpec().GetImage()`
unfoldable pub get_image : {F : Type 0} → Option (Spec F) → Option Image
get_image none = none
get_image (some s) = s.image

-- `req.GetSpec().GetImage().GetRepo()` and `.GetTag()`
unfoldable pub get_repo : Option Image → Bytes
get_repo none = []
get_repo (some i) = i.repo

unfoldable pub get_tag : Option Image → Bytes
get_tag none = []
get_tag (some i) = i.tag

unfoldable pub get_ports : {F : Type 0} → Option (Spec F) → List Port
get_ports none = []
get_ports (some s) = s.ports

abbrev limits_of : {F : Type 0} → Option (Resources F) → Option (Limits F)
limits_of none = none
limits_of (some r) = r.limits

-- `req.GetSpec().GetResources().GetLimits()`
unfoldable pub get_limits : {F : Type 0} → Option (Spec F) → Option (Limits F)
get_limits none = none
get_limits (some s) = limits_of s.resources

unfoldable pub get_memory : {F : Type 0} → Option (Limits F) → ℕ
get_memory none = 0
get_memory (some l) = l.memory

-- The zero value of a float64 is given.
unfoldable pub get_cpu : {F : Type 0} → F → Option (Limits F) → F
get_cpu zero_value none = zero_value
get_cpu zero_value (some l) = l.cpu
