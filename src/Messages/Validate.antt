-- ===== src/Messages/Validate.antt =====
-- api/v1/appmanager/appmanager.pb.validate.go: the methods `Validate` of the requests.
-- The regular expressions are automata over ASCII texts.
use grpc_gw_controller.Base.{
  ℕ, Option, none, some, Bool, true, false, not, ◌&&◌, ◌||◌, List, [], ◌∷◌, String, ltb, leb, ◌==◌,
  if◌then◌else◌, bytes_eq, length, ◌++◌, ◌+◌,
}
use grpc_gw_controller.Base.Text.{Bytes, bytes}
use grpc_gw_controller.Base.Decimal.{decimal}
use grpc_gw_controller.Cron.{CyclePeriodicReqAttr}
use grpc_gw_controller.Messages.{
  Image, Port, Spec, AppRequest, GetAppsRequest, DeleteAppRequest, DeleteAppMetadataRequest,
  DeleteAppsRequest,
}

-- The message and its field, with the reason or, for an embedded message, the cause.
pub data ValidationError : Type 0 where
  invalid : String → Bytes → String → ValidationError
  caused : String → Bytes → ValidationError → ValidationError

-- The method `Error` of the error types.
unfoldable pub error_text : ValidationError → Bytes
error_text (invalid message field reason) =
    bytes "invalid " ++ (bytes message ++ (bytes "." ++ (field ++ (bytes ": " ++ bytes reason))))
error_text (caused message field e) =
    bytes "invalid "
    ++ (bytes message
        ++ (bytes "."
            ++ (field
                ++ (bytes ": embedded message failed validation | caused by: " ++ error_text e))))

-- The outcome of `Validate`: `none` is a nil error.
abbrev pub Verdict : Type 0
Verdict = Option ValidationError

infixr 8 ◌and_then◌
abbrev pub ◌and_then◌ : Verdict → Verdict → Verdict
none and_then v = v
some e and_then v = some e

abbrev pub reject_if : String → Bool → String → String → Verdict
reject_if message true field reason = some (invalid message (bytes field) reason)
reject_if message false field reason = none

abbrev pub embedded : String → Bytes → Verdict → Verdict
embedded message field none = none
embedded message field (some e) = some (caused message field e)

-- A message that is nil is valid.
abbrev pub unless_nil : {A : Type 0} → (A → Verdict) → Option A → Verdict
unless_nil f none = none
unless_nil f (some a) = f a

abbrev pub is_digit : ℕ → Bool
is_digit c = leb 48 c && leb c 57

-- `\w`
abbrev pub is_word : ℕ → Bool
is_word c = is_digit c || leb 65 c && leb c 90 || leb 97 c && leb c 122 || c == b'_'

-- The places in `^\w*\d+(\.\d)*$`: behind `\w*`, a digit, a dot, or a dot and a digit.
pub data VersionState : Type 0 where
  in_word after_digit after_dot after_group stuck : VersionState

unfoldable pub version_step : VersionState → ℕ → VersionState
version_step in_word c = if is_digit c then after_digit else if is_word c then in_word else stuck
version_step after_digit c =
    if is_digit c
    then after_digit
    else if is_word c
    then in_word
    else if c == b'.'
    then after_dot
    else stuck
version_step after_dot c = if is_digit c then after_group else stuck
version_step after_group c = if c == b'.' then after_dot else stuck
version_step stuck c = stuck

abbrev pub accepts : VersionState → Bool
accepts after_digit = true
accepts after_group = true
accepts _ = false

unfoldable pub version_run : VersionState → Bytes → VersionState
version_run q [] = q
version_run q (c ∷ s) = version_run (version_step q c) s

unfoldable pub version_matches : Bytes → Bool
unfolding version_run version_step
version_matches s = accepts (version_run in_word s)

-- The alternative `^\s*$` of the pattern of a port's name.
unfoldable pub blank : Bytes → Bool
blank [] = true
blank (c ∷ s) = (c == 32 || c == 9 || c == 10 || c == 12 || c == 13) && blank s

-- `[a-z0-9.-]{1,63}[^-.]$`, with the number of middle bytes seen so far.
unfoldable pub port_tail : ℕ → Bytes → Bool
port_tail n [] = false
port_tail n (c ∷ []) = leb 1 n && leb n 63 && not (c == b'-' || c == b'.')
port_tail n (c ∷ d ∷ s) =
    (is_digit c || leb 97 c && leb c 122 || c == b'.' || c == b'-') && port_tail (n + 1) (d ∷ s)

unfoldable pub port_name_matches : Bytes → Bool
unfolding blank port_tail
port_name_matches [] = true
port_name_matches (c ∷ s) =
    blank (c ∷ s) || not (c == b'-' || c == b'.' || is_digit c) && port_tail 0 s

-- `_CreateAppRequest_Cycle_InLookup` and its copies.
unfoldable pub cycle_in : Bytes → Bool
cycle_in c =
    bytes_eq c (bytes "periodic") || bytes_eq c (bytes "daemon") || bytes_eq c (bytes "run_once")

unfoldable pub validate_cycle_periodic_req_attr : CyclePeriodicReqAttr → Verdict
validate_cycle_periodic_req_attr m =
    let name : String = "CyclePeriodicReqAttr" in
    reject_if name (ltb 23 m.min_start_hour) "MinStartHour" "value must be inside range [0, 23]"
    and_then reject_if name (ltb 23 m.max_start_hour) "MaxStartHour"
        "value must be inside range [0, 23]"
    and_then reject_if name (ltb m.interval_min 1 || ltb 59 m.interval_min) "IntervalMin"
        "value must be inside range [1, 59]"

unfoldable pub validate_image : Image → Verdict
validate_image m =
    reject_if "Spec_Image" (bytes_eq m.repo []) "Repo" "value length must be at least 1 bytes"
    and_then reject_if "Spec_Image" (bytes_eq m.tag []) "Tag"
        "value length must be at least 1 bytes"

unfoldable pub validate_port : Port → Verdict
validate_port m =
    reject_if "Spec_Port" (not (port_name_matches m.name)) "Name"
      "value does not match regex pattern \"(^\\\\s*$|^[^-.0-9][a-z0-9.-]{1,63}[^-.]$)\""
    and_then reject_if "Spec_Port" (ltb 65535 m.number) "Number"
        "value must be less than or equal to 65535"

unfoldable pub validate_ports : ℕ → List Port → Verdict
validate_ports idx [] = none
validate_ports idx (p ∷ ps) =
    embedded "Spec" (bytes "Ports[" ++ (decimal idx ++ bytes "]")) (validate_port p)
    and_then validate_ports (idx + 1) ps

abbrev required_image : Option Image → Verdict
required_image none = some (invalid "Spec" (bytes "Image") "value is required")
required_image (some i) = none

-- Neither the resources nor their limits have a rule.
unfoldable pub validate_spec : {F : Type 0} → Spec F → Verdict
validate_spec m =
    required_image m.image
    and_then embedded "Spec" (bytes "Image") (unless_nil validate_image m.image)
    and_then validate_ports 0 m.ports

abbrev reject_cycle : String → Bytes → Verdict
reject_cycle message c =
    reject_if message (not (cycle_in c)) "Cycle" "value must be in list [periodic daemon run_once]"

abbrev reject_no_name : String → String → Bytes → Verdict
reject_no_name message field name =
    reject_if message (bytes_eq name []) field "value length must be at least 1 bytes"

abbrev reject_version : String → Bytes → Verdict
reject_version message version =
    reject_if message (not (version_matches version)) "Version"
      "value does not match regex pattern \"^\\\\w*\\\\d+(\\\\.\\\\d)*$\""

abbrev attr_and_spec : {F : Type 0} → String → AppRequest F → Verdict → Verdict
attr_and_spec message m between =
    embedded message (bytes "CyclePeriodicAttr")
      (unless_nil validate_cycle_periodic_req_attr m.cycle_periodic_attr)
    and_then between
    and_then embedded message (bytes "Spec") (unless_nil validate_spec m.spec)

unfoldable pub validate_create_app : {F : Type 0} → AppRequest F → Verdict
validate_create_app m =
    let name : String = "CreateAppRequest" in
    reject_no_name name "Name" m.name
    and_then reject_version name m.version
    and_then reject_cycle name m.cycle
    and_then attr_and_spec name m (
        reject_if name (ltb (length m.group_ids) 1) "GroupIds"
          "value must contain at least 1 item(s)")

unfoldable pub validate_upgrade_app : {F : Type 0} → AppRequest F → Verdict
validate_upgrade_app m =
    let name : String = "UpgradeAppRequest" in
    reject_no_name name "Name" m.name
    and_then reject_version name m.version
    and_then reject_cycle name m.cycle
    and_then attr_and_spec name m none

unfoldable pub validate_update_app : {F : Type 0} → AppRequest F → Verdict
validate_update_app m =
    let name : String = "UpdateAppRequest" in
    reject_no_name name "Name" m.name
    and_then reject_if name (not (bytes_eq m.version [])) "Version" "value length must be 0 runes"
    and_then reject_cycle name m.cycle
    and_then attr_and_spec name m none

unfoldable pub validate_get_apps : GetAppsRequest → Verdict
validate_get_apps m =
    reject_if "GetAppsRequest" (not (cycle_in m.cycle || bytes_eq m.cycle [])) "Cycle"
      "value must be in list [periodic daemon run_once ]"

unfoldable pub validate_delete_app : DeleteAppRequest → Verdict
validate_delete_app m = reject_no_name "DeleteAppRequest" "Name" m.name

unfoldable pub validate_delete_app_metadata : DeleteAppMetadataRequest → Verdict
validate_delete_app_metadata m = reject_no_name "DeleteAppMetadataRequest" "AppName" m.app_name

-- The message has no rule.
unfoldable pub validate_delete_apps : DeleteAppsRequest → Verdict
validate_delete_apps m = none
