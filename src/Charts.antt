-- ===== src/Charts.antt =====
-- `SetChartData` of app/grpc/appmanager/common/chartutils/chartutils.go, which completes the temporary
-- data of an instance by the request, and for an update by the values of the last chart. The parsed
-- values are the tree that the YAML package gives. The maps of an instance are never nil.
pub mod Reuse
pub mod Request
pub mod Spec
pub mod SetData
pub mod Kept
pub mod Identity
pub mod NoName
mod Tests
use grpc_gw_controller.Base.{
  Option, none, some, Bool, false, List, [], Outcome, ok, err, panic, string_eq, ◌≟◌, if◌then◌else◌,
  String,
}
use grpc_gw_controller.Base.Text.{Bytes}
use grpc_gw_controller.Base.Decimal.{ℤ, ParseError}
use grpc_gw_controller.Maps.{add}
use grpc_gw_controller.Apps.{AppInstanceData, ImageData}

-- `interface{}` as the YAML package fills it. The keys of a mapping need not be texts.
pub data Key : Type 0 where
  name : String → Key
  no_text : Key

mutual
  pub data Value : Type 0 where
    text : Bytes → Value
    flag : Bool → Value
    int : ℤ → Value
    mapping : Fields → Value
    sequence : Values → Value
    other : Value

  pub data Fields : Type 0 where
    no_fields : Fields
    field : Key → Value → Fields → Fields

  pub data Values : Type 0 where
    no_values : Values
    value : Value → Values → Values

-- Reading of files, `filepath.Join` and the texts of the errors of numbers are given.
pub record Reader : Type 0 where
  pub read_dir : Bytes → Outcome Bytes (List String)
  pub read_file : Bytes → Outcome Bytes Bytes
  pub join_path : Bytes → Bytes → Bytes
  pub print_error : ParseError → Bytes

-- What viper knows of the FlexAPI.
pub record FlexApi : Type 0 where
  pub host : Bytes
  pub port : Bytes

abbrev pub is_named : Key → String → Bool
is_named (name k) s = k ≟ s
is_named no_text s = false

-- `m[k]` of a mapping.
unfoldable pub at : Fields → String → Option Value
at no_fields k = none
at (field f v fs) k = let rest = at fs k in if is_named f k then some v else rest

-- The type assertions without a second result, which panic.
abbrev pub as_text : Option Value → Outcome Bytes Bytes
as_text (some (text t)) = ok t
as_text _ = panic

abbrev pub as_flag : Option Value → Outcome Bytes Bool
as_flag (some (flag b)) = ok b
as_flag _ = panic

abbrev pub as_mapping : Option Value → Outcome Bytes Fields
as_mapping (some (mapping fs)) = ok fs
as_mapping _ = panic

abbrev pub as_name : Key → Outcome Bytes String
as_name (name k) = ok k
as_name no_text = panic

abbrev pub as_int : Option Value → Outcome Bytes ℤ
as_int (some (int z)) = ok z
as_int _ = panic

abbrev pub number : {A : Type 0} → Reader → Outcome ParseError A → Outcome Bytes A
number r (ok a) = ok a
number r (err e) = err (r.print_error e)
number r panic = panic

unfoldable pub add_env : String → Bytes → AppInstanceData → AppInstanceData
add_env k v d = record d { env_vars = add d.env_vars k v }

unfoldable pub add_annotation : String → Bytes → AppInstanceData → AppInstanceData
add_annotation k v d = record d { annotations = add d.annotations k v }

unfoldable pub add_label : String → Bytes → AppInstanceData → AppInstanceData
add_label k v d = record d { labels = add d.labels k v }

-- `data.Image`, made where it is nil.
abbrev pub image_or_new : Option ImageData → ImageData
image_or_new none = record { repository = []; name = []; tag = [] }
image_or_new (some i) = i
