-- ===== src/Maps.antt =====
-- app/common/map.go: maps of texts, as the program keeps labels, annotations and settings.
pub mod Merge
mod Tests
use grpc_gw_controller.Base.{
  Option, none, some, Bool, true, false, not, ◌&&◌, List, [], ◌∷◌, String, string_eq, bytes_eq, ◌≟◌,
  if◌then◌else◌,
}
use grpc_gw_controller.Base.Text.{Bytes}
use grpc_gw_controller.Base.Dict.{Dict, lookup, insert, erase, is_some}

abbrev pub Map : Type 0
Map = Dict String Bytes

unfoldable pub add : Map → String → Bytes → Map
add m key value = insert key value m

unfoldable pub key_exists : Map → String → Bool
key_exists m key = is_some (lookup key m)

abbrev value_or_empty : Option Bytes → Bytes
value_or_empty none = []
value_or_empty (some v) = v

unfoldable pub key_has_value : Map → String → Bool
key_has_value m key = not (bytes_eq (value_or_empty (lookup key m)) [])

-- A missing key reads as the empty text. `MapGet` is this method.
unfoldable pub get : Map → String → Bytes
get m key = value_or_empty (lookup key m)

unfoldable pub delete : Map → String → Map
delete m key = erase key m

unfoldable pub is_empty : Map → Bool
is_empty [] = true
is_empty (_ ∷ _) = false

-- The keys to exclude are deleted from the source itself.
unfoldable pub exclude : Map → List String → Map
exclude src [] = src
exclude src (f ∷ fs) = exclude (if key_exists src f then delete src f else src) fs

unfoldable pub add_all : Map → Map → Map
add_all dst [] = dst
add_all dst ((k, v) ∷ src) = add_all (add dst k v) src

-- `MapMerge` changes both maps: the results are the destination and the source.
unfoldable pub map_merge : Map → Map → List String → Map × Map
map_merge dst src keys_to_exclude =
    let left = exclude src keys_to_exclude in (add_all dst left, left)
