-- ===== src/Maps/Tests.antt =====
-- The merge of two maps at concrete entries.
use grpc_gw_controller.Base.{some, [], ◌∷◌, string_eq, ◌≡◌, refl}
use grpc_gw_controller.Base.Text.{bytes}
use grpc_gw_controller.Base.Dict.{lookup}
use grpc_gw_controller.Maps.{Map, map_merge}
use grpc_gw_controller.Maps.Merge.{NodupKeys, lookup-map_merge}

abbrev defaults : Map
defaults = ("port", bytes "80") ∷ ("host", bytes "a") ∷ []

abbrev settings : Map
settings = ("host", bytes "b") ∷ ("port", bytes "81") ∷ []

settings-NodupKeys : NodupKeys settings
unfolding lookup
settings-NodupKeys = (refl, (refl, tt))

lookup-map_merge_example :
    (lookup "host" (map_merge defaults settings ("port" ∷ [])).0 ≡ some (bytes "b"))
    × (lookup "host" (map_merge defaults settings ("port" ∷ [])).1 ≡ some (bytes "b"))
unfolding lookup
lookup-map_merge_example =
    lookup-map_merge defaults settings ("port" ∷ []) "host" settings-NodupKeys
