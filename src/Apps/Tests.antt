-- ===== src/Apps/Tests.antt =====
-- Runs on concrete requests and projects, and the theorems about the temporary data at them.
use grpc_gw_controller.Base.{
  ℕ, ◌≤◌, ◌<◌, some, List, [], ◌∷◌, String, string_eq, Outcome, ok, length, All, ◌≡◌, ◌↔◌, inl,
  refl, bytes_eq,
}
use grpc_gw_controller.Base.Text.{Bytes, bytes, to_lower, replace, join}
use grpc_gw_controller.Base.Decimal.{pos, atoi}
use grpc_gw_controller.Base.Dict.{Dict, lookup}
use grpc_gw_controller.Maps.{Map, get}
use grpc_gw_controller.Messages.{disabled, enabled}
use grpc_gw_controller.Apps.{
  AppsData, GenericRequester, new_apps_data, new_instance, kube_conv_name, trunc_app_name,
  trunc_app_group_id,
}
use grpc_gw_controller.Apps.Running.{RancherApp, append_running_apps_data, external_version}
use grpc_gw_controller.Apps.Removal.{append_apps_data_to_delete}
use grpc_gw_controller.Apps.Selection.{Agrees, IsOneOf, IsAskedFor, InGroups, IsRecorded}
use grpc_gw_controller.Apps.Growth.{running, names, AllRecorded}
use grpc_gw_controller.Apps.Recorded.{
  IsReadable, Records, append_running_apps_data-AllRecorded, append_running_apps_data-state,
}
use grpc_gw_controller.Apps.Deleted.{
  IsToDelete, IsDeletion, Deletes, append_apps_data_to_delete-AllRecorded,
}
use grpc_gw_controller.Apps.Created.{new_instance-IsAskedFor}
use grpc_gw_controller.Apps.Names.{IsName, kube_conv_name-IsName}

abbrev request : GenericRequester
request = record {
  name = bytes "Web_Shop";
  version = bytes "1.2.0";
  root_group_id = [];
  group_ids = bytes "g1" ∷ bytes "g2" ∷ [];
}

abbrev on_shop : Map
on_shop =
    ("apphc.app.basename", bytes "Web_Shop")
    ∷ ("apphc.app.instance.group_id", bytes "g1")
    ∷ ("apphc.app.instance.volume.size", bytes "5")
    ∷ []

abbrev shop : RancherApp
shop = record {
  name = bytes "web-shop-g1";
  description = [];
  external_id = bytes "1.1.0";
  target_namespace = bytes "web-shop";
  annotations = on_shop;
  labels = [];
}

-- Here an external ID is its version.
abbrev query : Bytes → Outcome ℕ (Dict String (List Bytes))
query e = ok (("version", e ∷ []) ∷ [])

shop-IsReadable : All (IsReadable query) (shop ∷ [])
unfolding external_version get atoi lookup
shop-IsReadable = (((bytes "1.1.0", refl), (pos 5, refl), inl refl), tt)

nothing-IsRecorded : AllRecorded (IsRecorded request []) new_apps_data
unfolding new_apps_data lookup
nothing-IsRecorded k = tt

nothing-IsDeletion : AllRecorded (IsDeletion (some request)) new_apps_data
unfolding new_apps_data lookup
nothing-IsDeletion k = tt

name_runs : kube_conv_name (bytes "Web_Shop") [] (bytes "G1") ≡ bytes "web-shop-g1"
unfolding kube_conv_name join to_lower replace trunc_app_name trunc_app_group_id bytes_eq
name_runs = refl

append_running_apps_data-AllRecorded_example :
    (after : AppsData) × (append_running_apps_data query
        (ok (shop ∷ []))
        request
        []
        disabled
        new_apps_data
      ≡ ok after)
    × AllRecorded (IsRecorded request []) after
    × All (λ item. Records request [] item after) (shop ∷ [])
    × ((n k : Bytes)
        → IsOneOf n (names (running k new_apps_data))
        → IsOneOf n (names (running k after)))
append_running_apps_data-AllRecorded_example =
    append_running_apps_data-AllRecorded query request [] disabled (shop ∷ []) new_apps_data
      shop-IsReadable nothing-IsRecorded

append_running_apps_data-state_example :
    append_running_apps_data query (ok (shop ∷ [])) request [] disabled new_apps_data
    ≡ append_running_apps_data query (ok (shop ∷ [])) request [] enabled new_apps_data
append_running_apps_data-state_example =
    append_running_apps_data-state query (ok (shop ∷ [])) request [] disabled enabled new_apps_data

append_apps_data_to_delete-AllRecorded_example :
    (after : AppsData) × (append_apps_data_to_delete {E = ℕ}
        (ok (shop ∷ []))
        (some request)
        new_apps_data
      ≡ ok after)
    × AllRecorded (IsDeletion (some request)) after
    × All (λ item. Deletes (some request) item after) (shop ∷ [])
    × ((n k : Bytes)
        → IsOneOf n (names (running k new_apps_data))
        → IsOneOf n (names (running k after)))
append_apps_data_to_delete-AllRecorded_example =
    append_apps_data_to_delete-AllRecorded (shop ∷ []) (some request) new_apps_data
      nothing-IsDeletion

web-shop_kept :
    (k : String) (v : Bytes)
    → lookup k (new_instance request [] [] enabled (bytes "g1")).annotations ≡ some v
    → lookup k (new_instance request [] [] enabled (bytes "g1")).annotations ≡ some v
web-shop_kept k v h = h

-- A request for two of the groups, which names another version.
abbrev later : GenericRequester
later = record request { version = bytes "1.3.0" }

new_instance-IsAskedFor_example :
    let a = (new_instance request [] [] enabled (bytes "g1")).annotations in
    IsAskedFor later [] a
    × InGroups later [] a
    × (IsToDelete (some later) a ↔ Agrees (bytes "1.3.0") (bytes "1.2.0"))
    × (get a "apphc.app.instance.version" ≡ bytes "1.2.0")
new_instance-IsAskedFor_example =
    new_instance-IsAskedFor request later [] [] enabled (bytes "g1")
      (new_instance request [] [] enabled (bytes "g1")).annotations (λ h. cc h) (λ h. cc h) refl
      refl (inl refl) web-shop_kept

kube_conv_name-IsName_example :
    IsName (kube_conv_name (bytes "Web_Shop") [] (bytes "G1"))
    × (2 ≤ 40 → length (kube_conv_name (bytes "Web_Shop") [] (bytes "G1")) ≤ 63)
    × (77 ≤ 2 → 63 < length (kube_conv_name (bytes "Web_Shop") [] (bytes "G1")))
kube_conv_name-IsName_example = kube_conv_name-IsName (bytes "Web_Shop") [] (bytes "G1")
