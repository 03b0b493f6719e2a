-- ===== src/Adapter/Storage/Tests.antt =====
-- A server with one released volume, and an instance that is created anew.
use grpc_gw_controller.Base.{
  none, some, Bool, true, false, List, [], ◌∷◌, ok, err, string_eq, bytes_eq, ◌≡◌, refl,
}
use grpc_gw_controller.Base.Text.{bytes}
use grpc_gw_controller.Base.Decimal.{pos}
use grpc_gw_controller.Apps.{AppInstanceData, zero_instance}
use grpc_gw_controller.Adapter.Storage.{
  Volume, StorageClient, delete_rounds, delete_persistent_volume, ticks, wait_for_volume_state,
  clean_up_volume, instance_storage,
}
use grpc_gw_controller.Adapter.Storage.Shared.{
  create_shared_storage, create_persistent_volume_claim,
}
use grpc_gw_controller.Adapter.Storage.Released.{IsAbsent, Fails, instance_storage-Fails}

abbrev released : Volume
released = record {
  id = bytes "v1";
  name = bytes "shop-pv";
  state = bytes "released";
  phase = some (bytes "Released");
  storage = bytes "5Gi";
}

abbrev volumes : Bool → List Volume
volumes true = released ∷ []
volumes false = []

-- The world is whether the volume is there.
abbrev server : StorageClient Bool
server = record {
  list_volumes = λ n w. (none, volumes w, w);
  volume_by_id = λ id w. (none, released, w);
  create_volume = λ v w. (none, true);
  delete_volume = λ v w. (none, false);
  list_claims = λ n w. (none, [], w);
  claim_by_id = λ id w. (none, record { id = []; storage = none }, w);
  create_claim = λ c w. (none, w);
  delete_claim = λ c w. (none, w);
  rounds = λ s m w. 3;
  sleep = λ m w. w;
  join_path = λ l. [];
  print_error = λ e. [];
}

abbrev new_shop : AppInstanceData
new_shop = record zero_instance { instance_name = bytes "shop"; instance_storage_size = pos 5 }

abbrev Gone : Bool → Type 0
Gone w = w ≡ false

server-IsAbsent : IsAbsent server (bytes "shop-pv") Gone
server-IsAbsent = record {
  none_listed = λ w g. rw g refl;
  after_list = λ w g. g;
  after_sleep = λ m w g. g;
  after_claim_list = λ n w g. g;
  after_claim = λ c w g. g;
}

removed_runs : clean_up_volume server (bytes "shop-pv") true ≡ (ok (bytes "v1"), false)
unfolding clean_up_volume delete_persistent_volume delete_rounds wait_for_volume_state ticks
    bytes_eq
removed_runs = refl

-- A volume that stays released is waited for in vain.
shared_runs :
    create_shared_storage server (bytes "Shop") (bytes "shop") [] 5 false
    ≡ (err (bytes "timed out waiting for PV state bound"), true)
unfolding create_shared_storage create_persistent_volume_claim wait_for_volume_state ticks bytes_eq
shared_runs = refl

instance_storage-Fails_example : Fails (instance_storage server new_shop true)
instance_storage-Fails_example =
    instance_storage-Fails server Gone new_shop released [] (bytes "v1") true true false
      server-IsAbsent refl refl (λ e. cc) removed_runs refl refl
