-- ===== src/Adapter/Storage/Shared.antt =====
-- app/grpc/appmanager/adapters/rancher/apiclient/appstorage.go: the storage that the instances of an
-- application share.
use grpc_gw_controller.Base.{
  ℕ, Option, none, some, Bool, false, List, [], ◌∷◌, ◌++◌, Outcome, ok, err, panic, if◌then◌else◌,
  ◌==◌,
}
use grpc_gw_controller.Base.Text.{Bytes, bytes}
use grpc_gw_controller.Base.Decimal.{ℤ, pos, negsuc, ParseError}
use grpc_gw_controller.Maps.{Map, add}
use grpc_gw_controller.Amounts.{get_storage_gb_int}
use grpc_gw_controller.Adapter.Deploy.{then_call}
use grpc_gw_controller.Adapter.Restore.{from_call}
use grpc_gw_controller.Adapter.Storage.{
  Volume, Claim, NewVolume, NewClaim, StorageClient, Done, gibibytes, wait_for_volume_state,
  delete_persistent_volume, delete_persistent_volume_claim,
}

abbrev pub is_size : ℕ → ℤ → Bool
is_size n (pos m) = n == m
is_size n (negsuc m) = false

module _ {W : Type 0} (cl : StorageClient W) where
  -- The size of a volume or a claim, before the rest.
  abbrev pub with_size : Outcome ParseError ℤ → W → (ℤ → Done W) → Done W
  with_size (ok z) w rest = rest z
  with_size (err e) w rest = (err (cl.print_error e), w)
  with_size panic w rest = (panic, w)

  -- The claim goes first, then the volume, and the volume is waited for.
  unfoldable pub delete_storage : Bytes → Bytes → W → Done W
  delete_storage volume claim w = then_call (delete_persistent_volume_claim cl claim w) (λ u w1.
      then_call (delete_persistent_volume cl volume w1)
        (λ v w2. wait_for_volume_state cl volume (bytes "removed") w2))

  module _ (app_name kube_conv_app_name namespace : Bytes) (size : ℕ) where
    abbrev pub volume_name : Bytes
    volume_name = kube_conv_app_name ++ bytes "-shared-pv"

    abbrev pub claim_name : Bytes
    claim_name = kube_conv_app_name ++ bytes "-shared-pvc"

    abbrev pub named_after : Map
    named_after = add [] "apphc.app.basename" app_name

    abbrev pub shared_claim : NewClaim
    shared_claim = record {
      name = claim_name;
      annotations = named_after;
      labels = [];
      namespace = namespace;
      storage = gibibytes (pos size);
      access_mode = bytes "ReadWriteMany";
      match_name = kube_conv_app_name;
      volume_id = volume_name;
    }

    abbrev pub shared_volume : NewVolume
    shared_volume = record {
      name = volume_name;
      annotations = named_after;
      labels = [];
      path = cl.join_path (bytes "/appdata" ∷ app_name ∷ bytes "shared" ∷ []);
      storage = gibibytes (pos size);
      access_mode = bytes "ReadWriteMany";
      reclaim_policy = bytes "Retain";
    }

    unfoldable pub create_persistent_volume_claim : W → Done W
    create_persistent_volume_claim w =
        then_call (from_call (cl.create_claim shared_claim w))
          (λ u w1. wait_for_volume_state cl volume_name (bytes "bound") w1)

    -- What the claim that was listed at first has for its size.
    abbrev pub claim_of_size : Option Bytes → W → Done W
    claim_of_size none w = (panic, w)
    claim_of_size (some storage) w =
        with_size (get_storage_gb_int storage) w
          (λ current. if is_size size current then (ok tt, w) else create_persistent_volume_claim w)

    abbrev pub claim_after_volume : List Claim → W → Done W
    claim_after_volume [] w = create_persistent_volume_claim w
    claim_after_volume (c ∷ cs) w = claim_of_size c.storage w

    abbrev pub create_volume_and_claim : List Claim → W → Done W
    create_volume_and_claim claims w =
        then_call (from_call (cl.create_volume shared_volume w))
          (λ u w1. claim_after_volume claims w1)

    abbrev pub claim_if_none : List Claim → W → Done W
    claim_if_none [] w = create_persistent_volume_claim w
    claim_if_none (c ∷ cs) w = (ok tt, w)

    abbrev pub for_volume : List Claim → List Volume → W → Done W
    for_volume claims [] w = create_volume_and_claim claims w
    for_volume claims (v ∷ vs) w = with_size (get_storage_gb_int v.storage) w (λ current.
        if is_size size current
        then claim_if_none claims w
        else then_call (delete_storage volume_name claim_name w)
            (λ u w1. create_volume_and_claim claims w1))

    abbrev pub with_volumes : List Claim → Option Bytes × List Volume × W → Done W
    with_volumes claims (some e, vs, w) = (err e, w)
    with_volumes claims (none, vs, w) = for_volume claims vs w

    abbrev pub with_claims : Option Bytes × List Claim × W → Done W
    with_claims (some e, cs, w) = (err e, w)
    with_claims (none, cs, w) = with_volumes cs (cl.list_volumes volume_name w)

    unfoldable pub create_shared_storage : W → Done W
    create_shared_storage w = with_claims (cl.list_claims claim_name w)
