-- ===== src/Adapter/Storage.antt =====
-- Volumes and their claims, in the package app/grpc/appmanager/adapters/rancher/apiclient: the functions
-- of common.go that wait for a volume or delete it or its claim, and the storage of an instance in
-- `CreateAppInstance` of appinstance.go. Adapter/Storage/Shared is appstorage.go.
pub mod Shared
pub mod Released
mod Tests
use grpc_gw_controller.Base.{
  ℕ, zero, suc, Option, none, some, Bool, true, false, ◌||◌, List, [], ◌∷◌, ◌++◌, Outcome, ok, err,
  panic, if◌then◌else◌, bytes_eq,
}
use grpc_gw_controller.Base.Text.{Bytes, bytes}
use grpc_gw_controller.Base.Decimal.{ℤ, pos, negsuc, ParseError, decimal}
use grpc_gw_controller.Maps.{Map, get}
use grpc_gw_controller.Apps.{AppInstanceData}
use grpc_gw_controller.Adapter.Deploy.{then_call}
use grpc_gw_controller.Adapter.Restore.{from_call}

-- The phase and the size of a claim stand behind pointers, which may be nil.
pub record Volume : Type 0 where
  pub id : Bytes
  pub name : Bytes
  pub state : Bytes
  pub phase : Option Bytes
  pub storage : Bytes

pub record Claim : Type 0 where
  pub id : Bytes
  pub storage : Option Bytes

pub record NewVolume : Type 0 where
  pub name : Bytes
  pub annotations : Map
  pub labels : Map
  pub path : Bytes
  pub storage : Bytes
  pub access_mode : Bytes
  pub reclaim_policy : Bytes

pub record NewClaim : Type 0 where
  pub name : Bytes
  pub annotations : Map
  pub labels : Map
  pub namespace : Bytes
  pub storage : Bytes
  pub access_mode : Bytes
  pub match_name : Bytes
  pub volume_id : Bytes

-- The Rancher client. Its lists and lookups return an object beside an error. `rounds s m` is how many
-- rounds with a pause of m milliseconds a loop has before its time-out of s seconds.
pub record StorageClient (W : Type 0) : Type 0 where
  pub list_volumes : Bytes → W → Option Bytes × List Volume × W
  pub volume_by_id : Bytes → W → Option Bytes × Volume × W
  pub create_volume : NewVolume → W → Option Bytes × W
  pub delete_volume : Volume → W → Option Bytes × W
  pub list_claims : Bytes → W → Option Bytes × List Claim × W
  pub claim_by_id : Bytes → W → Option Bytes × Claim × W
  pub create_claim : NewClaim → W → Option Bytes × W
  pub delete_claim : Claim → W → Option Bytes × W
  pub rounds : ℕ → ℕ → W → ℕ
  pub sleep : ℕ → W → W
  pub join_path : List Bytes → Bytes
  pub print_error : ParseError → Bytes

abbrev pub Done : Type 0 → Type 0
Done W = Outcome Bytes (Unit {0}) × W

-- `fmt.Sprintf("%dGi", size)`
abbrev pub gibibytes : ℤ → Bytes
gibibytes (pos n) = decimal n ++ bytes "Gi"
gibibytes (negsuc n) = bytes "-" ++ (decimal (suc n) ++ bytes "Gi")

abbrev pub is_positive : ℤ → Bool
is_positive (pos zero) = false
is_positive (pos (suc n)) = true
is_positive (negsuc n) = false

-- No volume counts as one that is removed.
abbrev pub has_state : Bytes → List Volume → Bool
has_state expected [] = bytes_eq expected (bytes "removed")
has_state expected (v ∷ vs) = bytes_eq v.state expected

abbrev pub is_free : Bytes → Bool
is_free phase = bytes_eq phase (bytes "Released") || bytes_eq phase (bytes "Available")

module _ {W : Type 0} (cl : StorageClient W) where
  -- The state is looked at before the error.
  abbrev pub tick : Bytes → (W → Done W) → Option Bytes × List Volume × W → Done W
  tick expected rest (none, vs, w) = if has_state expected vs then (ok tt, w) else rest w
  tick expected rest (some e, vs, w) = if has_state expected vs then (ok tt, w) else (err e, w)

  unfoldable pub ticks : ℕ → Bytes → Bytes → W → Done W
  ticks zero volume expected w = (err (bytes "timed out waiting for PV state " ++ expected), w)
  ticks (suc k) volume expected w =
      tick expected (ticks k volume expected) (cl.list_volumes volume (cl.sleep 1000 w))

  unfoldable pub wait_for_volume_state : Bytes → Bytes → W → Done W
  wait_for_volume_state volume expected w = ticks (cl.rounds 100 1000 w) volume expected w

  -- A volume is deleted once it is free.
  abbrev pub delete_free : (W → Done W) → Volume → Option Bytes → W → Done W
  delete_free rest v none w = (panic, w)
  delete_free rest v (some phase) w =
      if is_free phase then from_call (cl.delete_volume v w) else rest (cl.sleep 500 w)

  abbrev pub delete_round : (W → Done W) → Option Bytes × Volume × W → Done W
  delete_round rest (some e, v, w) = (err e, w)
  delete_round rest (none, v, w) = delete_free rest v v.phase w

  unfoldable pub delete_rounds : ℕ → Bytes → Bytes → W → Done W
  delete_rounds zero volume id w =
      (err (bytes "timed out waiting for the volume status Released " ++ volume), w)
  delete_rounds (suc k) volume id w =
      delete_round (delete_rounds k volume id) (cl.volume_by_id id w)

  -- With no volume in the list its error is dropped.
  abbrev pub delete_listed : Bytes → Option Bytes × List Volume × W → Done W
  delete_listed volume (e, [], w) = (ok tt, w)
  delete_listed volume (some e, v ∷ vs, w) = (err e, w)
  delete_listed volume (none, v ∷ vs, w) = delete_rounds (cl.rounds 30 500 w) volume v.id w

  unfoldable pub delete_persistent_volume : Bytes → W → Done W
  delete_persistent_volume volume w = delete_listed volume (cl.list_volumes volume w)

  -- A claim with no ID is gone, whatever the error.
  abbrev pub claim_round : (W → Done W) → Option Bytes × Claim × W → Done W
  claim_round rest (none, c, w) = if bytes_eq c.id [] then (ok tt, w) else rest (cl.sleep 1000 w)
  claim_round rest (some e, c, w) = if bytes_eq c.id [] then (ok tt, w) else (err e, w)

  unfoldable pub claim_rounds : ℕ → Bytes → Bytes → W → Done W
  claim_rounds zero claim id w =
      (err (bytes "timed out waiting for deleting persistentVolumeClaim " ++ claim), w)
  claim_rounds (suc k) claim id w = claim_round (claim_rounds k claim id) (cl.claim_by_id id w)

  abbrev pub delete_listed_claim : Bytes → Option Bytes × List Claim × W → Done W
  delete_listed_claim claim (e, [], w) = (ok tt, w)
  delete_listed_claim claim (some e, c ∷ cs, w) = (err e, w)
  delete_listed_claim claim (none, c ∷ cs, w) =
      then_call (from_call (cl.delete_claim c w))
        (λ u w1. claim_rounds (cl.rounds 300 1000 w1) claim c.id w1)

  unfoldable pub delete_persistent_volume_claim : Bytes → W → Done W
  delete_persistent_volume_claim claim w = delete_listed_claim claim (cl.list_claims claim w)

  -- A released volume is removed. The ID is that of the volume in the list, removed or not.
  abbrev pub clean_phase : Bytes → Bytes → Option Bytes → W → Outcome Bytes Bytes × W
  clean_phase volume id none w = (panic, w)
  clean_phase volume id (some phase) w =
      if bytes_eq phase (bytes "Released")
      then then_call (delete_persistent_volume volume w) (λ u w1.
        then_call (wait_for_volume_state volume (bytes "removed") w1) (λ v w2. (ok id, w2)))
      else (ok id, w)

  abbrev pub clean_listed : Bytes → Option Bytes × List Volume × W → Outcome Bytes Bytes × W
  clean_listed volume (some e, vs, w) = (err e, w)
  clean_listed volume (none, [], w) = (ok [], w)
  clean_listed volume (none, v ∷ vs, w) =
      if bytes_eq v.name [] then (ok v.id, w) else clean_phase volume v.id v.phase w

  unfoldable pub clean_up_volume : Bytes → W → Outcome Bytes Bytes × W
  clean_up_volume volume w = clean_listed volume (cl.list_volumes volume w)

  module _ (app_instance : AppInstanceData) where
    abbrev pub volume_name : Bytes
    volume_name = app_instance.instance_name ++ bytes "-pv"

    abbrev pub claim_name : Bytes
    claim_name = app_instance.instance_name ++ bytes "-pvc"

    abbrev pub new_volume : NewVolume
    new_volume = record {
      name = volume_name;
      annotations = app_instance.annotations;
      labels = app_instance.labels;
      path = cl.join_path (
          bytes "/appdata"
          ∷ get app_instance.annotations "apphc.app.basename"
          ∷ app_instance.instance_name
          ∷ []);
      storage = gibibytes app_instance.instance_storage_size;
      access_mode = bytes "ReadWriteOnce";
      reclaim_policy = bytes "Retain";
    }

    abbrev pub new_claim : NewClaim
    new_claim = record {
      name = claim_name;
      annotations = app_instance.annotations;
      labels = app_instance.labels;
      namespace = app_instance.target_namespace;
      storage = gibibytes app_instance.instance_storage_size;
      access_mode = bytes "ReadWriteOnce";
      match_name = app_instance.instance_name;
      volume_id = volume_name;
    }

    -- A volume is created where there was none before the clean-up.
    abbrev pub ensure_volume : Bytes → W → Done W
    ensure_volume id w =
        if bytes_eq id [] then from_call (cl.create_volume new_volume w) else (ok tt, w)

    abbrev pub ensure_claim : Option Bytes × List Claim × W → Done W
    ensure_claim (some e, cs, w) = (err e, w)
    ensure_claim (none, c ∷ cs, w) = (ok tt, w)
    ensure_claim (none, [], w) =
        then_call (from_call (cl.create_claim new_claim w))
          (λ u w1. wait_for_volume_state volume_name (bytes "bound") w1)

    unfoldable pub instance_storage : W → Done W
    instance_storage w =
        if is_positive app_instance.instance_storage_size
        then then_call (clean_up_volume volume_name w) (λ id w1.
          then_call (ensure_volume id w1) (λ u w2. ensure_claim (cl.list_claims claim_name w2)))
        else (ok tt, w)
