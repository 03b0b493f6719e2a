-- ===== src/Adapter/Storage/Released.antt =====
-- The storage of an instance whose volume was removed by the clean-up.
use grpc_gw_controller.Base.{
  ℕ, zero, suc, Option, none, some, true, List, [], ◌∷◌, Outcome, ok, err, panic, bytes_eq, ◌≡◌,
  ◌≢◌, refl, Holds, ok-injective, sym, ap, ◌∙◌,
}
use grpc_gw_controller.Base.Text.{Bytes, bytes}
use grpc_gw_controller.Apps.{AppInstanceData}
use grpc_gw_controller.Adapter.Deploy.{then_call}
use grpc_gw_controller.Adapter.Restore.{from_call}
use grpc_gw_controller.Adapter.Create.Marked.{any_call-Holds, if_Holds}
use grpc_gw_controller.Adapter.Storage.{
  delete_persistent_volume, Volume, Claim, StorageClient, Done, is_positive, tick, ticks,
  wait_for_volume_state, clean_phase, clean_listed, clean_up_volume, volume_name, claim_name,
  ensure_claim, ensure_volume, instance_storage,
}

-- Where a predicate on the world holds no volume of the name is listed, and listing, sleeping and the
-- calls on claims keep it.
pub record IsAbsent {W : Type 0} (cl : StorageClient W) (name : Bytes) (Absent : W → Type 0)
    : Type 0 where
  pub none_listed : (w : W) → Absent w → (cl.list_volumes name w).1 ≡ []
  pub after_list : (w : W) → Absent w → Absent (cl.list_volumes name w).2
  pub after_sleep : (m : ℕ) (w : W) → Absent w → Absent (cl.sleep m w)
  pub after_claim_list : (n : Bytes) (w : W) → Absent w → Absent (cl.list_claims n w).2
  pub after_claim : (c : _) (w : W) → Absent w → Absent (cl.create_claim c w).1

-- The call returns an error.
abbrev pub Fails : {W : Type 0} → Done W → Type 0
Fails r = (e : Bytes) × (r.0 ≡ err e)

module _ {W : Type 0} (cl : StorageClient W) (volume : Bytes) where
  clean_phase-id :
      (id : Bytes) (p : Option Bytes) (w : W) → Holds (λ i. i ≡ id) (clean_phase cl volume id p w).0
  clean_phase-id id none w = tt
  clean_phase-id id (some phase) w =
      if_Holds (λ i. i ≡ id) (bytes_eq phase (bytes "Released")) _ _
        (any_call-Holds (λ i. i ≡ id) (delete_persistent_volume cl volume w) _
          (λ u w1.
            any_call-Holds (λ i. i ≡ id) (wait_for_volume_state cl volume (bytes "removed") w1) _
              (λ v w2. refl)))
        refl

  clean_listed-id :
      (v : Volume) (vs : List Volume) (w : W)
      → Holds (λ i. i ≡ v.id) (clean_listed cl volume (none, v ∷ vs, w)).0
  clean_listed-id v vs w =
      if_Holds (λ i. i ≡ v.id) (bytes_eq v.name []) _ _ refl (clean_phase-id v.id v.phase w)

module _ {W : Type 0} (cl : StorageClient W) (name : Bytes) (Absent : W → Type 0)
    (server : IsAbsent cl name Absent) where
  tick-Fails :
      (rest : W → Done W) (r : Option Bytes × List Volume × W)
      → r.1 ≡ []
      → Absent r.2
      → ((w : W) → Absent w → Fails (rest w))
      → Fails (tick cl (bytes "bound") rest r)
  unfolding bytes_eq
  tick-Fails rest (none, [], w) e a g = g w a
  tick-Fails rest (some x, [], w) e a g = (x, refl)
  tick-Fails rest (o, v ∷ vs, w) e a g = absurd cc

  ticks-Fails : (k : ℕ) (w : W) → Absent w → Fails (ticks cl k name (bytes "bound") w)
  unfolding ticks
  ticks-Fails zero w a = (_, refl)
  ticks-Fails (suc k) w a =
      let a1 = server.after_sleep 1000 w a in
      tick-Fails (ticks cl k name (bytes "bound")) (cl.list_volumes name (cl.sleep 1000 w))
        (server.none_listed _ a1) (server.after_list _ a1) (ticks-Fails k)

  ensure_claim-Fails :
      (app_instance : AppInstanceData) (r : Option Bytes × List Claim × W)
      → volume_name cl app_instance ≡ name
      → r.1 ≡ []
      → Absent r.2
      → Fails (ensure_claim cl app_instance r)
  unfolding wait_for_volume_state
  ensure_claim-Fails app_instance (some e, cs, w) n c a = (e, refl)
  ensure_claim-Fails app_instance (none, c ∷ cs, w) n h a = absurd cc
  ensure_claim-Fails app_instance (none, [], w) n h a = go _ (server.after_claim _ w a)
    where
      go :
          (x : Option Bytes × W)
          → Absent x.1
          → Fails (
              then_call
                (from_call x)
                (λ u w1. wait_for_volume_state cl (volume_name cl app_instance) (bytes "bound") w1))
      go (some e, w1) a1 = (e, refl)
      go (none, w1) a1 = rw n (ticks-Fails (cl.rounds 100 1000 w1) w1 a1)

Holds-result :
    {A W : Type 0} (P : A → Type 0) (a : A) (w : W) (r : Outcome Bytes A × W)
    → r ≡ (ok a, w)
    → Holds P r.0
    → P a
Holds-result P a w (ok b, w1) e h = rw (ok-injective a b (sym (ap (λ r. r.0) e))) h
Holds-result P a w (err x, w1) e h = absurd cc
Holds-result P a w (panic, w1) e h = absurd cc

ensure_volume-kept :
    {W : Type 0} (cl : StorageClient W) (app_instance : AppInstanceData) (id : Bytes) (w : W)
    → id ≢ []
    → ensure_volume cl app_instance id w ≡ (ok tt, w)
unfolding bytes_eq
ensure_volume-kept cl app_instance [] w h = absurd (h refl)
ensure_volume-kept cl app_instance (c ∷ cs) w h = refl

-- Where a volume of an instance with an ID is listed, and the clean-up ends without an error in a world
-- in which no volume of that name is listed until one is created and there is no claim, the storage of
-- the instance fails: no volume is created, and it waits for one in vain.
pub instance_storage-Fails :
    {W : Type 0} (cl : StorageClient W) (Absent : W → Type 0) (app_instance : AppInstanceData)
    (v : Volume) (vs : List Volume) (id : Bytes) (w w0 w1 : W)
    → IsAbsent cl (volume_name cl app_instance) Absent
    → is_positive app_instance.instance_storage_size ≡ true
    → cl.list_volumes (volume_name cl app_instance) w ≡ (none, v ∷ vs, w0)
    → v.id ≢ []
    → clean_up_volume cl (volume_name cl app_instance) w ≡ (ok id, w1)
    → Absent w1
    → (cl.list_claims (claim_name cl app_instance) w1).1 ≡ []
    → Fails (instance_storage cl app_instance w)
unfolding instance_storage
instance_storage-Fails cl Absent app_instance v vs id w w0 w1 server size listed named cleaned gone
      claims =
    let is_id : Holds (λ i. i ≡ v.id) (clean_up_volume cl (volume_name cl app_instance) w).0 =
      unfold clean_up_volume in
      rw listed (clean_listed-id cl (volume_name cl app_instance) v vs w0) in
    let id_of : id ≡ v.id = Holds-result (λ i. i ≡ v.id) id w1 _ cleaned is_id in
    rw (size, cleaned, ensure_volume-kept cl app_instance id w1 (λ e. named (sym id_of ∙ e)))
      (ensure_claim-Fails cl (volume_name cl app_instance) Absent server app_instance _ refl claims
        (server.after_claim_list _ w1 gone))
