-- ===== src/Adapter/Create/Published.antt =====
-- The wait for the catalog changes no action.
use grpc_gw_controller.Base.{
  ℕ, zero, suc, Option, none, some, Bool, true, false, List, [], ◌∷◌, Outcome, ok, err, panic, All,
  Holds,
}
use grpc_gw_controller.Base.Text.{Bytes}
use grpc_gw_controller.Apps.{AppInstanceData}
use grpc_gw_controller.Adapter.Catalog.{
  CatalogClient, Checked, after_check, check_all, next_round, wait_rounds, after_catalog,
  wait_for_catalog_entry, sync_catalog, and_then, prepend,
}
use grpc_gw_controller.Adapter.Create.Kept.{Stays}

-- The catalog changes no action.
module _ {W : Type 0} (client : CatalogClient W) where
  abbrev StaysAll : Checked W → Type 0
  StaysAll r = Holds (λ p. All Stays p.0) r.0

  prepend-Stays :
      (i : AppInstanceData) (r : Checked W) → Stays i → StaysAll r → StaysAll (prepend client i r)
  prepend-Stays i (ok p, w) h g = (h, g)
  prepend-Stays i (err e, w) h g = tt
  prepend-Stays i (panic, w) h g = tt

  after_check-Stays :
      (i : AppInstanceData) (ms : List Bytes) (rest : List Bytes → W → Checked W)
      (r : Outcome Bytes Bool × W)
      → Stays i
      → ((ns : List Bytes) (w : W) → StaysAll (rest ns w))
      → StaysAll (after_check client i ms rest r)
  after_check-Stays i ms rest (ok true, w) h g = prepend-Stays _ (rest _ w) h (g _ w)
  after_check-Stays i ms rest (ok false, w) h g = prepend-Stays i (rest _ w) h (g _ w)
  after_check-Stays i ms rest (err e, w) h g = tt
  after_check-Stays i ms rest (panic, w) h g = tt

  check_all-Stays :
      (is : List AppInstanceData) (ms : List Bytes) (w : W)
      → All Stays is
      → StaysAll (check_all client is ms w)
  unfolding check_all
  check_all-Stays [] ms w h = tt
  check_all-Stays (i ∷ is) ms w h =
      after_check-Stays i ms (check_all client is) _ h.0 (λ ns w1. check_all-Stays is ns w1 h.1)

  next_round-Stays :
      (rest : List AppInstanceData → List Bytes → W → Checked W) (r : Checked W)
      → StaysAll r
      → ((is : List AppInstanceData) (ms : List Bytes) (w : W)
          → All Stays is
          → StaysAll (rest is ms w))
      → StaysAll (next_round client rest r)
  next_round-Stays rest (ok (is, []), w) h g = h
  next_round-Stays rest (ok (is, m ∷ ms), w) h g = g is (m ∷ ms) _ h
  next_round-Stays rest (err e, w) h g = tt
  next_round-Stays rest (panic, w) h g = tt

  wait_rounds-Stays :
      (k : ℕ) (is : List AppInstanceData) (ms : List Bytes) (w : W)
      → All Stays is
      → StaysAll (wait_rounds client k is ms w)
  unfolding wait_rounds
  wait_rounds-Stays zero is ms w h = h
  wait_rounds-Stays (suc k) is ms w h =
      next_round-Stays (wait_rounds client k) (check_all client is ms w) (check_all-Stays is ms w h)
        (wait_rounds-Stays k)

  after_catalog-Stays : (r : Checked W) → StaysAll r → Holds (All Stays) (after_catalog client r).0
  after_catalog-Stays (ok (is, []), w) h = h
  after_catalog-Stays (ok (is, m ∷ ms), w) h = tt
  after_catalog-Stays (err e, w) h = tt
  after_catalog-Stays (panic, w) h = tt

  and_then-Stays :
      (x : Option Bytes × W) (rest : W → Outcome Bytes (List AppInstanceData) × W)
      → ((w : W) → Holds (All Stays) (rest w).0)
      → Holds (All Stays) (and_then client x rest).0
  and_then-Stays (some e, w) rest g = tt
  and_then-Stays (none, w) rest g = g w

  pub sync_catalog-Stays :
      (is : List AppInstanceData) (d : Bytes) (w : W)
      → All Stays is
      → Holds (All Stays) (sync_catalog client is d w).0
  unfolding sync_catalog wait_for_catalog_entry
  sync_catalog-Stays is d w h = and_then-Stays (client.push d w) _ (λ w1.
      and_then-Stays (client.refresh_catalog w1) _ (λ w2.
        after_catalog-Stays (wait_rounds client 20 is [] w2) (wait_rounds-Stays 20 is [] w2 h)))
