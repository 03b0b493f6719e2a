-- ===== src/Adapter/Update/Nothing.antt =====
-- `syncCatalog` where there is no instance to wait for.
use grpc_gw_controller.Base.{
  ℕ, zero, suc, Option, none, some, List, [], ◌∷◌, Outcome, ok, err, panic, string_eq, Holds, ◌≡◌,
  ◌≢◌, refl,
}
use grpc_gw_controller.Base.Text.{Bytes}
use grpc_gw_controller.Apps.{AppInstanceData}
use grpc_gw_controller.Adapter.Catalog.{
  CatalogClient, Checked, check_all, wait_rounds, after_catalog, wait_for_catalog_entry,
  sync_catalog, and_then,
}

abbrev pub Empty : List AppInstanceData → Type 0
Empty l = l ≡ []

pub never-Holds : {A : Type 0} (o : Outcome Bytes A) → ((a : A) → o ≢ ok a) → Holds (λ _. ⊥) o
never-Holds (ok a) h = h a refl
never-Holds (err e) h = tt
never-Holds panic h = tt

-- Nothing waits for the catalog.
module _ {W : Type 0} (client : CatalogClient W) where
  wait_rounds-Empty :
      (k : ℕ) (ms : List Bytes) (w : W) → Holds (λ p. Empty p.0) (wait_rounds client k [] ms w).0
  unfolding wait_rounds check_all
  wait_rounds-Empty zero ms w = refl
  wait_rounds-Empty (suc k) [] w = refl
  wait_rounds-Empty (suc k) (m ∷ ms) w = wait_rounds-Empty k (m ∷ ms) (client.sleep w)

  after_catalog-Empty :
      (r : Checked W) → Holds (λ p. Empty p.0) r.0 → Holds Empty (after_catalog client r).0
  after_catalog-Empty (ok (is, []), w) h = h
  after_catalog-Empty (ok (is, m ∷ ms), w) h = tt
  after_catalog-Empty (err e, w) h = tt
  after_catalog-Empty (panic, w) h = tt

  and_then-Empty :
      (x : Option Bytes × W) (rest : W → Outcome Bytes (List AppInstanceData) × W)
      → ((w : W) → Holds Empty (rest w).0)
      → Holds Empty (and_then client x rest).0
  and_then-Empty (some e, w) rest g = tt
  and_then-Empty (none, w) rest g = g w

  pub sync_catalog-Empty :
      (is : List AppInstanceData) (d : Bytes) (w : W)
      → is ≡ []
      → Holds Empty (sync_catalog client is d w).0
  unfolding sync_catalog wait_for_catalog_entry
  sync_catalog-Empty [] d w h = and_then-Empty (client.push d w) _ (λ w1.
      and_then-Empty (client.refresh_catalog w1) _
        (λ w2. after_catalog-Empty (wait_rounds client 20 [] [] w2) (wait_rounds-Empty 20 [] w2)))
  sync_catalog-Empty (i ∷ is) d w h = absurd cc
