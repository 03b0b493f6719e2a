-- ===== src/Adapter/Catalog.antt =====
-- `syncCatalog` and `waitForCatalogEntry` of app/grpc/appmanager/adapters/rancher/adapter.go.
use grpc_gw_controller.Base.{
  ℕ, zero, suc, Option, none, some, Bool, true, false, List, [], ◌∷◌, Outcome, ok, err, panic,
  if◌then◌else◌, bytes_eq,
}
use grpc_gw_controller.Base.Text.{Bytes, bytes}
use grpc_gw_controller.Maps.{get}
use grpc_gw_controller.Apps.{AppInstanceData}

-- The push of the charts, the refresh of the catalog, `TemplateAvailable` of the package apiclient for
-- a name and a version, and a second of sleep.
pub record CatalogClient (W : Type 0) : Type 0 where
  pub push : Bytes → W → Option Bytes × W
  pub refresh_catalog : W → Option Bytes × W
  pub template_available : Bytes → Bytes → W → Outcome Bytes Bool × W
  pub sleep : W → W

-- The keys of the map `foundApps`: the instances that are not in the catalog yet.
unfoldable pub without : Bytes → List Bytes → List Bytes
without n [] = []
without n (m ∷ ms) = let rest = without n ms in if bytes_eq m n then rest else m ∷ rest

abbrev pub note_missing : Bytes → List Bytes → List Bytes
note_missing n ms = n ∷ without n ms

abbrev pub Checked : Type 0 → Type 0
Checked W = Outcome Bytes (List AppInstanceData × List Bytes) × W

module _ {W : Type 0} (client : CatalogClient W) where
  abbrev pub prepend : AppInstanceData → Checked W → Checked W
  prepend i (ok (is, ms), w) = (ok (i ∷ is, ms), w)
  prepend i (err e, w) = (err e, w)
  prepend i (panic, w) = (panic, w)

  -- The flag is set where the template is available, and never reset.
  abbrev pub after_check :
      AppInstanceData
      → List Bytes
      → (List Bytes → W → Checked W)
      → Outcome Bytes Bool × W
      → Checked W
  after_check i ms rest (ok true, w) =
      prepend (record i { template_available = true }) (rest (without i.instance_name ms) w)
  after_check i ms rest (ok false, w) = prepend i (rest (note_missing i.instance_name ms) w)
  after_check i ms rest (err e, w) = (err e, w)
  after_check i ms rest (panic, w) = (panic, w)

  -- One round over the instances.
  unfoldable pub check_all : List AppInstanceData → List Bytes → W → Checked W
  check_all [] ms w = (ok ([], ms), w)
  check_all (i ∷ is) ms w = after_check i ms (check_all is) (
      client.template_available (get i.annotations "apphc.app.instance.template_name")
        (get i.annotations "apphc.app.instance.version") w)

  abbrev pub next_round :
      (List AppInstanceData → List Bytes → W → Checked W) → Checked W → Checked W
  next_round rest (ok (is, []), w) = (ok (is, []), w)
  next_round rest (ok (is, m ∷ ms), w) = rest is (m ∷ ms) (client.sleep w)
  next_round rest (err e, w) = (err e, w)
  next_round rest (panic, w) = (panic, w)

  -- The rounds that are left.
  unfoldable pub wait_rounds : ℕ → List AppInstanceData → List Bytes → W → Checked W
  wait_rounds zero is ms w = (ok (is, ms), w)
  wait_rounds (suc k) is ms w = next_round (wait_rounds k) (check_all is ms w)

  abbrev pub after_catalog : Checked W → Outcome Bytes (List AppInstanceData) × W
  after_catalog (ok (is, []), w) = (ok is, w)
  after_catalog (ok (is, m ∷ ms), w) =
      (err (bytes "not all application instances available in catalog"), w)
  after_catalog (err e, w) = (err e, w)
  after_catalog (panic, w) = (panic, w)

  unfoldable pub wait_for_catalog_entry :
      List AppInstanceData → W → Outcome Bytes (List AppInstanceData) × W
  wait_for_catalog_entry is w = after_catalog (wait_rounds 20 is [] w)

  abbrev pub and_then :
      Option Bytes × W
      → (W → Outcome Bytes (List AppInstanceData) × W)
      → Outcome Bytes (List AppInstanceData) × W
  and_then (some e, w) rest = (err e, w)
  and_then (none, w) rest = rest w

  unfoldable pub sync_catalog :
      List AppInstanceData → Bytes → W → Outcome Bytes (List AppInstanceData) × W
  sync_catalog is description w =
      and_then (client.push description w)
        (λ w1. and_then (client.refresh_catalog w1) (wait_for_catalog_entry is))
