-- ===== src/Adapter/Backup.antt =====
-- `getBackupData` of app/grpc/appmanager/adapters/rancher/adapter.go, the part of `updateUpgradeApps` that
-- plans the instances and their backups, and its test for a roll-back.
pub mod Planned
pub mod Merged
use grpc_gw_controller.Base.{
  ℕ, Option, none, some, Bool, true, false, not, ◌&&◌, ◌||◌, List, [], ◌∷◌, ◌++◌, String, string_eq,
  Outcome, ok, err, panic, if◌then◌else◌, bytes_eq, ltb, length, ◌>>=◌,
}
use grpc_gw_controller.Base.Text.{Bytes, bytes, has_prefix, contains}
use grpc_gw_controller.Base.Decimal.{ℤ, ParseError, atoi}
use grpc_gw_controller.Maps.{get}
use grpc_gw_controller.Messages.{state_of_int}
use grpc_gw_controller.Apps.{
  AppInstanceData, zero_instance, NextAction, upgrade, recreate, new_app_instances_data_empty,
}

abbrev pub recreate_error_prefix : Bytes
recreate_error_prefix = bytes "cannot recreate the application instance"

abbrev pub time_out_error_prefix : Bytes
time_out_error_prefix = bytes "timed out waiting for pods readiness"

-- `policy` is the setting that every upgrade is a new creation.
unfoldable pub update_action : Bool → AppInstanceData → NextAction
update_action policy i =
    if policy || bytes_eq i.requested_version i.current_version then recreate else upgrade

-- The backup, with the size of the storage and the state.
abbrev pub backup_of : Bool → AppInstanceData → ℤ → ℤ → AppInstanceData
backup_of policy existing size i = record zero_instance {
  instance_name = existing.instance_name;
  annotations = existing.annotations;
  template_available = existing.template_available;
  labels = existing.labels;
  current_version = existing.requested_version;
  requested_version = existing.current_version;
  target_namespace = existing.target_namespace;
  next_action = update_action policy existing;
  instance_storage_size = size;
  delete_instance_storage = true;
  state = state_of_int i;
}

unfoldable pub get_backup_data : Bool → AppInstanceData → Outcome ParseError AppInstanceData
get_backup_data policy existing =
    atoi (get existing.annotations "apphc.app.instance.volume.size") >>= λ size.
    atoi (get existing.annotations "apphc.app.instance.state") >>= λ i.
    ok (backup_of policy existing size i)

-- The instances to work on, and the backups.
pub record Plan : Type 0 where
  pub instances : List AppInstanceData
  pub backups : List AppInstanceData

module _ (policy : Bool) (version : Bytes) where
  unfoldable pub backups_of : List AppInstanceData → Outcome ParseError (List AppInstanceData)
  backups_of [] = ok []
  backups_of (e ∷ es) = get_backup_data policy e >>= λ b. backups_of es >>= λ bs. ok (b ∷ bs)

  -- What every running instance of the application sets, whatever its name: the version, where the
  -- request has none, and the size of the storage.
  unfoldable pub inherit : AppInstanceData → AppInstanceData → AppInstanceData
  inherit n e = record n {
    requested_version = if bytes_eq version [] then e.requested_version else n.requested_version;
    instance_storage_size = e.instance_storage_size;
  }

  unfoldable pub same_instance : AppInstanceData → AppInstanceData → AppInstanceData
  same_instance n e = record n {
    next_action = update_action policy e;
    current_version = get e.annotations "apphc.app.instance.version";
  }

  -- The inner loop, for one new instance: its body by whether the names are the same.
  abbrev pub merge_one :
      Bool
      → AppInstanceData
      → AppInstanceData
      → List AppInstanceData
      → (AppInstanceData
          → List AppInstanceData
          → Outcome ParseError (AppInstanceData × List AppInstanceData))
      → Outcome ParseError (AppInstanceData × List AppInstanceData)
  merge_one true n e backups rest =
      get_backup_data policy e >>= λ b. rest (inherit (same_instance n e) e) (backups ++ b ∷ [])
  merge_one false n e backups rest = rest (inherit n e) backups

  unfoldable pub merge_existing :
      AppInstanceData
      → List AppInstanceData
      → List AppInstanceData
      → Outcome ParseError (AppInstanceData × List AppInstanceData)
  merge_existing n [] backups = ok (n, backups)
  merge_existing n (e ∷ es) backups =
      merge_one (bytes_eq n.instance_name e.instance_name) n e backups
        (λ m bs. merge_existing m es bs)

  unfoldable pub merge_all :
      List AppInstanceData → List AppInstanceData → List AppInstanceData → Outcome ParseError Plan
  merge_all [] existing backups = ok (record { instances = []; backups = backups })
  merge_all (n ∷ ns) existing backups = merge_existing n existing backups >>= λ r.
      merge_all ns existing r.1 >>= λ p.
      ok (record { instances = r.0 ∷ p.instances; backups = p.backups })

  unfoldable pub plan : List AppInstanceData → List AppInstanceData → Outcome ParseError Plan
  plan [] existing =
      backups_of existing >>= λ bs. ok (record { instances = existing; backups = bs })
  plan (n ∷ ns) existing = merge_all (n ∷ ns) existing []

-- Whether an error of the work is answered by a roll-back.
unfoldable pub rolls_back : Bool → List AppInstanceData → Bytes → Bool
rolls_back from_catalog backups error_text =
    not from_catalog
    && (ltb 0 (length backups)
        && (has_prefix error_text recreate_error_prefix
            || contains error_text time_out_error_prefix))
