-- ===== src/Adapter/Backup/Planned.antt =====
-- What the plan of an update has, and that a backup leads back.
use grpc_gw_controller.Base.{
  Bool, true, false, Bool-cases, bytes_eq, string_eq, Outcome, ok, err, panic, bytes_eq_iff, arith,
  ◌≡◌, ◌≢◌, ◌⊎◌, inl, inr, refl, ◌>>=◌,
}
use grpc_gw_controller.Base.Decimal.{ℤ, ParseError, atoi}
use grpc_gw_controller.Maps.{get}
use grpc_gw_controller.Apps.{AppInstanceData, recreate, upgrade}
use grpc_gw_controller.Adapter.Backup.{update_action, backup_of, get_backup_data}

-- A backup asks for what the instance has, from the version that the instance is to have: anew where the
-- setting says so or the versions are the same, and by an upgrade otherwise. Its annotations are those
-- at the time of the backup.
abbrev pub IsBackup : Bool → AppInstanceData → AppInstanceData → Type 0
IsBackup policy e b =
    (b.instance_name ≡ e.instance_name)
    × (b.annotations ≡ e.annotations)
    × (b.target_namespace ≡ e.target_namespace)
    × (b.requested_version ≡ e.current_version)
    × (b.current_version ≡ e.requested_version)
    × (((policy ≡ true) × (b.next_action ≡ recreate))
        ⊎ ((e.requested_version ≡ e.current_version) × (b.next_action ≡ recreate))
        ⊎ ((policy ≡ false)
            × (e.requested_version ≢ e.current_version)
            × (b.next_action ≡ upgrade)))

update_action-cases :
    (policy : Bool) (i : AppInstanceData)
    → ((policy ≡ true) × (update_action policy i ≡ recreate))
      ⊎ ((i.requested_version ≡ i.current_version) × (update_action policy i ≡ recreate))
      ⊎ ((policy ≡ false)
          × (i.requested_version ≢ i.current_version)
          × (update_action policy i ≡ upgrade))
unfolding update_action
update_action-cases true i = inl (refl, refl)
update_action-cases false i =
    let same = bytes_eq_iff i.requested_version i.current_version in
    elim (Bool-cases (bytes_eq i.requested_version i.current_version)) [
      | inl e ↦ rw e (inr (inl (same.0 e, refl)))
      | inr e ↦ rw e (inr (inr (refl, λ q. cc (same.1 q, e), refl)))
    ]

update_action-swap :
    (policy : Bool) (i j : AppInstanceData)
    → j.requested_version ≡ i.current_version
    → j.current_version ≡ i.requested_version
    → update_action policy j ≡ update_action policy i
unfolding update_action
update_action-swap policy i j h k =
    rw (h, k)
      (ground (
        arith,
        bytes_eq_iff i.current_version i.requested_version,
        bytes_eq_iff i.requested_version i.current_version,
      ))

get_backup_data-ok :
    (policy : Bool) (e : AppInstanceData) (size i : ℤ)
    → atoi (get e.annotations "apphc.app.instance.volume.size") ≡ ok size
    → atoi (get e.annotations "apphc.app.instance.state") ≡ ok i
    → get_backup_data policy e ≡ ok (backup_of policy e size i)
unfolding get_backup_data
get_backup_data-ok policy e size i h k = rw (h, k) refl

get_backup_data-err :
    (policy : Bool) (e : AppInstanceData) (x : ParseError)
    → (atoi (get e.annotations "apphc.app.instance.volume.size") ≡ err x)
      ⊎ (atoi (get e.annotations "apphc.app.instance.state") ≡ err x)
    → (b : AppInstanceData) → get_backup_data policy e ≢ ok b
unfolding get_backup_data
get_backup_data-err policy e x (inl h) b k = cc (rw h at k)
get_backup_data-err policy e x (inr h) b k =
    no_state (atoi (get e.annotations "apphc.app.instance.volume.size")) (rw h at k)
  where
    no_state :
        (o : Outcome ParseError ℤ)
        → (o >>= λ size. err x >>= λ i. ok (backup_of policy e size i)) ≢ ok b
    no_state (ok a) z = cc
    no_state (err y) z = cc
    no_state panic z = cc

-- Where the size of the volume and the state of an instance are numbers, it has a backup, which asks for
-- the version that the instance has and comes from the one that it is to have, anew where the setting
-- says so or the versions are the same and by an upgrade otherwise; and the
-- backup of that backup asks again for what the instance was to have. Where one of them is not a number,
-- as with an instance that has no state, there is no backup.
pub get_backup_data-IsBackup :
    (policy : Bool) (e : AppInstanceData)
    → ((size i : ℤ)
        → atoi (get e.annotations "apphc.app.instance.volume.size") ≡ ok size
        → atoi (get e.annotations "apphc.app.instance.state") ≡ ok i
        → (b : AppInstanceData) × (c : AppInstanceData) × (get_backup_data policy e ≡ ok b)
          × IsBackup policy e b
          × (get_backup_data policy b ≡ ok c)
          × (c.requested_version ≡ e.requested_version)
          × (c.current_version ≡ e.current_version)
          × (c.next_action ≡ b.next_action))
      × ((x : ParseError)
          → (atoi (get e.annotations "apphc.app.instance.volume.size") ≡ err x)
            ⊎ (atoi (get e.annotations "apphc.app.instance.state") ≡ err x)
          → (b : AppInstanceData) → get_backup_data policy e ≢ ok b)
unfolding update_action
get_backup_data-IsBackup policy e = (
  λ size i h k.
      let b = backup_of policy e size i in
      (
        b,
        backup_of policy b size i,
        get_backup_data-ok policy e size i h k,
        (refl, refl, refl, refl, refl, update_action-cases policy e),
        get_backup_data-ok policy b size i h k,
        refl,
        refl,
        update_action-swap policy e b refl refl,
      ),
  λ x h b. get_backup_data-err policy e x h b,
)
