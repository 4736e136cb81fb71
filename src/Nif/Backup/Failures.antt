-- ===== src/Nif/Backup/Failures.antt =====
-- Failures of a backup engine, and the backup that is restored.
use ex_rocket.Prelude.{
  ℕ, zero, suc, ◌≤◌, ◌^◌, ◌≡◌, refl, ap, false, some, String, arith, ◌⊎◌, inl, inr,
}
use ex_rocket.Prelude.Int.{ℤ, pos, negsuc, IsI32, to_u32}
use ex_rocket.Prelude.Result.{err}
use ex_rocket.Text.Utf8.{Chars}
use ex_rocket.Nif.Rocks.{Rocks}
use ex_rocket.Nif.Handlers.{Reply, item, failed, DbResource}
use ex_rocket.Nif.Backup.{
  Engines, open_backup_engine, create_backup, get_backup_info, purge_old_backups, restored,
  restore_from_backup,
}

-- A call that opens a backup engine.
data BackupCall : Type 0 where
  creates informs : BackupCall
  purges : ℕ → BackupCall
  restores : Chars → ℤ → BackupCall

module _ (rocks : Rocks) (engines : Engines rocks) where
  open engines use {Disk}

  perform : BackupCall → Chars → DbResource rocks → Disk → Reply × Disk
  perform creates path resource = create_backup rocks engines path resource
  perform informs path resource = get_backup_info rocks engines path
  perform (purges keep) path resource = purge_old_backups rocks engines path keep
  perform (restores to backup_id) path resource =
      restore_from_backup rocks engines path to backup_id

  -- With an open database, a call whose engine cannot be opened replies with the reason, and does
  -- nothing after that.
  perform-failed :
      (call : BackupCall) (path : Chars) (resource : DbResource rocks) (db : rocks.Db)
      (disk disk' : Disk) (reason : String)
      → resource.db ≡ some db
      → open_backup_engine rocks engines path disk ≡ (err reason, disk')
      → perform call path resource disk ≡ (item (failed reason), disk')
  unfolding perform create_backup get_backup_info purge_old_backups restore_from_backup
  perform-failed creates path resource db disk disk' reason e h = rw (e, h) refl
  perform-failed informs path resource db disk disk' reason e h = rw h refl
  perform-failed (purges keep) path resource db disk disk' reason e h = rw h refl
  perform-failed (restores to backup_id) path resource db disk disk' reason e h = rw h refl

  -- An i32 asks for the latest backup if it is -1, and for the backup with its number if it is not
  -- negative. Any other asks for a number that no i32 has.
  restored-cases :
      (path : Chars) (backup_id : ℤ) (engine : engines.Engine) (disk : Disk)
      → IsI32 backup_id
      → ((backup_id ≡ negsuc 0)
          × (restored rocks engines path backup_id engine disk
              ≡ engines.restore_from_latest_backup engine path path false disk))
        ⊎ ((n : ℕ) × ((backup_id ≡ pos n) ⊎ (2 ^ 31 ≤ n))
            × (restored rocks engines path backup_id engine disk
                ≡ engines.restore_from_backup engine path path false n disk))
  unfolding to_u32
  restored-cases path (pos n) engine disk small = inr (
    n,
    inl refl,
    ap (λ (m : ℕ). engines.restore_from_backup engine path path false m disk)
        (omega (arith, small)),
  )
  restored-cases path (negsuc zero) engine disk small = inl (refl, refl)
  restored-cases path (negsuc (suc n)) engine disk small = inr (_, inr (omega (arith, small)), refl)
