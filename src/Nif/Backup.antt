-- ===== src/Nif/Backup.antt =====
-- The handlers of native/rocker/src/nif.rs for checkpoints and backups: `create_checkpoint`,
-- `create_backup`, `get_backup_info`, `purge_old_backups` and `restore_from_backup`. The files of all
-- databases and backups are passed along; a database is read behind its guard and stays as it is.
pub mod Failures
use ex_rocket.Prelude.{
  ℕ, zero, suc, Bool, true, false, Option, none, some, List, [], ◌∷◌, String, if◌then◌else◌,
}
use ex_rocket.Prelude.Int.{ℤ, pos, negsuc, to_u32}
use ex_rocket.Prelude.Result.{Result, ok, err, ◌>>=◌}
use ex_rocket.Text.Utf8.{Chars}
use ex_rocket.Nif.Rocks.{Rocks, BackupInfo, Outcome}
use ex_rocket.Nif.Handlers.{Reply, item, failed, closed, backups, written, DbResource}

-- The functions of the crate on checkpoints and backup engines.
pub record Engines (rocks : Rocks) : Type 1 where
  pub Disk : Type 0
  pub Checkpoint : Type 0
  pub EngineOptions : Type 0
  pub Environment : Type 0
  pub Engine : Type 0
  pub new_checkpoint : rocks.Db → Result String Checkpoint
  pub create_checkpoint : Checkpoint → Chars → Disk → Outcome × Disk
  pub new_options : Chars → Result String EngineOptions
  pub new_env : Result String Environment
  pub open_engine : EngineOptions → Environment → Disk → Result String Engine × Disk
  pub get_backup_info : Engine → Disk → List BackupInfo
  pub create_new_backup : Engine → rocks.Db → Disk → Outcome × Disk
  pub purge_old_backups : Engine → ℕ → Disk → Outcome × Disk
  -- The path of the database, the path of its log, whether log files are kept, and the backup.
  pub restore_from_latest_backup : Engine → Chars → Chars → Bool → Disk → Outcome × Disk
  pub restore_from_backup : Engine → Chars → Chars → Bool → ℕ → Disk → Outcome × Disk

abbrev pub is_minus_one : ℤ → Bool
is_minus_one (pos n) = false
is_minus_one (negsuc zero) = true
is_minus_one (negsuc (suc n)) = false

module _ (rocks : Rocks) (engines : Engines rocks) where
  open engines use {Disk, Checkpoint, EngineOptions, Environment, Engine}

  -- `db_read!` before the rest of a handler.
  abbrev pub on_guard : Option rocks.Db → (rocks.Db → Disk → Reply × Disk) → Disk → Reply × Disk
  on_guard none body disk = (closed, disk)
  on_guard (some db) body disk = body db disk

  abbrev pub with_checkpoint : Result String Checkpoint → Chars → Disk → Outcome × Disk
  with_checkpoint (err reason) path disk = (err reason, disk)
  with_checkpoint (ok checkpoint) path disk = engines.create_checkpoint checkpoint path disk

  unfoldable pub create_checkpoint : Chars → DbResource rocks → Disk → Reply × Disk
  create_checkpoint path resource =
      on_guard resource.db
        λ db disk. written (with_checkpoint (engines.new_checkpoint db) path disk)

  abbrev pub open_with :
      Result String (EngineOptions × Environment) → Disk → Result String Engine × Disk
  open_with (err reason) disk = (err reason, disk)
  open_with (ok (options, env)) disk = engines.open_engine options env disk

  unfoldable pub open_backup_engine : Chars → Disk → Result String Engine × Disk
  open_backup_engine path =
      open_with (do options ← engines.new_options path; env ← engines.new_env; ok (options, env))

  -- `match open_backup_engine(…)` before the rest of a handler: a failure ends the call.
  abbrev pub on_engine : (Engine → Disk → Reply × Disk) → Result String Engine × Disk → Reply × Disk
  on_engine body (ok engine, disk) = body engine disk
  on_engine body (err reason, disk) = (item (failed reason), disk)

  -- `Ok(())` is answered with `backup_info`.
  abbrev pub informed : Engine → Outcome × Disk → Reply × Disk
  informed engine (ok tt, disk) = (backups (engines.get_backup_info engine disk), disk)
  informed engine (err reason, disk) = (item (failed reason), disk)

  unfoldable pub create_backup : Chars → DbResource rocks → Disk → Reply × Disk
  create_backup path resource = on_guard resource.db λ db disk.
      on_engine (λ engine d. informed engine (engines.create_new_backup engine db d))
        (open_backup_engine path disk)

  unfoldable pub get_backup_info : Chars → Disk → Reply × Disk
  get_backup_info path disk =
      on_engine (λ engine d. (backups (engines.get_backup_info engine d), d))
        (open_backup_engine path disk)

  unfoldable pub purge_old_backups : Chars → ℕ → Disk → Reply × Disk
  purge_old_backups path keep disk =
      on_engine (λ engine d. informed engine (engines.purge_old_backups engine keep d))
        (open_backup_engine path disk)

  abbrev pub restored : Chars → ℤ → Engine → Disk → Outcome × Disk
  restored restore_path backup_id engine disk =
      if is_minus_one backup_id
      then engines.restore_from_latest_backup engine restore_path restore_path false disk
      else engines.restore_from_backup engine restore_path restore_path false (to_u32 backup_id)
          disk

  unfoldable pub restore_from_backup : Chars → Chars → ℤ → Disk → Reply × Disk
  restore_from_backup backup_path restore_path backup_id disk =
      on_engine (λ engine d. written (restored restore_path backup_id engine d))
        (open_backup_engine backup_path disk)
