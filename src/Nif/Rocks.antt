-- ===== src/Nif/Rocks.antt =====
-- What the handlers take from the `rocksdb` crate. A database changes behind a shared reference, so
-- an operation that writes returns the database after it.
use ex_rocket.Prelude.{ℕ, Bool, Option, List, String}
use ex_rocket.Prelude.Int.{ℤ}
use ex_rocket.Prelude.Result.{Result}
use ex_rocket.Text.Utf8.{Bytes, Chars}
use ex_rocket.Options.Write as Write

-- One operation of a `WriteBatch` on column families of the type `Cf`.
pub data BatchOperation (Cf : Type 0) : Type 0 where
  put : Bytes → Bytes → BatchOperation Cf
  delete : Bytes → BatchOperation Cf
  put_cf : Cf → Bytes → Bytes → BatchOperation Cf
  delete_cf : Cf → Bytes → BatchOperation Cf
  merge : Bytes → Bytes → BatchOperation Cf
  merge_cf : Cf → Bytes → Bytes → BatchOperation Cf
  delete_range : Bytes → Bytes → BatchOperation Cf

-- `BackupEngineInfo`
pub record BackupInfo : Type 0 where
  pub backup_id : ℕ
  pub timestamp : ℤ
  pub size : ℕ
  pub num_files : ℕ

-- `Ok(())` or the reason of a failure.
abbrev pub Outcome : Type 0
Outcome = Result String Unit

-- `Ok(Some(value))`, `Ok(None)` or the reason of a failure.
abbrev pub Lookup : Type 0
Lookup = Result String (Option Bytes)

pub record Rocks : Type 1 where
  pub Db : Type 0
  pub Cf : Type 0
  pub Snapshot : Type 0
  pub cf_handle : Db → Chars → Option Cf
  pub put : Bytes → Bytes → Db → Outcome × Db
  pub put_cf : Cf → Bytes → Bytes → Db → Outcome × Db
  pub get : Bytes → Db → Lookup
  pub get_cf : Cf → Bytes → Db → Lookup
  pub multi_get : List Bytes → Db → List Lookup
  pub multi_get_cf : List (Cf × Bytes) → Db → List Lookup
  pub delete : Bytes → Db → Outcome × Db
  pub delete_cf : Cf → Bytes → Db → Outcome × Db
  pub merge : Bytes → Bytes → Db → Outcome × Db
  pub merge_cf : Cf → Bytes → Bytes → Db → Outcome × Db
  pub delete_range_cf : Cf → Bytes → Bytes → Db → Outcome × Db
  pub key_may_exist : Bytes → Db → Bool
  pub key_may_exist_cf : Cf → Bytes → Db → Bool
  pub drop_cf : Chars → Db → Outcome × Db
  pub flush_wal : Bool → Db → Outcome × Db
  pub latest_sequence_number : Db → ℕ
  pub write : List (BatchOperation Cf) → Db → Outcome × Db
  pub write_opt : List Write.Call → List (BatchOperation Cf) → Db → Outcome × Db
  pub snapshot : Db → Snapshot
  pub snapshot_get : Bytes → Snapshot → Lookup
  pub snapshot_get_cf : Cf → Bytes → Snapshot → Lookup
  pub snapshot_multi_get : List Bytes → Snapshot → List Lookup
  pub snapshot_multi_get_cf : List (Cf × Bytes) → Snapshot → List Lookup
