-- ===== src/Nif/Handlers.antt =====
-- The handlers of native/rocker/src/nif.rs that run one operation of RocksDB, and `close`. That a
-- binary cannot be allocated is not modelled.
pub mod Closed
use ex_rocket.Prelude.{
  ℕ, Bool, true, false, Option, none, some, List, [], ◌∷◌, String, ◌==◌, if◌then◌else◌,
}
use ex_rocket.Prelude.Result.{Result, ok, err}
use ex_rocket.Text.Utf8.{Bytes, Chars}
use ex_rocket.Nif.Rocks.{
  Rocks, Outcome, Lookup, BackupInfo, BatchOperation, delete_range as range_operation,
}

-- `{ok, Value}`, `undefined` or `{error, Reason}`
pub data Item : Type 0 where
  found : Bytes → Item
  undefined : Item
  failed : String → Item

-- What Erlang receives.
pub data Reply : Type 0 where
  done : Reply
  item : Item → Reply
  items : List Item → Reply
  number : ℕ → Reply
  flag : Bool → Reply
  closed resource_busy unknown_cf invalid_write_options invalid_iterator_options : Reply
  unknown_option invalid_option : String → Reply
  db_path : Chars → Reply
  cf_names : List Chars → Reply
  backups : List BackupInfo → Reply
  -- `Err(Error::BadArg)`
  bad_arg : Reply

abbrev pub looked_up : Lookup → Item
looked_up (ok (some bytes)) = found bytes
looked_up (ok none) = undefined
looked_up (err reason) = failed reason

abbrev pub written : {S : Type 0} → Outcome × S → Reply × S
written (ok tt, s) = (done, s)
written (err reason, s) = (item (failed reason), s)

module _ (rocks : Rocks) where
  open rocks use {Db, Cf, cf_handle}

  pub record DbResource : Type 0 where
    pub db : Option Db
    pub leases : ℕ

  -- `DbResource::new`
  abbrev pub new : Db → DbResource
  new db = record { db = some db; leases = 0 }

  abbrev pub after : ℕ → Reply × Db → Reply × DbResource
  after leases (reply, db) = (reply, record { db = some db; leases = leases })

  abbrev pub guarded : (Db → Reply × Db) → ℕ → Option Db → Reply × DbResource
  guarded body leases none = (closed, record { db = none; leases = leases })
  guarded body leases (some db) = after leases (body db)

  -- `db_read!` and `db_write!` before the rest of a handler: a closed resource ends the call.
  abbrev pub with_db : (Db → Reply × Db) → DbResource → Reply × DbResource
  with_db body resource = guarded body resource.leases resource.db

  abbrev pub on_cf : Option Cf → (Cf → Db → Reply × Db) → Db → Reply × Db
  on_cf none body db = (unknown_cf, db)
  on_cf (some cf) body db = body cf db

  -- `let Some(cf) = guard.cf_handle(&name) else { … }` before the rest of a handler.
  abbrev pub with_cf : Chars → (Cf → Db → Reply × Db) → DbResource → Reply × DbResource
  with_cf name body = with_db λ db. on_cf (cf_handle db name) body db

  unfoldable pub put : Bytes → Bytes → DbResource → Reply × DbResource
  put key value = with_db λ db. written (rocks.put key value db)

  unfoldable pub get : Bytes → DbResource → Reply × DbResource
  get key = with_db λ db. (item (looked_up (rocks.get key db)), db)

  unfoldable pub delete : Bytes → DbResource → Reply × DbResource
  delete key = with_db λ db. written (rocks.delete key db)

  unfoldable pub merge : Bytes → Bytes → DbResource → Reply × DbResource
  merge key operand = with_db λ db. written (rocks.merge key operand db)

  unfoldable pub merge_cf : Chars → Bytes → Bytes → DbResource → Reply × DbResource
  merge_cf name key operand = with_cf name λ cf db. written (rocks.merge_cf cf key operand db)

  unfoldable pub delete_range : Bytes → Bytes → DbResource → Reply × DbResource
  delete_range from to = with_db λ db. written (rocks.write (range_operation from to ∷ []) db)

  unfoldable pub key_may_exist : Bytes → DbResource → Reply × DbResource
  key_may_exist key = with_db λ db. (flag (rocks.key_may_exist key db), db)

  unfoldable pub drop_cf : Chars → DbResource → Reply × DbResource
  drop_cf name = with_db λ db. written (rocks.drop_cf name db)

  unfoldable pub put_cf : Chars → Bytes → Bytes → DbResource → Reply × DbResource
  put_cf name key value = with_cf name λ cf db. written (rocks.put_cf cf key value db)

  unfoldable pub get_cf : Chars → Bytes → DbResource → Reply × DbResource
  get_cf name key = with_cf name λ cf db. (item (looked_up (rocks.get_cf cf key db)), db)

  unfoldable pub delete_cf : Chars → Bytes → DbResource → Reply × DbResource
  delete_cf name key = with_cf name λ cf db. written (rocks.delete_cf cf key db)

  unfoldable pub delete_range_cf : Chars → Bytes → Bytes → DbResource → Reply × DbResource
  delete_range_cf name from to = with_cf name λ cf db. written (rocks.delete_range_cf cf from to db)

  unfoldable pub key_may_exist_cf : Chars → Bytes → DbResource → Reply × DbResource
  key_may_exist_cf name key = with_cf name λ cf db. (flag (rocks.key_may_exist_cf cf key db), db)

  unfoldable pub latest_sequence_number : DbResource → Reply × DbResource
  latest_sequence_number = with_db λ db. (number (rocks.latest_sequence_number db), db)

  -- `sync` is `none` if the term is no Boolean.
  unfoldable pub flush_wal : Option Bool → DbResource → Reply × DbResource
  flush_wal none resource = (invalid_write_options, resource)
  flush_wal (some sync) resource = with_db (λ db. written (rocks.flush_wal sync db)) resource

  abbrev pub close_open : Option Db → ℕ → Reply × DbResource
  close_open none leases = (done, record { db = none; leases = leases })
  close_open (some db) leases =
      if leases == 0
      then (done, record { db = none; leases = leases })
      else (resource_busy, record { db = some db; leases = leases })

  unfoldable pub close : DbResource → Reply × DbResource
  close resource = close_open resource.db resource.leases
