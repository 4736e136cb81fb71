-- ===== src/Nif/Handlers/Closed.antt =====
-- All handlers that run one operation, as one: what they do to the resource.
use ex_rocket.Prelude.{ℕ, Bool, ◌≡◌, refl, Option, none, some}
use ex_rocket.Text.Utf8.{Bytes, Chars}
use ex_rocket.Nif.Rocks.{Rocks}
use ex_rocket.Nif.Handlers.{
  Reply, closed, DbResource, guarded, with_db, put, get, delete, merge, merge_cf, delete_range,
  key_may_exist, drop_cf, put_cf, get_cf, delete_cf, delete_range_cf, key_may_exist_cf,
  latest_sequence_number, flush_wal,
}

-- A call that runs on an open database.
pub data Call : Type 0 where
  puts merges delete_ranges : Bytes → Bytes → Call
  gets deletes keys_may_exist : Bytes → Call
  puts_cf merges_cf delete_ranges_cf : Chars → Bytes → Bytes → Call
  gets_cf deletes_cf keys_may_exist_cf : Chars → Bytes → Call
  drops_cf : Chars → Call
  flushes_wal : Bool → Call
  sequence_numbers : Call

module _ (rocks : Rocks) where
  unfoldable pub perform : Call → DbResource rocks → Reply × DbResource rocks
  perform (puts key bytes) = put rocks key bytes
  perform (merges key operand) = merge rocks key operand
  perform (delete_ranges from to) = delete_range rocks from to
  perform (gets key) = get rocks key
  perform (deletes key) = delete rocks key
  perform (keys_may_exist key) = key_may_exist rocks key
  perform (puts_cf name key bytes) = put_cf rocks name key bytes
  perform (merges_cf name key operand) = merge_cf rocks name key operand
  perform (delete_ranges_cf name from to) = delete_range_cf rocks name from to
  perform (gets_cf name key) = get_cf rocks name key
  perform (deletes_cf name key) = delete_cf rocks name key
  perform (keys_may_exist_cf name key) = key_may_exist_cf rocks name key
  perform (drops_cf name) = drop_cf rocks name
  perform (flushes_wal sync) = flush_wal rocks (some sync)
  perform sequence_numbers = latest_sequence_number rocks

  -- A handler behind `db_read!` or `db_write!`.
  abbrev Guarded : (DbResource rocks → Reply × DbResource rocks) → Type 0
  Guarded handler = (body : rocks.Db → Reply × rocks.Db) × (handler ≡ with_db rocks body)

  perform-Guarded : (call : Call) → Guarded (perform call)
  unfolding perform put merge delete_range get delete key_may_exist put_cf merge_cf delete_range_cf
      get_cf delete_cf key_may_exist_cf drop_cf flush_wal latest_sequence_number
  perform-Guarded (puts key bytes) = (_, refl)
  perform-Guarded (merges key operand) = (_, refl)
  perform-Guarded (delete_ranges from to) = (_, refl)
  perform-Guarded (gets key) = (_, refl)
  perform-Guarded (deletes key) = (_, refl)
  perform-Guarded (keys_may_exist key) = (_, refl)
  perform-Guarded (puts_cf name key bytes) = (_, refl)
  perform-Guarded (merges_cf name key operand) = (_, refl)
  perform-Guarded (delete_ranges_cf name from to) = (_, refl)
  perform-Guarded (gets_cf name key) = (_, refl)
  perform-Guarded (deletes_cf name key) = (_, refl)
  perform-Guarded (keys_may_exist_cf name key) = (_, refl)
  perform-Guarded (drops_cf name) = (_, refl)
  perform-Guarded (flushes_wal sync) = (_, refl)
  perform-Guarded sequence_numbers = (_, refl)

  pub guarded-none :
      (body : rocks.Db → Reply × rocks.Db) (leases : ℕ) (db : Option rocks.Db)
      → db ≡ none
      → guarded rocks body leases db ≡ (closed, record { db = db; leases = leases })
  guarded-none body leases none e = refl
  guarded-none body leases (some db) e = cc

  pub guarded-some :
      (body : rocks.Db → Reply × rocks.Db) (leases : ℕ) (held : Option rocks.Db) {db : rocks.Db}
      → held ≡ some db
      → (db' : rocks.Db) × ((guarded rocks body leases held).1
          ≡ record { db = some db'; leases = leases })
  guarded-some body leases none e = cc
  guarded-some body leases (some db) e = (_, refl)

  -- On a closed resource every call replies `closed`, and the resource stays as it is.
  pub perform-closed :
      (call : Call) (resource : DbResource rocks)
      → resource.db ≡ none
      → perform call resource ≡ (closed, resource)
  perform-closed call resource e =
      let (body, same) = perform-Guarded call in
      rw same (guarded-none body resource.leases resource.db e)

  -- On an open resource a call leaves the database open, and the number of leases as it is.
  pub perform-open :
      (call : Call) (resource : DbResource rocks) (db : rocks.Db)
      → resource.db ≡ some db
      → (db' : rocks.Db) × ((perform call resource).1
          ≡ record { db = some db'; leases = resource.leases })
  perform-open call resource db e =
      let (body, same) = perform-Guarded call in
      rw same (guarded-some body resource.leases resource.db e)
