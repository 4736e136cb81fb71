-- ===== src/Nif/Snapshot/Repeats.antt =====
-- The readers of a snapshot against the readers of the database, `get`, `get_cf`, `multi_get` and
-- `multi_get_cf`.
use mathlib.Core.List.{Memᴰ}
use ex_rocket.Prelude.{
  ℕ, ◌<◌, ◌≡◌, refl, ap, Option, some, List, [], ◌∷◌, length, arith, Option-cases, inl, inr,
}
use ex_rocket.Prelude.Chain.{◌>>=◌, collect}
use ex_rocket.Text.Utf8.{Bytes, Chars}
use ex_rocket.Options.Rustler.{Rustler}
use ex_rocket.Nif.Rocks.{Rocks}
use ex_rocket.Nif.Handlers.{Reply, DbResource, get, get_cf}
use ex_rocket.Nif.Lifecycle.{SnapshotResource, World, Reachable}
use ex_rocket.Nif.Lifecycle.Closing.{Reachable-open}
use ex_rocket.Nif.MultiGet.{pair_of, request_of, multi_get, multi_get_cf}
use ex_rocket.Nif.Snapshot.{
  Resources, decode_snapshot, snapshot_get, snapshot_get_cf, snapshot_multi_get,
  snapshot_multi_get_cf,
}

-- A snapshot of a database reads what the database held when it was taken.
pub record Frozen (rocks : Rocks) : Type 0 where
  pub one :
      (key : Bytes) (db : rocks.Db) → rocks.snapshot_get key (rocks.snapshot db) ≡ rocks.get key db
  pub one_cf :
      (cf : rocks.Cf) (key : Bytes) (db : rocks.Db)
      → rocks.snapshot_get_cf cf key (rocks.snapshot db) ≡ rocks.get_cf cf key db
  pub many :
      (keys : List Bytes) (db : rocks.Db)
      → rocks.snapshot_multi_get keys (rocks.snapshot db) ≡ rocks.multi_get keys db
  pub many_cf :
      (requests : List (rocks.Cf × Bytes)) (db : rocks.Db)
      → rocks.snapshot_multi_get_cf requests (rocks.snapshot db) ≡ rocks.multi_get_cf requests db

-- What a call reads.
pub data Read (Term : Type 0) : Type 0 where
  one : Bytes → Read Term
  one_cf : Chars → Bytes → Read Term
  many many_cf : Term → Read Term

module _ (r : Rustler) (rocks : Rocks) (resources : Resources r rocks) where
  open r use {Term, decode_binary, decode_list}
  open rocks use {Db, Cf, cf_handle}

  -- The call on a snapshot, and the call on a database.
  unfoldable pub read_snapshot : Term → Read Term → DbResource rocks → Reply × DbResource rocks
  read_snapshot term (one key) = snapshot_get r rocks resources term key
  read_snapshot term (one_cf name key) = snapshot_get_cf r rocks resources term name key
  read_snapshot term (many keys) = snapshot_multi_get r rocks resources term keys
  read_snapshot term (many_cf keys) = snapshot_multi_get_cf r rocks resources term keys

  unfoldable pub read_db : Read Term → DbResource rocks → Reply × DbResource rocks
  read_db (one key) = get rocks key
  read_db (one_cf name key) = get_cf rocks name key
  read_db (many keys) = multi_get r rocks keys
  read_db (many_cf keys) = multi_get_cf r rocks keys

  -- Two databases that know the same column families.
  abbrev pub SameFamilies : Db → Db → Type 0
  SameFamilies now before = (name : Chars) → cf_handle now name ≡ cf_handle before name

  collect-request_of :
      (now before : Db)
      → SameFamilies now before
      → (pairs : List (Chars × Bytes))
      → collect (request_of r rocks now) pairs ≡ collect (request_of r rocks before) pairs
  unfolding collect
  collect-request_of now before same [] = refl
  collect-request_of now before same ((name, key) ∷ pairs) =
      rw (same name, collect-request_of now before same pairs) refl

  module _ (frozen : Frozen rocks) (before now : Db) (same : SameFamilies now before) where
    -- The same call on a snapshot, with the database as it is now, and on the database as it was.
    read-repeats :
        (term : Term) (s : SnapshotResource rocks) (read : Read Term) (m n : ℕ)
        → decode_snapshot r rocks resources term ≡ some s
        → s.snapshot ≡ rocks.snapshot before
        → read_snapshot term read (record { db = some now; leases = n }) ≡ (
          (read_db read (record { db = some before; leases = m })).0,
          record { db = some now; leases = n },
        )
    unfolding read_snapshot read_db snapshot_get snapshot_get_cf snapshot_multi_get
        snapshot_multi_get_cf get get_cf multi_get multi_get_cf
    read-repeats term s (one key) m n d taken = rw (d, taken, frozen.one key before) refl
    read-repeats term s (one_cf name key) m n d taken =
        elim (Option-cases (cf_handle before name)) [
          | inl e ↦ rw (d, same name, e) refl
          | inr (cf, e) ↦ rw (d, same name, e, taken, frozen.one_cf cf key before) refl
        ]
    read-repeats term s (many keys) m n d taken = elim (Option-cases (decode_list keys)) [
      | inl e ↦ rw e refl
      | inr (listed, e) ↦ elim (Option-cases (collect decode_binary listed)) [
        | inl bad ↦ rw (e, d, bad) refl
        | inr (names, read) ↦ rw (e, d, read, taken, frozen.many names before) refl
      ]
    ]
    read-repeats term s (many_cf keys) m n d taken =
        elim (Option-cases (decode_list keys >>= collect (pair_of r rocks))) [
          | inl e ↦ rw e refl
          | inr (pairs, e) ↦
              let requested = collect-request_of now before same pairs in
              elim (Option-cases (collect (request_of r rocks before) pairs)) [
                | inl unknown ↦ rw (e, d, requested, unknown) refl
                | inr (requests, known) ↦
                    rw (e, d, requested, known, taken, frozen.many_cf requests before) refl
              ]
        ]

  held :
      (resource : DbResource rocks) (db : Db)
      → resource.db ≡ some db
      → resource ≡ record { db = some db; leases = resource.leases }
  held resource db e =
      ap
        (λ (o : Option Db).
          let x : DbResource rocks = record { db = o; leases = resource.leases } in x)
        e

  alive-Memᴰ :
      (w : World rocks) (s : SnapshotResource rocks) (snapshots : List (SnapshotResource rocks))
      → Memᴰ s snapshots
      → 0 < length snapshots
  alive-Memᴰ w s [] m = elim m [ ]
  alive-Memᴰ w s (x ∷ snapshots) m = omega arith

  -- As long as a snapshot lives, in every world that calls and drops reach, each of its four readers
  -- replies what the reader of the database replied when the snapshot was taken, and changes nothing:
  -- no write in between is seen, and no `close` gets in between. The column families must be the same
  -- now as then, since they are looked up in the database of now.
  pub read_snapshot-repeats :
      (frozen : Frozen rocks) (w : World rocks) (s : SnapshotResource rocks) (term : Term)
      (read : Read Term) (taken_from : DbResource rocks) (before : Db)
      → Reachable rocks w
      → Memᴰ s w.snapshots
      → decode_snapshot r rocks resources term ≡ some s
      → taken_from.db ≡ some before
      → s.snapshot ≡ rocks.snapshot before
      → ((now : Db) → w.resource.db ≡ some now → SameFamilies now before)
      → read_snapshot term read w.resource ≡ ((read_db read taken_from).0, w.resource)
  read_snapshot-repeats frozen w s term read taken_from before reached m d open_then taken same =
      let (now, open_now) =
        Reachable-open rocks w reached (omega (arith, alive-Memᴰ w s w.snapshots m)) in
      let repeats =
        read-repeats frozen before now (same now open_now) term s read taken_from.leases
          w.resource.leases d taken in
      rw (held w.resource now open_now, held taken_from before open_then) repeats
