-- ===== src/Nif/Iterators/Asked.antt =====
-- The calls that make an iterator, as one, and what each of them asks for.
use ex_rocket.Prelude.{ℕ, List, ◌∷◌, ◌++◌, ◌+◌, ◌≡◌, true, false, Option, none, some}
use ex_rocket.Prelude.Chain.{◌>>=◌}
use ex_rocket.Prelude.Result.{Result, ok, err}
use ex_rocket.Text.Utf8.{Bytes, Chars}
use ex_rocket.Options.Rustler.{Rustler}
use ex_rocket.Options.Read.{RockerReadOptions, ReadOptionsError, Call, decode, from}
use ex_rocket.Nif.Rocks.{Rocks}
use ex_rocket.Nif.Handlers.{Reply}
use ex_rocket.Nif.Lifecycle.{SnapshotResource, World}
use ex_rocket.Nif.Mode.{iterator_mode, choose}
use ex_rocket.Nif.Snapshot.{Resources, decode_snapshot}
use ex_rocket.Nif.Take.{Source}
use ex_rocket.Nif.Iterators.{
  Iterators, Made, made, refused, range_calls, iterator, iterator_range, prefix_iterator,
  iterator_cf, prefix_iterator_cf, snapshot_iterator, snapshot_iterator_cf,
}

-- A call that makes an iterator.
pub data IteratorCall (Term : Type 0) : Type 0 where
  iterates_db : Term → IteratorCall Term
  iterates_range : Term → Term → Term → Term → IteratorCall Term
  iterates_prefix : Bytes → IteratorCall Term
  iterates_cf : Chars → Term → IteratorCall Term
  iterates_prefix_cf : Chars → Bytes → IteratorCall Term
  iterates_snapshot : Term → Term → IteratorCall Term
  iterates_snapshot_cf : Term → Chars → Term → IteratorCall Term

module _ (r : Rustler) (rocks : Rocks) (resources : Resources r rocks) (source : Source)
    (iterators : Iterators rocks source) where
  open r use {Term, decode_binary}
  open rocks use {Db, cf_handle}
  open source use {Iter}

  unfoldable pub run_iterator : IteratorCall Term → World rocks → Made source × World rocks
  run_iterator (iterates_db mode) = iterator r rocks resources source iterators mode
  run_iterator (iterates_range mode from to options) =
      iterator_range r rocks resources source iterators mode from to options
  run_iterator (iterates_prefix prefix) = prefix_iterator r rocks resources source iterators prefix
  run_iterator (iterates_cf name mode) = iterator_cf r rocks resources source iterators name mode
  run_iterator (iterates_prefix_cf name prefix) =
      prefix_iterator_cf r rocks resources source iterators name prefix
  run_iterator (iterates_snapshot resource mode) =
      snapshot_iterator r rocks resources source iterators resource mode
  run_iterator (iterates_snapshot_cf resource name mode) =
      snapshot_iterator_cf r rocks resources source iterators resource name mode

  -- The snapshot that a call names.
  abbrev pub snapshot_of : IteratorCall Term → Option (SnapshotResource rocks)
  snapshot_of (iterates_snapshot resource mode) = decode_snapshot r rocks resources resource
  snapshot_of (iterates_snapshot_cf resource name mode) = decode_snapshot r rocks resources resource
  snapshot_of _ = none

  -- The options of a call, where they decode.
  abbrev pub calls_of : Result ReadOptionsError RockerReadOptions → Option (List Call)
  calls_of (ok options) = some (from options)
  calls_of (err reason) = none

  -- What a call asks for, if it asks for an iterator that can be made: the iterator of the crate, and
  -- the snapshot that it reads from.
  abbrev pub asked : IteratorCall Term → World rocks → Option (Iter × Option ℕ)
  asked (iterates_db mode) w = do
    m ← iterator_mode r mode
    db ← w.resource.db
    some (iterators.iterator (choose m) db, none)
  asked (iterates_range mode from to options) w = do
    calls ← calls_of (decode r options)
    m ← iterator_mode r mode
    db ← w.resource.db
    some (
      iterators.iterator_opt (calls ++ range_calls (decode_binary from) (decode_binary to))
          (choose m) db,
      none,
    )
  asked (iterates_prefix prefix) w = do
    db ← w.resource.db
    some (iterators.prefix_iterator prefix db, none)
  asked (iterates_cf name mode) w = do
    m ← iterator_mode r mode
    db ← w.resource.db
    cf ← cf_handle db name
    some (iterators.iterator_cf cf (choose m) db, none)
  asked (iterates_prefix_cf name prefix) w = do
    db ← w.resource.db
    cf ← cf_handle db name
    some (iterators.prefix_iterator_cf cf prefix db, none)
  asked (iterates_snapshot resource mode) w = do
    s ← decode_snapshot r rocks resources resource
    m ← iterator_mode r mode
    some (iterators.snapshot_iterator (choose m) s.snapshot, some s.id)
  asked (iterates_snapshot_cf resource name mode) w = do
    s ← decode_snapshot r rocks resources resource
    db ← w.resource.db
    cf ← cf_handle db name
    m ← iterator_mode r mode
    some (iterators.snapshot_iterator_cf cf (choose m) s.snapshot, some s.id)

  -- The world with one iterator more: it holds a new lease, or a snapshot.
  abbrev pub stored : Option ℕ → World rocks → World rocks
  stored none w = record w {
    resource = record { db = w.resource.db; leases = w.resource.leases + 1 };
    iterators = record { snapshot_owner = none; lease = true } ∷ w.iterators;
  }
  stored (some id) w = record w {
    iterators = record { snapshot_owner = some id; lease = false } ∷ w.iterators;
  }

  -- A refusal that leaves the world as it is, or the iterator that was asked for, with nothing pending,
  -- in the world that has one iterator more.
  abbrev pub Makes : World rocks → Option (Iter × Option ℕ) → Made source × World rocks → Type 0
  Makes w none outcome = (reply : Reply) × (outcome ≡ (refused reply, w))
  Makes w (some (iter, owner)) outcome =
      outcome ≡ (made (record { iter = iter; pending = none }), stored owner w)
