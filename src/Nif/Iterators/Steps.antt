-- ===== src/Nif/Iterators/Steps.antt =====
-- The handlers that make an iterator, as steps of the lifecycle of resources.
use mathlib.Core.List.{Memᴰ}
use ex_rocket.Prelude.{ℕ, List, suc, ◌+◌, ◌%◌, ◌<◌, ◌^◌, ◌≡◌, refl, ap, Option, none, some, arith}
use ex_rocket.Prelude.Chain.{◌>>=◌}
use ex_rocket.Prelude.Result.{Result, ok, err}
use ex_rocket.Options.Rustler.{Rustler}
use ex_rocket.Options.Read.{RockerReadOptions, ReadOptionsError, Call, decode, from}
use ex_rocket.Nif.Rocks.{Rocks}
use ex_rocket.Nif.Handlers.{Reply, bad_arg, closed, unknown_cf}
use ex_rocket.Nif.Lifecycle.{
  SnapshotResource, World, make_iterator_resource, make_snapshot_iterator_resource, children,
  iterates, snapshot_iterates, Reachable, steps,
}
use ex_rocket.Nif.Lifecycle.Invariant.{Reachable-Inv, leased-length}
use ex_rocket.Nif.Mode.{iterator_mode}
use ex_rocket.Nif.Snapshot.{Resources, decode_snapshot}
use ex_rocket.Nif.Take.{Source}
use ex_rocket.Nif.Iterators.{
  Iterators, Made, made, owned_by_db, owned_by_snapshot, on_open, reading, present,
  with_read_options, encode_read_options_error, iterator, iterator_range, prefix_iterator,
  iterator_cf, prefix_iterator_cf, snapshot_iterator, snapshot_iterator_cf,
}
use ex_rocket.Nif.Iterators.Asked.{
  IteratorCall, iterates_db, iterates_range, iterates_prefix, iterates_cf, iterates_prefix_cf,
  iterates_snapshot, iterates_snapshot_cf, run_iterator, snapshot_of, calls_of, asked, stored,
  Makes,
}

module _ (r : Rustler) (rocks : Rocks) (resources : Resources r rocks) (source : Source)
    (iterators : Iterators rocks source) where
  open r use {Term, decode_binary}
  open rocks use {Db, cf_handle}
  open source use {Iter}

  module _ (w : World rocks) (reached : Reachable rocks w) where
    -- What the call makes, in a world that steps of the lifecycle reach.
    abbrev MakesReached : Option (Iter × Option ℕ) → Made source × World rocks → Type 0
    MakesReached wanted outcome =
        Makes r rocks resources source iterators w wanted outcome × Reachable rocks (outcome.1)

    -- What holds of the rest of a handler holds of the handler.
    present-Makes :
        {A : Type 0} (reply : Reply) (given : Option A) (wanted : A → Option (Iter × Option ℕ))
        (body : A → World rocks → Made source × World rocks)
        → ((a : A) → given ≡ some a → MakesReached (wanted a) (body a w))
        → MakesReached
            (given >>= wanted)
            (present r rocks resources source iterators reply given body w)
    present-Makes reply none wanted body h = ((reply, refl), reached)
    present-Makes reply (some a) wanted body h = h a refl

    reading-Makes :
        (wanted : Db → Option (Iter × Option ℕ))
        (body : Db → World rocks → Made source × World rocks)
        → ((db : Db) → w.resource.db ≡ some db → MakesReached (wanted db) (body db w))
        → MakesReached
            (w.resource.db >>= wanted)
            (reading r rocks resources source iterators body w)
    reading-Makes wanted body h = on w.resource.db refl
      where
        on :
            (held : Option Db)
            → w.resource.db ≡ held
            → MakesReached
                (held >>= wanted)
                (on_open r rocks resources source iterators held body w)
        on none e = ((closed, refl), reached)
        on (some db) e = h db e

    options-Makes :
        (decoded : Result ReadOptionsError RockerReadOptions)
        (wanted : List Call → Option (Iter × Option ℕ))
        (body : List Call → World rocks → Made source × World rocks)
        → ((calls : List Call) → MakesReached (wanted calls) (body calls w))
        → MakesReached
            (calls_of r rocks resources source iterators decoded >>= wanted)
            (with_read_options r rocks resources source iterators decoded body w)
    options-Makes (ok options) wanted body h = h _
    options-Makes (err reason) wanted body h = ((encode_read_options_error reason, refl), reached)

    module _ (room : suc (children rocks w) < 2 ^ 64) where
      one_lease_more :
          make_iterator_resource rocks w ≡ stored r rocks resources source iterators none w
      unfolding make_iterator_resource
      one_lease_more =
          let v = Reachable-Inv rocks w reached in
          let exact : (w.resource.leases + 1) % 2 ^ 64 ≡ w.resource.leases + 1 =
            omega (arith, v.counted, room, leased-length w.iterators) in
          rw exact refl

      db-Makes :
          (iter : Iter) (db : Db)
          → w.resource.db ≡ some db
          → MakesReached (some (iter, none)) (owned_by_db r rocks resources source iterators iter w)
      db-Makes iter db e = (
        ap
            (λ (after : World rocks).
              let o : Made source × World rocks =
                (made (record { iter = iter; pending = none }), after) in
              o)
            one_lease_more,
        steps reached (iterates db e room),
      )

      snapshot-Makes :
          (iter : Iter) (s : SnapshotResource rocks)
          → Memᴰ s.id w.references
          → MakesReached
              (some (iter, some s.id))
              (owned_by_snapshot r rocks resources source iterators s iter w)
      unfolding make_snapshot_iterator_resource
      snapshot-Makes iter s held = (refl, steps reached (snapshot_iterates s.id held room))

      -- In a world that calls and drops reach, each of the seven handlers that make an iterator
      -- refuses and changes nothing, if the mode, the options, the column family or the snapshot cannot
      -- be read or the database is closed. Else it hands out the iterator of the crate for what was
      -- asked, with nothing pending, and stores one iterator more: with one lease more, or with no lease
      -- and its snapshot as the owner. The new world is again one that calls and drops reach. The
      -- snapshot that the call names is one that Erlang holds, and there is room for one more resource.
      pub run_iterator-Makes :
          (call : IteratorCall Term)
          → ((s : SnapshotResource rocks)
              → snapshot_of r rocks resources source iterators call ≡ some s
              → Memᴰ s.id w.references)
          → Makes r rocks resources source iterators w
              (asked r rocks resources source iterators call w)
              (run_iterator r rocks resources source iterators call w)
            × Reachable rocks (run_iterator r rocks resources source iterators call w).1
      unfolding run_iterator iterator iterator_range prefix_iterator iterator_cf prefix_iterator_cf
          snapshot_iterator snapshot_iterator_cf
      run_iterator-Makes (iterates_db mode) held =
          present-Makes bad_arg (iterator_mode r mode) _ _
            λ m known. reading-Makes _ _ λ db e. db-Makes _ db e
      run_iterator-Makes (iterates_range mode from to options) held =
          options-Makes (decode r options) _ _ λ calls.
            present-Makes bad_arg (iterator_mode r mode) _ _
              λ m known. reading-Makes _ _ λ db e. db-Makes _ db e
      run_iterator-Makes (iterates_prefix prefix) held = reading-Makes _ _ λ db e. db-Makes _ db e
      run_iterator-Makes (iterates_cf name mode) held =
          present-Makes bad_arg (iterator_mode r mode) _ _ λ m known.
            reading-Makes _ _
              λ db e. present-Makes unknown_cf (cf_handle db name) _ _ λ cf there. db-Makes _ db e
      run_iterator-Makes (iterates_prefix_cf name prefix) held =
          reading-Makes _ _
            λ db e. present-Makes unknown_cf (cf_handle db name) _ _ λ cf there. db-Makes _ db e
      run_iterator-Makes (iterates_snapshot resource mode) held =
          present-Makes bad_arg (decode_snapshot r rocks resources resource) _ _ λ s decoded.
            present-Makes bad_arg (iterator_mode r mode) _ _
              λ m known. snapshot-Makes _ s (held s decoded)
      run_iterator-Makes (iterates_snapshot_cf resource name mode) held =
          present-Makes bad_arg (decode_snapshot r rocks resources resource) _ _ λ s decoded.
            reading-Makes _ _ λ db e. present-Makes unknown_cf (cf_handle db name) _ _ λ cf there.
              present-Makes bad_arg (iterator_mode r mode) _ _
                λ m known. snapshot-Makes _ s (held s decoded)
