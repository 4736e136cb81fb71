-- ===== src/Nif/Iterators.antt =====
-- The handlers of native/rocker/src/nif.rs that make an iterator: `iterator`, `iterator_range`,
-- `prefix_iterator`, `iterator_cf`, `prefix_iterator_cf`, `snapshot_iterator` and
-- `snapshot_iterator_cf`.
pub mod Asked
pub mod Steps
use ex_rocket.Prelude.{◌≡◌, refl, Option, none, some, List, [], ◌∷◌, ◌++◌}
use ex_rocket.Prelude.Chain.{◌>>=◌}
use ex_rocket.Prelude.Result.{Result, ok, err}
use ex_rocket.Text.Utf8.{Bytes, Chars}
use ex_rocket.Options.Rustler.{Rustler}
use ex_rocket.Options.Read.{
  RockerReadOptions, ReadOptionsError, unknown, invalid, Call, set_iterate_range, decode, from,
}
use ex_rocket.Nif.Rocks.{Rocks}
use ex_rocket.Nif.Handlers.{Reply, bad_arg, closed, unknown_cf, unknown_option, invalid_option}
use ex_rocket.Nif.Lifecycle.{
  SnapshotResource, World, make_iterator_resource, make_snapshot_iterator_resource,
}
use ex_rocket.Nif.Mode.{IteratorMode, choose, iterator_mode}
use ex_rocket.Nif.Snapshot.{Resources, decode_snapshot}
use ex_rocket.Nif.Take.{Source, IteratorState}

-- The functions of the crate that make an iterator.
pub record Iterators (rocks : Rocks) (source : Source) : Type 0 where
  pub iterator : IteratorMode → rocks.Db → source.Iter
  pub iterator_opt : List Call → IteratorMode → rocks.Db → source.Iter
  pub prefix_iterator : Bytes → rocks.Db → source.Iter
  pub iterator_cf : rocks.Cf → IteratorMode → rocks.Db → source.Iter
  pub prefix_iterator_cf : rocks.Cf → Bytes → rocks.Db → source.Iter
  pub snapshot_iterator : IteratorMode → rocks.Snapshot → source.Iter
  pub snapshot_iterator_cf : rocks.Cf → IteratorMode → rocks.Snapshot → source.Iter

-- `{ok, Resource}` with the `state` of the resource, or another reply.
pub data Made (source : Source) : Type 0 where
  made : IteratorState source → Made source
  refused : Reply → Made source

abbrev pub range_calls : Option Bytes → Option Bytes → List Call
range_calls none none = []
range_calls from to = set_iterate_range from to ∷ []

-- `read_options!`
abbrev pub encode_read_options_error : ReadOptionsError → Reply
encode_read_options_error (unknown key) = unknown_option key
encode_read_options_error (invalid key) = invalid_option key

module _ (r : Rustler) (rocks : Rocks) (resources : Resources r rocks) (source : Source)
    (iterators : Iterators rocks source) where
  open r use {Term, decode_binary}
  open rocks use {Db, Cf, cf_handle}
  open source use {Iter}

  abbrev pub fresh : Iter → Made source
  fresh iter = made (record { iter = iter; pending = none })

  -- `make_iterator_resource(resource, iterator)` as the reply.
  abbrev pub owned_by_db : Iter → World rocks → Made source × World rocks
  owned_by_db iter world = (fresh iter, make_iterator_resource rocks world)

  -- `make_snapshot_iterator_resource(snapshot, iterator)` as the reply.
  abbrev pub owned_by_snapshot :
      SnapshotResource rocks → Iter → World rocks → Made source × World rocks
  owned_by_snapshot s iter world = (fresh iter, make_snapshot_iterator_resource rocks s.id world)

  abbrev pub on_open :
      Option Db
      → (Db → World rocks → Made source × World rocks)
      → World rocks
      → Made source × World rocks
  on_open none body world = (refused closed, world)
  on_open (some db) body world = body db world

  -- `db_read!` before the rest of a handler.
  abbrev pub reading :
      (Db → World rocks → Made source × World rocks) → World rocks → Made source × World rocks
  reading body world = on_open world.resource.db body world

  -- A value before the rest of a handler, which `reply` ends if there is none.
  abbrev pub present :
      {A : Type 0}
      → Reply
      → Option A
      → (A → World rocks → Made source × World rocks)
      → World rocks
      → Made source × World rocks
  present reply none body world = (refused reply, world)
  present reply (some a) body world = body a world

  abbrev pub with_read_options :
      Result ReadOptionsError RockerReadOptions
      → (List Call → World rocks → Made source × World rocks)
      → World rocks
      → Made source × World rocks
  with_read_options (ok options) body world = body (from options) world
  with_read_options (err reason) body world = (refused (encode_read_options_error reason), world)

  unfoldable pub iterator : Term → World rocks → Made source × World rocks
  iterator mode =
      present bad_arg (iterator_mode r mode)
        λ m. reading λ db. owned_by_db (iterators.iterator (choose m) db)

  unfoldable pub iterator_range :
      Term → Term → Term → Term → World rocks → Made source × World rocks
  iterator_range mode from to read_options = with_read_options (decode r read_options) λ calls.
      present bad_arg (iterator_mode r mode) λ m. reading λ db. owned_by_db (
        iterators.iterator_opt (calls ++ range_calls (decode_binary from) (decode_binary to))
          (choose m) db)

  unfoldable pub prefix_iterator : Bytes → World rocks → Made source × World rocks
  prefix_iterator prefix = reading λ db. owned_by_db (iterators.prefix_iterator prefix db)

  unfoldable pub iterator_cf : Chars → Term → World rocks → Made source × World rocks
  iterator_cf name mode = present bad_arg (iterator_mode r mode) λ m. reading λ db.
      present unknown_cf (cf_handle db name)
        λ cf. owned_by_db (iterators.iterator_cf cf (choose m) db)

  unfoldable pub prefix_iterator_cf : Chars → Bytes → World rocks → Made source × World rocks
  prefix_iterator_cf name prefix = reading λ db.
      present unknown_cf (cf_handle db name)
        λ cf. owned_by_db (iterators.prefix_iterator_cf cf prefix db)

  unfoldable pub snapshot_iterator : Term → Term → World rocks → Made source × World rocks
  snapshot_iterator resource mode =
      present bad_arg (decode_snapshot r rocks resources resource) λ s.
        present bad_arg (iterator_mode r mode)
          λ m. owned_by_snapshot s (iterators.snapshot_iterator (choose m) s.snapshot)

  unfoldable pub snapshot_iterator_cf :
      Term → Chars → Term → World rocks → Made source × World rocks
  snapshot_iterator_cf resource name mode =
      present bad_arg (decode_snapshot r rocks resources resource) λ s. reading λ db.
        present unknown_cf (cf_handle db name) λ cf.
          present bad_arg (iterator_mode r mode)
            λ m. owned_by_snapshot s (iterators.snapshot_iterator_cf cf (choose m) s.snapshot)
