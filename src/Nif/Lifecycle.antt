-- ===== src/Nif/Lifecycle.antt =====
-- The resources of native/rocker/src/nif.rs, who holds them, and when they go: `DbLease`, `snapshot`,
-- the iterators, `close`, and the drops that Erlang's collection of a resource brings about.
--
-- A resource is known by a number. Erlang reaches a snapshot as long as its number is in
-- `references`; a snapshot also lives as long as an iterator has it as `_snapshot_owner`. The drops of
-- Rust are steps of their own, so a resource may also outlive its last reference for a while.
pub mod Invariant
pub mod Closing
pub mod Handlers
pub mod Final
use mathlib.Core.List.{Memᴰ}
use ex_rocket.Prelude.{
  ℕ, suc, ◌+◌, ◌-◌, ◌%◌, ◌^◌, ◌<◌, ◌≡◌, ◌≢◌, Bool, true, false, Option, none, some, List, [], ◌∷◌,
  length, All, if◌then◌else◌,
}
use ex_rocket.Nif.Rocks.{Rocks}
use ex_rocket.Nif.Handlers.{Reply, DbResource, with_db, close}
use ex_rocket.Nif.Handlers.Closed.{Call, perform}

-- `IteratorResource` without the rows: `_snapshot_owner`, and whether `_lease` is there.
pub record IteratorResource : Type 0 where
  pub snapshot_owner : Option ℕ
  pub lease : Bool

-- `xs` without one of its elements, `x`.
pub data Removes {A : Type 0} (x : A) : List A → List A → Type 0 where
  here : {xs : List A} → Removes x (x ∷ xs) xs
  there : {y : A} {xs ys : List A} → Removes x xs ys → Removes x (y ∷ xs) (y ∷ ys)

module _ (rocks : Rocks) where
  -- `DbLease::acquire` and the drop of a `DbLease`, on a counter of 64 bits.
  abbrev pub acquire : DbResource rocks → DbResource rocks
  acquire owner = record owner { leases = (owner.leases + 1) % 2 ^ 64 }

  abbrev pub drop_lease : DbResource rocks → DbResource rocks
  drop_lease owner = record owner { leases = (owner.leases + (2 ^ 64 - 1)) % 2 ^ 64 }

  abbrev pub drop_lease_if : Bool → DbResource rocks → DbResource rocks
  drop_lease_if lease owner = if lease then drop_lease owner else owner

  pub record SnapshotResource : Type 0 where
    pub id : ℕ
    pub snapshot : rocks.Snapshot

  pub record World : Type 0 where
    pub resource : DbResource rocks
    pub snapshots : List SnapshotResource
    pub references : List ℕ
    pub iterators : List IteratorResource
    pub next_id : ℕ

  abbrev pub opened : rocks.Db → World
  opened db = record {
    resource = record { db = some db; leases = 0 };
    snapshots = [];
    references = [];
    iterators = [];
    next_id = 0;
  }

  -- `snapshot` on the open database `db`
  unfoldable pub snapshot : rocks.Db → World → World
  snapshot db world = record world {
    resource = acquire world.resource;
    snapshots = record { id = world.next_id; snapshot = rocks.snapshot db } ∷ world.snapshots;
    references = world.next_id ∷ world.references;
    next_id = suc world.next_id;
  }

  -- `make_iterator_resource`
  unfoldable pub make_iterator_resource : World → World
  make_iterator_resource world = record world {
    resource = acquire world.resource;
    iterators = record { snapshot_owner = none; lease = true } ∷ world.iterators;
  }

  -- `make_snapshot_iterator_resource`
  unfoldable pub make_snapshot_iterator_resource : ℕ → World → World
  make_snapshot_iterator_resource id world = record world {
    iterators = record { snapshot_owner = some id; lease = false } ∷ world.iterators;
  }

  abbrev pub ids : List SnapshotResource → List ℕ
  ids [] = []
  ids (s ∷ snapshots) = s.id ∷ ids snapshots

  -- The resources that live and could hold a lease.
  abbrev pub children : World → ℕ
  children world = length world.snapshots + length world.iterators

  -- One call, or one drop. A counter of 64 bits cannot count 2 ^ 64 resources, which no memory holds.
  pub data Step : World → World → Type 0 where
    calls :
        {w : World} (call : Call)
        → Step w (record w { resource = (perform rocks call w.resource).1 })
    -- Any other handler behind `db_read!` or `db_write!`, as `write_batch` and `create_cf`: whatever its
    -- body does with the database.
    guards :
        {w : World} (body : rocks.Db → Reply × rocks.Db)
        → Step w (record w { resource = (with_db rocks body w.resource).1 })
    closes : {w : World} → Step w (record w { resource = (close rocks w.resource).1 })
    snapshots :
        {w : World} (db : rocks.Db)
        → w.resource.db ≡ some db
        → suc (children w) < 2 ^ 64
        → Step w (snapshot db w)
    iterates :
        {w : World} (db : rocks.Db)
        → w.resource.db ≡ some db
        → suc (children w) < 2 ^ 64
        → Step w (make_iterator_resource w)
    snapshot_iterates :
        {w : World} (id : ℕ)
        → Memᴰ id w.references
        → suc (children w) < 2 ^ 64
        → Step w (make_snapshot_iterator_resource id w)
    forgets :
        {w : World} (id : ℕ) (references : List ℕ)
        → Removes id w.references references
        → Step w (record w { references = references })
    drops_iterator :
        {w : World} (iterator : IteratorResource) (iterators : List IteratorResource)
        → Removes iterator w.iterators iterators
        → Step w
            (record w { resource = drop_lease_if iterator.lease w.resource; iterators = iterators })
    drops_snapshot :
        {w : World} (s : SnapshotResource) (snapshots : List SnapshotResource)
        → Removes s w.snapshots snapshots
        → All (λ (id : ℕ). id ≢ s.id) w.references
        → All (λ (iterator : IteratorResource). iterator.snapshot_owner ≢ some s.id) w.iterators
        → Step w (record w { resource = drop_lease w.resource; snapshots = snapshots })

  -- What a sequence of steps reaches from a database that was just opened.
  pub data Reachable : World → Type 0 where
    starts : (db : rocks.Db) → Reachable (opened db)
    steps : {w w' : World} → Reachable w → Step w w' → Reachable w'

  -- What a sequence of steps reaches from a world.
  pub data Later (w : World) : World → Type 0 where
    now : Later w w
    later : {w' w'' : World} → Later w w' → Step w' w'' → Later w w''
