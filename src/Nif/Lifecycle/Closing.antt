-- ===== src/Nif/Lifecycle/Closing.antt =====
-- When a database can be closed, and what that means for the snapshots and the iterators.
use mathlib.Core.List.Memᴰ as Member
use ex_rocket.Prelude.{
  ℕ, ◌+◌, ◌<◌, ◌≡◌, ◌≢◌, refl, ap, true, Option, none, some, List, [], ◌∷◌, length, All, arith,
  Option-cases, inl, inr,
}
use ex_rocket.Nif.Rocks.{Rocks}
use ex_rocket.Nif.Handlers.{Reply, done, resource_busy, DbResource, close, close_open}
use ex_rocket.Nif.Lifecycle.{IteratorResource, SnapshotResource, World, ids, children, Reachable}
use ex_rocket.Nif.Lifecycle.Invariant.{one_if, leased, leased-length, Owned, Inv, Reachable-Inv}

-- With no living snapshot every iterator holds a lease.
no_iterators :
    (iterators : List IteratorResource)
    → All (Owned []) iterators
    → leased iterators ≡ 0
    → length iterators ≡ 0
unfolding leased
no_iterators [] owned h = refl
no_iterators (it ∷ iterators) (o, owned) h = elim (Option-cases it.snapshot_owner) [
  | inl e ↦
      let holds = o.own e in
      let count : one_if true + leased iterators ≡ 0 = rw holds at h in
      absurd (omega (arith, count))
  | inr (id, e) ↦ absurd (Member.not-nil ((o.borrowed id e).1))
]

module _ (rocks : Rocks) where
  no_snapshots :
      (snapshots : List (SnapshotResource rocks)) (iterators : List IteratorResource)
      → All (Owned (ids rocks snapshots)) iterators
      → length snapshots + leased iterators ≡ 0
      → length snapshots + length iterators ≡ 0
  no_snapshots [] iterators owned h =
      let rest = no_iterators iterators owned (omega (arith, h)) in omega (arith, rest)
  no_snapshots (s ∷ snapshots) iterators owned h = omega (arith, h)

  pub no_children : (w : World rocks) → Inv rocks w → w.resource.leases ≡ 0 → children rocks w ≡ 0
  no_children w v none_left =
      no_snapshots w.snapshots w.iterators v.owned (omega (arith, none_left, v.counted))

  -- In every world that calls and drops reach from a database that was just opened, with fewer than
  -- 2 ^ 64 resources, the database is open as long as a snapshot or an iterator lives: nothing closes
  -- it under them, whatever the order.
  pub Reachable-open :
      (w : World rocks)
      → Reachable rocks w
      → 0 < children rocks w
      → (db : rocks.Db) × (w.resource.db ≡ some db)
  Reachable-open w reached alive = elim (Option-cases w.resource.db) [
    | inl e ↦
        let v = Reachable-Inv rocks w reached in
        let gone = no_children w v (v.idle e) in absurd (omega (arith, gone, alive))
    | inr open_db ↦ open_db
  ]

  close_open-zero :
      (db : Option rocks.Db) (leases : ℕ)
      → leases ≡ 0
      → close_open rocks db leases ≡ (done, record { db = none; leases = 0 })
  close_open-zero none leases e =
      ap
        (λ (n : ℕ).
          let o : Reply × DbResource rocks = (done, record { db = none; leases = n }) in o)
        e
  close_open-zero (some db) leases e = rw e refl

  close_open-busy :
      (held : Option rocks.Db) (leases : ℕ) (db : rocks.Db)
      → held ≡ some db
      → leases ≢ 0
      → close_open rocks held leases ≡ (resource_busy, record { db = held; leases = leases })
  close_open-busy none leases db e h = cc
  close_open-busy (some x) leases db e h = ground arith

  -- In every such world `close` replies `done` and leaves the database closed if no snapshot and no
  -- iterator lives; if one lives, it replies `resource_busy` and changes nothing.
  pub close-Reachable :
      (w : World rocks)
      → Reachable rocks w
      → (children rocks w ≡ 0 → close rocks w.resource ≡ (done, record { db = none; leases = 0 }))
        × (0 < children rocks w → close rocks w.resource ≡ (resource_busy, w.resource))
  unfolding close
  close-Reachable w reached =
      let v = Reachable-Inv rocks w reached in
      (
        λ gone.
            close_open-zero w.resource.db w.resource.leases
              (omega (arith, gone, v.counted, leased-length w.iterators)),
        λ alive.
            let (db, e) = Reachable-open w reached alive in
            close_open-busy w.resource.db w.resource.leases db e (λ none_left.
              let gone = no_children w v none_left in absurd (omega (arith, gone, alive))),
      )
