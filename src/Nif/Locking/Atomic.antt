-- ===== src/Nif/Locking/Atomic.antt =====
-- The steps inside the handlers against the handlers as a whole.
use ex_rocket.Prelude.{◌<◌, ◌≡◌, ◌≢◌, refl, none, some, arith}
use ex_rocket.Nif.Rocks.{Rocks}
use ex_rocket.Nif.Handlers.{done, resource_busy, DbResource, close}
use ex_rocket.Nif.Lifecycle.{acquire, drop_lease}
use ex_rocket.Nif.Locking.{
  State, Step, operates, leases, drops, operates_write, closes_closed, closes_busy, takes,
  Reachable,
}
use ex_rocket.Nif.Locking.Invariant.{open_if_lem, Reachable-Inv, Reachable-usable}

module _ (rocks : Rocks) where
  -- That a resource is the same with another database in place of the one it has.
  abbrev pub Operated : DbResource rocks → DbResource rocks → Type 0
  Operated before after =
      (db db' : rocks.Db) × (before.db ≡ some db)
      × (after ≡ record { db = some db'; leases = before.leases })

  -- What a step does to the resource.
  abbrev pub Effect : {s s' : State rocks} → Step rocks s s' → Type 0
  Effect {s} {s'} (operates n db db' at e) = Operated s.resource s'.resource
  Effect {s} {s'} (operates_write n db db' at e) = Operated s.resource s'.resource
  Effect {s} {s'} (leases n at room) =
      ((db : rocks.Db) × (s.resource.db ≡ some db)) × (s'.resource ≡ acquire rocks s.resource)
  Effect {s} {s'} (drops n at) =
      (0 < s.resource.leases) × (s'.resource ≡ drop_lease rocks s.resource)
  Effect {s} {s'} (closes_closed n at e) = close rocks s.resource ≡ (done, s'.resource)
  Effect {s} {s'} (closes_busy n db at e busy) =
      close rocks s.resource ≡ (resource_busy, s'.resource)
  Effect {s} {s'} (takes n at) = close rocks s.resource ≡ (done, s'.resource)
  Effect {s} {s'} _ = s'.resource ≡ s.resource

  close-none :
      (resource : DbResource rocks) → resource.db ≡ none → close rocks resource ≡ (done, resource)
  unfolding close
  close-none resource e = rw e refl

  close-busy :
      (resource : DbResource rocks) (db : rocks.Db)
      → resource.db ≡ some db
      → resource.leases ≢ 0
      → close rocks resource ≡ (resource_busy, resource)
  unfolding close
  close-busy resource db e busy = rw e (ground (arith, busy))

  close-idle :
      (resource : DbResource rocks) (db : rocks.Db)
      → resource.db ≡ some db
      → resource.leases ≡ 0
      → close rocks resource ≡ (done, record { db = none; leases = resource.leases })
  unfolding close
  close-idle resource db e idle = rw (e, idle) refl

  -- However the steps are interleaved, one that changes the resource does at that moment what the
  -- whole handler does: it operates on the open database, or acquires a lease on it, or drops a lease
  -- that is counted; and wherever `close` is decided, its reply and the resource are those that
  -- `close` as a whole gives at that moment. No other step changes the resource.
  pub Step-Effect : (s s' : State rocks) (step : Step rocks s s') → Reachable rocks s → Effect step
  Step-Effect s s' (operates n db db' at e) reached = (db, db', e, refl)
  Step-Effect s s' (operates_write n db db' at e) reached = (db, db', e, refl)
  Step-Effect s s' (leases n at room) reached =
      (Reachable-usable rocks s reached (omega (arith, at)), refl)
  Step-Effect s s' (drops n at) reached =
      let v = Reachable-Inv rocks s reached in (ground (arith, v, at), refl)
  Step-Effect s s' (closes_closed n at e) reached = close-none s.resource e
  Step-Effect s s' (closes_busy n db at e busy) reached = close-busy s.resource db e busy
  Step-Effect s s' (takes n at) reached =
      let v = Reachable-Inv rocks s reached in
      let idle : s.resource.leases ≡ 0 = ground (arith, v, at) in
      let (db, e) = open_if_lem s.resource.db (λ gone. ground (arith, v, at, gone)) in
      close-idle s.resource db e idle
  Step-Effect s s' _ reached = refl
