-- ===== src/Nif/Locking.antt =====
-- The steps inside the handlers of native/rocker/src/nif.rs: the `RwLock` of a `DbResource`, its guards,
-- and the counter of leases, with any number of threads at once.
--
-- Threads at the same point of the code are alike, so a state counts the threads at each point. The
-- lock has readers or one writer. A handler under `db_read!` locks, finds the database open or leaves,
-- operates, may acquire a lease, and unlocks; one under `db_write!` does so with the lock for itself.
-- `close` is taken apart at each of its tests. The drop of a lease takes no lock.
pub mod Invariant
pub mod Atomic
pub mod Release
use ex_rocket.Prelude.{ℕ, suc, ◌+◌, ◌^◌, ◌<◌, ◌≡◌, ◌≢◌, Bool, true, false, Option, none, some}
use ex_rocket.Nif.Rocks.{Rocks}
use ex_rocket.Nif.Handlers.{DbResource}
use ex_rocket.Nif.Lifecycle.{acquire, drop_lease}

module _ (rocks : Rocks) where
  pub record State : Type 0 where
    pub resource : DbResource rocks
    -- The lock: how many read guards there are, and whether there is a write guard.
    pub readers : ℕ
    pub writer : Bool
    -- Under a read guard: `read` before its test, after it, and with a lease acquired.
    pub locked : ℕ
    pub reading : ℕ
    pub leased : ℕ
    -- The resources with a lease that outlive their handler.
    pub holding : ℕ
    -- Under a write guard: `write` before its test, and after it.
    pub write_locked : ℕ
    pub writing : ℕ
    -- `close` under its write guard: before its tests, after them, and after `take`.
    pub closing : ℕ
    pub checked : ℕ
    pub emptied : ℕ

  -- A database that was just opened, and no thread.
  abbrev pub unlocked : rocks.Db → State
  unlocked db = record {
    resource = record { db = some db; leases = 0 };
    readers = 0;
    writer = false;
    locked = 0;
    reading = 0;
    leased = 0;
    holding = 0;
    write_locked = 0;
    writing = 0;
    closing = 0;
    checked = 0;
    emptied = 0;
  }

  pub data Step : State → State → Type 0 where
    -- `DbResource::read`
    locks_read :
        {s : State}
        → s.writer ≡ false
        → Step s (record s { readers = suc s.readers; locked = suc s.locked })
    finds_open :
        {s : State} (n : ℕ) (db : rocks.Db)
        → s.locked ≡ suc n
        → s.resource.db ≡ some db
        → Step s (record s { locked = n; reading = suc s.reading })
    finds_closed :
        {s : State} (n m : ℕ)
        → s.locked ≡ suc n
        → s.readers ≡ suc m
        → s.resource.db ≡ none
        → Step s (record s { locked = n; readers = m })
    -- An operation of the crate, and the end of the handler.
    operates :
        {s : State} (n : ℕ) (db db' : rocks.Db)
        → s.reading ≡ suc n
        → s.resource.db ≡ some db
        → Step s (record s { resource = record { db = some db'; leases = s.resource.leases } })
    unlocks_read :
        {s : State} (n m : ℕ)
        → s.reading ≡ suc n
        → s.readers ≡ suc m
        → Step s (record s { reading = n; readers = m })
    -- `DbLease::acquire`, and the end of a handler that has made a resource.
    leases :
        {s : State} (n : ℕ)
        → s.reading ≡ suc n
        → suc (s.leased + s.holding) < 2 ^ 64
        → Step s
            (record s { resource = acquire rocks s.resource; reading = n; leased = suc s.leased })
    unlocks_leased :
        {s : State} (n m : ℕ)
        → s.leased ≡ suc n
        → s.readers ≡ suc m
        → Step s (record s { leased = n; holding = suc s.holding; readers = m })
    -- The drop of a `DbLease`
    drops :
        {s : State} (n : ℕ)
        → s.holding ≡ suc n
        → Step s (record s { resource = drop_lease rocks s.resource; holding = n })
    -- `DbResource::write`
    locks_write :
        {s : State}
        → s.writer ≡ false
        → s.readers ≡ 0
        → Step s (record s { writer = true; write_locked = suc s.write_locked })
    finds_open_write :
        {s : State} (n : ℕ) (db : rocks.Db)
        → s.write_locked ≡ suc n
        → s.resource.db ≡ some db
        → Step s (record s { write_locked = n; writing = suc s.writing })
    finds_closed_write :
        {s : State} (n : ℕ)
        → s.write_locked ≡ suc n
        → s.resource.db ≡ none
        → Step s (record s { write_locked = n; writer = false })
    operates_write :
        {s : State} (n : ℕ) (db db' : rocks.Db)
        → s.writing ≡ suc n
        → s.resource.db ≡ some db
        → Step s (record s { resource = record { db = some db'; leases = s.resource.leases } })
    unlocks_write :
        {s : State} (n : ℕ) → s.writing ≡ suc n → Step s (record s { writing = n; writer = false })
    -- `close`
    locks_close :
        {s : State}
        → s.writer ≡ false
        → s.readers ≡ 0
        → Step s (record s { writer = true; closing = suc s.closing })
    closes_closed :
        {s : State} (n : ℕ)
        → s.closing ≡ suc n
        → s.resource.db ≡ none
        → Step s (record s { closing = n; writer = false })
    closes_busy :
        {s : State} (n : ℕ) (db : rocks.Db)
        → s.closing ≡ suc n
        → s.resource.db ≡ some db
        → s.resource.leases ≢ 0
        → Step s (record s { closing = n; writer = false })
    checks :
        {s : State} (n : ℕ) (db : rocks.Db)
        → s.closing ≡ suc n
        → s.resource.db ≡ some db
        → s.resource.leases ≡ 0
        → Step s (record s { closing = n; checked = suc s.checked })
    takes :
        {s : State} (n : ℕ)
        → s.checked ≡ suc n
        → Step s (record s {
          resource = record { db = none; leases = s.resource.leases };
          checked = n;
          emptied = suc s.emptied;
        })
    unlocks_close :
        {s : State} (n : ℕ) → s.emptied ≡ suc n → Step s (record s { emptied = n; writer = false })

  -- What a sequence of steps reaches from a database that was just opened.
  pub data Reachable : State → Type 0 where
    starts : (db : rocks.Db) → Reachable (unlocked db)
    steps : {s s' : State} → Reachable s → Step s s' → Reachable s'
