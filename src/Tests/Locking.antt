-- ===== src/Tests/Locking.antt =====
-- The steps inside the handlers at concrete states.
use ex_rocket.Prelude.{◌≡◌, refl, some, List, arith}
use ex_rocket.Nif.Locking.{
  State, unlocked, Step, locks_read, finds_open, leases, Reachable, starts, steps,
}
use ex_rocket.Nif.Locking.Invariant.{Reachable-usable}
use ex_rocket.Nif.Locking.Atomic.{Effect, Step-Effect}
use ex_rocket.Nif.Locking.Release.{Released, Reachable-Released}
use ex_rocket.Tests.Crates.{Row, rocks, taken_rows}

-- A handler that has found the database open, and one that waits for the lock to be tested.
abbrev two_readers : State rocks
two_readers = record (unlocked rocks taken_rows) { readers = 2; locked = 1; reading = 1 }

reached : Reachable rocks two_readers
reached =
    steps (steps (steps (starts taken_rows) (locks_read refl)) (finds_open 0 taken_rows refl refl))
      (locks_read refl)

Reachable-usable_example : (db : List Row) × (two_readers.resource.db ≡ some db)
Reachable-usable_example = Reachable-usable rocks two_readers reached (omega arith)

abbrev with_lease : State rocks
with_lease = record (unlocked rocks taken_rows) {
  resource = record { db = some taken_rows; leases = 1 };
  readers = 2;
  locked = 1;
  leased = 1;
}

acquires : Step rocks two_readers with_lease
acquires = leases 0 refl (omega arith)

Step-Effect_example : Effect rocks acquires
Step-Effect_example = Step-Effect rocks two_readers with_lease acquires reached

Reachable-Released_example : Released rocks two_readers
Reachable-Released_example = Reachable-Released rocks two_readers reached
