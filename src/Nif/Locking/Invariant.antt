-- ===== src/Nif/Locking/Invariant.antt =====
-- The invariant of the steps inside the handlers.
use ex_rocket.Prelude.{ℕ, ◌+◌, ◌^◌, ◌<◌, ◌≡◌, ◌≢◌, refl, true, Option, none, some, arith}
use ex_rocket.Nif.Rocks.{Rocks}
use ex_rocket.Nif.Lifecycle.Invariant.{one_if}
use ex_rocket.Nif.Locking.{
  State, unlocked, Step, locks_read, finds_open, finds_closed, operates, unlocks_read, leases,
  unlocks_leased, drops, locks_write, finds_open_write, finds_closed_write, operates_write,
  unlocks_write, locks_close, closes_closed, closes_busy, checks, takes, unlocks_close, Reachable,
  starts, steps,
}

abbrev pub open_if : {A : Type 0} → Option A → ℕ
open_if none = 0
open_if (some a) = 1

pub open_if_lem : {A : Type 0} (held : Option A) → open_if held ≢ 0 → (a : A) × (held ≡ some a)
open_if_lem none h = absurd (h refl)
open_if_lem (some a) h = (a, refl)

module _ (rocks : Rocks) where
  -- The guards are those of the lock, the leases are counted, `close` finds none of them after its
  -- tests, and who works on the database has it open.
  abbrev pub Inv : State rocks → Type 0
  Inv s =
      (s.readers ≡ s.locked + s.reading + s.leased)
      × (s.write_locked + s.writing + s.closing + s.checked + s.emptied ≡ one_if s.writer)
      × (s.writer ≡ true → s.readers ≡ 0)
      × (s.resource.leases ≡ s.leased + s.holding)
      × (s.leased + s.holding < 2 ^ 64)
      × (0 < s.checked → s.resource.leases ≡ 0)
      × (open_if s.resource.db ≡ 0 → s.reading + s.leased + s.holding + s.writing + s.checked ≡ 0)

  unlocked-Inv : (db : rocks.Db) → Inv (unlocked rocks db)
  unlocked-Inv db = ground arith

  Step-Inv : (s s' : State rocks) → Step rocks s s' → Inv s → Inv s'
  Step-Inv s s' (locks_read free) v = ground (arith, v)
  Step-Inv s s' (finds_open n db at e) v = ground (arith, v)
  Step-Inv s s' (finds_closed n m at guards e) v = ground (arith, v)
  Step-Inv s s' (operates n db db' at e) v = ground (arith, v)
  Step-Inv s s' (unlocks_read n m at guards) v = ground (arith, v)
  Step-Inv s s' (leases n at room) v = ground (arith, v)
  Step-Inv s s' (unlocks_leased n m at guards) v = ground (arith, v)
  Step-Inv s s' (drops n at) v = ground (arith, v)
  Step-Inv s s' (locks_write free idle) v = ground (arith, v)
  Step-Inv s s' (finds_open_write n db at e) v = ground (arith, v)
  Step-Inv s s' (finds_closed_write n at e) v = ground (arith, v)
  Step-Inv s s' (operates_write n db db' at e) v = ground (arith, v)
  Step-Inv s s' (unlocks_write n at) v = ground (arith, v)
  Step-Inv s s' (locks_close free idle) v = ground (arith, v)
  Step-Inv s s' (closes_closed n at e) v = ground (arith, v)
  Step-Inv s s' (closes_busy n db at e busy) v = ground (arith, v)
  Step-Inv s s' (checks n db at e idle) v = ground (arith, v)
  Step-Inv s s' (takes n at) v = ground (arith, v)
  Step-Inv s s' (unlocks_close n at) v = ground (arith, v)

  -- The invariant holds in every state that can be reached.
  pub Reachable-Inv : (s : State rocks) → Reachable rocks s → Inv s
  Reachable-Inv s (starts db) = unlocked-Inv db
  Reachable-Inv s (steps {s = before} reached step) =
      Step-Inv before s step (Reachable-Inv before reached)

  -- How many threads work on the database, or hold a lease on it.
  abbrev pub users : State rocks → ℕ
  users s = s.reading + s.leased + s.holding + s.writing

  -- However the steps of the handlers and of `close` are interleaved, the database is open while a
  -- handler works on it behind its guard, so the guard always finds it, and while a lease is held.
  pub Reachable-usable :
      (s : State rocks)
      → Reachable rocks s
      → 0 < users s
      → (db : rocks.Db) × (s.resource.db ≡ some db)
  Reachable-usable s reached used =
      let v = Reachable-Inv s reached in open_if_lem s.resource.db (λ gone. ground (arith, v, gone))
