-- ===== src/Nif/Lifecycle/Handlers.antt =====
-- The handlers of native/rocker/src/nif.rs that decode terms before they look at the database, as steps
-- of the lifecycle: `write_batch`, `create_cf`, `multi_get`, `multi_get_cf` and `get_db_path`.
use ex_rocket.Prelude.{◌≡◌, refl, ◌⊎◌, inl, inr, none, Option-cases}
use ex_rocket.Prelude.Chain.{◌>>=◌, collect}
use ex_rocket.Prelude.Result.{Result-cases}
use ex_rocket.Text.Utf8.{Chars}
use ex_rocket.Options.Rustler.{Rustler}
use ex_rocket.Options.Write as Write
use ex_rocket.Options.Rocker.Decode as Rocker
use ex_rocket.Options.Rocker.Settings as Settings
use ex_rocket.Nif.Rocks.{Rocks}
use ex_rocket.Nif.Handlers.{Reply, DbResource, written, with_db}
use ex_rocket.Nif.Handlers.Closed.{guarded-none}
use ex_rocket.Nif.Batch.{fill, write_filled, write_batch}
use ex_rocket.Nif.MultiGet.{found_all, found_all_cf, multi_get, multi_get_cf, pair_of, request_of}
use ex_rocket.Nif.Open.{Files, create_cf, get_db_path}
use ex_rocket.Nif.Lifecycle.{World, guards, Reachable, steps}

-- A call on a database that is given terms.
pub data TermCall (Term : Type 0) : Type 0 where
  writes_batch : Term → Term → TermCall Term
  creates_cf : Chars → Term → TermCall Term
  gets_many gets_many_cf : Term → TermCall Term
  asks_path : TermCall Term

module _ (r : Rustler) (rocks : Rocks) (files : Files rocks r.Float) where
  open r use {Term, decode_list, decode_binary}

  unfoldable pub run_term : TermCall Term → DbResource rocks → Reply × DbResource rocks
  run_term (writes_batch operations options) = write_batch r rocks operations options
  run_term (creates_cf name options) = create_cf r rocks files name options
  run_term (gets_many keys) = multi_get r rocks keys
  run_term (gets_many_cf keys) = multi_get_cf r rocks keys
  run_term asks_path = get_db_path r rocks files

  -- A call is refused before it looks at the database, or it is a handler behind the guard.
  GuardedOrRefused : DbResource rocks → Reply × DbResource rocks → Type 0
  GuardedOrRefused resource outcome =
      ((body : rocks.Db → Reply × rocks.Db) × (outcome ≡ with_db rocks body resource))
      ⊎ (outcome.1 ≡ resource)

  run_term-GuardedOrRefused :
      (call : TermCall Term) (resource : DbResource rocks)
      → GuardedOrRefused resource (run_term call resource)
  unfolding GuardedOrRefused run_term write_batch create_cf multi_get multi_get_cf get_db_path
  run_term-GuardedOrRefused (writes_batch operations options) resource =
      elim (Result-cases (Write.decode r options)) [
        | inl (decoded, e) ↦ elim (Option-cases (decode_list operations)) [
          | inl l ↦ inr (rw e (rw l refl))
          | inr (terms, l) ↦
              inl (λ db. write_filled r rocks decoded db (fill r rocks db terms), rw e (rw l refl))
        ]
        | inr (Write.invalid, e) ↦ inr (rw e refl)
        | inr (Write.unknown key, e) ↦ inr (rw e refl)
      ]
  run_term-GuardedOrRefused (creates_cf name options) resource =
      elim (Result-cases (Rocker.decode r options)) [
        | inl (decoded, e) ↦
            inl (λ db. written (files.create_cf name (Settings.from decoded) db), rw e refl)
        | inr (reason, e) ↦ inr (rw e refl)
      ]
  run_term-GuardedOrRefused (gets_many keys) resource = elim (Option-cases (decode_list keys)) [
    | inl e ↦ inr (rw e refl)
    | inr (terms, e) ↦ inl (found_all r rocks (collect decode_binary terms), rw e refl)
  ]
  run_term-GuardedOrRefused (gets_many_cf keys) resource =
      elim (Option-cases (decode_list keys >>= collect (pair_of r rocks))) [
        | inl e ↦ inr (rw e refl)
        | inr (pairs, e) ↦
            inl (λ db. found_all_cf r rocks db (collect (request_of r rocks db) pairs), rw e refl)
      ]
  run_term-GuardedOrRefused asks_path resource = inl (_, refl)

  -- On a closed database such a call changes nothing either.
  pub run_term-closed :
      (call : TermCall Term) (resource : DbResource rocks)
      → resource.db ≡ none
      → (run_term call resource).1 ≡ resource
  unfolding GuardedOrRefused
  run_term-closed call resource e = elim (run_term-GuardedOrRefused call resource) [
    | inl (body, same) ↦ rw same (rw (guarded-none rocks body resource.leases resource.db e) refl)
    | inr unchanged ↦ unchanged
  ]

  -- What such a call leaves is reached by a step.
  pub run_term-Reachable :
      (call : TermCall Term) (w : World rocks)
      → Reachable rocks w
      → Reachable rocks (record w { resource = (run_term call w.resource).1 })
  unfolding GuardedOrRefused
  run_term-Reachable call w reached = elim (run_term-GuardedOrRefused call w.resource) [
    | inl (body, same) ↦ rw same (steps reached (guards body))
    | inr unchanged ↦ rw unchanged reached
  ]
