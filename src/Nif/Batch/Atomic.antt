-- ===== src/Nif/Batch/Atomic.antt =====
-- The replies of `write_batch`, and what it hands to RocksDB.
use mathlib.Core.List.{Memᴰ}
use mathlib.Core.List.Memᴰ as Member
use ex_rocket.Prelude.{
  ℕ, ◌≡◌, refl, Option, none, some, List, [], ◌∷◌, arith, length, subst, Option-cases, inl, inr,
  ◌⊎◌, String,
}
use ex_rocket.Prelude.Chain.{>>=-eq-some}
use ex_rocket.Prelude.Result.{Result, ok, err}
use ex_rocket.Options.Rustler.{Rustler}
use ex_rocket.Options.Write as Write
use ex_rocket.Options.Write.{RockerWriteOptions, WriteOptionsError, invalid, unknown, decode}
use ex_rocket.Nif.Rocks.{Rocks, BatchOperation}
use ex_rocket.Nif.Handlers.{
  Reply, bad_arg, closed, invalid_write_options, unknown_option, DbResource, after,
}
use ex_rocket.Nif.Batch.{
  operation, fill, applied, write_filled, write_operations, write_decoded, write_batch,
}

module _ (r : Rustler) (rocks : Rocks) where
  open r use {Term, decode_list}
  open rocks use {Db, Cf, write_opt}

  -- The batch holds the operation of each term, in the order of the terms.
  pub data Each (db : Db) : List Term → List (BatchOperation Cf) → Type 0 where
    nothing : Each db [] []
    one :
        {term : Term} {terms : List Term} {first : BatchOperation Cf}
        {batch : List (BatchOperation Cf)}
        → operation r rocks db term ≡ some first
        → Each db terms batch
        → Each db (term ∷ terms) (first ∷ batch)

  -- Why a batch is not handed to RocksDB, and the reply: the options are wrong, the operations are no
  -- list, the database is closed, or one of the operations cannot be read.
  pub data Refusal (operations write_options : Term) (resource : DbResource rocks)
      : Reply → Type 0 where
    bad_options :
        decode r write_options ≡ err invalid
        → Refusal operations write_options resource invalid_write_options
    bad_option :
        (key : String)
        → decode r write_options ≡ err (unknown key)
        → Refusal operations write_options resource (unknown_option key)
    no_list : decode_list operations ≡ none → Refusal operations write_options resource bad_arg
    not_open : resource.db ≡ none → Refusal operations write_options resource closed
    malformed :
        (db : Db) (terms : List Term) (term : Term)
        → resource.db ≡ some db
        → decode_list operations ≡ some terms
        → Memᴰ term terms
        → operation r rocks db term ≡ none
        → Refusal operations write_options resource bad_arg

  -- One batch of all the operations, in their order, was handed to RocksDB, whose answer is the
  -- outcome: their number, or the reason of the failure.
  pub record Submitted (operations write_options : Term) (resource : DbResource rocks)
      (outcome : Reply × DbResource rocks) : Type 0 where
    pub options : RockerWriteOptions
    pub terms : List Term
    pub db : Db
    pub batch : List (BatchOperation Cf)
    pub accepted : decode r write_options ≡ ok options
    pub listed : decode_list operations ≡ some terms
    pub opened : resource.db ≡ some db
    pub each : Each db terms batch
    pub result :
        outcome
        ≡ after rocks resource.leases
            (applied (length terms) (write_opt (Write.from options) batch db))

  -- The call was refused, and nothing was written.
  pub record Refused (operations write_options : Term) (resource : DbResource rocks)
      (outcome : Reply × DbResource rocks) : Type 0 where
    pub reply : Refusal operations write_options resource outcome.0
    pub unchanged : outcome.1 ≡ resource

  Each-length :
      (db : Db) (terms : List Term) (batch : List (BatchOperation Cf))
      → Each db terms batch
      → length batch ≡ length terms
  Each-length db [] [] nothing = refl
  Each-length db [] (first ∷ batch) e = elim e [ ]
  Each-length db (term ∷ terms) [] e = elim e [ ]
  Each-length db (term ∷ terms) (first ∷ batch) (one e rest) =
      let lengths = Each-length db terms batch rest in omega (arith, lengths)

  fill-Each :
      (db : Db) (terms : List Term) (batch : List (BatchOperation Cf))
      → fill r rocks db terms ≡ some batch
      → Each db terms batch
  unfolding fill
  fill-Each db [] batch h = let same : [] ≡ batch = cc in subst (Each db []) same nothing
  fill-Each db (term ∷ terms) batch h =
      let (first, e, h1) = >>=-eq-some (operation r rocks db term) _ h in
      let (rest, e', h2) = >>=-eq-some (fill r rocks db terms) _ h1 in
      let whole : first ∷ rest ≡ batch = cc in
      subst (Each db (term ∷ terms)) whole (one e (fill-Each db terms rest e'))

  fill-none :
      (db : Db) (terms : List Term)
      → fill r rocks db terms ≡ none
      → (term : Term) × Memᴰ term terms × (operation r rocks db term ≡ none)
  unfolding fill
  fill-none db [] h = cc
  fill-none db (term ∷ terms) h = elim (Option-cases (operation r rocks db term)) [
    | inl e ↦ (term, Member.head refl, e)
    | inr (first, e) ↦ elim (Option-cases (fill r rocks db terms)) [
      | inl e' ↦
          let (bad, listed, unread) = fill-none db terms e' in (bad, Member.tail listed, unread)
      | inr (rest, e') ↦ (let once = rw e at h in let wrong = rw e' at once in cc)
    ]
  ]

  write_filled-Atomic :
      (operations write_options : Term) (options : RockerWriteOptions) (terms : List Term) (db : Db)
      (leases : ℕ) (filled : Option (List (BatchOperation Cf)))
      → decode r write_options ≡ ok options
      → decode_list operations ≡ some terms
      → fill r rocks db terms ≡ filled
      → let resource : DbResource rocks = record { db = some db; leases = leases } in
        let outcome = after rocks leases (write_filled r rocks options db filled) in
        Refused operations write_options resource outcome
        ⊎ Submitted operations write_options resource outcome
  write_filled-Atomic operations write_options options terms db leases none accepted listed filled =
      let (term, among, bad) = fill-none db terms filled in
      inl (record { reply = malformed db terms term refl listed among bad; unchanged = refl })
  write_filled-Atomic operations write_options options terms db leases (some batch) accepted listed
        filled =
      let each = fill-Each db terms batch filled in
      inr (record {
        options = options;
        terms = terms;
        db = db;
        batch = batch;
        accepted = accepted;
        listed = listed;
        opened = refl;
        each = each;
        result = rw (Each-length db terms batch each) refl;
      })

  write_operations-Atomic :
      (operations write_options : Term) (options : RockerWriteOptions) (terms : Option (List Term))
      (leases : ℕ) (db : Option Db)
      → decode r write_options ≡ ok options
      → decode_list operations ≡ terms
      → let resource : DbResource rocks = record { db = db; leases = leases } in
        let outcome = write_operations r rocks options terms resource in
        Refused operations write_options resource outcome
        ⊎ Submitted operations write_options resource outcome
  write_operations-Atomic operations write_options options none leases db accepted listed =
      inl (record { reply = no_list listed; unchanged = refl })
  write_operations-Atomic operations write_options options (some terms) leases none accepted
        listed =
      inl (record { reply = not_open refl; unchanged = refl })
  write_operations-Atomic operations write_options options (some terms) leases (some db) accepted
        listed =
      write_filled-Atomic operations write_options options terms db leases (fill r rocks db terms)
        accepted listed refl

  write_decoded-Atomic :
      (operations write_options : Term) (decoded : Result WriteOptionsError RockerWriteOptions)
      (resource : DbResource rocks)
      → decode r write_options ≡ decoded
      → let outcome = write_decoded r rocks decoded (decode_list operations) resource in
        Refused operations write_options resource outcome
        ⊎ Submitted operations write_options resource outcome
  write_decoded-Atomic operations write_options (err invalid) resource e =
      inl (record { reply = bad_options e; unchanged = refl })
  write_decoded-Atomic operations write_options (err (unknown key)) resource e =
      inl (record { reply = bad_option key e; unchanged = refl })
  write_decoded-Atomic operations write_options (ok options) resource e =
      write_operations-Atomic operations write_options options (decode_list operations)
        resource.leases resource.db e refl

  -- Every call of `write_batch` is refused with nothing written, for wrong options, operations that
  -- are no list, a closed database or an operation among them that cannot be read, with the reply for
  -- it; or it hands RocksDB one batch that holds the operation of each term of the list, in the order
  -- of the list, and replies with its answer. No list of operations is written in part.
  pub write_batch-Atomic :
      (operations write_options : Term) (resource : DbResource rocks)
      → let outcome = write_batch r rocks operations write_options resource in
        Refused operations write_options resource outcome
        ⊎ Submitted operations write_options resource outcome
  unfolding write_batch
  write_batch-Atomic operations write_options resource =
      write_decoded-Atomic operations write_options (decode r write_options) resource refl
