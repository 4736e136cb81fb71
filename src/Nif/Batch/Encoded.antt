-- ===== src/Nif/Batch/Encoded.antt =====
-- The operations of a batch as Erlang writes them.
use ex_rocket.Prelude.{◌≡◌, refl, Option, some, List, [], ◌∷◌, String}
use ex_rocket.Prelude.Chain.{◌>>=◌}
use ex_rocket.Text.Utf8.{Bytes, Chars}
use ex_rocket.Options.Rustler.{Rustler}
use ex_rocket.Nif.Rocks.{Rocks, BatchOperation}
use ex_rocket.Nif.Rocks as Queued
use ex_rocket.Nif.Batch.{operation, operation_named, fill}

-- The tuples of the documentation: `{put, Key, Value}` and the others.
pub data Request : Type 0 where
  put : Bytes → Bytes → Request
  delete : Bytes → Request
  put_cf : Chars → Bytes → Bytes → Request
  delete_cf : Chars → Bytes → Request
  merge : Bytes → Bytes → Request
  merge_cf : Chars → Bytes → Bytes → Request

-- Terms for atoms, binaries, strings and tuples, which the crate reads back.
pub record Terms (r : Rustler) : Type 0 where
  pub atom : String → r.Term
  pub binary : Bytes → r.Term
  pub string : Chars → r.Term
  pub tuple : List r.Term → r.Term
  pub atom-read : (name : String) → r.atom_to_string (atom name) ≡ some name
  pub binary-read : (bytes : Bytes) → r.decode_binary (binary bytes) ≡ some bytes
  pub string-read : (chars : Chars) → r.decode_string (string chars) ≡ some chars
  pub tuple-read : (terms : List r.Term) → r.get_tuple (tuple terms) ≡ some terms

module _ (r : Rustler) (rocks : Rocks) (t : Terms r) where
  open rocks use {Db, Cf, cf_handle}

  abbrev pub elements : Request → List r.Term
  elements (put key value) = t.atom "put" ∷ t.binary key ∷ t.binary value ∷ []
  elements (delete key) = t.atom "delete" ∷ t.binary key ∷ []
  elements (put_cf cf key value) =
      t.atom "put_cf" ∷ t.string cf ∷ t.binary key ∷ t.binary value ∷ []
  elements (delete_cf cf key) = t.atom "delete_cf" ∷ t.string cf ∷ t.binary key ∷ []
  elements (merge key value) = t.atom "merge" ∷ t.binary key ∷ t.binary value ∷ []
  elements (merge_cf cf key value) =
      t.atom "merge_cf" ∷ t.string cf ∷ t.binary key ∷ t.binary value ∷ []

  abbrev on : Db → Chars → (Cf → BatchOperation Cf) → Option (BatchOperation Cf)
  on db name f = do cf ← cf_handle db name; some (f cf)

  -- What a request asks of the database: `none` if it has no such column family.
  abbrev pub resolved : Db → Request → Option (BatchOperation Cf)
  resolved db (put key value) = some (Queued.put key value)
  resolved db (delete key) = some (Queued.delete key)
  resolved db (put_cf name key value) = on db name λ cf. Queued.put_cf cf key value
  resolved db (delete_cf name key) = on db name λ cf. Queued.delete_cf cf key
  resolved db (merge key value) = some (Queued.merge key value)
  resolved db (merge_cf name key value) = on db name λ cf. Queued.merge_cf cf key value

  -- All requests, if every one can be resolved.
  abbrev pub all_resolved : Db → List Request → Option (List (BatchOperation Cf))
  all_resolved db [] = some []
  all_resolved db (request ∷ requests) = do
    first ← resolved db request
    batch ← all_resolved db requests
    some (first ∷ batch)

  abbrev pub tuples : List Request → List r.Term
  tuples [] = []
  tuples (request ∷ requests) = t.tuple (elements request) ∷ tuples requests

  operation-tuple :
      (db : Db) (request : Request)
      → operation r rocks db (t.tuple (elements request)) ≡ resolved db request
  unfolding operation operation_named
  operation-tuple db (put key value) = simp (t.tuple-read, t.atom-read, t.binary-read) refl
  operation-tuple db (delete key) = simp (t.tuple-read, t.atom-read, t.binary-read) refl
  operation-tuple db (put_cf cf key value) =
      simp (t.tuple-read, t.atom-read, t.binary-read, t.string-read) refl
  operation-tuple db (delete_cf cf key) =
      simp (t.tuple-read, t.atom-read, t.binary-read, t.string-read) refl
  operation-tuple db (merge key value) = simp (t.tuple-read, t.atom-read, t.binary-read) refl
  operation-tuple db (merge_cf cf key value) =
      simp (t.tuple-read, t.atom-read, t.binary-read, t.string-read) refl

  -- A batch of requests that are written as tuples holds the operations they ask for, in their
  -- order; a request for a column family that the database does not have stops it.
  pub fill-tuples :
      (db : Db) (requests : List Request)
      → fill r rocks db (tuples requests) ≡ all_resolved db requests
  unfolding fill
  fill-tuples db [] = refl
  fill-tuples db (request ∷ requests) =
      rw (operation-tuple db request, fill-tuples db requests) refl
