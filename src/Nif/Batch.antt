-- ===== src/Nif/Batch.antt =====
-- `write_batch` of native/rocker/src/nif.rs. An operation is a tuple whose first term is an atom; a
-- term that cannot be read so is `Err(Error::BadArg)`, here `none`.
pub mod Atomic
pub mod Encoded
use text.Mathlib.Text.{◌==◌ as str_eq}
use ex_rocket.Prelude.{
  ℕ, Bool, ◌&&◌, Option, none, some, List, [], ◌∷◌, String, ◌==◌, leb, length, get_elem?,
  if◌then◌else◌,
}
use ex_rocket.Prelude.Chain.{◌>>=◌}
use ex_rocket.Prelude.Result.{Result, ok, err}
use ex_rocket.Options.Rustler.{Rustler}
use ex_rocket.Options.Write as Write
use ex_rocket.Options.Write.{RockerWriteOptions, WriteOptionsError, invalid, unknown, decode}
use ex_rocket.Nif.Rocks.{
  Rocks, Outcome, BatchOperation, put, delete, put_cf, delete_cf, merge as merge_operation,
  merge_cf,
}
use ex_rocket.Nif.Handlers.{
  Reply, item, number, failed, bad_arg, invalid_write_options, unknown_option, DbResource, with_db,
}

abbrev pub encode_write_options_error : WriteOptionsError → Reply
encode_write_options_error invalid = invalid_write_options
encode_write_options_error (unknown key) = unknown_option key

abbrev pub applied : {S : Type 0} → ℕ → Outcome × S → Reply × S
applied count (ok tt, s) = (number count, s)
applied count (err reason, s) = (item (failed reason), s)

module _ (r : Rustler) (rocks : Rocks) where
  open r use {Term, atom_to_string, decode_string, decode_binary, decode_list, get_tuple}
  open rocks use {Db, Cf, cf_handle, write_opt}

  abbrev pub binary_at : ℕ → List Term → Option (List ℕ)
  binary_at i terms = do term ← get_elem? terms i; decode_binary term

  abbrev pub cf_at : Db → ℕ → List Term → Option Cf
  cf_at db i terms = do term ← get_elem? terms i; name ← decode_string term; cf_handle db name

  unfoldable pub operation_named : Db → String → List Term → Option (BatchOperation Cf)
  operation_named db name terms =
      if str_eq name "put" && (length terms == 3)
      then (do key ← binary_at 1 terms; value ← binary_at 2 terms; some (put key value))
      else if str_eq name "delete" && leb 2 (length terms)
      then (do key ← binary_at 1 terms; some (delete key))
      else if str_eq name "put_cf" && (length terms == 4)
      then (do
        cf ← cf_at db 1 terms
        key ← binary_at 2 terms
        value ← binary_at 3 terms
        some (put_cf cf key value))
      else if str_eq name "delete_cf" && leb 3 (length terms)
      then (do cf ← cf_at db 1 terms; key ← binary_at 2 terms; some (delete_cf cf key))
      else if str_eq name "merge" && (length terms == 3)
      then (do
        key ← binary_at 1 terms
        operand ← binary_at 2 terms
        some (merge_operation key operand))
      else if str_eq name "merge_cf" && (length terms == 4)
      then (do
        cf ← cf_at db 1 terms
        key ← binary_at 2 terms
        operand ← binary_at 3 terms
        some (merge_cf cf key operand))
      else none

  unfoldable pub operation : Db → Term → Option (BatchOperation Cf)
  operation db term = do
    terms ← get_tuple term
    first ← get_elem? terms 0
    name ← atom_to_string first
    operation_named db name terms

  -- The loop that fills the batch.
  unfoldable pub fill : Db → List Term → Option (List (BatchOperation Cf))
  fill db [] = some []
  fill db (term ∷ terms) = do first ← operation db term; batch ← fill db terms; some (first ∷ batch)

  abbrev pub write_filled : RockerWriteOptions → Db → Option (List (BatchOperation Cf)) → Reply × Db
  write_filled options db none = (bad_arg, db)
  write_filled options db (some batch) =
      applied (length batch) (write_opt (Write.from options) batch db)

  abbrev pub write_operations :
      RockerWriteOptions → Option (List Term) → DbResource rocks → Reply × DbResource rocks
  write_operations options none resource = (bad_arg, resource)
  write_operations options (some operations) resource =
      with_db rocks (λ db. write_filled options db (fill db operations)) resource

  abbrev pub write_decoded :
      Result WriteOptionsError RockerWriteOptions
      → Option (List Term)
      → DbResource rocks
      → Reply × DbResource rocks
  write_decoded (err reason) operations resource = (encode_write_options_error reason, resource)
  write_decoded (ok options) operations resource = write_operations options operations resource

  unfoldable pub write_batch : Term → Term → DbResource rocks → Reply × DbResource rocks
  write_batch operations write_options resource =
      write_decoded (decode r write_options) (decode_list operations) resource
