-- ===== src/Nif/Open/Refused.antt =====
-- The handlers that take options for a database, on options that are refused.
use mathlib.Core.List.{Memᴰ}
use ex_rocket.Prelude.{◌≡◌, refl, some, List}
use ex_rocket.Prelude.Result.{err}
use ex_rocket.Text.Utf8.{Chars}
use ex_rocket.Options.Rustler.{Rustler}
use ex_rocket.Options.Rocker.Validate.{OptionsError}
use ex_rocket.Options.Rocker.Decode.{decode}
use ex_rocket.Options.Rocker.Decode.Errors.{Wrong, decode-Wrong}
use ex_rocket.Nif.Rocks.{Rocks}
use ex_rocket.Nif.Handlers.{Reply, DbResource}
use ex_rocket.Nif.Open.{
  Files, encode_named_option_error, Opened, replied, open_db, open_for_read_only, open_cf,
  open_cf_for_read_only, destroy, repair, list_cf, create_cf,
}

-- A call that works on the files of a database.
pub data FileCall (Term : Type 0) : Type 0 where
  opens opens_read_only destroys repairs lists_cf : Chars → FileCall Term
  opens_cf opens_cf_read_only : Chars → Term → FileCall Term

module _ (r : Rustler) (rocks : Rocks) (files : Files rocks r.Float) where
  open r use {Term, map_entries}
  open files use {Disk}

  abbrev pub as_opened : Reply × Disk → Opened rocks × Disk
  as_opened (reply, disk) = (replied reply, disk)

  unfoldable pub run : FileCall Term → Term → Disk → Opened rocks × Disk
  run (opens path) options disk = open_db r rocks files path options disk
  run (opens_read_only path) options disk = open_for_read_only r rocks files path options disk
  run (opens_cf path cfs) options disk = open_cf r rocks files path cfs options disk
  run (opens_cf_read_only path cfs) options disk =
      open_cf_for_read_only r rocks files path cfs options disk
  run (destroys path) options disk = as_opened (destroy r rocks files path options disk)
  run (repairs path) options disk = as_opened (repair r rocks files path options disk)
  run (lists_cf path) options disk = as_opened (list_cf r rocks files path options disk)

  pub run-refused :
      (options : Term) (reason : OptionsError) (call : FileCall Term) (disk : Disk)
      → decode r options ≡ err reason
      → run call options disk ≡ (replied (encode_named_option_error reason), disk)
  unfolding run open_db open_for_read_only open_cf open_cf_for_read_only destroy repair list_cf
  run-refused options reason (opens path) disk h = rw h refl
  run-refused options reason (opens_read_only path) disk h = rw h refl
  run-refused options reason (destroys path) disk h = rw h refl
  run-refused options reason (repairs path) disk h = rw h refl
  run-refused options reason (lists_cf path) disk h = rw h refl
  run-refused options reason (opens_cf path cfs) disk h = rw h refl
  run-refused options reason (opens_cf_read_only path cfs) disk h = rw h refl

  -- A map of options with an entry that is wrong reaches no database: each of the seven calls on files
  -- replies with the error of a wrong entry of the map and leaves the files as they are, and
  -- `create_cf` replies the same and leaves the resource as it is, even a closed one. An entry is wrong
  -- if its key is no atom or names no field, or its value is not of the field's type.
  pub run-Wrong :
      (options : Term) (entries : List (Term × Term)) (x : Term × Term) (reason : OptionsError)
      (call : FileCall Term) (disk : Disk) (name : Chars) (resource : DbResource rocks)
      → map_entries options ≡ some entries
      → Memᴰ x entries
      → Wrong r x reason
      → (other : OptionsError) × ((y : Term × Term) × Memᴰ y entries × Wrong r y other)
        × (run call options disk ≡ (replied (encode_named_option_error other), disk))
        × (create_cf r rocks files name options resource
            ≡ (encode_named_option_error other, resource))
  unfolding create_cf
  run-Wrong options entries x reason call disk name resource e member wrong =
      let (other, found, h) = decode-Wrong r options entries x reason e member wrong in
      (other, found, run-refused options other call disk h, rw h refl)
