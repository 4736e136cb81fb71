-- ===== src/Tests/Settings.antt =====
-- Database options at concrete maps.
use mathlib.Core.List.{Memᴰ}
use ex_rocket.Prelude.{◌≡◌, refl, ◌⊎◌, true, false, some, List, [], ◌∷◌, String}
use ex_rocket.Prelude.Int.{pos}
use ex_rocket.Prelude.Result.{ok, err}
use ex_rocket.Text.Utf8.{Chars}
use ex_rocket.Options.Rocker.Types.{RockerOptions, flag, signed, letters, assign}
use ex_rocket.Options.Rocker.Fields.{default, fields, field_type}
use ex_rocket.Options.Rocker.Validate.{OptionsError, unknown, validate, chars}
use ex_rocket.Options.Rocker.Decode.{decode}
use ex_rocket.Options.Rocker.Decode.Values.{given_last, decode-given}
use ex_rocket.Options.Rocker.Decode.Errors.{no_field, Wrong, assembled, decode-err}
use ex_rocket.Options.Rocker.Settings.{Call, set, set_compression, set_ratelimiter, from}
use ex_rocket.Options.Rocker.Settings.Asked.{all_said, asked}
use ex_rocket.Options.Rocker.Settings.Told.{from-asked}
use ex_rocket.Options.Rocker.Choices.{snappy}
use ex_rocket.Nif.Handlers.{new}
use ex_rocket.Nif.Open.{replied, encode_named_option_error, open_db, create_cf}
use ex_rocket.Nif.Open.Refused.{opens, lists_cf, run, run-Wrong}
use ex_rocket.Nif.Open.Told.{opening, HandedOut, run-handed}
use ex_rocket.Tests.Crates.{
  Value, next, end, atoms, strings, numbers, booleans, maps, as_entries, rustler, rocks, files,
}

abbrev limits : Chars
limits = chars "100, 10,1"

abbrev written : Value
written = maps (
    next (atoms "create_if_missing") (
      next (booleans false) (
        next (atoms "set_compression_type") (
          next (strings (chars " Snappy")) (
            next (atoms "set_max_open_files")
              (next (numbers 5) (next (atoms "set_ratelimiter") (next (strings limits) end))))))))

abbrev settings : RockerOptions Unit
settings = assign "set_ratelimiter" (letters limits) (
    assign "set_max_open_files" (signed (pos 5)) (
      assign "set_compression_type" (letters (chars " Snappy"))
        (assign "create_if_missing" (flag false) default)))

decode-given_example :
    (entries : List (Value × Value)) × (as_entries written ≡ some entries)
    × (validate settings ≡ ok tt)
    × ((name : String)
        → settings name ≡ given_last rustler name (field_type name) (default name) entries)
unfolding decode
decode-given_example = decode-given rustler written settings refl

from-asked_example : all_said (from settings) ≡ asked settings fields
unfolding validate
from-asked_example = from-asked settings refl

-- A map with a key that is not known.
abbrev misspelt : Value
misspelt = maps (next (atoms "create_if_mising") (next (booleans true) end))

abbrev misspelt_entry : Value × Value
misspelt_entry = (atoms "create_if_mising", booleans true)

decode-err_example :
    ((x : Value × Value) × Memᴰ x (misspelt_entry ∷ [])
      × Wrong rustler x (unknown "create_if_mising"))
    ⊎ ((options : RockerOptions Unit) × (assembled rustler (misspelt_entry ∷ []) ≡ ok options)
        × (validate options ≡ err (unknown "create_if_mising")))
unfolding decode
decode-err_example =
    decode-err rustler misspelt (misspelt_entry ∷ []) (unknown "create_if_mising") refl refl

run-Wrong_example :
    (other : OptionsError) × ((y : Value × Value) × Memᴰ y (misspelt_entry ∷ [])
      × Wrong rustler y other)
    × (run rustler rocks files (lists_cf []) misspelt []
        ≡ (replied (encode_named_option_error other), []))
    × (create_cf rustler rocks files [] misspelt (new rocks [])
        ≡ (encode_named_option_error other, new rocks []))
unfolding field_type
run-Wrong_example =
    run-Wrong rustler rocks files misspelt (misspelt_entry ∷ []) misspelt_entry
      (unknown "create_if_mising") (lists_cf []) [] [] (new rocks []) refl (Memᴰ.head refl)
      (no_field "create_if_mising" refl refl)

-- What the crate is told of `written`.
abbrev told : List (Call Unit)
told =
    set "create_if_missing" (flag false)
    ∷ set_compression "set_compression_type" snappy
    ∷ set "set_max_open_files" (signed (pos 5))
    ∷ set_ratelimiter (pos 100) (pos 10) (pos 1)
    ∷ []

run-handed_example :
    (entries : List (Value × Value)) × (options : RockerOptions Unit) × (calls : List (Call Unit))
    × (as_entries written ≡ some entries)
    × ((name : String)
        → options name ≡ given_last rustler name (field_type name) (default name) entries)
    × (all_said calls ≡ asked options fields)
    × HandedOut rustler rocks files
        (opening rustler rocks files (opens []) calls [])
        (new rocks [])
        told
unfolding run decode from open_db
run-handed_example = run-handed rustler rocks files (opens []) written [] (new rocks []) told refl
