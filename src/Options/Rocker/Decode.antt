-- ===== src/Options/Rocker/Decode.antt =====
-- `RockerOptions::decode`.
pub mod Values
pub mod Errors
use ex_rocket.Prelude.{Option, none, some, String}
use ex_rocket.Prelude.Chain.{◌>>=◌ as ◌>>=?◌}
use ex_rocket.Prelude.Result.{Result, ok, err, ◌>>=◌, ok_or}
use ex_rocket.Options.Rustler.{Rustler, fold_entries}
use ex_rocket.Options.Rocker.Types.{Value, RockerOptions, assign, decode_as}
use ex_rocket.Options.Rocker.Fields.{lookup, field_type, default}
use ex_rocket.Options.Rocker.Arms.{arms}
use ex_rocket.Options.Rocker.Validate.{OptionsError, unknown, invalid, validate}

module _ (r : Rustler) where
  open r use {Term, Float, map_entries, atom_to_string}

  -- `value.decode()` at the type of a field.
  abbrev pub decode_field : String → Term → Option (Value Float)
  decode_field field value = field_type field >>=? λ type. decode_as r type value

  -- One arm of the `match`.
  abbrev pub arm_for :
      RockerOptions Float
      → String
      → Term
      → Option String
      → Result OptionsError (RockerOptions Float)
  arm_for options key value none = err (unknown key)
  arm_for options key value (some field) = do
    decoded ← ok_or (decode_field field value) (invalid key)
    ok (assign field decoded options)

  unfoldable pub entry :
      RockerOptions Float → Term × Term → Result OptionsError (RockerOptions Float)
  unfolding field_type lookup
  entry options (key, value) = do
    name ← ok_or (atom_to_string key) (invalid "options")
    arm_for options name value (lookup name arms)

  abbrev pub checked : RockerOptions Float → Result OptionsError (RockerOptions Float)
  checked options = do _ ← validate options; ok options

  unfoldable pub decode : Term → Result OptionsError (RockerOptions Float)
  unfolding fold_entries validate entry
  decode term = do
    entries ← ok_or (map_entries term) (invalid "options")
    options ← fold_entries entry default entries
    checked options
