-- ===== src/Options/Read.antt =====
-- `RockerReadOptions::decode` of native/rocker/src/read_options.rs, and `From<RockerReadOptions>`: the
-- crate's options are what calls of setters make of the default.
pub mod Errors
use text.Mathlib.Text.{◌==◌ as str_eq}
use ex_rocket.Prelude.{Option, some, none, List, [], ◌∷◌, ◌++◌, String, if◌then◌else◌}
use ex_rocket.Prelude.Result.{Result, ok, err, ◌>>=◌, ok_or}
use ex_rocket.Text.Utf8.{Bytes, Chars}
use ex_rocket.Options.Rustler.{Rustler, fold_entries}

pub record RockerReadOptions : Type 0 where
  pub iterate_upper_bound : Option Chars
  pub iterate_lower_bound : Option Chars

abbrev pub default : RockerReadOptions
default = record { iterate_upper_bound = none; iterate_lower_bound = none }

pub data ReadOptionsError : Type 0 where
  unknown invalid : String → ReadOptionsError

-- A call of a setter of `rocksdb::ReadOptions`; the bounds of a range are there or not.
pub data Call : Type 0 where
  set_iterate_upper_bound set_iterate_lower_bound : Chars → Call
  set_iterate_range : Option Bytes → Option Bytes → Call

abbrev pub on_bound : (Chars → Call) → Option Chars → List Call
on_bound setter none = []
on_bound setter (some bound) = setter bound ∷ []

unfoldable pub from : RockerReadOptions → List Call
from options =
    on_bound set_iterate_upper_bound options.iterate_upper_bound
    ++ on_bound set_iterate_lower_bound options.iterate_lower_bound

module _ (r : Rustler) where
  open r use {Term, map_entries, atom_to_string, decode_string}

  abbrev pub entry_for :
      RockerReadOptions → String → Term → Result ReadOptionsError RockerReadOptions
  entry_for options key value =
      if str_eq key "iterate_upper_bound"
      then (do
        bound ← ok_or (decode_string value) (invalid key)
        ok (record options { iterate_upper_bound = some bound }))
      else if str_eq key "iterate_lower_bound"
      then (do
        bound ← ok_or (decode_string value) (invalid key)
        ok (record options { iterate_lower_bound = some bound }))
      else err (unknown key)

  abbrev pub entry : RockerReadOptions → Term × Term → Result ReadOptionsError RockerReadOptions
  entry options (key, value) = do
    name ← ok_or (atom_to_string key) (invalid "read_options")
    entry_for options name value

  unfoldable pub decode : Term → Result ReadOptionsError RockerReadOptions
  unfolding fold_entries
  decode term = do
    entries ← ok_or (map_entries term) (invalid "read_options")
    fold_entries entry default entries
