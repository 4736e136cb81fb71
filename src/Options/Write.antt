-- ===== src/Options/Write.antt =====
-- `RockerWriteOptions::decode` of native/rocker/src/write_options.rs, and `From<RockerWriteOptions>`: the
-- crate's options are what calls of setters make of the default.
pub mod Laws
use text.Mathlib.Text.{◌==◌ as str_eq}
use ex_rocket.Prelude.{
  Bool, true, false, ◌&&◌, Option, some, none, List, [], ◌∷◌, String, if◌then◌else◌,
}
use ex_rocket.Prelude.Result.{Result, ok, err, ◌>>=◌, ok_or}
use ex_rocket.Options.Rustler.{Rustler, fold_entries}

pub record RockerWriteOptions : Type 0 where
  pub sync : Bool
  pub disable_wal : Bool

abbrev pub default : RockerWriteOptions
default = record { sync = false; disable_wal = false }

pub data WriteOptionsError : Type 0 where
  invalid : WriteOptionsError
  unknown : String → WriteOptionsError

-- A call of a setter of `rocksdb::WriteOptions`
pub data Call : Type 0 where
  set_sync set_disable_wal : Bool → Call

abbrev pub from : RockerWriteOptions → List Call
from options = set_sync options.sync ∷ set_disable_wal options.disable_wal ∷ []

-- A synchronous write needs the write-ahead log.
abbrev pub check : RockerWriteOptions → Result WriteOptionsError RockerWriteOptions
check options = if options.sync && options.disable_wal then err invalid else ok options

module _ (r : Rustler) where
  open r use {Term, map_entries, atom_to_string, decode_bool}

  abbrev pub entry_for :
      RockerWriteOptions → String → Term → Result WriteOptionsError RockerWriteOptions
  entry_for options key value =
      if str_eq key "sync"
      then (do sync ← ok_or (decode_bool value) invalid; ok (record options { sync = sync }))
      else if str_eq key "disable_wal"
      then (do
        disable_wal ← ok_or (decode_bool value) invalid
        ok (record options { disable_wal = disable_wal }))
      else err (unknown key)

  abbrev pub entry : RockerWriteOptions → Term × Term → Result WriteOptionsError RockerWriteOptions
  entry options (key, value) = do
    name ← ok_or (atom_to_string key) invalid
    entry_for options name value

  unfoldable pub decode : Term → Result WriteOptionsError RockerWriteOptions
  unfolding fold_entries
  decode term = do
    entries ← ok_or (map_entries term) invalid
    options ← fold_entries entry default entries
    check options
