-- ===== src/Options/Iterator.antt =====
-- `IteratorTakeOptions::decode` of native/rocker/src/iterator_options.rs.
pub mod Bounds
use text.Mathlib.Text.{◌==◌ as str_eq}
use ex_rocket.Prelude.{
  ℕ, ◌*◌, ◌≤◌, ◌<◌, ◌≡◌, ◌||◌, Option, none, some, List, String, arith, ltb, ◌==◌, if◌then◌else◌,
}
use ex_rocket.Prelude.Result.{Result, ok, err, ◌>>=◌, ok_or}
use ex_rocket.Options.Rustler.{Rustler, fold_entries}

abbrev pub max_entries_limit : ℕ
max_entries_limit = 100_000

abbrev pub max_bytes_limit : ℕ
max_bytes_limit = 64 * 1024 * 1024

pub record IteratorTakeOptions : Type 0 where
  pub max_entries : ℕ
  pub max_bytes : Option ℕ

pub data IteratorOptionsError : Type 0 where
  invalid : IteratorOptionsError
  unknown : String → IteratorOptionsError

-- The two variables of the loop.
pub record Limits : Type 0 where
  pub max_entries : Option ℕ
  pub max_bytes : Option ℕ

-- `decoded == 0 || decoded > limit` is an error.
abbrev pub within : ℕ → Option ℕ → Result IteratorOptionsError ℕ
within limit none = err invalid
within limit (some decoded) = if decoded == 0 || ltb limit decoded then err invalid else ok decoded

module _ (r : Rustler) where
  open r use {Term, map_entries, atom_to_string, decode_usize}

  abbrev pub entry_for : Limits → String → Term → Result IteratorOptionsError Limits
  entry_for limits key value =
      if str_eq key "max_entries"
      then (do
        decoded ← within max_entries_limit (decode_usize value)
        ok (record limits { max_entries = some decoded }))
      else if str_eq key "max_bytes"
      then (do
        decoded ← within max_bytes_limit (decode_usize value)
        ok (record limits { max_bytes = some decoded }))
      else err (unknown key)

  abbrev pub entry : Limits → Term × Term → Result IteratorOptionsError Limits
  entry limits (key, value) = do
    name ← ok_or (atom_to_string key) invalid
    entry_for limits name value

  unfoldable pub decode : Term → Result IteratorOptionsError IteratorTakeOptions
  unfolding fold_entries
  decode term = do
    entries ← ok_or (map_entries term) invalid
    limits ← fold_entries entry (record { max_entries = none; max_bytes = none }) entries
    max_entries ← ok_or limits.max_entries invalid
    ok (record { max_entries = max_entries; max_bytes = limits.max_bytes })
