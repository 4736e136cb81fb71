-- ===== src/Options/Read/Errors.antt =====
-- Which key an error of `RockerReadOptions::decode` names.
use mathlib.Core.List.{Memᴰ}
use text.Mathlib.Text.{◌==◌ as str_eq}
use ex_rocket.Prelude.{
  ◌≡◌, sym, subst, Bool, true, false, ◌||◌, none, some, List, String, arith, Option-cases, inl, inr,
  ◌⊎◌,
}
use ex_rocket.Prelude.Result.{err}
use ex_rocket.Options.Rustler.{Rustler, fold_entries, fold_entries-err}
use ex_rocket.Options.Read.{
  RockerReadOptions, default, ReadOptionsError, invalid, unknown, entry_for, entry, decode,
}

abbrev pub is_known : String → Bool
is_known key = str_eq key "iterate_upper_bound" || str_eq key "iterate_lower_bound"

module _ (r : Rustler) where
  open r use {Term, map_entries, atom_to_string, decode_string}

  -- What is wrong with an entry.
  data Wrong : Term × Term → ReadOptionsError → Type 0 where
    no_atom :
        {key value : Term} → atom_to_string key ≡ none → Wrong (key, value) (invalid "read_options")
    no_string :
        {key value : Term} (name : String)
        → atom_to_string key ≡ some name
        → is_known name ≡ true
        → decode_string value ≡ none
        → Wrong (key, value) (invalid name)
    not_known :
        {key value : Term} (name : String)
        → atom_to_string key ≡ some name
        → is_known name ≡ false
        → Wrong (key, value) (unknown name)

  entry_for-err :
      (options : RockerReadOptions) (name : String) (value : Term) (reason : ReadOptionsError)
      → entry_for r options name value ≡ err reason
      → ((is_known name ≡ true) × (decode_string value ≡ none) × (reason ≡ invalid name))
        ⊎ ((is_known name ≡ false) × (reason ≡ unknown name))
  entry_for-err options name value reason h = ground arith

  entry-Wrong :
      (options : RockerReadOptions) (key value : Term) (reason : ReadOptionsError)
      → entry r options (key, value) ≡ err reason
      → Wrong (key, value) reason
  entry-Wrong options key value reason h = elim (Option-cases (atom_to_string key)) [
    | inl e ↦
        let refused : err (invalid "read_options") ≡ err reason = rw e at h in
        let same : invalid "read_options" ≡ reason = cc in
        subst (Wrong (key, value)) same (no_atom e)
    | inr (name, e) ↦
        let named : entry_for r options name value ≡ err reason = rw e at h in
        elim (entry_for-err options name value reason named) [
          | inl (known, no_text, same) ↦
              subst (Wrong (key, value)) (sym same) (no_string name e known no_text)
          | inr (other, same) ↦ subst (Wrong (key, value)) (sym same) (not_known name e other)
        ]
  ]

  -- An error that is not about a term that is no map names an entry of the map that is wrong: its key
  -- is no atom, or a key that is not known, or the key of a bound that is no string.
  decode-Wrong :
      (term : Term) (entries : List (Term × Term)) (reason : ReadOptionsError)
      → map_entries term ≡ some entries
      → decode r term ≡ err reason
      → (x : Term × Term) × Memᴰ x entries × Wrong x reason
  unfolding decode
  decode-Wrong term entries reason e h =
      let folded : fold_entries (entry r) default entries ≡ err reason = rw e at h in
      let (x, m, options, refused) = fold_entries-err (entry r) default entries reason folded in
      (x, m, entry-Wrong options (x.0) (x.1) reason refused)
