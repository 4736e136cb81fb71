-- ===== src/Options/Rocker/Decode/Values.antt =====
-- What `RockerOptions::decode` accepts.
use text.Mathlib.Text.{◌==◌ as str_eq}
use text.Mathlib.TextEquality.{eq_iff}
use ex_rocket.Prelude.{
  ◌≡◌, refl, sym, subst, ap, ◌∙◌, Option, none, some, List, [], ◌∷◌, String, Bool-cases,
  Option-cases, inl, inr, if◌then◌else◌,
}
use ex_rocket.Prelude.Result.{ok, err, ok_or, >>=-eq-ok, ok_or-eq-ok}
use ex_rocket.Options.Rustler.{Rustler, fold_entries}
use ex_rocket.Options.Rocker.Types.{FieldType, Value, RockerOptions, assign, decode_as}
use ex_rocket.Options.Rocker.Fields.{lookup, field_type, default}
use ex_rocket.Options.Rocker.Arms.{arms}
use ex_rocket.Options.Rocker.Tables.{lookup-arms}
use ex_rocket.Options.Rocker.Validate.{unknown, invalid, validate}
use ex_rocket.Options.Rocker.Decode.{decode_field, arm_for, entry, checked, decode}

module _ (r : Rustler) where
  open r use {Term, Float, map_entries, atom_to_string}

  -- What an entry with the key `key` makes of the field `name`, of the type `type`.
  abbrev pub given :
      String → Option FieldType → Option String → Term → Option (Value Float) → Option (Value Float)
  given name (some type) (some key) value old =
      if str_eq key name then decode_as r type value else old
  given name _ _ value old = old

  -- The value that the last entry for `name` gives, and `old` if there is none.
  abbrev pub given_last :
      String → Option FieldType → Option (Value Float) → List (Term × Term) → Option (Value Float)
  given_last name type old [] = old
  given_last name type old ((key, value) ∷ rest) =
      given_last name type (given name type (atom_to_string key) value old) rest

  assign-given :
      (options : RockerOptions Float) (key name : String) (type : FieldType) (value : Term)
      (decoded : Value Float) (found : Option FieldType)
      → field_type key ≡ some type
      → field_type name ≡ found
      → decode_as r type value ≡ some decoded
      → assign key decoded options name ≡ given name found (some key) value (options name)
  assign-given options key name type value decoded none known e d =
      elim (Bool-cases (str_eq key name)) [
        | inl same ↦ let equal = (eq_iff key name).0 same in let both = ap field_type equal in cc
        | inr other ↦ rw other refl
      ]
  assign-given options key name type value decoded (some t) known e d =
      elim (Bool-cases (str_eq key name)) [
        | inl same ↦
            let equal = (eq_iff key name).0 same in
            let both = ap field_type equal in let types : t ≡ type = cc in rw (same, types, d) refl
        | inr other ↦ rw other refl
      ]

  entry-given :
      (options next : RockerOptions Float) (key value : Term) (name : String)
      → entry r options (key, value) ≡ ok next
      → next name ≡ given name (field_type name) (atom_to_string key) value (options name)
  unfolding entry
  entry-given options next key value name h =
      let (k, e, h1) = >>=-eq-ok (ok_or (atom_to_string key) (invalid "options")) _ h in
      elim (Option-cases (lookup k arms)) [
        | inl unlisted ↦ let refused : err (unknown k) ≡ ok next = rw unlisted at h1 in cc
        | inr (field, listed) ↦
            let (field_same, type, known) = lookup-arms k field listed in
            let armed : arm_for r options k value (some field) ≡ ok next = rw listed at h1 in
            let (decoded, d, h2) =
              >>=-eq-ok (ok_or (decode_field r field value) (invalid k)) _ armed in
            let there : decode_field r field value ≡ some decoded = ok_or-eq-ok _ _ d in
            let here : decode_field r k value ≡ some decoded =
              sym (ap (λ (f : String). decode_field r f value) field_same) ∙ there in
            let typed : decode_as r type value ≡ some decoded = rw known at here in
            let made : assign field decoded options ≡ next = cc in
            let own : assign k decoded options ≡ next =
              ap (λ (f : String). assign f decoded options) (sym field_same) ∙ made in
            sym (ap (λ (o : RockerOptions Float). o name) own)
            ∙ assign-given options k name type value decoded (field_type name) known refl typed
            ∙ ap (λ (a : Option String). given name (field_type name) a value (options name))
                (sym (ok_or-eq-ok (atom_to_string key) _ e))
      ]

  fold_entries-given :
      (options next : RockerOptions Float) (entries : List (Term × Term)) (name : String)
      → fold_entries (entry r) options entries ≡ ok next
      → next name ≡ given_last name (field_type name) (options name) entries
  unfolding fold_entries
  fold_entries-given options next [] name h =
      let same : options ≡ next = cc in sym (ap (λ (o : RockerOptions Float). o name) same)
  fold_entries-given options next ((key, value) ∷ rest) name h =
      let (middle, e, later) =
        >>=-eq-ok (entry r options (key, value)) (λ n. fold_entries (entry r) n rest) h in
      fold_entries-given middle next rest name later
      ∙ ap (λ (v : Option (Value Float)). given_last name (field_type name) v rest)
          (entry-given options middle key value name e)

  -- Accepted options are valid, and every field holds what the last entry for its name gives at the
  -- type that the struct has for it, or else its default.
  pub decode-given :
      (term : Term) (options : RockerOptions Float)
      → decode r term ≡ ok options
      → (entries : List (Term × Term)) × (map_entries term ≡ some entries)
        × (validate options ≡ ok tt)
        × ((name : String)
            → options name ≡ given_last name (field_type name) (default name) entries)
  unfolding decode
  decode-given term options h =
      let (entries, e, h1) = >>=-eq-ok (ok_or (map_entries term) (invalid "options")) _ h in
      let (folded, f, h2) = >>=-eq-ok (fold_entries (entry r) default entries) (checked r) h1 in
      let (done, valid, h3) = >>=-eq-ok (validate folded) (λ _. ok folded) h2 in
      let same : folded ≡ options = cc in
      (
        entries,
        ok_or-eq-ok (map_entries term) _ e,
        subst (λ (o : RockerOptions Float). validate o ≡ ok tt) same valid,
        λ name.
            sym (ap (λ (o : RockerOptions Float). o name) same)
            ∙ fold_entries-given default folded entries name f,
      )
