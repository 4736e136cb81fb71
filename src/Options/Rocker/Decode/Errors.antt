-- ===== src/Options/Rocker/Decode/Errors.antt =====
-- Which key an error of `RockerOptions::decode` names.
use mathlib.Core.List.{Memᴰ}
use ex_rocket.Prelude.{
  ◌≡◌, refl, sym, subst, ap, ◌∙◌, Option, none, some, List, String, Option-cases, inl, inr, ◌⊎◌,
}
use ex_rocket.Prelude.Result.{Result, ok, err, ◌>>=◌, Result-cases}
use ex_rocket.Options.Rustler.{Rustler, fold_entries, fold_entries-ok, fold_entries-err}
use ex_rocket.Options.Rocker.Types.{FieldType, RockerOptions, assign, decode_as}
use ex_rocket.Options.Rocker.Fields.{lookup, field_type, default}
use ex_rocket.Options.Rocker.Arms.{arms}
use ex_rocket.Options.Rocker.Tables.{lookup-arms, lookup-fields}
use ex_rocket.Options.Rocker.Validate.{OptionsError, unknown, invalid, validate}
use ex_rocket.Options.Rocker.Decode.{decode_field, arm_for, entry, checked, decode}

module _ (r : Rustler) where
  open r use {Term, Float, map_entries, atom_to_string}

  -- What is wrong with an entry: its key is no atom, or not the name of a field, or its value does not
  -- decode to the type of the field.
  pub data Wrong : Term × Term → OptionsError → Type 0 where
    no_atom :
        {key value : Term} → atom_to_string key ≡ none → Wrong (key, value) (invalid "options")
    no_field :
        {key value : Term} (name : String)
        → atom_to_string key ≡ some name
        → field_type name ≡ none
        → Wrong (key, value) (unknown name)
    no_value :
        {key value : Term} (name : String) (type : FieldType)
        → atom_to_string key ≡ some name
        → field_type name ≡ some type
        → decode_as r type value ≡ none
        → Wrong (key, value) (invalid name)

  unlisted-field_type : (name : String) → lookup name arms ≡ none → field_type name ≡ none
  unlisted-field_type name h = elim (Option-cases (field_type name)) [
    | inl e ↦ e
    | inr (type, e) ↦ let listed = lookup-fields name type e in cc
  ]

  arm_for-Wrong :
      (options : RockerOptions Float) (key value : Term) (name : String) (listed : Option String)
      (reason : OptionsError)
      → atom_to_string key ≡ some name
      → lookup name arms ≡ listed
      → arm_for r options name value listed ≡ err reason
      → Wrong (key, value) reason
  arm_for-Wrong options key value name none reason a l h =
      let same : unknown name ≡ reason = cc in
      subst (Wrong (key, value)) same (no_field name a (unlisted-field_type name l))
  arm_for-Wrong options key value name (some field) reason a l h =
      let (field_same, type, known) = lookup-arms name field l in
      elim (Option-cases (decode_field r field value)) [
        | inl e ↦
            let refused : err (invalid name) ≡ err reason = rw e at h in
            let same : invalid name ≡ reason = cc in
            let here : decode_field r name value ≡ none =
              sym (ap (λ (f : String). decode_field r f value) field_same) ∙ e in
            let typed : decode_as r type value ≡ none = rw known at here in
            subst (Wrong (key, value)) same (no_value name type a known typed)
        | inr (decoded, e) ↦
            let accepted : ok (assign field decoded options) ≡ err reason = rw e at h in cc
      ]

  entry-Wrong :
      (options : RockerOptions Float) (key value : Term) (reason : OptionsError)
      → entry r options (key, value) ≡ err reason
      → Wrong (key, value) reason
  unfolding entry
  entry-Wrong options key value reason h = elim (Option-cases (atom_to_string key)) [
    | inl e ↦
        let refused : err (invalid "options") ≡ err reason = rw e at h in
        let same : invalid "options" ≡ reason = cc in subst (Wrong (key, value)) same (no_atom e)
    | inr (name, e) ↦
        let named : arm_for r options name value (lookup name arms) ≡ err reason = rw e at h in
        arm_for-Wrong options key value name (lookup name arms) reason e refl named
  ]

  checked-err :
      (options : RockerOptions Float) (reason : OptionsError)
      → checked r options ≡ err reason
      → validate options ≡ err reason
  checked-err options reason h = elim (Result-cases (validate options)) [
    | inl (done, valid) ↦ let accepted : ok options ≡ err reason = rw valid at h in cc
    | inr (refusal, refused) ↦
        let now : err refusal ≡ err reason = rw refused at h in
        let same : refusal ≡ reason = cc in refused ∙ ap err same
  ]

  -- The options that the entries make, before they are validated.
  abbrev pub assembled : List (Term × Term) → Result OptionsError (RockerOptions Float)
  assembled entries = fold_entries (entry r) default entries

  -- An error for a map is the error of an entry that is wrong, or the entries make options that
  -- `validate` refuses with it.
  pub decode-err :
      (term : Term) (entries : List (Term × Term)) (reason : OptionsError)
      → map_entries term ≡ some entries
      → decode r term ≡ err reason
      → ((x : Term × Term) × Memᴰ x entries × Wrong x reason)
        ⊎ ((options : RockerOptions Float) × (assembled entries ≡ ok options)
            × (validate options ≡ err reason))
  unfolding decode
  decode-err term entries reason e h =
      let folded : (assembled entries >>= checked r) ≡ err reason = rw e at h in
      elim (Result-cases (assembled entries)) [
        | inl (options, made) ↦
            let refused : checked r options ≡ err reason = rw made at folded in
            inr (options, made, checked-err options reason refused)
        | inr (refusal, stopped) ↦
            let now : err refusal ≡ err reason = rw stopped at folded in
            let same : refusal ≡ reason = cc in
            let (x, m, options, refused) =
              fold_entries-err (entry r) default entries reason (stopped ∙ ap err same) in
            inl (x, m, entry-Wrong options (x.0) (x.1) reason refused)
      ]

  arm_for-refused :
      (options : RockerOptions Float) (name : String) (type : FieldType) (value : Term)
      (listed : Option String)
      → field_type name ≡ some type
      → decode_as r type value ≡ none
      → lookup name arms ≡ listed
      → (reason : OptionsError) × (arm_for r options name value listed ≡ err reason)
  arm_for-refused options name type value none known bad l = (unknown name, refl)
  arm_for-refused options name type value (some field) known bad l =
      let (field_same, other, e) = lookup-arms name field l in
      let here : decode_field r name value ≡ none = rw known bad in
      let none_there : decode_field r field value ≡ none =
        ap (λ (f : String). decode_field r f value) field_same ∙ here in
      (invalid name, rw none_there refl)

  Wrong-refused :
      (options : RockerOptions Float) (x : Term × Term) (reason : OptionsError)
      → Wrong x reason
      → (other : OptionsError) × (entry r options x ≡ err other)
  unfolding entry
  Wrong-refused options (key, value) reason (no_atom e) = (invalid "options", rw e refl)
  Wrong-refused options (key, value) reason (no_field name a none_known) =
      elim (Option-cases (lookup name arms)) [
        | inl l ↦ (unknown name, rw a (rw l refl))
        | inr (field, l) ↦ let (same, type, known) = lookup-arms name field l in cc
      ]
  Wrong-refused options (key, value) reason (no_value name type a known bad) =
      let (other, e) = arm_for-refused options name type value (lookup name arms) known bad refl in
      (other, rw a e)

  -- A map with an entry that is wrong is refused, with the error of a wrong entry of the map.
  pub decode-Wrong :
      (term : Term) (entries : List (Term × Term)) (x : Term × Term) (reason : OptionsError)
      → map_entries term ≡ some entries
      → Memᴰ x entries
      → Wrong x reason
      → (other : OptionsError) × ((y : Term × Term) × Memᴰ y entries × Wrong y other)
        × (decode r term ≡ err other)
  unfolding decode
  decode-Wrong term entries x reason e member wrong = elim (Result-cases (assembled entries)) [
    | inl (options, made) ↦
        let (before, after, accepted) = fold_entries-ok (entry r) default entries made member in
        let (other, refused) = Wrong-refused before x reason wrong in
        absurd (let now = sym accepted ∙ refused in cc)
    | inr (other, stopped) ↦
        let (y, m, options, refused) = fold_entries-err (entry r) default entries other stopped in
        (other, (y, m, entry-Wrong options (y.0) (y.1) other refused), rw e (rw stopped refl))
  ]
