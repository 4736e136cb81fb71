-- ===== src/Options/Rocker/Tables.antt =====
-- Lookups in the tables of fields and arms.
use text.Mathlib.Text.{◌==◌ as str_eq}
use text.Mathlib.TextEquality.{eq_iff}
use ex_rocket.Prelude.{
  ◌≡◌, refl, sym, ap, Bool, true, false, ◌&&◌, Option, none, some, List, [], ◌∷◌, String, arith,
}
use ex_rocket.Options.Rocker.Types.{FieldType}
use ex_rocket.Options.Rocker.Fields.{lookup, fields, field_type}
use ex_rocket.Options.Rocker.Arms.{arms}

module _ {A : Type 0} (p : String → A → Bool) where
  all_rows : List (String × A) → Bool
  all_rows [] = true
  all_rows ((key, a) ∷ rows) = p key a && all_rows rows

  -- What holds of all rows holds of the row that is found.
  all_rows-lookup :
      (name : String) (rows : List (String × A)) (a : A)
      → all_rows rows ≡ true
      → lookup name rows ≡ some a
      → p name a ≡ true
  unfolding all_rows lookup
  all_rows-lookup name [] a h e = cc
  all_rows-lookup name ((key, x) ∷ rows) a h e =
      ground (arith, eq_iff name key, all_rows-lookup name rows a)

abbrev is_some : {A : Type 0} → Option A → Bool
is_some none = false
is_some (some a) = true

abbrev is_named : String → Option String → Bool
is_named name none = false
is_named name (some field) = str_eq name field

-- An arm assigns the field of its own name, which is there.
own_field : String → String → Bool
own_field key field = str_eq key field && is_some (lookup key fields)

-- A field has an arm of its name.
own_arm : String → FieldType → Bool
own_arm name type = is_named name (lookup name arms)

arms_checked : all_rows own_field arms ≡ true
unfolding all_rows own_field lookup
arms_checked = refl

fields_checked : all_rows own_arm fields ≡ true
unfolding all_rows own_arm lookup
fields_checked = refl

is_some_lem : {A : Type 0} (o : Option A) → is_some o ≡ true → (a : A) × (o ≡ some a)
is_some_lem none h = cc
is_some_lem (some a) h = (a, refl)

is_named_lem : (name : String) (o : Option String) → is_named name o ≡ true → o ≡ some name
is_named_lem name none h = cc
is_named_lem name (some field) h = ap some (sym ((eq_iff name field).0 h))

parts : (a b : Bool) → (a && b) ≡ true → (a ≡ true) × (b ≡ true)
parts a b h = ground arith

-- An arm assigns the field of its own name.
pub lookup-arms :
    (name field : String)
    → lookup name arms ≡ some field
    → (field ≡ name) × (type : FieldType) × (field_type name ≡ some type)
unfolding own_field field_type
lookup-arms name field e =
    let checked = all_rows-lookup own_field name arms field arms_checked e in
    let (same, known) = parts _ _ checked in
    let (type, found) = is_some_lem (lookup name fields) known in
    (sym ((eq_iff name field).0 same), type, found)

-- Every field of the struct has an arm of its name.
pub lookup-fields :
    (name : String) (type : FieldType) → field_type name ≡ some type → lookup name arms ≡ some name
unfolding own_arm field_type
lookup-fields name type e =
    is_named_lem name (lookup name arms) (all_rows-lookup own_arm name fields type fields_checked e)
