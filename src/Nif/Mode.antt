-- ===== src/Nif/Mode.antt =====
-- `iterator_mode` of native/rocker/src/nif.rs, and the choice that all iterators make of its result.
-- `none` is `Err(Error::BadArg)`.
use text.Mathlib.Text.{◌==◌ as str_eq}
use ex_rocket.Prelude.{
  ◌≡◌, refl, Option, none, some, List, [], ◌∷◌, String, get_elem?, if◌then◌else◌,
}
use ex_rocket.Prelude.Chain.{◌>>=◌}
use ex_rocket.Text.Utf8.{Bytes}
use ex_rocket.Options.Rustler.{Rustler}
use ex_rocket.Nif.Batch.Encoded.{Terms}

pub data Direction : Type 0 where
  forward reverse : Direction

-- `IteratorMode` of the crate
pub data IteratorMode : Type 0 where
  start end : IteratorMode
  from : Bytes → Direction → IteratorMode

-- `match (name.as_str(), key.as_deref())`
abbrev pub choose : String × Option Bytes × Direction → IteratorMode
choose (name, none, direction) = if str_eq name "end" then end else start
choose (name, some key, direction) =
    if str_eq name "end" then end else if str_eq name "from" then from key direction else start

module _ (r : Rustler) where
  open r use {Term, atom_to_string, decode_binary, get_tuple}

  abbrev pub key_of : String → List Term → Option (Option Bytes)
  key_of name terms =
      if str_eq name "from"
      then (do term ← get_elem? terms 1; key ← decode_binary term; some (some key))
      else some none

  abbrev pub direction_of : Option Term → Option Direction
  direction_of none = some forward
  direction_of (some term) = do
    name ← atom_to_string term
    some (if str_eq name "reverse" then reverse else forward)

  unfoldable pub iterator_mode : Term → Option (String × Option Bytes × Direction)
  iterator_mode mode = do
    terms ← get_tuple mode
    first ← get_elem? terms 0
    name ← atom_to_string first
    key ← key_of name terms
    direction ← direction_of (get_elem? terms 2)
    some (name, key, direction)

  module _ (t : Terms r) where
    -- `{start}`, `{end}`, `{from, Key}` and `{from, Key, Direction}`
    pub data Written : List Term → IteratorMode → Type 0 where
      writes_start : Written (t.atom "start" ∷ []) start
      writes_end : Written (t.atom "end" ∷ []) end
      writes_from : (key : Bytes) → Written (t.atom "from" ∷ t.binary key ∷ []) (from key forward)
      writes_reverse :
          (key : Bytes)
          → Written (t.atom "from" ∷ t.binary key ∷ t.atom "reverse" ∷ []) (from key reverse)
      writes_next :
          (key : Bytes)
          → Written (t.atom "from" ∷ t.binary key ∷ t.atom "next" ∷ []) (from key forward)

    abbrev pub chosen : Option (String × Option Bytes × Direction) → Option IteratorMode
    chosen none = none
    chosen (some mode) = some (choose mode)

    -- A mode that is written as one of these tuples is the mode the iterator is opened with.
    pub iterator_mode-Written :
        (terms : List Term) (mode : IteratorMode)
        → Written terms mode
        → chosen (iterator_mode (t.tuple terms)) ≡ some mode
    unfolding iterator_mode
    iterator_mode-Written terms mode writes_start = simp (t.tuple-read, t.atom-read) refl
    iterator_mode-Written terms mode writes_end = simp (t.tuple-read, t.atom-read) refl
    iterator_mode-Written terms mode (writes_from key) =
        simp (t.tuple-read, t.atom-read, t.binary-read) refl
    iterator_mode-Written terms mode (writes_reverse key) =
        simp (t.tuple-read, t.atom-read, t.binary-read) refl
    iterator_mode-Written terms mode (writes_next key) =
        simp (t.tuple-read, t.atom-read, t.binary-read) refl
