-- ===== src/Text/Utf8.antt =====
-- `std::str::from_utf8` as a decoder into code points, by the Unicode standard's table of
-- well-formed byte sequences: overlong forms, surrogates and values above 0x10ffff are refused.
use ex_rocket.Prelude.{
  ℕ, ◌+◌, ◌-◌, ◌*◌, ◌<◌, ◌≡◌, refl, ◌&&◌, Option, none, some, List, [], ◌∷◌, All, arith, ltb, leb,
  ◌==◌, if◌then◌else◌,
}

abbrev pub Bytes : Type 0
Bytes = List ℕ

-- A `str` as its code points.
abbrev pub Chars : Type 0
Chars = List ℕ

-- `needed` continuation bytes are awaited, the next one between `lo` and `hi`.
pub record Pending : Type 0 where
  needed : ℕ
  value : ℕ
  lo : ℕ
  hi : ℕ

abbrev pub start : Pending
start = record { needed = 0; value = 0; lo = 0; hi = 0 }

abbrev await : ℕ → ℕ → ℕ → ℕ → Option (Pending × Option ℕ)
await needed value lo hi = some (record { needed = needed; value = value; lo = lo; hi = hi }, none)

-- The first byte of a sequence.
lead : ℕ → Option (Pending × Option ℕ)
lead b =
    if ltb b 0x80
    then some (start, some b)
    else if ltb b 0xc2
    then none
    else if ltb b 0xe0
    then await 1 (b - 0xc0) 0x80 0xbf
    else if b == 0xe0
    then await 2 0 0xa0 0xbf
    else if b == 0xed
    then await 2 0xd 0x80 0x9f
    else if ltb b 0xf0
    then await 2 (b - 0xe0) 0x80 0xbf
    else if b == 0xf0
    then await 3 0 0x90 0xbf
    else if ltb b 0xf4
    then await 3 (b - 0xf0) 0x80 0xbf
    else if b == 0xf4
    then await 3 4 0x80 0x8f
    else none

-- One byte: the new state, and the code point that it completes.
step : Pending → ℕ → Option (Pending × Option ℕ)
unfolding lead
step p b =
    let value = p.value * 0x40 + (b - 0x80) in
    if p.needed == 0
    then lead b
    else if leb p.lo b && leb b p.hi
    then (if p.needed == 1 then some (start, some value) else await (p.needed - 1) value 0x80 0xbf)
    else none

abbrev pub emit : Option ℕ → Option Chars → Option Chars
emit none cs = cs
emit (some c) none = none
emit (some c) (some cs) = some (c ∷ cs)

pub decode : Pending → Bytes → Option Chars
decode p [] = if p.needed == 0 then some [] else none
decode p (b ∷ bs) = elim (step p b) [ none ↦ none | some (q, c) ↦ emit c (decode q bs) ]

unfoldable pub from_utf8 : Bytes → Option Chars
unfolding decode step
from_utf8 bs = decode start bs

abbrev pub IsAscii : Bytes → Type 0
IsAscii = All (λ b. b < 0x80)

decode_ascii : (bs : Bytes) → IsAscii bs → decode start bs ≡ some bs
unfolding decode step
decode_ascii [] h = refl
decode_ascii (b ∷ bs) h = ground (arith, decode_ascii bs h.1)

-- Bytes below 0x80 are text, and are their own code points.
pub from_utf8_ascii : (bs : Bytes) → IsAscii bs → from_utf8 bs ≡ some bs
unfolding from_utf8
from_utf8_ascii bs h = unfold decode in decode_ascii bs h

two_bytes : from_utf8 (0xc2 ∷ 0xa0 ∷ 0x31 ∷ []) ≡ some (0xa0 ∷ 0x31 ∷ [])
unfolding from_utf8
two_bytes = refl

euro : from_utf8 (0xe2 ∷ 0x82 ∷ 0xac ∷ []) ≡ some (0x20ac ∷ [])
unfolding from_utf8
euro = refl

four_bytes : from_utf8 (0xf0 ∷ 0x9f ∷ 0x98 ∷ 0x80 ∷ []) ≡ some (0x1f600 ∷ [])
unfolding from_utf8
four_bytes = refl

refused :
    (from_utf8 (0x80 ∷ []) ≡ none)
    × (from_utf8 (0xc0 ∷ 0x80 ∷ []) ≡ none)
    × (from_utf8 (0xed ∷ 0xa0 ∷ 0x80 ∷ []) ≡ none)
    × (from_utf8 (0xe2 ∷ 0x82 ∷ []) ≡ none)
unfolding from_utf8
refused = (refl, refl, refl, refl)
