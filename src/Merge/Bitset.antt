-- ===== src/Merge/Bitset.antt =====
-- `bitset_merge`, `set_bit` and `clear_bit` of native/rocker/src/merge.rs. A bitset is its bytes;
-- bit `pos` is bit `pos % 8` of byte `pos / 8`. That the allocation of a byte vector can fail is not
-- modelled.
pub mod Byte
pub mod Bits
pub mod Effect
pub mod Partial
use Prim.Native.Nat.{bit_and, bit_or}
use ex_rocket.Prelude.{
  ℕ, ◌+◌, ◌-◌, ◌/◌, ◌%◌, ◌^◌, ◌≡◌, refl, Option, none, some, List, [], ◌∷◌, ◌++◌, length, get_or,
  set, take, replicate, ltb, leb, ◌==◌, if◌then◌else◌,
}
use ex_rocket.Text.Utf8.{Bytes, Chars, from_utf8}
use ex_rocket.Text.Str.{trim}
use ex_rocket.Text.Number.{parse_usize}

-- `Vec::resize(n, 0)`
abbrev pub resize : ℕ → Bytes → Bytes
resize n bytes = take n bytes ++ replicate (n - length bytes) 0

-- `*byte |= 1 << bit` and `*byte &= !(1 << bit)` on a u8.
abbrev pub or_mask : ℕ → ℕ → ℕ
or_mask byte bit = bit_or byte (2 ^ bit)

abbrev pub and_not_mask : ℕ → ℕ → ℕ
and_not_mask byte bit = bit_and byte (255 - 2 ^ bit)

-- `if byte_index >= bitset.len() { bitset.resize(byte_index + 1, 0) }`
unfoldable pub grown : Bytes → ℕ → Bytes
grown bitset byte_index =
    if leb (length bitset) byte_index then resize (byte_index + 1) bitset else bitset

unfoldable pub set_bit : Bytes → ℕ → Bytes
set_bit bitset pos =
    let byte_index = pos / 8 in
    let bit_index = pos % 8 in
    let bytes = grown bitset byte_index in
    set bytes byte_index (or_mask (get_or bytes byte_index 0) bit_index)

unfoldable pub clear_bit : Bytes → ℕ → Bytes
clear_bit bitset pos =
    let byte_index = pos / 8 in
    let bit_index = pos % 8 in
    if ltb byte_index (length bitset)
    then set bitset byte_index (and_not_mask (get_or bitset byte_index 0) bit_index)
    else bitset

abbrev pub at_position : (Bytes → ℕ → Bytes) → Bytes → Option ℕ → Bytes
at_position change bitset none = bitset
at_position change bitset (some pos) = change bitset pos

-- The branches on the trimmed text.
unfoldable pub apply_trimmed : Bytes → Chars → Bytes
unfolding grown set_bit clear_bit parse_usize
apply_trimmed bitset [] = []
apply_trimmed bitset (c ∷ cs) =
    if c == b'+'
    then at_position set_bit bitset (parse_usize cs)
    else if c == b'-'
    then at_position clear_bit bitset (parse_usize cs)
    else bitset

abbrev pub apply_text : Bytes → Option Chars → Bytes
apply_text bitset none = bitset
apply_text bitset (some text) = apply_trimmed bitset (trim text)

unfoldable pub apply_operands : Bytes → List Bytes → Bytes
unfolding apply_trimmed trim from_utf8
apply_operands bitset [] = bitset
apply_operands bitset (op ∷ ops) = apply_operands (apply_text bitset (from_utf8 op)) ops

abbrev pub bytes_or_empty : Option Bytes → Bytes
bytes_or_empty none = []
bytes_or_empty (some val) = val

unfoldable pub bitset_merge : Bytes → Option Bytes → List Bytes → Option Bytes
unfolding apply_operands
bitset_merge key existing_val operands =
    some (apply_operands (bytes_or_empty existing_val) operands)

sets_and_clears :
    bitset_merge [] (some (0x81 ∷ [])) (
      (b'+' ∷ b'9' ∷ []) ∷ (b' ' ∷ b'-' ∷ b'0' ∷ []) ∷ (b'?' ∷ []) ∷ (b'-' ∷ b'9' ∷ b'9' ∷ []) ∷ [])
    ≡ some (0x80 ∷ 0x02 ∷ [])
unfolding bitset_merge
sets_and_clears = refl

empties :
    bitset_merge [] (some (0x81 ∷ [])) ((b' ' ∷ []) ∷ (b'+' ∷ b'1' ∷ []) ∷ []) ≡ some (0x02 ∷ [])
unfolding bitset_merge
empties = refl
