-- ===== src/Merge/Bitset/Effect.antt =====
-- `bitset_merge` as operations on a set of positions.
use ex_rocket.Prelude.{
  ℕ, ◌≡◌, refl, Bool, false, not, ◌&&◌, ◌||◌, Option, none, some, List, [], ◌∷◌, arith, ◌==◌,
  if◌then◌else◌, Bool-cases, inl, inr,
}
use ex_rocket.Text.Utf8.{Bytes, Chars, from_utf8}
use ex_rocket.Text.Str.{trim}
use ex_rocket.Text.Number.{parse_usize}
use ex_rocket.Merge.Bitset.{
  set_bit, clear_bit, at_position, apply_trimmed, apply_text, apply_operands, bytes_or_empty,
  bitset_merge,
}
use ex_rocket.Merge.Bitset.Byte.{IsBytes}
use ex_rocket.Merge.Bitset.Bits.{
  test_bit, test_bit-set_bit, test_bit-clear_bit, set_bit-IsBytes, clear_bit-IsBytes,
}

-- What an operand asks for.
pub data Command : Type 0 where
  empty nothing : Command
  include exclude : ℕ → Command

abbrev pub on_position : (ℕ → Command) → Option ℕ → Command
on_position c none = nothing
on_position c (some pos) = c pos

-- The text of an operand, without the white space around it.
unfoldable pub read_command : Chars → Command
read_command [] = empty
read_command (c ∷ cs) =
    if c == b'+'
    then on_position include (parse_usize cs)
    else if c == b'-'
    then on_position exclude (parse_usize cs)
    else nothing

abbrev pub command : Option Chars → Command
command none = nothing
command (some text) = read_command (trim text)

-- A set of positions, by its membership test.
abbrev pub Positions : Type 0
Positions = ℕ → Bool

abbrev pub perform : Command → Positions → Positions
perform empty s j = false
perform nothing s j = s j
perform (include pos) s j = pos == j || s j
perform (exclude pos) s j = not (pos == j) && s j

abbrev pub perform_all : List Bytes → Positions → Positions
perform_all [] s = s
perform_all (op ∷ ops) s = perform_all ops (perform (command (from_utf8 op)) s)

-- `bitset` holds the positions `s`.
pub record Holds (bitset : Bytes) (s : Positions) : Type 0 where
  pub bytes : IsBytes bitset
  pub bits : (j : ℕ) → test_bit bitset j ≡ s j

Holds-set_at :
    (bs : Bytes) (s : Positions) (o : Option ℕ)
    → Holds bs s
    → Holds (at_position set_bit bs o) (perform (on_position include o) s)
Holds-set_at bs s none h = record { bytes = h.bytes; bits = h.bits }
Holds-set_at bs s (some pos) h = record {
  bytes = set_bit-IsBytes bs pos h.bytes;
  bits = λ j. rw (test_bit-set_bit bs pos j h.bytes, h.bits j);
}

Holds-clear_at :
    (bs : Bytes) (s : Positions) (o : Option ℕ)
    → Holds bs s
    → Holds (at_position clear_bit bs o) (perform (on_position exclude o) s)
Holds-clear_at bs s none h = record { bytes = h.bytes; bits = h.bits }
Holds-clear_at bs s (some pos) h = record {
  bytes = clear_bit-IsBytes bs pos h.bytes;
  bits = λ j. rw (test_bit-clear_bit bs pos j h.bytes, h.bits j);
}

test_bit-nil : (j : ℕ) → test_bit [] j ≡ false
unfolding test_bit
test_bit-nil j = ground arith

Holds-trimmed :
    (bs : Bytes) (s : Positions) (text : Chars)
    → Holds bs s
    → Holds (apply_trimmed bs text) (perform (read_command text) s)
unfolding apply_trimmed read_command
Holds-trimmed bs s [] h = record { bytes = tt; bits = test_bit-nil }
Holds-trimmed bs s (c ∷ cs) h = elim (Bool-cases (c == b'+')) [
  | inl plus ↦ rw plus (Holds-set_at bs s (parse_usize cs) h)
  | inr other ↦ elim (Bool-cases (c == b'-')) [
    | inl minus ↦ rw (other, minus) (Holds-clear_at bs s (parse_usize cs) h)
    | inr rest ↦ rw (other, rest) (record { bytes = h.bytes; bits = h.bits })
  ]
]

Holds-text :
    (bs : Bytes) (s : Positions) (text : Option Chars)
    → Holds bs s
    → Holds (apply_text bs text) (perform (command text) s)
Holds-text bs s none h = record { bytes = h.bytes; bits = h.bits }
Holds-text bs s (some text) h = Holds-trimmed bs s (trim text) h

Holds-operands :
    (bs : Bytes) (s : Positions) (ops : List Bytes)
    → Holds bs s
    → Holds (apply_operands bs ops) (perform_all ops s)
unfolding apply_operands
Holds-operands bs s [] h = h
Holds-operands bs s (op ∷ ops) h =
    Holds-operands (apply_text bs (from_utf8 op)) (perform (command (from_utf8 op)) s) ops
      (Holds-text bs s (from_utf8 op) h)

-- On an existing value of bytes, a merge always stores bytes, and they hold the positions that the operands, performed in order on
-- the positions of the existing value, leave.
pub bitset_merge-Holds :
    (key : Bytes) (e : Option Bytes) (ops : List Bytes)
    → IsBytes (bytes_or_empty e)
    → (v : Bytes) × (bitset_merge key e ops ≡ some v)
      × Holds v (perform_all ops (test_bit (bytes_or_empty e)))
bitset_merge-Holds key e ops h = (
  apply_operands (bytes_or_empty e) ops,
  unfold bitset_merge in refl,
  Holds-operands (bytes_or_empty e) (test_bit (bytes_or_empty e)) ops
      (record { bytes = h; bits = λ j. refl }),
)
