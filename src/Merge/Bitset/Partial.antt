-- ===== src/Merge/Bitset/Partial.antt =====
-- options.rs registers `bitset_merge` for merges without a base value too. This file is about the
-- result of such a merge, taken as an operand.
use ex_rocket.Prelude.{
  ℕ, zero, suc, ◌+◌, ◌*◌, ◌/◌, ◌%◌, ◌^◌, ◌<◌, ◌≡◌, ◌≢◌, refl, Option, none, some, List, [], ◌∷◌,
  ◌++◌, ap, ◌∙◌, All, set, replicate, arith,
}
use ex_rocket.Text.Utf8.{Bytes, Chars, emit, decode, start, from_utf8, from_utf8_ascii}
use ex_rocket.Text.Str.{is_whitespace, keep, trim, trim_end}
use ex_rocket.Text.Number.{print_ℕ}
use ex_rocket.Text.Number.RoundTrip.{IsDigit, print_ℕ-IsDigit, IsDigit-IsAscii, parse_usize-print_ℕ}
use ex_rocket.Merge.Bitset.{
  or_mask, grown, set_bit, apply_trimmed, apply_text, apply_operands, bytes_or_empty, bitset_merge,
}
use ex_rocket.Merge.Bitset.Bits.{resize_grow, get_or-replicate}
use Prim.Native.Nat.{bit_or-bitwise}

-- The operand `+pos`.
abbrev pub plus : ℕ → Bytes
plus pos = b'+' ∷ print_ℕ pos

trim_end_digits : (s : Chars) → All IsDigit s → trim_end s ≡ s
unfolding trim_end
trim_end_digits [] h = refl
trim_end_digits (c ∷ []) h = ground arith
trim_end_digits (c ∷ d ∷ s) h = rw (trim_end_digits (d ∷ s) h.1)

trim_start_plus : (s : Chars) → trim (b'+' ∷ s) ≡ keep b'+' (trim_end s)
unfolding trim
trim_start_plus s = refl

keep_plus : (s : Chars) → keep b'+' s ≡ b'+' ∷ s
unfolding is_whitespace
keep_plus [] = refl
keep_plus (c ∷ s) = refl

trim-plus : (pos : ℕ) → trim (plus pos) ≡ plus pos
trim-plus pos =
    trim_start_plus (print_ℕ pos)
    ∙ ap (keep b'+') (trim_end_digits (print_ℕ pos) (print_ℕ-IsDigit pos))
    ∙ keep_plus (print_ℕ pos)

apply_plus : (bs : Bytes) (pos : ℕ) → pos < 2 ^ 64 → apply_trimmed bs (plus pos) ≡ set_bit bs pos
unfolding apply_trimmed
apply_plus bs pos h = rw (parse_usize-print_ℕ pos h)

-- The operand `+pos` sets its bit.
pub apply_text-plus :
    (bs : Bytes) (pos : ℕ) → pos < 2 ^ 64 → apply_text bs (from_utf8 (plus pos)) ≡ set_bit bs pos
apply_text-plus bs pos h =
    ap (apply_text bs) (
      from_utf8_ascii (plus pos) (omega arith, IsDigit-IsAscii (print_ℕ pos) (print_ℕ-IsDigit pos)))
    ∙ ap (apply_trimmed bs) (trim-plus pos)
    ∙ apply_plus bs pos h

set_last : (q v : ℕ) → set (replicate (suc q) 0) q v ≡ replicate q 0 ++ v ∷ []
set_last zero v = refl
set_last (suc q) v = ap (◌∷◌ 0) (set_last q v)

zero-or_mask : (r : ℕ) → or_mask 0 r ≡ 2 ^ r
zero-or_mask r = bit_or-bitwise 0 (2 ^ r)

grown_empty : (q : ℕ) → grown [] q ≡ replicate (suc q) 0
unfolding grown
grown_empty q = ground (arith, resize_grow (q + 1) [])

-- One set bit alone: zero bytes, and a byte with one bit.
set_bit-nil : (pos : ℕ) → set_bit [] pos ≡ replicate (pos / 8) 0 ++ 2 ^ (pos % 8) ∷ []
unfolding set_bit
set_bit-nil pos =
    rw (grown_empty (pos / 8), get_or-replicate (suc (pos / 8)) (pos / 8), zero-or_mask (pos % 8))
      (set_last (pos / 8) (2 ^ (pos % 8)))

-- A text that begins with a zero byte is no operand.
apply_zero_text : (bs : Bytes) (cs : Option Chars) → apply_text bs (emit (some 0) cs) ≡ bs
unfolding apply_trimmed trim is_whitespace
apply_zero_text bs none = refl
apply_zero_text bs (some cs) = kept (trim_end cs)
  where
    kept : (ds : Chars) → apply_trimmed bs (keep 0 ds) ≡ bs
    kept [] = refl
    kept (d ∷ ds) = refl

from_utf8-zero : (bytes : Bytes) → (cs : Option Chars) × (from_utf8 (0 ∷ bytes) ≡ emit (some 0) cs)
unfolding from_utf8
from_utf8-zero bytes = (decode start bytes, refl)

apply_single : (bs : Bytes) (r : ℕ) → r < 8 → r ≢ 5 → apply_text bs (from_utf8 (2 ^ r ∷ [])) ≡ bs
unfolding from_utf8 apply_trimmed trim
apply_single bs zero h ne = refl
apply_single bs (suc zero) h ne = refl
apply_single bs (suc (suc zero)) h ne = refl
apply_single bs (suc (suc (suc zero))) h ne = refl
apply_single bs (suc (suc (suc (suc zero)))) h ne = refl
apply_single bs (suc (suc (suc (suc (suc zero))))) h ne = absurd (ne refl)
apply_single bs (suc (suc (suc (suc (suc (suc zero)))))) h ne = refl
apply_single bs (suc (suc (suc (suc (suc (suc (suc zero))))))) h ne = refl
apply_single bs (suc (suc (suc (suc (suc (suc (suc (suc r)))))))) h ne = absurd (omega arith)

apply_one_bit :
    (bs : Bytes) (q r : ℕ)
    → r < 8
    → q * 8 + r ≢ 5
    → apply_text bs (from_utf8 (replicate q 0 ++ 2 ^ r ∷ [])) ≡ bs
apply_one_bit bs zero r h ne = apply_single bs r h (λ e. ne (omega arith))
apply_one_bit bs (suc q) r h ne =
    let (cs, e) = from_utf8-zero (replicate q 0 ++ 2 ^ r ∷ []) in rw e (apply_zero_text bs cs)

merged_plus :
    (key : Bytes) (pos : ℕ) (v : Bytes)
    → pos < 2 ^ 64
    → bitset_merge key none (plus pos ∷ []) ≡ some v
    → v ≡ replicate (pos / 8) 0 ++ 2 ^ (pos % 8) ∷ []
unfolding bitset_merge
merged_plus key pos v small h =
    let same : v ≡ apply_text [] (from_utf8 (plus pos)) = cc in
    same ∙ apply_text-plus [] pos small ∙ set_bit-nil pos

-- An operand `+pos` that was merged with no base value is lost when its result is merged in its
-- place, unless `pos` is 5.
pub plus_lost :
    (key : Bytes) (e : Option Bytes) (pos : ℕ) (v : Bytes) (after : List Bytes)
    → pos < 2 ^ 64
    → bitset_merge key none (plus pos ∷ []) ≡ some v
    → pos ≢ 5
    → bitset_merge key e (v ∷ after) ≡ bitset_merge key e after
unfolding bitset_merge apply_operands
plus_lost key e pos v after small h ne =
    ap (λ (bs : Bytes). some (apply_operands bs after))
      (ap (λ (b : Bytes). apply_text (bytes_or_empty e) (from_utf8 b))
          (merged_plus key pos v small h)
        ∙ apply_one_bit (bytes_or_empty e) (pos / 8) (pos % 8) (omega arith)
            (λ q. ne (omega arith)))
