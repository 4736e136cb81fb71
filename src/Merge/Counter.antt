-- ===== src/Merge/Counter.antt =====
-- `counter_merge` of native/rocker/src/merge.rs: decimal texts are added in i64. The addition wraps
-- around, as in a build without overflow checks.
pub mod Sum
pub mod Compose
use ex_rocket.Prelude.{ℕ, ◌≡◌, refl, Option, none, some, List, [], ◌∷◌}
use ex_rocket.Prelude.Int.{ℤ, pos, negsuc, ◌+ℤ◌, wrap64}
use ex_rocket.Text.Utf8.{Bytes, Chars, from_utf8}
use ex_rocket.Text.Number.{parse_i64, to_string}

abbrev parse_text : Option Chars → Option ℤ
parse_text none = none
parse_text (some cs) = parse_i64 cs

-- `std::str::from_utf8(val).ok().and_then(|s| s.parse::<i64>().ok())`
unfoldable pub parse_counter : Bytes → Option ℤ
unfolding from_utf8 parse_i64
parse_counter val = parse_text (from_utf8 val)

abbrev pub or_zero : Option ℤ → ℤ
or_zero none = pos 0
or_zero (some num) = num

-- A missing or unreadable value counts as 0.
unfoldable pub initial : Option Bytes → ℤ
unfolding parse_counter
initial none = pos 0
initial (some val) = or_zero (parse_counter val)

-- `result += operand`; an operand that is no number is skipped.
abbrev pub add_operand : ℤ → Option ℤ → ℤ
add_operand result none = result
add_operand result (some operand) = wrap64 (result +ℤ operand)

unfoldable pub add_operands : ℤ → List Bytes → ℤ
unfolding parse_counter wrap64 ◌+ℤ◌
add_operands result [] = result
add_operands result (op ∷ ops) = add_operands (add_operand result (parse_counter op)) ops

unfoldable pub counter_merge : Bytes → Option Bytes → List Bytes → Option Bytes
unfolding initial add_operands to_string
counter_merge key existing_val operands =
    some (to_string (add_operands (initial existing_val) operands))

counts :
    counter_merge [] (some (b'4' ∷ b'0' ∷ [])) ((b'5' ∷ []) ∷ (b'x' ∷ []) ∷ (b'-' ∷ b'3' ∷ []) ∷ [])
    ≡ some (b'4' ∷ b'2' ∷ [])
unfolding counter_merge
counts = refl

wraps_around :
    counter_merge [] (some (to_string (pos 9223372036854775807))) ((b'1' ∷ []) ∷ [])
    ≡ some (to_string (negsuc 9223372036854775807))
unfolding counter_merge
wraps_around = refl
