-- ===== src/Text/Number.antt =====
-- `str::parse::<i64>`, `::<i32>`, `::<usize>` and `i64::to_string` of Rust's standard library.
-- The digits are read with no bound and the bound is tested at the end: the library's tests at
-- each digit fail for the same texts, since the value never falls.
pub mod RoundTrip
use ex_rocket.Prelude.{
  ℕ, zero, suc, ◌+◌, ◌-◌, ◌*◌, ◌/◌, ◌%◌, ◌^◌, ◌≡◌, refl, ◌&&◌, Option, none, some, List, [], ◌∷◌,
  ltb, leb, ◌==◌, if◌then◌else◌,
}
use ex_rocket.Prelude.Int.{ℤ, pos, negsuc, neg_ℕ, i64_half, i32_half}
use ex_rocket.Text.Utf8.{Chars}

-- The number that digits spell behind `n`.
unfoldable pub scan : Chars → ℕ → Option ℕ
scan [] n = some n
scan (c ∷ cs) n =
    let rest = scan cs (n * 10 + (c - b'0')) in if leb b'0' c && leb c b'9' then rest else none

-- An empty text is no number, and neither is a sign alone.
unfoldable pub digits : Chars → Option ℕ
unfolding scan
digits [] = none
digits (c ∷ cs) = scan (c ∷ cs) 0

abbrev pub nonneg : ℕ → Option ℕ → Option ℤ
nonneg half none = none
nonneg half (some n) = if ltb n half then some (pos n) else none

abbrev pub negated : ℕ → Option ℕ → Option ℤ
negated half none = none
negated half (some n) = if leb n half then some (neg_ℕ n) else none

-- A signed integer of the range -half .. half - 1.
unfoldable pub parse_signed : ℕ → Chars → Option ℤ
unfolding digits
parse_signed half [] = none
parse_signed half (c ∷ cs) =
    if c == b'-'
    then negated half (digits cs)
    else if c == b'+'
    then nonneg half (digits cs)
    else nonneg half (digits (c ∷ cs))

unfoldable pub parse_i64 : Chars → Option ℤ
unfolding parse_signed
parse_i64 = parse_signed i64_half

unfoldable pub parse_i32 : Chars → Option ℤ
unfolding parse_signed
parse_i32 = parse_signed i32_half

abbrev fits_usize : Option ℕ → Option ℕ
fits_usize none = none
fits_usize (some n) = if ltb n (2 ^ 64) then some n else none

-- An unsigned text may begin with `+`, and not with `-`.
unfoldable pub parse_usize : Chars → Option ℕ
unfolding digits
parse_usize [] = none
parse_usize (c ∷ cs) = fits_usize (if c == b'+' then digits cs else digits (c ∷ cs))

-- The decimal digits of `n` in front of `behind`; each round divides `n` by ten.
emit : ℕ → ℕ → Chars → Chars
emit zero n behind = behind
emit (suc fuel) n behind =
    let rest = emit fuel (n / 10) ((b'0' + n % 10) ∷ behind) in
    if n / 10 == 0 then (b'0' + n % 10) ∷ behind else rest

unfoldable pub print_ℕ : ℕ → Chars
unfolding emit
print_ℕ n = emit (suc n) n []

-- The text is ASCII, so that its bytes are its characters.
unfoldable pub to_string : ℤ → Chars
unfolding print_ℕ
to_string (pos n) = print_ℕ n
to_string (negsuc n) = b'-' ∷ print_ℕ (suc n)

reads :
    (parse_i64 (b'-' ∷ b'4' ∷ b'2' ∷ []) ≡ some (negsuc 41))
    × (parse_i64 (b'-' ∷ []) ≡ none)
    × (parse_i64 (b'+' ∷ b'7' ∷ []) ≡ some (pos 7))
    × (parse_usize (b'-' ∷ b'7' ∷ []) ≡ none)
unfolding parse_i64 parse_usize
reads = (refl, refl, refl, refl)

prints : to_string (negsuc 9223372036854775807) ≡ (b'-' ∷ print_ℕ (2 ^ 63))
unfolding to_string
prints = refl
