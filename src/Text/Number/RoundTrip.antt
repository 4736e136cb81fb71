-- ===== src/Text/Number/RoundTrip.antt =====
-- `to_string` and `parse` of integers, one after the other.
use ex_rocket.Prelude.{
  ℕ, zero, suc, ◌+◌, ◌/◌, ◌%◌, ◌^◌, ◌≤◌, ◌<◌, ◌≡◌, refl, subst, ◌∙◌, Option, none, some, [], ◌∷◌,
  All, arith, ◌==◌, Bool-cases, inl, inr,
}
use ex_rocket.Prelude.Int.{ℤ, pos, negsuc, i64_half, IsI64}
use ex_rocket.Text.Utf8.{Chars, IsAscii}
use ex_rocket.Text.Number.{
  scan, digits, parse_i64, parse_usize, nonneg, negated, emit, print_ℕ, to_string,
}

scan_digit :
    (value : ℕ) (behind : Chars)
    → scan ((b'0' + value % 10) ∷ behind) (value / 10) ≡ scan behind value
unfolding scan
scan_digit value behind = ground arith

scan-emit : (fuel n : ℕ) (behind : Chars) → n < fuel → scan (emit fuel n behind) 0 ≡ scan behind n
unfolding emit
scan-emit zero n behind h = absurd (omega arith)
scan-emit (suc fuel) n behind h = elim (Bool-cases (n / 10 == 0)) [
  | inl e ↦
      let small : n / 10 ≡ 0 = ground arith in
      let last : scan ((b'0' + n % 10) ∷ behind) 0 ≡ scan behind n =
        rw small at (scan_digit n behind) in
      rw e last
  | inr e ↦ rw e (scan-emit fuel (n / 10) _ (ground arith) ∙ scan_digit n behind)
]

abbrev pub IsDigit : ℕ → Type 0
IsDigit c = (b'0' ≤ c) × (c ≤ b'9')

emit-IsDigit : (fuel n : ℕ) (behind : Chars) → All IsDigit behind → All IsDigit (emit fuel n behind)
unfolding emit
emit-IsDigit zero n behind h = h
emit-IsDigit (suc fuel) n behind h =
    ground (arith, emit-IsDigit fuel (n / 10) ((b'0' + n % 10) ∷ behind))

emit-cons :
    (fuel n c : ℕ) (behind : Chars) → (d : ℕ) × (s : Chars) × (emit fuel n (c ∷ behind) ≡ d ∷ s)
unfolding emit
emit-cons zero n c behind = (c, behind, refl)
emit-cons (suc fuel) n c behind = elim (Bool-cases (n / 10 == 0)) [
  | inl e ↦ rw e ((b'0' + n % 10), (c ∷ behind), refl)
  | inr e ↦ rw e (emit-cons fuel (n / 10) (b'0' + n % 10) (c ∷ behind))
]

print_ℕ-ne-nil : (n : ℕ) → (c : ℕ) × (s : Chars) × (print_ℕ n ≡ c ∷ s)
unfolding print_ℕ
print_ℕ-ne-nil n = elim (Bool-cases (n / 10 == 0)) [
  | inl e ↦ rw e ((b'0' + n % 10), [], refl)
  | inr e ↦ rw e (emit-cons n (n / 10) (b'0' + n % 10) [])
]

pub print_ℕ-IsDigit : (n : ℕ) → All IsDigit (print_ℕ n)
unfolding print_ℕ
print_ℕ-IsDigit n = emit-IsDigit (suc n) n [] tt

digits-scan : (c : ℕ) (s : Chars) → digits (c ∷ s) ≡ scan (c ∷ s) 0
unfolding digits
digits-scan c s = refl

scan-print_ℕ : (n : ℕ) → scan (print_ℕ n) 0 ≡ some n
unfolding print_ℕ
scan-print_ℕ n = unfold scan in scan-emit (suc n) n [] (omega arith)

-- The first digit is no sign, and the digits spell the number.
print_ℕ-cons :
    (n : ℕ) → (c : ℕ) × (s : Chars) × (print_ℕ n ≡ c ∷ s) × IsDigit c × (digits (c ∷ s) ≡ some n)
print_ℕ-cons n =
    let (c, s, e) = print_ℕ-ne-nil n in
    let all_digits : All IsDigit (c ∷ s) = subst (All IsDigit) e (print_ℕ-IsDigit n) in
    let value : scan (c ∷ s) 0 ≡ some n = rw e at (scan-print_ℕ n) in
    (c, s, e, all_digits.0, digits-scan c s ∙ value)

pub digits-print_ℕ : (n : ℕ) → digits (print_ℕ n) ≡ some n
digits-print_ℕ n = let (c, s, e, d, v) = print_ℕ-cons n in rw e v

parse_i64_unsigned :
    (c n : ℕ) (s : Chars)
    → IsDigit c
    → digits (c ∷ s) ≡ some n
    → n < i64_half
    → parse_i64 (c ∷ s) ≡ some (pos n)
unfolding parse_i64
parse_i64_unsigned c n s d e h = ground arith

parse_i64_minus :
    (n : ℕ) (s : Chars)
    → digits s ≡ some (suc n)
    → suc n ≤ i64_half
    → parse_i64 (b'-' ∷ s) ≡ some (negsuc n)
unfolding parse_i64
parse_i64_minus n s e h = ground arith

to_string-pos : (n : ℕ) → to_string (pos n) ≡ print_ℕ n
unfolding to_string
to_string-pos n = refl

to_string-negsuc : (n : ℕ) → to_string (negsuc n) ≡ b'-' ∷ print_ℕ (suc n)
unfolding to_string
to_string-negsuc n = refl

-- A printed i64 is read back as itself.
pub parse_i64-to_string : (z : ℤ) → IsI64 z → parse_i64 (to_string z) ≡ some z
parse_i64-to_string (pos n) h =
    let (c, s, e, d, v) = print_ℕ-cons n in
    rw (to_string-pos n, e) (parse_i64_unsigned c n s d v (omega arith))
parse_i64-to_string (negsuc n) h =
    rw (to_string-negsuc n)
      (parse_i64_minus n (print_ℕ (suc n)) (digits-print_ℕ (suc n)) (omega arith))

pub IsDigit-IsAscii : (s : Chars) → All IsDigit s → IsAscii s
IsDigit-IsAscii [] h = tt
IsDigit-IsAscii (c ∷ s) h = (omega arith, IsDigit-IsAscii s h.1)

-- A printed number is ASCII: its bytes are its characters.
pub to_string-IsAscii : (z : ℤ) → IsAscii (to_string z)
unfolding to_string
to_string-IsAscii (pos n) = IsDigit-IsAscii (print_ℕ n) (print_ℕ-IsDigit n)
to_string-IsAscii (negsuc n) =
    (omega arith, IsDigit-IsAscii (print_ℕ (suc n)) (print_ℕ-IsDigit (suc n)))

nonneg-IsI64 : (o : Option ℕ) (z : ℤ) → nonneg i64_half o ≡ some z → IsI64 z
nonneg-IsI64 none z h = cc
nonneg-IsI64 (some n) z h = ground arith

negated-IsI64 : (o : Option ℕ) (z : ℤ) → negated i64_half o ≡ some z → IsI64 z
negated-IsI64 none z h = cc
negated-IsI64 (some zero) z h = ground arith
negated-IsI64 (some (suc n)) z h = ground arith

-- Whatever `parse` accepts is an i64.
pub parse_i64-IsI64 : (s : Chars) (z : ℤ) → parse_i64 s ≡ some z → IsI64 z
unfolding parse_i64
parse_i64-IsI64 [] z h = cc
parse_i64-IsI64 (c ∷ s) z h = elim (Bool-cases (c == b'-')) [
  | inl minus ↦ negated-IsI64 (digits s) z (rw minus at h)
  | inr other ↦ elim (Bool-cases (c == b'+')) [
    | inl plus ↦ nonneg-IsI64 (digits s) z (rw (other, plus) at h)
    | inr digit ↦ nonneg-IsI64 (digits (c ∷ s)) z (rw (other, digit) at h)
  ]
]

parse_usize_unsigned :
    (c n : ℕ) (s : Chars)
    → IsDigit c
    → digits (c ∷ s) ≡ some n
    → n < 2 ^ 64
    → parse_usize (c ∷ s) ≡ some n
unfolding parse_usize
parse_usize_unsigned c n s d e h = ground arith

-- A printed usize is read back as itself.
pub parse_usize-print_ℕ : (n : ℕ) → n < 2 ^ 64 → parse_usize (print_ℕ n) ≡ some n
parse_usize-print_ℕ n h =
    let (c, s, e, d, v) = print_ℕ-cons n in rw e (parse_usize_unsigned c n s d v h)
