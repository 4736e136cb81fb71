-- ===== src/Text/Case.antt =====
-- `str::to_lowercase` and `str::split(',')` of Rust's standard library, on code points.
--
-- The code compares the result of `to_lowercase` with words of ASCII letters. Two characters outside
-- ASCII have ASCII in their lower case: U+0130, which becomes `i` and U+0307, and the Kelvin sign
-- U+212A, which becomes `k`. All others become characters outside ASCII; here they stay as they are,
-- which no comparison with a word of ASCII can tell apart.
use ex_rocket.Prelude.{ℕ, ◌+◌, ◌≡◌, refl, ◌&&◌, List, [], ◌∷◌, ◌++◌, leb, ◌==◌, if◌then◌else◌}
use ex_rocket.Text.Utf8.{Chars}

unfoldable pub lower : ℕ → Chars
lower c =
    if leb b'A' c && leb c b'Z'
    then (c + 32) ∷ []
    else if c == 0x130
    then b'i' ∷ 0x307 ∷ []
    else if c == 0x212a
    then b'k' ∷ []
    else c ∷ []

unfoldable pub to_lowercase : Chars → Chars
unfolding lower
to_lowercase [] = []
to_lowercase (c ∷ cs) = lower c ++ to_lowercase cs

-- A character in front of the first part.
abbrev pub onto_first : ℕ → List Chars → List Chars
onto_first c [] = (c ∷ []) ∷ []
onto_first c (part ∷ parts) = (c ∷ part) ∷ parts

-- The parts between the commas: one more than there are commas, so an empty text is one empty part.
unfoldable pub split : Chars → List Chars
split [] = [] ∷ []
split (c ∷ cs) = let rest = split cs in if c == b',' then [] ∷ rest else onto_first c rest

lowers : to_lowercase (b'L' ∷ 0x212a ∷ b'4' ∷ []) ≡ b'l' ∷ b'k' ∷ b'4' ∷ []
unfolding to_lowercase
lowers = refl

splits : split (b'1' ∷ b',' ∷ b',' ∷ b'2' ∷ []) ≡ (b'1' ∷ []) ∷ [] ∷ (b'2' ∷ []) ∷ []
unfolding split
splits = refl
