-- ===== src/Text/Str.antt =====
-- `str::trim` of Rust's standard library, on code points.
use ex_rocket.Prelude.{ℕ, ◌≡◌, refl, Bool, ◌&&◌, ◌||◌, [], ◌∷◌, leb, ◌==◌, if◌then◌else◌}
use ex_rocket.Text.Utf8.{Chars}

-- Unicode's White_Space.
unfoldable pub is_whitespace : ℕ → Bool
is_whitespace c =
    (leb 9 c && leb c 13)
    || c == 0x20
    || c == 0x85
    || c == 0xa0
    || c == 0x1680
    || (leb 0x2000 c && leb c 0x200a)
    || c == 0x2028
    || c == 0x2029
    || c == 0x202f
    || c == 0x205f
    || c == 0x3000

unfoldable pub trim_start : Chars → Chars
unfolding is_whitespace
trim_start [] = []
trim_start (c ∷ cs) = let rest = trim_start cs in if is_whitespace c then rest else c ∷ cs

-- A character in front of a text whose end is trimmed.
abbrev pub keep : ℕ → Chars → Chars
keep c [] = if is_whitespace c then [] else c ∷ []
keep c (d ∷ ds) = c ∷ d ∷ ds

unfoldable pub trim_end : Chars → Chars
unfolding is_whitespace
trim_end [] = []
trim_end (c ∷ cs) = keep c (trim_end cs)

unfoldable pub trim : Chars → Chars
unfolding trim_start trim_end
trim cs = trim_end (trim_start cs)

trims : trim (0x20 ∷ 0xa0 ∷ b'a' ∷ 0x20 ∷ b'b' ∷ 9 ∷ []) ≡ b'a' ∷ 0x20 ∷ b'b' ∷ []
unfolding trim
trims = refl
