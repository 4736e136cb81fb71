-- ===== src/Options/Rocker/Validate/Accepted.antt =====
-- What `validate` accepts, one check at a time.
use ex_rocket.Prelude.{
  ◌≡◌, refl, true, Option, none, some, List, [], ◌∷◌, String, arith, Bool-cases, Option-cases, inl,
  inr,
}
use ex_rocket.Prelude.Int.{ℤ, pos, negsuc, IsI32}
use ex_rocket.Prelude.Result.{ok, >>=-eq-ok}
use ex_rocket.Text.Utf8.{Chars}
use ex_rocket.Options.Rocker.Types.{RockerOptions, text_of}
use ex_rocket.Options.Rocker.Validate.{
  same_chars, is_accepted, word, compressions, log_levels, compaction_styles, recovery_modes,
  merge_operators, validate_choice, numbers_i32, numbers_i64, fits_i32, is_limit,
  validate_multipliers, validate_ratelimiter, validate,
}

pub same_chars_eq : (cs ds : Chars) → same_chars cs ds ≡ true → cs ≡ ds
unfolding same_chars
same_chars_eq [] [] h = refl
same_chars_eq [] (d ∷ ds) h = cc
same_chars_eq (c ∷ cs) [] h = cc
same_chars_eq (c ∷ cs) (d ∷ ds) h = ground (arith, same_chars_eq cs ds)

-- All checks passed.
pub record Accepted {F : Type 0} (options : RockerOptions F) : Type 0 where
  pub compression :
      validate_choice "set_compression_type" (text_of (options "set_compression_type")) compressions
      ≡ ok tt
  pub bottommost :
      validate_choice "set_bottommost_compression_type"
        (text_of (options "set_bottommost_compression_type"))
        compressions
      ≡ ok tt
  pub blob :
      validate_choice "set_blob_compression_type"
        (text_of (options "set_blob_compression_type"))
        compressions
      ≡ ok tt
  pub log_level :
      validate_choice "set_log_level" (text_of (options "set_log_level")) log_levels ≡ ok tt
  pub compaction_style :
      validate_choice "set_compaction_style"
        (text_of (options "set_compaction_style"))
        compaction_styles
      ≡ ok tt
  pub recovery_mode :
      validate_choice "set_wal_recovery_mode"
        (text_of (options "set_wal_recovery_mode"))
        recovery_modes
      ≡ ok tt
  pub merge_operator :
      validate_choice "merge_operator" (text_of (options "merge_operator")) merge_operators ≡ ok tt
  pub multipliers :
      validate_multipliers (text_of (options "set_max_bytes_for_level_multiplier_additional"))
      ≡ ok tt
  pub ratelimiter : validate_ratelimiter (text_of (options "set_ratelimiter")) ≡ ok tt

pub validate-Accepted :
    {F : Type 0} (options : RockerOptions F) → validate options ≡ ok tt → Accepted options
unfolding validate
validate-Accepted options h =
    let (_, compression, h1) = >>=-eq-ok _ _ h in
    let (_, bottommost, h2) = >>=-eq-ok _ _ h1 in
    let (_, blob, h3) = >>=-eq-ok _ _ h2 in
    let (_, log_level, h4) = >>=-eq-ok _ _ h3 in
    let (_, compaction_style, h5) = >>=-eq-ok _ _ h4 in
    let (_, recovery_mode, h6) = >>=-eq-ok _ _ h5 in
    let (_, merge_operator, h7) = >>=-eq-ok _ _ h6 in
    let (_, multipliers, ratelimiter) = >>=-eq-ok _ _ h7 in
    record {
      compression = compression;
      bottommost = bottommost;
      blob = blob;
      log_level = log_level;
      compaction_style = compaction_style;
      recovery_mode = recovery_mode;
      merge_operator = merge_operator;
      multipliers = multipliers;
      ratelimiter = ratelimiter;
    }

pub choice-ok :
    (name : String) (value : Chars) (accepted : List String)
    → validate_choice name (some value) accepted ≡ ok tt
    → is_accepted accepted (word value) ≡ true
unfolding validate_choice
choice-ok name value accepted h = ground arith

pub multipliers-ok :
    (value : Chars)
    → validate_multipliers (some value) ≡ ok tt
    → (numbers : List ℤ) × (numbers_i32 value ≡ some numbers)
unfolding validate_multipliers
multipliers-ok value h = elim (Option-cases (numbers_i32 value)) [
  | inl e ↦ absurd (ground arith)
  | inr found ↦ found
]

fits_i32_lem : (z : ℤ) → fits_i32 z ≡ true → IsI32 z
fits_i32_lem (pos n) h = ground arith
fits_i32_lem (negsuc n) h = ground arith

is_limit_lem :
    (numbers : Option (List ℤ))
    → is_limit numbers ≡ true
    → (a b c : ℤ) × (numbers ≡ some (a ∷ b ∷ c ∷ [])) × IsI32 c
is_limit_lem none h = cc
is_limit_lem (some []) h = cc
is_limit_lem (some (a ∷ [])) h = cc
is_limit_lem (some (a ∷ b ∷ [])) h = cc
is_limit_lem (some (a ∷ b ∷ c ∷ [])) h = (a, b, c, refl, fits_i32_lem c h)
is_limit_lem (some (a ∷ b ∷ c ∷ d ∷ rest)) h = cc

pub ratelimiter-ok :
    (value : Chars)
    → validate_ratelimiter (some value) ≡ ok tt
    → (a b c : ℤ) × (numbers_i64 value ≡ some (a ∷ b ∷ c ∷ [])) × IsI32 c
unfolding validate_ratelimiter
ratelimiter-ok value h = elim (Bool-cases (is_limit (numbers_i64 value))) [
  | inl e ↦ is_limit_lem (numbers_i64 value) e
  | inr e ↦ absurd (ground arith)
]
