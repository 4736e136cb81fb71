-- ===== src/Options/Rocker/Settings/Words.antt =====
-- The calls that a checked word, or checked numbers, lead to.
use ex_rocket.Prelude.{
  ◌≡◌, refl, sym, subst, ap, true, Option, none, some, List, [], ◌∷◌, All, String, arith,
  Bool-cases, Option-cases, inl, inr,
}
use ex_rocket.Prelude.Chain.{collect, >>=-eq-some}
use ex_rocket.Prelude.Int.{ℤ}
use ex_rocket.Prelude.Int.Wrap.{wrap32_id}
use ex_rocket.Prelude.Result.{ok}
use ex_rocket.Text.Case.{split}
use ex_rocket.Text.Number.{parse_i32, parse_i64}
use ex_rocket.Text.Str.{trim}
use ex_rocket.Text.Utf8.{Chars}
use ex_rocket.Options.Rocker.Validate.{
  chars, same_chars, is_accepted, word, compressions, log_levels, compaction_styles, recovery_modes,
  merge_operators, validate_choice, validate_multipliers, validate_ratelimiter, numbers_i32,
  numbers_i64,
}
use ex_rocket.Options.Rocker.Validate.Accepted.{
  same_chars_eq, choice-ok, multipliers-ok, ratelimiter-ok,
}
use ex_rocket.Options.Rocker.Choices.{
  compression_of, log_level_of, compaction_style_of, recovery_mode_of, merge_operator_of,
}
use ex_rocket.Options.Rocker.Settings.{
  Call, set_compression, set_log_level, set_compaction_style, set_recovery_mode, set_multipliers,
  on_text, kept, limiter_of, operator_calls,
}
use ex_rocket.Options.Rocker.Settings.Asked.{said, all_said, on_given, word_of, numbers_of}

-- What holds of every choice holds of an accepted word.
each_choice :
    (P : Chars → Type 0) (choices : List String) (w : Chars)
    → All (λ (choice : String). P (chars choice)) choices
    → is_accepted choices w ≡ true
    → P w
unfolding is_accepted
each_choice P [] w held h = cc
each_choice P (choice ∷ choices) w (first, held) h =
    elim (Bool-cases (same_chars (chars choice) w)) [
      | inl e ↦ subst P (same_chars_eq (chars choice) w e) first
      | inr e ↦ each_choice P choices w held (ground arith)
    ]

-- Where every part is a number, all are kept.
kept_lem :
    (parse : Chars → Option ℤ) (parts : List Chars) (numbers : List ℤ)
    → collect (λ part. parse (trim part)) parts ≡ some numbers
    → kept parse parts ≡ numbers
unfolding collect kept
kept_lem parse [] numbers h = ground arith
kept_lem parse (part ∷ parts) numbers h = elim (Option-cases (parse (trim part))) [
  | inl e ↦ let broken : none ≡ some numbers = rw e at h in cc
  | inr (n, e) ↦
      let (m, found, h1) = >>=-eq-some (parse (trim part)) _ h in
      let (ns, collected, h2) = >>=-eq-some (collect (λ p. parse (trim p)) parts) _ h1 in
      let same = kept_lem parse parts ns collected in
      let here : n ≡ m = cc in let whole : m ∷ ns ≡ numbers = cc in rw (kept, e, same, here) whole
]

module _ {F : Type 0} where
  pub compression_told :
      (name : String) (w : Chars)
      → is_accepted compressions w ≡ true
      → all_said {F = F} (set_compression name (compression_of w) ∷ []) ≡ word_of name w ∷ []
  unfolding all_said said compression_of
  compression_told name w h =
      each_choice
        (λ (w : Chars).
          all_said {F = F} (set_compression name (compression_of w) ∷ []) ≡ word_of name w ∷ [])
        _ w (refl, (refl, (refl, (refl, (refl, (refl, (refl, tt))))))) h

  pub log_level_told :
      (w : Chars)
      → is_accepted log_levels w ≡ true
      → all_said {F = F} (set_log_level (log_level_of w) ∷ []) ≡ word_of "set_log_level" w ∷ []
  unfolding all_said said log_level_of
  log_level_told w h =
      each_choice
        (λ (w : Chars).
          all_said {F = F} (set_log_level (log_level_of w) ∷ []) ≡ word_of "set_log_level" w ∷ [])
        _ w (refl, (refl, (refl, (refl, (refl, (refl, tt)))))) h

  pub compaction_style_told :
      (w : Chars)
      → is_accepted compaction_styles w ≡ true
      → all_said {F = F} (set_compaction_style (compaction_style_of w) ∷ [])
        ≡ word_of "set_compaction_style" w ∷ []
  unfolding all_said said compaction_style_of
  compaction_style_told w h =
      each_choice
        (λ (w : Chars).
          all_said {F = F} (set_compaction_style (compaction_style_of w) ∷ [])
          ≡ word_of "set_compaction_style" w ∷ [])
        _ w (refl, (refl, (refl, tt))) h

  pub recovery_mode_told :
      (w : Chars)
      → is_accepted recovery_modes w ≡ true
      → all_said {F = F} (set_recovery_mode (recovery_mode_of w) ∷ [])
        ≡ word_of "set_wal_recovery_mode" w ∷ []
  unfolding all_said said recovery_mode_of
  recovery_mode_told w h =
      each_choice
        (λ (w : Chars).
          all_said {F = F} (set_recovery_mode (recovery_mode_of w) ∷ [])
          ≡ word_of "set_wal_recovery_mode" w ∷ [])
        _ w (refl, (refl, (refl, (refl, tt)))) h

  pub merge_operator_told :
      (w : Chars)
      → is_accepted merge_operators w ≡ true
      → all_said {F = F} (operator_calls (merge_operator_of w)) ≡ word_of "merge_operator" w ∷ []
  unfolding all_said said merge_operator_of
  merge_operator_told w h =
      each_choice
        (λ (w : Chars).
          all_said {F = F} (operator_calls (merge_operator_of w)) ≡ word_of "merge_operator" w ∷ [])
        _ w (refl, (refl, (refl, tt))) h

  -- The calls that a checked word leads to say this word.
  pub choice_told :
      (name : String) (accepted : List String) (calls : Chars → List (Call F))
      → ((w : Chars) → is_accepted accepted w ≡ true → all_said (calls w) ≡ word_of name w ∷ [])
      → (text : Option Chars) → validate_choice name text accepted ≡ ok tt
      → all_said (on_text (λ value. calls (word value)) text)
        ≡ on_given (λ value. word_of name (word value) ∷ []) text
  unfolding all_said
  choice_told name accepted calls told none h = refl
  choice_told name accepted calls told (some value) h =
      told (word value) (choice-ok name value accepted h)

  pub multipliers_told :
      (text : Option Chars)
      → validate_multipliers text ≡ ok tt
      → all_said {F = F}
          (on_text (λ value. set_multipliers (kept parse_i32 (split value)) ∷ []) text)
        ≡ on_given
            (λ value.
              numbers_of "set_max_bytes_for_level_multiplier_additional" (numbers_i32 value) ∷ [])
            text
  unfolding all_said said numbers_i32
  multipliers_told none h = refl
  multipliers_told (some value) h =
      let (numbers, e) = multipliers-ok value h in
      let same = kept_lem parse_i32 (split value) numbers e in
      rw same (
        ap
          (λ (o : Option (List ℤ)).
            numbers_of "set_max_bytes_for_level_multiplier_additional" o ∷ [])
          (sym e))

  pub ratelimiter_told :
      (text : Option Chars)
      → validate_ratelimiter text ≡ ok tt
      → all_said {F = F} (on_text (λ value. limiter_of (kept parse_i64 (split value))) text)
        ≡ on_given (λ value. numbers_of "set_ratelimiter" (numbers_i64 value) ∷ []) text
  unfolding all_said said numbers_i64
  ratelimiter_told none h = refl
  ratelimiter_told (some value) h =
      let (a, b, c, e, fits) = ratelimiter-ok value h in
      let same = kept_lem parse_i64 (split value) (a ∷ b ∷ c ∷ []) e in
      rw (same, wrap32_id c fits)
        (ap (λ (o : Option (List ℤ)). numbers_of "set_ratelimiter" o ∷ []) (sym e))
