-- ===== src/Options/Rocker/Settings/Told.antt =====
-- `From<RockerOptions>` on options that `validate` accepts.
use text.Mathlib.Text.{◌==◌ as str_eq}
use text.Mathlib.TextEquality.{eq_iff}
use ex_rocket.Prelude.{
  ◌≡◌, refl, subst, ap, ap₂, ◌∙◌, true, false, Option, none, some, List, [], ◌∷◌, ◌++◌, String,
  Bool-cases, inl, inr, if◌then◌else◌,
}
use ex_rocket.Prelude.Result.{ok}
use ex_rocket.Options.Rocker.Types.{
  FieldType, Value, flag, signed, unsigned, float, letters, RockerOptions,
}
use ex_rocket.Options.Rocker.Fields.{fields}
use ex_rocket.Options.Rocker.Validate.{chars, validate}
use ex_rocket.Options.Rocker.Validate.Accepted.{Accepted, validate-Accepted}
use ex_rocket.Options.Rocker.Steps.{
  Step, plain, compression, log_level, compaction_style, multipliers, recovery_mode, statistics,
  ratelimiter, fixed_prefix, merge_operator, steps,
}
use ex_rocket.Options.Rocker.Settings.{
  Call, set, on_value, statistics_calls, set_fixed_prefix, step_calls, run_steps, from,
}
use ex_rocket.Options.Rocker.Settings.Asked.{
  Setting, said, all_said, asked_as, meaning_of, asked, on_given, value_of, switched,
}
use ex_rocket.Options.Rocker.Settings.Words.{
  compression_told, log_level_told, compaction_style_told, recovery_mode_told, merge_operator_told,
  choice_told, multipliers_told, ratelimiter_told,
}

all_said-append :
    {F : Type 0} (calls others : List (Call F))
    → all_said (calls ++ others) ≡ all_said calls ++ all_said others
unfolding all_said
all_said-append [] others = refl
all_said-append (call ∷ calls) others = ap (λ rest. said call ∷ rest) (all_said-append calls others)

-- The step that is there for a field.
abbrev pub step_of : String → Step
step_of name =
    if str_eq "set_compression_type" name
    then compression name name
    else if str_eq "set_bottommost_compression_type" name
    then compression name name
    else if str_eq "set_blob_compression_type" name
    then compression name name
    else if str_eq "set_log_level" name
    then log_level
    else if str_eq "set_compaction_style" name
    then compaction_style
    else if str_eq "set_wal_recovery_mode" name
    then recovery_mode
    else if str_eq "merge_operator" name
    then merge_operator
    else if str_eq "set_max_bytes_for_level_multiplier_additional" name
    then multipliers
    else if str_eq "set_ratelimiter" name
    then ratelimiter
    else if str_eq "enable_statistics" name
    then statistics
    else if str_eq "set_prefix_extractor_prefix_length" name
    then fixed_prefix
    else plain name name

steps_for : List (String × FieldType) → List Step
steps_for [] = []
steps_for ((name, type) ∷ fields) = step_of name ∷ steps_for fields

steps_in_order : steps ≡ steps_for fields
unfolding steps_for
steps_in_order = refl

-- To show something of a name, show it of `key`, and of the names that are not `key`.
at_key :
    (P : String → Type 0) (key name : String) → P key → (str_eq key name ≡ false → P name) → P name
at_key P key name at others = elim (Bool-cases (str_eq key name)) [
  | inl e ↦ subst P ((eq_iff key name).0 e) at
  | inr e ↦ others e
]

module _ {F : Type 0} (options : RockerOptions F) where
  Tells : String → Type 0
  Tells name =
      all_said (step_calls options (step_of name)) ≡ asked_as (meaning_of name) name (options name)

  plain_told :
      (name : String) (given : Option (Value F))
      → all_said (on_value (λ value. set name value ∷ []) given)
        ≡ on_given (λ value. value_of name value ∷ []) given
  unfolding all_said said
  plain_told name none = refl
  plain_told name (some value) = refl

  statistics_told :
      (given : Option (Value F))
      → all_said (on_value statistics_calls given) ≡ on_given (switched "enable_statistics") given
  unfolding all_said said
  statistics_told none = refl
  statistics_told (some (flag true)) = refl
  statistics_told (some (flag false)) = refl
  statistics_told (some (signed z)) = refl
  statistics_told (some (unsigned n)) = refl
  statistics_told (some (float f)) = refl
  statistics_told (some (letters chars)) = refl

  fixed_prefix_told :
      (given : Option (Value F))
      → all_said (on_value (λ value. set_fixed_prefix value ∷ []) given)
        ≡ on_given (λ value. value_of "set_prefix_extractor_prefix_length" value ∷ []) given
  unfolding all_said said
  fixed_prefix_told none = refl
  fixed_prefix_told (some value) = refl

  step_told : Accepted options → (name : String) → Tells name
  unfolding Tells step_calls
  step_told checked name =
      at_key Tells "set_compression_type" name
        (choice_told _ _ _ (compression_told "set_compression_type") _ checked.compression)
        λ e0.
          at_key Tells "set_bottommost_compression_type" name
            (choice_told _ _ _ (compression_told "set_bottommost_compression_type") _
              checked.bottommost)
            λ e1.
              at_key Tells "set_blob_compression_type" name
                (choice_told _ _ _ (compression_told "set_blob_compression_type") _ checked.blob)
                λ e2.
                  at_key Tells "set_log_level" name
                    (choice_told _ _ _ log_level_told _ checked.log_level)
                    λ e3.
                      at_key Tells "set_compaction_style" name
                        (choice_told _ _ _ compaction_style_told _ checked.compaction_style)
                        λ e4.
                          at_key Tells "set_wal_recovery_mode" name
                            (choice_told _ _ _ recovery_mode_told _ checked.recovery_mode)
                            λ e5.
                              at_key Tells "merge_operator" name
                                (choice_told _ _ _ merge_operator_told _ checked.merge_operator)
                                λ e6.
                                  at_key Tells "set_max_bytes_for_level_multiplier_additional" name
                                    (multipliers_told _ checked.multipliers)
                                    λ e7.
                                      at_key Tells "set_ratelimiter" name
                                        (ratelimiter_told _ checked.ratelimiter)
                                        λ e8.
                                          at_key Tells "enable_statistics" name (statistics_told _)
                                            λ e9.
                                              at_key Tells "set_prefix_extractor_prefix_length" name
                                                (fixed_prefix_told _)
                                                λ e10.
                                                  rw (e0, e1, e2, e3, e4, e5, e6, e7, e8, e9, e10)
                                                    (plain_told name (options name))

  steps_told :
      Accepted options
      → (rows : List (String × FieldType))
      → all_said (run_steps options (steps_for rows)) ≡ asked options rows
  unfolding run_steps steps_for asked all_said Tells
  steps_told checked [] = refl
  steps_told checked ((name, type) ∷ rows) =
      all_said-append (step_calls options (step_of name)) _
      ∙ ap₂ (λ (xs ys : List (Setting F)). xs ++ ys) (step_told checked name)
          (steps_told checked rows)

  -- On options that `validate` accepts, the crate is told, field by field in the order of the struct,
  -- what the fields with a value ask for: each value as it is, each word, and all numbers of a list.
  pub from-asked : validate options ≡ ok tt → all_said (from options) ≡ asked options fields
  unfolding from
  from-asked h =
      ap (λ (s : List Step). all_said (run_steps options s)) steps_in_order
      ∙ steps_told (validate-Accepted options h) fields
