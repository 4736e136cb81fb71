-- ===== src/Options/Rocker/Settings.antt =====
-- `From<RockerOptions> for Options`. The options of the crate are what the calls of its setters make
-- of its default, so the result is the list of these calls.
pub mod Asked
pub mod Words
pub mod Told
use ex_rocket.Prelude.{ℕ, Bool, true, Option, none, some, List, [], ◌∷◌, ◌++◌, String}
use ex_rocket.Prelude.Int.{ℤ, wrap32}
use ex_rocket.Text.Case.{split}
use ex_rocket.Text.Number.{parse_i32, parse_i64}
use ex_rocket.Text.Str.{trim}
use ex_rocket.Text.Utf8.{Chars}
use ex_rocket.Options.Rocker.Choices.{
  CompressionType, LogLevel, CompactionStyle, RecoveryMode, MergeOperator, counter_merge,
  erlang_merge, bitset_merge, none_of_these, compression_of, log_level_of, compaction_style_of,
  recovery_mode_of, merge_operator_of,
}
use ex_rocket.Options.Rocker.Steps.{
  Step, plain, compression, log_level, compaction_style, multipliers, recovery_mode, statistics,
  ratelimiter, fixed_prefix, merge_operator, steps,
}
use ex_rocket.Options.Rocker.Types.{Value, flag, RockerOptions, text_of}
use ex_rocket.Options.Rocker.Validate.{word}

-- A call of a setter of `rocksdb::Options`.
pub data Call (F : Type 0) : Type 0 where
  set : String → Value F → Call F
  set_compression : String → CompressionType → Call F
  set_log_level : LogLevel → Call F
  set_compaction_style : CompactionStyle → Call F
  set_multipliers : List ℤ → Call F
  set_recovery_mode : RecoveryMode → Call F
  enable_statistics : Call F
  set_ratelimiter : ℤ → ℤ → ℤ → Call F
  -- `set_prefix_extractor` with `create_fixed_prefix`
  set_fixed_prefix : Value F → Call F
  set_merge_operator_associative : MergeOperator → Call F

-- The parts that are numbers.
unfoldable pub kept : (Chars → Option ℤ) → List Chars → List ℤ
kept parse [] = []
kept parse (part ∷ parts) =
    let rest = kept parse parts in elim (parse (trim part)) [ none ↦ rest | some n ↦ n ∷ rest ]

module _ {F : Type 0} where
  abbrev pub on_text : (Chars → List (Call F)) → Option Chars → List (Call F)
  on_text calls none = []
  on_text calls (some value) = calls value

  abbrev pub on_value : (Value F → List (Call F)) → Option (Value F) → List (Call F)
  on_value calls none = []
  on_value calls (some value) = calls value

  abbrev pub limiter_of : List ℤ → List (Call F)
  limiter_of (bytes_per_second ∷ refill_period_us ∷ fairness ∷ []) =
      set_ratelimiter bytes_per_second refill_period_us (wrap32 fairness) ∷ []
  limiter_of _ = []

  abbrev pub operator_calls : MergeOperator → List (Call F)
  operator_calls none_of_these = []
  operator_calls counter_merge = set_merge_operator_associative counter_merge ∷ []
  operator_calls erlang_merge = set_merge_operator_associative erlang_merge ∷ []
  operator_calls bitset_merge = set_merge_operator_associative bitset_merge ∷ []

  abbrev pub statistics_calls : Value F → List (Call F)
  statistics_calls (flag true) = enable_statistics ∷ []
  statistics_calls _ = []

  unfoldable pub step_calls : RockerOptions F → Step → List (Call F)
  unfolding word compression_of log_level_of compaction_style_of recovery_mode_of merge_operator_of
      kept split parse_i32 parse_i64 wrap32
  step_calls options (plain field setter) =
      on_value (λ value. set setter value ∷ []) (options field)
  step_calls options (compression field setter) =
      on_text (λ value. set_compression setter (compression_of (word value)) ∷ [])
        (text_of (options field))
  step_calls options log_level =
      on_text (λ value. set_log_level (log_level_of (word value)) ∷ [])
        (text_of (options "set_log_level"))
  step_calls options compaction_style =
      on_text (λ value. set_compaction_style (compaction_style_of (word value)) ∷ [])
        (text_of (options "set_compaction_style"))
  step_calls options multipliers =
      on_text (λ value. set_multipliers (kept parse_i32 (split value)) ∷ [])
        (text_of (options "set_max_bytes_for_level_multiplier_additional"))
  step_calls options recovery_mode =
      on_text (λ value. set_recovery_mode (recovery_mode_of (word value)) ∷ [])
        (text_of (options "set_wal_recovery_mode"))
  step_calls options statistics = on_value statistics_calls (options "enable_statistics")
  step_calls options ratelimiter =
      on_text (λ value. limiter_of (kept parse_i64 (split value)))
        (text_of (options "set_ratelimiter"))
  step_calls options fixed_prefix =
      on_value (λ value. set_fixed_prefix value ∷ []) (options "set_prefix_extractor_prefix_length")
  step_calls options merge_operator =
      on_text (λ value. operator_calls (merge_operator_of (word value)))
        (text_of (options "merge_operator"))

  unfoldable pub run_steps : RockerOptions F → List Step → List (Call F)
  unfolding step_calls
  run_steps options [] = []
  run_steps options (step ∷ rest) = step_calls options step ++ run_steps options rest

  unfoldable pub from : RockerOptions F → List (Call F)
  unfolding run_steps
  from options = run_steps options steps
