-- ===== src/Options/Rocker/Settings/Asked.antt =====
-- What the crate is told of the options, in the words that the caller wrote.
use text.Mathlib.Text.{◌==◌ as str_eq}
use ex_rocket.Prelude.{true, Option, none, some, List, [], ◌∷◌, ◌++◌, String, if◌then◌else◌}
use ex_rocket.Prelude.Int.{ℤ}
use ex_rocket.Text.Utf8.{Chars}
use ex_rocket.Options.Rocker.Choices.{
  CompressionType, LogLevel, CompactionStyle, RecoveryMode, MergeOperator, none as no_compression,
  snappy, zlib, bz2, lz4, lz4hc, zstd, debug, info, warn, error, fatal, header, level, universal,
  fifo, tolerate_corrupted_tail_records, absolute_consistency, point_in_time,
  skip_any_corrupted_record, counter_merge, erlang_merge, bitset_merge, none_of_these,
}
use ex_rocket.Options.Rocker.Types.{FieldType, Value, flag, RockerOptions, text_of}
use ex_rocket.Options.Rocker.Validate.{chars, word, numbers_i32, numbers_i64}
use ex_rocket.Options.Rocker.Settings.{
  Call, set, set_compression, set_log_level, set_compaction_style, set_multipliers,
  set_recovery_mode, enable_statistics, set_ratelimiter, set_fixed_prefix,
  set_merge_operator_associative,
}

-- A setting by its name: a value, a word, or numbers.
pub data Setting (F : Type 0) : Type 0 where
  value_of : String → Value F → Setting F
  word_of : String → Chars → Setting F
  numbers_of : String → Option (List ℤ) → Setting F

abbrev pub compression_name : CompressionType → Chars
compression_name no_compression = chars "none"
compression_name snappy = chars "snappy"
compression_name zlib = chars "zlib"
compression_name bz2 = chars "bz2"
compression_name lz4 = chars "lz4"
compression_name lz4hc = chars "lz4hc"
compression_name zstd = chars "zstd"

abbrev pub log_level_name : LogLevel → Chars
log_level_name debug = chars "debug"
log_level_name info = chars "info"
log_level_name warn = chars "warn"
log_level_name error = chars "error"
log_level_name fatal = chars "fatal"
log_level_name header = chars "header"

abbrev pub compaction_style_name : CompactionStyle → Chars
compaction_style_name level = chars "level"
compaction_style_name universal = chars "universal"
compaction_style_name fifo = chars "fifo"

abbrev pub recovery_mode_name : RecoveryMode → Chars
recovery_mode_name tolerate_corrupted_tail_records = chars "toleratecorruptedtailrecords"
recovery_mode_name absolute_consistency = chars "absoluteconsistency"
recovery_mode_name point_in_time = chars "pointintime"
recovery_mode_name skip_any_corrupted_record = chars "skipanycorruptedrecord"

abbrev pub merge_operator_name : MergeOperator → Chars
merge_operator_name counter_merge = chars "counter_merge_operator"
merge_operator_name erlang_merge = chars "erlang_merge_operator"
merge_operator_name bitset_merge = chars "bitset_merge_operator"
merge_operator_name none_of_these = []

-- How the text or value of a field is meant.
pub data Meaning : Type 0 where
  plain_value one_word list_i32 list_i64 switch : Meaning

abbrev pub on_given : {A B : Type 0} → (A → List B) → Option A → List B
on_given settings none = []
on_given settings (some a) = settings a

module _ {F : Type 0} where
  -- What a call says.
  unfoldable pub said : Call F → Setting F
  said (set setter value) = value_of setter value
  said (set_compression setter type) = word_of setter (compression_name type)
  said (set_log_level l) = word_of "set_log_level" (log_level_name l)
  said (set_compaction_style style) = word_of "set_compaction_style" (compaction_style_name style)
  said (set_multipliers numbers) =
      numbers_of "set_max_bytes_for_level_multiplier_additional" (some numbers)
  said (set_recovery_mode mode) = word_of "set_wal_recovery_mode" (recovery_mode_name mode)
  said enable_statistics = value_of "enable_statistics" (flag true)
  said (set_ratelimiter a b c) = numbers_of "set_ratelimiter" (some (a ∷ b ∷ c ∷ []))
  said (set_fixed_prefix value) = value_of "set_prefix_extractor_prefix_length" value
  said (set_merge_operator_associative operator) =
      word_of "merge_operator" (merge_operator_name operator)

  unfoldable pub all_said : List (Call F) → List (Setting F)
  unfolding said
  all_said [] = []
  all_said (call ∷ calls) = said call ∷ all_said calls

  abbrev pub switched : String → Value F → List (Setting F)
  switched name (flag true) = value_of name (flag true) ∷ []
  switched name _ = []

  -- What a field with a value asks for.
  abbrev pub asked_as : Meaning → String → Option (Value F) → List (Setting F)
  asked_as plain_value name given = on_given (λ value. value_of name value ∷ []) given
  asked_as one_word name given = on_given (λ value. word_of name (word value) ∷ []) (text_of given)
  asked_as list_i32 name given =
      on_given (λ value. numbers_of name (numbers_i32 value) ∷ []) (text_of given)
  asked_as list_i64 name given =
      on_given (λ value. numbers_of name (numbers_i64 value) ∷ []) (text_of given)
  asked_as switch name given = on_given (switched name) given

abbrev pub meaning_of : String → Meaning
meaning_of name =
    if str_eq "set_compression_type" name
    then one_word
    else if str_eq "set_bottommost_compression_type" name
    then one_word
    else if str_eq "set_blob_compression_type" name
    then one_word
    else if str_eq "set_log_level" name
    then one_word
    else if str_eq "set_compaction_style" name
    then one_word
    else if str_eq "set_wal_recovery_mode" name
    then one_word
    else if str_eq "merge_operator" name
    then one_word
    else if str_eq "set_max_bytes_for_level_multiplier_additional" name
    then list_i32
    else if str_eq "set_ratelimiter" name
    then list_i64
    else if str_eq "enable_statistics" name
    then switch
    else plain_value

unfoldable pub asked : {F : Type 0} → RockerOptions F → List (String × FieldType) → List (Setting F)
asked options [] = []
asked options ((name, type) ∷ fields) =
    asked_as (meaning_of name) name (options name) ++ asked options fields
