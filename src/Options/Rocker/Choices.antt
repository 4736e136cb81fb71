-- ===== src/Options/Rocker/Choices.antt =====
-- The enumerations of the `rocksdb` crate that `From<RockerOptions>` chooses from by a word, and the
-- `match` of each.
use ex_rocket.Prelude.{if◌then◌else◌}
use ex_rocket.Text.Utf8.{Chars}
use ex_rocket.Options.Rocker.Validate.{chars, same_chars}

pub data CompressionType : Type 0 where
  none snappy zlib bz2 lz4 lz4hc zstd : CompressionType

pub data LogLevel : Type 0 where
  debug info warn error fatal header : LogLevel

pub data CompactionStyle : Type 0 where
  level universal fifo : CompactionStyle

pub data RecoveryMode : Type 0 where
  tolerate_corrupted_tail_records absolute_consistency : RecoveryMode
  point_in_time skip_any_corrupted_record : RecoveryMode

-- `none_of_these` stands for the arm `_ => {}`.
pub data MergeOperator : Type 0 where
  counter_merge erlang_merge bitset_merge none_of_these : MergeOperator

unfoldable pub compression_of : Chars → CompressionType
unfolding same_chars
compression_of word =
    if same_chars (chars "none") word
    then none
    else if same_chars (chars "snappy") word
    then snappy
    else if same_chars (chars "zlib") word
    then zlib
    else if same_chars (chars "bz2") word
    then bz2
    else if same_chars (chars "lz4") word
    then lz4
    else if same_chars (chars "lz4hc") word
    then lz4hc
    else if same_chars (chars "zstd") word
    then zstd
    else none

unfoldable pub log_level_of : Chars → LogLevel
unfolding same_chars
log_level_of word =
    if same_chars (chars "debug") word
    then debug
    else if same_chars (chars "info") word
    then info
    else if same_chars (chars "warn") word
    then warn
    else if same_chars (chars "error") word
    then error
    else if same_chars (chars "fatal") word
    then fatal
    else if same_chars (chars "header") word
    then header
    else error

unfoldable pub compaction_style_of : Chars → CompactionStyle
unfolding same_chars
compaction_style_of word =
    if same_chars (chars "level") word
    then level
    else if same_chars (chars "universal") word
    then universal
    else if same_chars (chars "fifo") word
    then fifo
    else level

unfoldable pub recovery_mode_of : Chars → RecoveryMode
unfolding same_chars
recovery_mode_of word =
    if same_chars (chars "toleratecorruptedtailrecords") word
    then tolerate_corrupted_tail_records
    else if same_chars (chars "absoluteconsistency") word
    then absolute_consistency
    else if same_chars (chars "pointintime") word
    then point_in_time
    else if same_chars (chars "skipanycorruptedrecord") word
    then skip_any_corrupted_record
    else point_in_time

unfoldable pub merge_operator_of : Chars → MergeOperator
unfolding same_chars
merge_operator_of word =
    if same_chars (chars "counter_merge_operator") word
    then counter_merge
    else if same_chars (chars "erlang_merge_operator") word
    then erlang_merge
    else if same_chars (chars "bitset_merge_operator") word
    then bitset_merge
    else none_of_these
