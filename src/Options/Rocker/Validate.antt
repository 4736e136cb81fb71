-- ===== src/Options/Rocker/Validate.antt =====
-- `RockerOptions::validate` and `validate_choice` of native/rocker/src/options.rs.
pub mod Accepted
use Prim.Native.Char.{code}
use ex_rocket.Prelude.{
  ℕ, Bool, true, false, not, ◌&&◌, ◌||◌, Option, none, some, List, [], ◌∷◌, String, ◌==◌, leb, ltb,
  if◌then◌else◌,
}
use ex_rocket.Prelude.Chain.{collect}
use ex_rocket.Prelude.Int.{ℤ, pos, negsuc, i32_half}
use ex_rocket.Prelude.Result.{Result, ok, err, ◌>>=◌}
use ex_rocket.Text.Case.{to_lowercase, split}
use ex_rocket.Text.Number.{parse_i32, parse_i64}
use ex_rocket.Text.Str.{trim}
use ex_rocket.Text.Utf8.{Chars}
use ex_rocket.Options.Rocker.Types.{Value, RockerOptions, text_of}

pub data OptionsError : Type 0 where
  unknown invalid : String → OptionsError

-- The code points of a literal.
abbrev pub chars : String → Chars
chars String.[] = []
chars (String.◌∷◌ c s) = code c ∷ chars s

unfoldable pub same_chars : Chars → Chars → Bool
same_chars [] [] = true
same_chars (c ∷ cs) (d ∷ ds) = (c == d) && same_chars cs ds
same_chars _ _ = false

-- `accepted.contains(&word)`
unfoldable pub is_accepted : List String → Chars → Bool
unfolding same_chars
is_accepted [] word = false
is_accepted (choice ∷ choices) word = same_chars (chars choice) word || is_accepted choices word

-- `value.trim().to_lowercase()`
unfoldable pub word : Chars → Chars
unfolding trim to_lowercase
word value = to_lowercase (trim value)

abbrev pub compressions : List String
compressions = "none" ∷ "snappy" ∷ "zlib" ∷ "bz2" ∷ "lz4" ∷ "lz4hc" ∷ "zstd" ∷ []

abbrev pub log_levels : List String
log_levels = "debug" ∷ "info" ∷ "warn" ∷ "error" ∷ "fatal" ∷ "header" ∷ []

abbrev pub compaction_styles : List String
compaction_styles = "level" ∷ "universal" ∷ "fifo" ∷ []

abbrev pub recovery_modes : List String
recovery_modes =
    "toleratecorruptedtailrecords" ∷ "absoluteconsistency" ∷ "pointintime"
    ∷ "skipanycorruptedrecord" ∷ []

abbrev pub merge_operators : List String
merge_operators = "counter_merge_operator" ∷ "erlang_merge_operator" ∷ "bitset_merge_operator" ∷ []

unfoldable pub validate_choice :
    String → Option Chars → List String → Result OptionsError (Unit {0})
unfolding is_accepted word
validate_choice name none accepted = ok tt
validate_choice name (some value) accepted =
    if not (is_accepted accepted (word value)) then err (invalid name) else ok tt

-- `part.trim().parse::<i32>()` of every part.
unfoldable pub numbers_i32 : Chars → Option (List ℤ)
unfolding collect split trim parse_i32
numbers_i32 value = collect (λ part. parse_i32 (trim part)) (split value)

unfoldable pub numbers_i64 : Chars → Option (List ℤ)
unfolding collect split trim parse_i64
numbers_i64 value = collect (λ part. parse_i64 (trim part)) (split value)

abbrev pub is_empty : Chars → Bool
is_empty [] = true
is_empty (c ∷ cs) = false

abbrev pub is_none : {A : Type 0} → Option A → Bool
is_none none = true
is_none (some a) = false

-- `i32::try_from(value).is_ok()`
abbrev pub fits_i32 : ℤ → Bool
fits_i32 (pos n) = ltb n i32_half
fits_i32 (negsuc n) = ltb n i32_half

unfoldable pub validate_multipliers : Option Chars → Result OptionsError (Unit {0})
unfolding numbers_i32
validate_multipliers none = ok tt
validate_multipliers (some value) =
    if is_empty value || is_none (numbers_i32 value)
    then err (invalid "set_max_bytes_for_level_multiplier_additional")
    else ok tt

-- Three numbers, the last of them an i32.
abbrev pub is_limit : Option (List ℤ) → Bool
is_limit (some (bytes_per_second ∷ refill_period_us ∷ fairness ∷ [])) = fits_i32 fairness
is_limit _ = false

unfoldable pub validate_ratelimiter : Option Chars → Result OptionsError (Unit {0})
unfolding numbers_i64
validate_ratelimiter none = ok tt
validate_ratelimiter (some value) =
    if is_limit (numbers_i64 value) then ok tt else err (invalid "set_ratelimiter")

unfoldable pub validate : {F : Type 0} → RockerOptions F → Result OptionsError (Unit {0})
unfolding validate_choice validate_multipliers validate_ratelimiter
validate options = do
  let field = λ (name : String). text_of (options name)
  _ ← validate_choice "set_compression_type" (field "set_compression_type") compressions
  _ ←
      validate_choice "set_bottommost_compression_type" (field "set_bottommost_compression_type")
        compressions
  _ ← validate_choice "set_blob_compression_type" (field "set_blob_compression_type") compressions
  _ ← validate_choice "set_log_level" (field "set_log_level") log_levels
  _ ← validate_choice "set_compaction_style" (field "set_compaction_style") compaction_styles
  _ ← validate_choice "set_wal_recovery_mode" (field "set_wal_recovery_mode") recovery_modes
  _ ← validate_choice "merge_operator" (field "merge_operator") merge_operators
  _ ← validate_multipliers (field "set_max_bytes_for_level_multiplier_additional")
  validate_ratelimiter (field "set_ratelimiter")
