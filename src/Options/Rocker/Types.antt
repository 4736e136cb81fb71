-- ===== src/Options/Rocker/Types.antt =====
-- The types of the fields of `RockerOptions`, and `value.decode()` at each of them.
use text.Mathlib.Text.{◌==◌ as str_eq}
use ex_rocket.Prelude.{ℕ, Bool, Option, none, some, String, if◌then◌else◌}
use ex_rocket.Prelude.Int.{ℤ}
use ex_rocket.Text.Utf8.{Chars}
use ex_rocket.Options.Rustler.{Rustler}

-- The names of `libc` stand for 32-bit integers, `usize` and `f64`.
pub data FieldType : Type 0 where
  bool i32 c_int usize size_t u64 u32 c_uint i64 f64 c_double string : FieldType

-- What a field holds, with the floating-point numbers `F` of the crate.
pub data Value (F : Type 0) : Type 0 where
  flag : Bool → Value F
  signed : ℤ → Value F
  unsigned : ℕ → Value F
  float : F → Value F
  letters : Chars → Value F

abbrev pub map_option : {A B : Type 0} → (A → B) → Option A → Option B
map_option f none = none
map_option f (some a) = some (f a)

-- The struct, by the names of its fields.
abbrev pub RockerOptions : Type 0 → Type 0
RockerOptions F = String → Option (Value F)

-- `opts.field = Some(value)`
abbrev pub assign : {F : Type 0} → String → Value F → RockerOptions F → RockerOptions F
assign field value options name = if str_eq field name then some value else options name

-- The value of a field of the type `Option<String>`.
abbrev pub text_of : {F : Type 0} → Option (Value F) → Option Chars
text_of (some (letters chars)) = some chars
text_of _ = none

module _ (r : Rustler) where
  open r use {
    Term, Float, decode_bool, decode_usize, decode_u32, decode_u64, decode_i32, decode_i64,
    decode_f64, decode_string,
  }

  abbrev pub decode_as : FieldType → Term → Option (Value Float)
  decode_as bool term = map_option flag (decode_bool term)
  decode_as i32 term = map_option signed (decode_i32 term)
  decode_as c_int term = map_option signed (decode_i32 term)
  decode_as usize term = map_option unsigned (decode_usize term)
  decode_as size_t term = map_option unsigned (decode_usize term)
  decode_as u64 term = map_option unsigned (decode_u64 term)
  decode_as u32 term = map_option unsigned (decode_u32 term)
  decode_as c_uint term = map_option unsigned (decode_u32 term)
  decode_as i64 term = map_option signed (decode_i64 term)
  decode_as f64 term = map_option float (decode_f64 term)
  decode_as c_double term = map_option float (decode_f64 term)
  decode_as string term = map_option letters (decode_string term)
