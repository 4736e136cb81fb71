-- ===== src/Prelude/Int.antt =====
-- Signed integers over the native numbers (the library's ℤ stands on the unary ℕ), and the
-- machine integers of the code: `wrap64` and `wrap32` are the wrap-around of i64 and i32.
pub mod Wrap
use Prim.Native.Nat.{ℕ, zero, suc, ◌+◌, ◌-◌, ◌%◌, ◌^◌, ◌≤◌, ◌<◌}
use mathlib.Core.Path.{◌≡◌}
use native.Mathlib.Omega.{arith}
use ex_rocket.Prelude.Tests.{ltb, leb, if◌then◌else◌}

-- `negsuc n` is -(n + 1).
pub data ℤ : Type 0 where
  pos : ℕ → ℤ
  negsuc : ℕ → ℤ

abbrev pub pos_part : ℤ → ℕ
pos_part (pos n) = n
pos_part (negsuc n) = 0

abbrev pub neg_part : ℤ → ℕ
neg_part (pos n) = 0
neg_part (negsuc n) = suc n

-- a - b, as an integer.
abbrev pub sub_ℕ : ℕ → ℕ → ℤ
sub_ℕ a b = if leb b a then pos (a - b) else negsuc (b - a - 1)

infixl 65 ◌+ℤ◌
unfoldable pub ◌+ℤ◌ : ℤ → ℤ → ℤ
a +ℤ b = sub_ℕ (pos_part a + pos_part b) (neg_part a + neg_part b)

-- -n
abbrev pub neg_ℕ : ℕ → ℤ
neg_ℕ zero = pos 0
neg_ℕ (suc n) = negsuc n

abbrev pub i64_half : ℕ
i64_half = 2 ^ 63

abbrev pub i32_half : ℕ
i32_half = 2 ^ 31

-- The values of i64 and of i32.
abbrev pub IsI64 : ℤ → Type 0
IsI64 z = (pos_part z < i64_half) × (neg_part z ≤ i64_half)

abbrev pub IsI32 : ℤ → Type 0
IsI32 z = (pos_part z < i32_half) × (neg_part z ≤ i32_half)

-- The 64-bit pattern of an integer, and the i64 that a pattern stands for.
pub to_u64 : ℤ → ℕ
to_u64 (pos n) = n % 2 ^ 64
to_u64 (negsuc n) = 2 ^ 64 - 1 - n % 2 ^ 64

pub of_u64 : ℕ → ℤ
of_u64 n = if ltb n i64_half then pos n else negsuc (2 ^ 64 - 1 - n)

unfoldable pub wrap64 : ℤ → ℤ
unfolding to_u64 of_u64
wrap64 z = of_u64 (to_u64 z)

-- `z as i32`, from any wider integer.
unfoldable pub to_u32 : ℤ → ℕ
to_u32 (pos n) = n % 2 ^ 32
to_u32 (negsuc n) = 2 ^ 32 - 1 - n % 2 ^ 32

pub of_u32 : ℕ → ℤ
of_u32 n = if ltb n i32_half then pos n else negsuc (2 ^ 32 - 1 - n)

unfoldable pub wrap32 : ℤ → ℤ
unfolding to_u32 of_u32
wrap32 z = of_u32 (to_u32 z)

-- `z as usize`, from an i32 on a 64-bit target: the sign is extended.
unfoldable pub as_usize : ℤ → ℕ
unfolding to_u64
as_usize z = to_u64 z

pub +ℤ_comm : (a b : ℤ) → a +ℤ b ≡ b +ℤ a
unfolding ◌+ℤ◌
+ℤ_comm a b = ground arith

pub +ℤ_assoc : (a b c : ℤ) → a +ℤ b +ℤ c ≡ a +ℤ (b +ℤ c)
unfolding ◌+ℤ◌
+ℤ_assoc a b c = ground arith

pub +ℤ-zero : (a : ℤ) → a +ℤ pos 0 ≡ a
unfolding ◌+ℤ◌
+ℤ-zero a = ground arith

pub zero-+ℤ : (a : ℤ) → pos 0 +ℤ a ≡ a
unfolding ◌+ℤ◌
zero-+ℤ a = ground arith
