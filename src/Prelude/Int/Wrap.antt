-- ===== src/Prelude/Int/Wrap.antt =====
-- The laws of the wrap-around of i64 and i32.
use Prim.Native.Nat.{ℕ, ◌+◌, ◌%◌, ◌^◌, ◌<◌}
use mathlib.Core.Path.{◌≡◌, ap}
use native.Mathlib.Omega.{arith}
use ex_rocket.Prelude.Int.{
  ℤ, pos, negsuc, ◌+ℤ◌, IsI64, IsI32, to_u64, of_u64, wrap64, to_u32, of_u32, wrap32,
}

to_u64-lt : (z : ℤ) → to_u64 z < 2 ^ 64
unfolding to_u64
to_u64-lt (pos n) = omega arith
to_u64-lt (negsuc n) = omega arith

to_u64-of_u64 : (n : ℕ) → n < 2 ^ 64 → to_u64 (of_u64 n) ≡ n
unfolding to_u64 of_u64
to_u64-of_u64 n h = ground arith

to_u64-add : (a b : ℤ) → to_u64 (a +ℤ b) ≡ (to_u64 a + to_u64 b) % 2 ^ 64
unfolding to_u64 ◌+ℤ◌
to_u64-add (pos m) (pos n) = ground arith
to_u64-add (pos m) (negsuc n) = ground arith
to_u64-add (negsuc m) (pos n) = ground arith
to_u64-add (negsuc m) (negsuc n) = ground arith

to_u64-wrap64 : (z : ℤ) → to_u64 (wrap64 z) ≡ to_u64 z
unfolding wrap64
to_u64-wrap64 z = to_u64-of_u64 (to_u64 z) (to_u64-lt z)

wrap64_congr : (a b : ℤ) → to_u64 a ≡ to_u64 b → wrap64 a ≡ wrap64 b
unfolding wrap64
wrap64_congr a b e = ap of_u64 e

pub wrap64-IsI64 : (z : ℤ) → IsI64 (wrap64 z)
unfolding wrap64
wrap64-IsI64 (pos n) = ground arith
wrap64-IsI64 (negsuc n) = ground arith

pub wrap64_id : (z : ℤ) → IsI64 z → wrap64 z ≡ z
unfolding wrap64
wrap64_id (pos n) h = ground arith
wrap64_id (negsuc n) h = ground arith

-- A sum may be wrapped at any of its parts.
pub wrap64_add_left : (a b : ℤ) → wrap64 (wrap64 a +ℤ b) ≡ wrap64 (a +ℤ b)
wrap64_add_left a b =
    wrap64_congr _ _ (omega (arith, to_u64-add (wrap64 a) b, to_u64-add a b, to_u64-wrap64 a))

pub wrap64_add_right : (a b : ℤ) → wrap64 (a +ℤ wrap64 b) ≡ wrap64 (a +ℤ b)
wrap64_add_right a b =
    wrap64_congr _ _ (omega (arith, to_u64-add a (wrap64 b), to_u64-add a b, to_u64-wrap64 b))

to_u32-lt : (z : ℤ) → to_u32 z < 2 ^ 32
unfolding to_u32
to_u32-lt (pos n) = omega arith
to_u32-lt (negsuc n) = omega arith

to_u32-of_u32 : (n : ℕ) → n < 2 ^ 32 → to_u32 (of_u32 n) ≡ n
unfolding to_u32 of_u32
to_u32-of_u32 n h = ground arith

to_u32-add : (a b : ℤ) → to_u32 (a +ℤ b) ≡ (to_u32 a + to_u32 b) % 2 ^ 32
unfolding to_u32 ◌+ℤ◌
to_u32-add (pos m) (pos n) = ground arith
to_u32-add (pos m) (negsuc n) = ground arith
to_u32-add (negsuc m) (pos n) = ground arith
to_u32-add (negsuc m) (negsuc n) = ground arith

to_u32-wrap32 : (z : ℤ) → to_u32 (wrap32 z) ≡ to_u32 z
unfolding wrap32
to_u32-wrap32 z = to_u32-of_u32 (to_u32 z) (to_u32-lt z)

wrap32_congr : (a b : ℤ) → to_u32 a ≡ to_u32 b → wrap32 a ≡ wrap32 b
unfolding wrap32
wrap32_congr a b e = ap of_u32 e

pub wrap32-IsI32 : (z : ℤ) → IsI32 (wrap32 z)
unfolding wrap32
wrap32-IsI32 (pos n) = ground arith
wrap32-IsI32 (negsuc n) = ground arith

pub wrap32_id : (z : ℤ) → IsI32 z → wrap32 z ≡ z
unfolding wrap32
wrap32_id (pos n) h = ground arith
wrap32_id (negsuc n) h = ground arith

-- A sum may be wrapped at any of its parts.
pub wrap32_add_left : (a b : ℤ) → wrap32 (wrap32 a +ℤ b) ≡ wrap32 (a +ℤ b)
wrap32_add_left a b =
    wrap32_congr _ _ (omega (arith, to_u32-add (wrap32 a) b, to_u32-add a b, to_u32-wrap32 a))

pub wrap32_add_right : (a b : ℤ) → wrap32 (a +ℤ wrap32 b) ≡ wrap32 (a +ℤ b)
wrap32_add_right a b =
    wrap32_congr _ _ (omega (arith, to_u32-add a (wrap32 b), to_u32-add a b, to_u32-wrap32 b))
