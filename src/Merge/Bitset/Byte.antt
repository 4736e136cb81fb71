-- ===== src/Merge/Bitset/Byte.antt =====
-- The two masks on one byte: which bits they change, and that the result is a byte.
use ex_rocket.Prelude.{
  ℕ, zero, suc, ◌+◌, ◌-◌, ◌*◌, ◌/◌, ◌%◌, ◌^◌, ◌<◌, ◌≡◌, refl, subst, Bool, true, false, ◌&&◌, ◌||◌,
  not, All, arith, ltb, ltb→lt, ◌==◌,
}
use Prim.Native.Nat.{bit_and-bitwise}
use ex_rocket.Text.Utf8.{Bytes}
use ex_rocket.Merge.Bitset.{or_mask, and_not_mask}

abbrev pub IsByte : ℕ → Type 0
IsByte b = b < 256

abbrev pub IsBytes : Bytes → Type 0
IsBytes = All IsByte

-- Bit `k` of a byte.
unfoldable pub bit : ℕ → ℕ → Bool
bit k byte = byte / 2 ^ k % 2 == 1

-- `test` holds of the numbers under `limit`.
passes : (ℕ → Bool) → ℕ → Bool
passes test zero = true
passes test (suc limit) = passes test limit && test limit

test_at :
    (test : ℕ → Bool) (limit value : ℕ)
    → value < limit
    → passes test limit ≡ true
    → test value ≡ true
unfolding passes
test_at test zero value under all_pass = absurd (omega arith)
test_at test (suc limit) value under all_pass =
    let earlier = test_at test limit value in ground (arith, earlier)

abbrev same : Bool → Bool → Bool
same true b = b
same false b = not b

same_eq : (a b : Bool) → same a b ≡ true → a ≡ b
same_eq true true h = refl
same_eq true false h = cc
same_eq false true h = cc
same_eq false false h = refl

and_parts :
    (a b c d : Bool)
    → ((a && b) && (c && d)) ≡ true
    → (a ≡ true) × (b ≡ true) × (c ≡ true) × (d ≡ true)
and_parts a b c d h = ground arith

-- What the two masks do to bit `k` of a byte, as a test.
abbrev law : ℕ → ℕ → ℕ → Bool
law byte i k =
    (ltb (or_mask byte i) 256 && ltb (and_not_mask byte i) 256)
    && (same (bit k (or_mask byte i)) (i == k || bit k byte)
        && same (bit k (and_not_mask byte i)) (not (i == k) && bit k byte))

-- All bytes and all pairs of bits, by evaluation: `x` holds the byte and the two bits.
abbrev byte_laws : ℕ → Bool
byte_laws x = law (x / 64) (x / 8 % 8) (x % 8)

byte_table : passes byte_laws 16384 ≡ true
unfolding passes bit
byte_table = refl

module _ (byte i k : ℕ) (hb : IsByte byte) (hi : i < 8) (hk : k < 8) where
  index : ℕ
  index = byte * 64 + i * 8 + k

  laws_at : byte_laws index ≡ true
  unfolding index
  laws_at = test_at byte_laws 16384 index (omega arith) byte_table

  index_parts : (index / 64 ≡ byte) × (index / 8 % 8 ≡ i) × (index % 8 ≡ k)
  unfolding index
  index_parts = (omega arith, omega arith, omega arith)

  pub laws :
      (or_mask byte i < 256)
      × (and_not_mask byte i < 256)
      × (bit k (or_mask byte i) ≡ (i == k || bit k byte))
      × (bit k (and_not_mask byte i) ≡ (not (i == k) && bit k byte))
  laws =
      let h : law byte i k ≡ true =
        subst (λ (b : ℕ). law b i k ≡ true) index_parts.0
          (subst (λ (m : ℕ). law (index / 64) m k ≡ true) index_parts.1
            (subst (λ (m : ℕ). law (index / 64) (index / 8 % 8) m ≡ true) index_parts.2 laws_at)) in
      let (p, q, r, t) = and_parts _ _ _ _ h in
      (ltb→lt _ _ p, ltb→lt _ _ q, same_eq _ _ r, same_eq _ _ t)

-- `get_or` behind the end is 0, and no mask sets a bit of it there.
pub and_not_mask_zero : (i : ℕ) → and_not_mask 0 i ≡ 0
and_not_mask_zero i = bit_and-bitwise 0 (255 - 2 ^ i)
