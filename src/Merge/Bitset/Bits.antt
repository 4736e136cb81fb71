-- ===== src/Merge/Bitset/Bits.antt =====
-- Single bits: what `set_bit` and `clear_bit` do to each bit of the bitset, and to its bytes.
use ex_rocket.Prelude.{
  ℕ, zero, suc, ◌+◌, ◌-◌, ◌/◌, ◌%◌, ◌≤◌, ◌<◌, ◌≡◌, refl, ap, ◌∙◌, Bool, ◌&&◌, ◌||◌, not, inl, inr,
  [], ◌∷◌, ◌++◌, All-append, length, get_or, set, replicate, length-append, length-replicate,
  take_all, arith, ltb, leb, ltb→lt, ◌==◌, Bool-cases, if◌then◌else◌,
}
use ex_rocket.Text.Utf8.{Bytes}
use ex_rocket.Merge.Bitset.Byte.{IsByte, IsBytes, bit, laws, and_not_mask_zero}
use ex_rocket.Merge.Bitset.{or_mask, and_not_mask, resize, grown, set_bit, clear_bit}

-- Bit `pos` of a bitset; the bits behind the last byte are 0.
unfoldable pub test_bit : Bytes → ℕ → Bool
unfolding bit
test_bit bitset pos = bit (pos % 8) (get_or bitset (pos / 8) 0)

module _ (d : ℕ) where
  pub get_or-set :
      (xs : Bytes) (i j v : ℕ)
      → i < length xs
      → get_or (set xs i v) j d ≡ (if i == j then v else get_or xs j d)
  get_or-set [] i j v h = absurd (omega arith)
  get_or-set (x ∷ xs) zero zero v h = refl
  get_or-set (x ∷ xs) zero (suc j) v h = ground arith
  get_or-set (x ∷ xs) (suc i) zero v h = ground arith
  get_or-set (x ∷ xs) (suc i) (suc j) v h = ground (arith, get_or-set xs i j v)

pub get_or-replicate : (n j : ℕ) → get_or {A = ℕ} (replicate n 0) j 0 ≡ 0
get_or-replicate zero j = refl
get_or-replicate (suc n) zero = refl
get_or-replicate (suc n) (suc j) = get_or-replicate n j

-- Zero bytes behind the end change no bit.
get_or-zeros : (xs : Bytes) (n j : ℕ) → get_or (xs ++ replicate n 0) j 0 ≡ get_or xs j 0
get_or-zeros [] n j = get_or-replicate n j
get_or-zeros (x ∷ xs) n zero = refl
get_or-zeros (x ∷ xs) n (suc j) = get_or-zeros xs n j

pub resize_grow :
    (n : ℕ) (xs : Bytes) → length xs ≤ n → resize n xs ≡ xs ++ replicate (n - length xs) 0
resize_grow n xs h = ap (λ (ys : Bytes). ys ++ replicate (n - length xs) 0) (take_all n xs h)

get_or-grown : (xs : Bytes) (i j : ℕ) → get_or (grown xs i) j 0 ≡ get_or xs j 0
unfolding grown
get_or-grown xs i j = elim (Bool-cases (leb (length xs) i)) [
  | inl e ↦ rw (e, resize_grow (i + 1) xs (ground arith)) (get_or-zeros xs (i + 1 - length xs) j)
  | inr e ↦ rw e
]

length-grown : (xs : Bytes) (i : ℕ) → i < length (grown xs i)
unfolding grown
length-grown xs i = elim (Bool-cases (leb (length xs) i)) [
  | inl e ↦
      rw (e, resize_grow (i + 1) xs (ground arith))
        (omega (
          arith,
          length-append xs (replicate (i + 1 - length xs) 0),
          length-replicate (i + 1 - length xs) (zero),
        ))
  | inr e ↦ rw e (ground arith)
]

get_or_end : (xs : Bytes) (i : ℕ) → length xs ≤ i → get_or xs i 0 ≡ 0
get_or_end [] i h = refl
get_or_end (x ∷ xs) zero h = absurd (omega arith)
get_or_end (x ∷ xs) (suc i) h = get_or_end xs i (omega arith)

get_or-IsByte : (xs : Bytes) (i : ℕ) → IsBytes xs → IsByte (get_or xs i 0)
get_or-IsByte [] i h = omega arith
get_or-IsByte (x ∷ xs) zero h = h.0
get_or-IsByte (x ∷ xs) (suc i) h = get_or-IsByte xs i h.1

-- Positions are equal when their bytes and their bits are.
same_position : (pos j : ℕ) → (pos == j) ≡ (pos / 8 == j / 8 && pos % 8 == j % 8)
same_position pos j = ground arith

get_or-set_bit :
    (xs : Bytes) (pos j : ℕ)
    → get_or (set_bit xs pos) j 0
      ≡ (if pos / 8 == j then or_mask (get_or xs (pos / 8) 0) (pos % 8) else get_or xs j 0)
unfolding set_bit
get_or-set_bit xs pos j =
    get_or-set 0 (grown xs (pos / 8)) (pos / 8) j _ (length-grown xs (pos / 8))
    ∙ rw (get_or-grown xs (pos / 8) (pos / 8), get_or-grown xs (pos / 8) j) refl

get_or-clear_bit :
    (xs : Bytes) (pos j : ℕ)
    → IsBytes xs
    → get_or (clear_bit xs pos) j 0
      ≡ (if pos / 8 == j then and_not_mask (get_or xs (pos / 8) 0) (pos % 8) else get_or xs j 0)
unfolding clear_bit
get_or-clear_bit xs pos j h = elim (Bool-cases (ltb (pos / 8) (length xs))) [
  | inl e ↦ rw e (get_or-set 0 xs (pos / 8) j _ (ltb→lt _ _ e))
  | inr e ↦ rw e (
      ground (
        arith,
        get_or_end xs (pos / 8),
        get_or_end xs j,
        and_not_mask_zero (pos % 8),
        ap (λ (b : ℕ). and_not_mask b (pos % 8)) (get_or_end xs (pos / 8) (ground arith)),
      ))
]

module _ (xs : Bytes) (pos j : ℕ) (h : IsBytes xs) where
  -- `set_bit` sets bit `pos` and no other.
  pub test_bit-set_bit : test_bit (set_bit xs pos) j ≡ (pos == j || test_bit xs j)
  unfolding test_bit
  test_bit-set_bit =
      let (p, q, r, t) =
        laws (get_or xs (j / 8) 0) (pos % 8) (j % 8) (get_or-IsByte xs (j / 8) h) (omega arith)
          (omega arith) in
      ground (arith, get_or-set_bit xs pos (j / 8), same_position pos j)

  -- `clear_bit` clears bit `pos` and no other.
  pub test_bit-clear_bit : test_bit (clear_bit xs pos) j ≡ (not (pos == j) && test_bit xs j)
  unfolding test_bit
  test_bit-clear_bit =
      let (p, q, r, t) =
        laws (get_or xs (j / 8) 0) (pos % 8) (j % 8) (get_or-IsByte xs (j / 8) h) (omega arith)
          (omega arith) in
      ground (arith, get_or-clear_bit xs pos (j / 8), same_position pos j)

IsBytes-set : (xs : Bytes) (i v : ℕ) → IsByte v → IsBytes xs → IsBytes (set xs i v)
IsBytes-set [] i v hv h = tt
IsBytes-set (x ∷ xs) zero v hv h = (hv, h.1)
IsBytes-set (x ∷ xs) (suc i) v hv h = (h.0, IsBytes-set xs i v hv h.1)

IsBytes-replicate : (n : ℕ) → IsBytes (replicate n 0)
IsBytes-replicate zero = tt
IsBytes-replicate (suc n) = (omega arith, IsBytes-replicate n)

IsBytes-grown : (xs : Bytes) (i : ℕ) → IsBytes xs → IsBytes (grown xs i)
unfolding grown
IsBytes-grown xs i h = elim (Bool-cases (leb (length xs) i)) [
  | inl e ↦
      rw (e, resize_grow (i + 1) xs (ground arith))
        (All-append IsByte xs _ h (IsBytes-replicate (i + 1 - length xs)))
  | inr e ↦ rw e h
]

pub set_bit-IsBytes : (xs : Bytes) (pos : ℕ) → IsBytes xs → IsBytes (set_bit xs pos)
unfolding set_bit
set_bit-IsBytes xs pos h =
    let g = IsBytes-grown xs (pos / 8) h in
    IsBytes-set (grown xs (pos / 8)) (pos / 8) _
      (laws (get_or (grown xs (pos / 8)) (pos / 8) 0) (pos % 8) 0
        (get_or-IsByte (grown xs (pos / 8)) (pos / 8) g) (omega arith) (omega arith)).0
      g

pub clear_bit-IsBytes : (xs : Bytes) (pos : ℕ) → IsBytes xs → IsBytes (clear_bit xs pos)
unfolding clear_bit
clear_bit-IsBytes xs pos h = elim (Bool-cases (ltb (pos / 8) (length xs))) [
  | inl e ↦ rw e (
      IsBytes-set xs (pos / 8) _
        (laws (get_or xs (pos / 8) 0) (pos % 8) 0 (get_or-IsByte xs (pos / 8) h) (omega arith)
          (omega arith)).1
        h)
  | inr e ↦ rw e h
]
