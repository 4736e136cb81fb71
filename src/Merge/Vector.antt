-- ===== src/Merge/Vector.antt =====
-- The operations of `Vec` that native/rocker/src/merge.rs uses, with the indices at which they
-- panic, and the loop that inserts element by element.
use native.Mathlib.Numerals.{add-one}
use ex_rocket.Prelude.{
  ℕ, zero, suc, ◌+◌, ◌-◌, ◌≤◌, ◌<◌, ◌≡◌, refl, ap, ap₂, sym, ◌∙◌, ◌&&◌, List, [], ◌∷◌, ◌++◌, length,
  take, drop, append_assoc, take-append-drop, length-append, length-take, length-drop, le→leb,
  arith, ltb, leb, if◌then◌else◌,
}
use ex_rocket.Merge.Outcome.{Outcome, returns, panics, ◌>>=◌}

module _ {ℓ} {A : Type ℓ} where
  -- `insert` panics behind the end.
  unfoldable pub insert : ℕ → A → List A → Outcome (List A)
  insert index a xs =
      if leb index (length xs) then returns (take index xs ++ (a ∷ drop index xs)) else panics

  -- `drain(start..end)` panics if the range is turned round or passes the end.
  unfoldable pub drain : ℕ → ℕ → List A → Outcome (List A)
  drain start stop xs =
      if leb start stop && leb stop (length xs)
      then returns (take start xs ++ drop stop xs)
      else panics

  -- `remove` panics behind the last element.
  unfoldable pub remove : ℕ → List A → Outcome (List A)
  remove index xs =
      if ltb index (length xs) then returns (take index xs ++ drop (index + 1) xs) else panics

  -- `for (i, elem) in new.iter().enumerate() { xs.insert(index + i, elem.clone()) }`
  unfoldable pub insert_each : ℕ → List A → List A → Outcome (List A)
  unfolding insert
  insert_each index [] xs = returns xs
  insert_each index (a ∷ new) xs = do ys ← insert index a xs; insert_each (index + 1) new ys

  -- One splice.
  abbrev pub splice : ℕ → List A → List A → List A
  splice index new xs = take index xs ++ (new ++ drop index xs)

  -- The part in front of a splice, with the first new element, and the part behind it.
  take_past :
      (a : A) (i : ℕ) (xs : List A)
      → i ≤ length xs
      → take (suc i) (take i xs ++ (a ∷ drop i xs)) ≡ take i xs ++ (a ∷ [])
  take_past a zero xs h = refl
  take_past a (suc i) [] h = absurd (omega arith)
  take_past a (suc i) (x ∷ xs) h = ap (◌∷◌ x) (take_past a i xs (omega arith))

  drop_past :
      (a : A) (i : ℕ) (xs : List A)
      → i ≤ length xs
      → drop (suc i) (take i xs ++ (a ∷ drop i xs)) ≡ drop i xs
  drop_past a zero xs h = refl
  drop_past a (suc i) [] h = absurd (omega arith)
  drop_past a (suc i) (x ∷ xs) h = drop_past a i xs (omega arith)

  length_past :
      (a : A) (i : ℕ) (xs : List A)
      → i ≤ length xs
      → length (take i xs ++ (a ∷ drop i xs)) ≡ suc (length xs)
  length_past a i xs h =
      omega (arith, length-append (take i xs) (a ∷ drop i xs), length-take i xs, length-drop i xs)

  pub insert_returns :
      (index : ℕ) (a : A) (xs : List A)
      → index ≤ length xs
      → insert index a xs ≡ returns (take index xs ++ (a ∷ drop index xs))
  unfolding insert
  insert_returns index a xs h = rw (le→leb _ _ h)

  insert_each-cons :
      (index : ℕ) (a : A) (new xs ys : List A)
      → insert index a xs ≡ returns ys
      → insert_each index (a ∷ new) xs ≡ insert_each (suc index) new ys
  unfolding insert_each
  insert_each-cons index a new xs ys h = unfold insert in rw (h, add-one index)

  -- The loop never panics on an index up to the length, and is one splice.
  pub insert_each-splice :
      (index : ℕ) (new xs : List A)
      → index ≤ length xs
      → insert_each index new xs ≡ returns (splice index new xs)
  insert_each-splice index [] xs h =
      unfold insert_each in ap returns (sym (take-append-drop index xs))
  insert_each-splice index (a ∷ new) xs h =
      let ys = take index xs ++ (a ∷ drop index xs) in
      insert_each-cons index a new xs ys (insert_returns index a xs h)
      ∙ insert_each-splice (suc index) new ys (omega (arith, length_past a index xs h))
      ∙ ap returns (
          ap₂ (λ (f b : List A). f ++ (new ++ b)) (take_past a index xs h) (drop_past a index xs h)
          ∙ append_assoc (take index xs) (a ∷ []) (new ++ drop index xs))

  -- The two parts around a cut.
  pub take_front :
      (i : ℕ) (xs rest : List A) → i ≤ length xs → take i (take i xs ++ rest) ≡ take i xs
  take_front zero xs rest h = refl
  take_front (suc i) [] rest h = absurd (omega arith)
  take_front (suc i) (x ∷ xs) rest h = ap (◌∷◌ x) (take_front i xs rest (omega arith))

  pub drop_front : (i : ℕ) (xs rest : List A) → i ≤ length xs → drop i (take i xs ++ rest) ≡ rest
  drop_front zero xs rest h = refl
  drop_front (suc i) [] rest h = absurd (omega arith)
  drop_front (suc i) (x ∷ xs) rest h = drop_front i xs rest (omega arith)

  pub length_cut :
      (i j : ℕ) (xs : List A)
      → i ≤ j
      → j ≤ length xs
      → length (take i xs ++ drop j xs) + (j - i) ≡ length xs
  length_cut i j xs h k =
      omega (arith, length-append (take i xs) (drop j xs), length-take i xs, length-drop j xs)

  -- Draining a range and filling the gap is one replacement of the range.
  pub splice_cut :
      (i j : ℕ) (new xs : List A)
      → i ≤ length xs
      → splice i new (take i xs ++ drop j xs) ≡ take i xs ++ (new ++ drop j xs)
  splice_cut i j new xs h =
      ap₂ (λ (f b : List A). f ++ (new ++ b)) (take_front i xs (drop j xs) h)
        (drop_front i xs (drop j xs) h)

  pub drain_returns :
      (i j : ℕ) (xs : List A)
      → i ≤ j
      → j ≤ length xs
      → drain i j xs ≡ returns (take i xs ++ drop j xs)
  unfolding drain
  drain_returns i j xs h k = rw (le→leb _ _ h, le→leb _ _ k)

  pub drain_panics : (i j : ℕ) (xs : List A) → j < i → drain i j xs ≡ panics
  unfolding drain
  drain_panics i j xs h = ground arith
