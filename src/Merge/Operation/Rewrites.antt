-- ===== src/Merge/Operation/Rewrites.antt =====
-- `list_subtract` and `binary_replace` against descriptions of what they leave.
use ex_rocket.Prelude.{
  ℕ, ◌≤◌, ◌≡◌, refl, ap, sym, ◌∙◌, Bool, false, not, ◌&&◌, ◌||◌, Option, some, List, [], ◌∷◌, ◌++◌,
  arith, length, take, drop, le→leb,
}
use ex_rocket.Prelude.Int.{ℤ, as_usize}
use ex_rocket.Text.Utf8.{Bytes}
use ex_rocket.Merge.Outcome.{◌>>=◌}
use ex_rocket.Merge.Vector.{splice_cut, length_cut}
use ex_rocket.Merge.Term.{
  EetfTerm, fix_integer, binary, list, Terms, elements, of_elements, elements-of_elements,
}
use ex_rocket.Merge.Operation.Lists.{
  Result, existing_list, return_list, contains, retain_not_in, list_subtract,
}
use ex_rocket.Merge.Operation.Binaries.{
  add_usize, existing_binary, return_binary, binary_erase, binary_insert, binary_replace,
}
use ex_rocket.Merge.Operation.Splices.{binary_insert-splice}
use ex_rocket.Merge.Operation.Panics.{replace_bytes-returns}

module _ {O : Type 0} (eq : EetfTerm O → EetfTerm O → Bool) where
  -- Whether an element of a list passes a test.
  abbrev pub some_passes : (EetfTerm O → Bool) → List (EetfTerm O) → Bool
  some_passes p [] = false
  some_passes p (t ∷ ts) = p t || some_passes p ts

  -- Nothing that is left after `list_subtract` is in the subtracted list, and of what is not in it
  -- everything is left: any test passes on the rest exactly if it passes on an element of the list
  -- that is not subtracted.
  retain_not_in-passes :
      (p : EetfTerm O → Bool) (subtract ts : List (EetfTerm O))
      → some_passes p (retain_not_in eq subtract ts)
        ≡ some_passes (λ t. not (contains eq subtract t) && p t) ts
  unfolding retain_not_in
  retain_not_in-passes p subtract [] = refl
  retain_not_in-passes p subtract (t ∷ ts) = ground (arith, retain_not_in-passes p subtract ts)

  contains-append :
      (xs ys : List (EetfTerm O)) (t : EetfTerm O)
      → contains eq (xs ++ ys) t ≡ (contains eq xs t || contains eq ys t)
  unfolding contains
  contains-append [] ys t = refl
  contains-append (x ∷ xs) ys t = ground (arith, contains-append xs ys t)

  retain_not_in-append :
      (xs ys ts : List (EetfTerm O))
      → retain_not_in eq ys (retain_not_in eq xs ts) ≡ retain_not_in eq (xs ++ ys) ts
  unfolding retain_not_in
  retain_not_in-append xs ys [] = refl
  retain_not_in-append xs ys (t ∷ ts) =
      ground (arith, contains-append xs ys t, retain_not_in-append xs ys ts)

  -- Subtracting one list and then another is subtracting both at once.
  list_subtract_twice :
      (existing : Option (EetfTerm O)) (xs ys : Terms O)
      → (list_subtract eq existing (list xs) >>= λ v. list_subtract eq v (list ys))
        ≡ list_subtract eq existing (list (of_elements (elements xs ++ elements ys)))
  unfolding list_subtract
  list_subtract_twice existing xs ys = ap return_list (
      ap (retain_not_in eq (elements ys))
        (elements-of_elements (retain_not_in eq (elements xs) (existing_list existing)))
      ∙ retain_not_in-append (elements xs) (elements ys) (existing_list existing)
      ∙ ap (λ (zs : List (EetfTerm O)). retain_not_in eq zs (existing_list existing))
          (sym (elements-of_elements (elements xs ++ elements ys))))

-- `end_pos`, from the position and the count.
abbrev pub range_end : ℤ → ℤ → ℕ
range_end p n = add_usize (as_usize p) (as_usize n)

module _ {O : Type 0} where
  -- In range, a replacement puts the new bytes in the place of the old ones.
  pub binary_replace-range :
      (existing : Option (EetfTerm O)) (p n : ℤ) (replacement : Bytes) (rest : List (EetfTerm O))
      → as_usize p ≤ range_end p n
      → range_end p n ≤ length (existing_binary existing)
      → binary_replace existing (fix_integer p) (fix_integer n ∷ binary replacement ∷ rest)
        ≡ return_binary (
            take (as_usize p) (existing_binary existing)
            ++ (replacement ++ drop (range_end p n) (existing_binary existing)))
  unfolding binary_replace
  binary_replace-range existing p n replacement rest h k =
      replace_bytes-returns (existing_binary existing) replacement (as_usize p) (range_end p n) h k

  binary_erase-range :
      (existing : Option (EetfTerm O)) (p n : ℤ) (rest : List (EetfTerm O))
      → as_usize p ≤ range_end p n
      → range_end p n ≤ length (existing_binary existing)
      → binary_erase existing (fix_integer p) (fix_integer n ∷ rest)
        ≡ return_binary (
            take (as_usize p) (existing_binary existing)
            ++ drop (range_end p n) (existing_binary existing))
  unfolding binary_erase
  binary_erase-range existing p n rest h k =
      let start = as_usize p in
      let stop = range_end p n in
      let len = length (existing_binary existing) in
      rw (le→leb start len (omega arith), le→leb stop len k, le→leb start stop h)

  -- A replacement in range is an erasure and then an insertion at the same position.
  pub binary_replace-erase_insert :
      (existing : Option (EetfTerm O)) (p n : ℤ) (replacement : Bytes)
      → as_usize p ≤ range_end p n
      → range_end p n ≤ length (existing_binary existing)
      → binary_replace existing (fix_integer p) (fix_integer n ∷ binary replacement ∷ []) ≡ (
          binary_erase existing (fix_integer p) (fix_integer n ∷ []) >>= λ v.
          binary_insert v (fix_integer p) (binary replacement ∷ []))
  binary_replace-erase_insert existing p n replacement h k =
      let start = as_usize p in
      let stop = range_end p n in
      let bytes = existing_binary existing in
      let left = take start bytes ++ drop stop bytes in
      binary_replace-range existing p n replacement [] h k
      ∙ sym (
          ap
            (λ (r : Result O). r >>= λ v. binary_insert v (fix_integer p) (binary replacement ∷ []))
            (binary_erase-range existing p n [] h k)
          ∙ binary_insert-splice (some (binary left)) p replacement []
          ∙ rw (
            le→leb start (length left) (omega (arith, length_cut start stop bytes h k)),
            splice_cut start stop replacement bytes (omega arith),
          ))
