-- ===== src/Merge/Operation/Splices.antt =====
-- The loops of `list_prepend`, `list_insert` and `binary_insert`, which insert element by element,
-- against one splice.
use ex_rocket.Prelude.{
  ◌≡◌, sym, ◌∙◌, take_all, drop_all, append-nil, Option, List, ◌∷◌, ◌++◌, arith, length, leb,
  le→leb, leb→le, if◌then◌else◌, Bool-cases, inl, inr,
}
use ex_rocket.Prelude.Int.{ℤ, as_usize}
use ex_rocket.Text.Utf8.{Bytes}
use ex_rocket.Merge.Vector.{splice, insert_each-splice}
use ex_rocket.Merge.Term.{EetfTerm, fix_integer, binary, list, Terms, elements}
use ex_rocket.Merge.Operation.Lists.{
  existing_list, return_list, list_append, list_prepend, list_insert,
}
use ex_rocket.Merge.Operation.Binaries.{existing_binary, return_binary, binary_insert}

module _ {O : Type 0} where
  -- `list_prepend` puts its list in front, in the same order.
  pub list_prepend-append :
      (existing : Option (EetfTerm O)) (ts : Terms O)
      → list_prepend existing (list ts) ≡ return_list (elements ts ++ existing_list existing)
  unfolding list_prepend
  list_prepend-append existing ts =
      rw (insert_each-splice 0 (elements ts) (existing_list existing) (omega arith))

  -- `list_insert` at an index up to the length is a splice; behind the end it changes no element.
  pub list_insert-splice :
      (existing : Option (EetfTerm O)) (p : ℤ) (ts : Terms O) (rest : List (EetfTerm O))
      → list_insert existing (fix_integer p) (list ts ∷ rest)
        ≡ return_list (
            if leb (as_usize p) (length (existing_list existing))
            then splice (as_usize p) (elements ts) (existing_list existing)
            else existing_list existing)
  unfolding list_insert
  list_insert-splice existing p ts rest =
      elim (Bool-cases (leb (as_usize p) (length (existing_list existing)))) [
        | inl e ↦ rw (
          e,
          insert_each-splice (as_usize p) (elements ts) (existing_list existing) (leb→le _ _ e),
        )
        | inr e ↦ rw e
      ]

  pub binary_insert-splice :
      (existing : Option (EetfTerm O)) (p : ℤ) (bytes : Bytes) (rest : List (EetfTerm O))
      → binary_insert existing (fix_integer p) (binary bytes ∷ rest)
        ≡ return_binary (
            if leb (as_usize p) (length (existing_binary existing))
            then splice (as_usize p) bytes (existing_binary existing)
            else existing_binary existing)
  unfolding binary_insert
  binary_insert-splice existing p bytes rest =
      elim (Bool-cases (leb (as_usize p) (length (existing_binary existing)))) [
        | inl e ↦
            rw (e, insert_each-splice (as_usize p) bytes (existing_binary existing) (leb→le _ _ e))
        | inr e ↦ rw e
      ]

  -- Inserting at 0 is prepending.
  pub list_insert-zero :
      (existing : Option (EetfTerm O)) (p : ℤ) (ts : Terms O) (rest : List (EetfTerm O))
      → as_usize p ≡ 0
      → list_insert existing (fix_integer p) (list ts ∷ rest) ≡ list_prepend existing (list ts)
  list_insert-zero existing p ts rest e =
      list_insert-splice existing p ts rest
      ∙ rw (e, le→leb 0 (length (existing_list existing)) (omega arith))
          (sym (list_prepend-append existing ts))

  -- Inserting at the length is appending.
  list_insert-length :
      (existing : Option (EetfTerm O)) (p : ℤ) (ts : Terms O) (rest : List (EetfTerm O))
      → as_usize p ≡ length (existing_list existing)
      → list_insert existing (fix_integer p) (list ts ∷ rest) ≡ list_append existing (list ts)
  unfolding list_append
  list_insert-length existing p ts rest e =
      let xs = existing_list existing in
      list_insert-splice existing p ts rest
      ∙ rw (
        e,
        le→leb (length xs) (length xs) (omega arith),
        take_all (length xs) xs (omega arith),
        drop_all (length xs) xs (omega arith),
        append-nil,
      )
