-- ===== src/Merge/Operation/Faults.antt =====
-- The operands on which `process_eetf_merge_operation` panics.
use text.Mathlib.TextEquality.{eq_iff}
use ex_rocket.Prelude.{◌≡◌, ◌≢◌, ◌↔◌, ◌⊎◌, inl, inr, Bool, Option, List, ◌∷◌, String, arith}
use ex_rocket.Merge.Outcome.{panics}
use ex_rocket.Merge.Term.{EetfTerm, atom, fix_integer, binary, list, tuple, Terms, cons, elements}
use ex_rocket.Merge.Operation.Lists.{
  int_add, list_append, list_prepend, list_subtract, list_set, list_delete, list_insert,
}
use ex_rocket.Merge.Operation.Binaries.{binary_append, binary_erase, binary_insert, binary_replace}
use ex_rocket.Merge.Operation.Dispatch.{dispatch, process_eetf_merge_operation}
use ex_rocket.Merge.Operation.Splices.{
  list_prepend-append, list_insert-splice, binary_insert-splice,
}
use ex_rocket.Merge.Operation.Panics.{
  BadDelete, BadErase, BadReplace, list_delete-panics, binary_erase-panics, binary_replace-panics,
}

module _ {O : Type 0} (existing : Option (EetfTerm O)) where
  int_add-returns : (value : EetfTerm O) → int_add existing value ≢ panics
  unfolding int_add
  int_add-returns (fix_integer n) h = cc
  int_add-returns _ h = cc

  list_append-returns : (value : EetfTerm O) → list_append existing value ≢ panics
  unfolding list_append
  list_append-returns (list ts) h = cc
  list_append-returns _ h = cc

  list_prepend-returns : (value : EetfTerm O) → list_prepend existing value ≢ panics
  list_prepend-returns (list ts) h = cc (list_prepend-append existing ts)
  list_prepend-returns (atom s) h = unfold list_prepend in cc
  list_prepend-returns _ h = unfold list_prepend in cc

  list_subtract-returns :
      (eq : EetfTerm O → EetfTerm O → Bool) (value : EetfTerm O)
      → list_subtract eq existing value ≢ panics
  unfolding list_subtract
  list_subtract-returns eq (list ts) h = cc
  list_subtract-returns eq _ h = cc

  list_set-returns :
      (value : EetfTerm O) (rest : List (EetfTerm O)) → list_set existing value rest ≢ panics
  unfolding list_set
  list_set-returns (fix_integer p) (new_value ∷ rest) h = cc
  list_set-returns _ _ h = cc

  list_insert-returns :
      (value : EetfTerm O) (rest : List (EetfTerm O)) → list_insert existing value rest ≢ panics
  list_insert-returns (fix_integer p) (list ts ∷ rest) h =
      cc (list_insert-splice existing p ts rest)
  list_insert-returns _ _ h = unfold list_insert in cc

  binary_append-returns : (value : EetfTerm O) → binary_append existing value ≢ panics
  unfolding binary_append
  binary_append-returns (binary bytes) h = cc
  binary_append-returns _ h = cc

  binary_insert-returns :
      (value : EetfTerm O) (rest : List (EetfTerm O)) → binary_insert existing value rest ≢ panics
  binary_insert-returns (fix_integer p) (binary bytes ∷ rest) h =
      cc (binary_insert-splice existing p bytes rest)
  binary_insert-returns _ _ h = unfold binary_insert in cc

  -- A deletion, an erasure or a replacement whose range is turned round. A negative count turns an
  -- erasure round, since the sum of the positions wraps.
  abbrev pub BadRange : EetfTerm O → Type 0
  BadRange (tuple (cons (atom name) (cons value rest))) =
      ((name ≡ "list_delete") × BadDelete existing value (elements rest))
      ⊎ (((name ≡ "binary_erase") × BadErase existing value (elements rest))
          ⊎ ((name ≡ "binary_replace") × BadReplace existing value (elements rest)))
  BadRange _ = ⊥

module _ {O : Type 0} (eq : EetfTerm O → EetfTerm O → Bool) (existing : Option (EetfTerm O)) where
  dispatch-panics :
      (name : String) (value : EetfTerm O) (rest : List (EetfTerm O))
      → dispatch eq name existing value rest ≡ panics
      → ((name ≡ "list_delete") × (list_delete existing value rest ≡ panics))
        ⊎ (((name ≡ "binary_erase") × (binary_erase existing value rest ≡ panics))
            ⊎ ((name ≡ "binary_replace") × (binary_replace existing value rest ≡ panics)))
  unfolding dispatch
  dispatch-panics name value rest h = ground (
    arith,
    eq_iff name "list_delete",
    eq_iff name "binary_erase",
    eq_iff name "binary_replace",
    int_add-returns existing value,
    list_append-returns existing value,
    list_prepend-returns existing value,
    list_subtract-returns existing eq value,
    list_set-returns existing value rest,
    list_insert-returns existing value rest,
    binary_append-returns existing value,
    binary_insert-returns existing value rest,
  )

  -- An operand that is a tuple of a name, a value and the rest.
  panics_forward :
      (name : String) (value : EetfTerm O) (rest : Terms O)
      → dispatch eq name existing value (elements rest) ≡ panics
      → BadRange existing (tuple (cons (atom name) (cons value rest)))
  panics_forward name value rest h = elim (dispatch-panics name value (elements rest) h) [
    | inl (e, p) ↦ inl (e, (list_delete-panics existing value (elements rest)).0 p)
    | inr (inl (e, p)) ↦ inr (inl (e, (binary_erase-panics existing value (elements rest)).0 p))
    | inr (inr (e, p)) ↦ inr (inr (e, (binary_replace-panics existing value (elements rest)).0 p))
  ]

  panics_backward :
      (name : String) (value : EetfTerm O) (rest : Terms O)
      → BadRange existing (tuple (cons (atom name) (cons value rest)))
      → dispatch eq name existing value (elements rest) ≡ panics
  unfolding dispatch
  panics_backward name value rest (inl (e, b)) =
      rw e ((list_delete-panics existing value (elements rest)).1 b)
  panics_backward name value rest (inr (inl (e, b))) =
      rw e ((binary_erase-panics existing value (elements rest)).1 b)
  panics_backward name value rest (inr (inr (e, b))) =
      rw e ((binary_replace-panics existing value (elements rest)).1 b)

  -- An operand makes the merge panic exactly if it names list_delete, binary_erase or binary_replace
  -- with arguments of the kinds that these take, its start lies within the existing value (for a list,
  -- at one of its elements), and its end comes before its start. Here positions are the numbers of the
  -- operand as a usize, and the end of the two operations on binaries is the wrapped sum of start and
  -- count.
  pub process_eetf_merge_operation-panics :
      (operand : EetfTerm O)
      → (process_eetf_merge_operation eq existing operand ≡ panics) ↔ BadRange existing operand
  unfolding process_eetf_merge_operation
  process_eetf_merge_operation-panics (tuple (cons (atom name) (cons value rest))) =
      (panics_forward name value rest, panics_backward name value rest)
  process_eetf_merge_operation-panics _ = (λ h. cc, λ h. absurd h)
