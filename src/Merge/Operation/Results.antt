-- ===== src/Merge/Operation/Results.antt =====
-- options.rs registers `erlang_merge` for merges without a base value too. This file is about the
-- value that `process_eetf_merge_operation` makes there, taken as an operand in turn.
use ex_rocket.Prelude.{
  ◌≡◌, refl, subst, Bool, true, false, Option, none, some, List, [], ◌∷◌, String, if◌then◌else◌,
}
use ex_rocket.Prelude.Int.{as_usize}
use ex_rocket.Merge.Outcome.{Outcome, returns, panics, ◌>>=◌}
use ex_rocket.Merge.Term.{EetfTerm, atom, fix_integer, binary, list, tuple, cons, elements}
use ex_rocket.Merge.Operation.Lists.{
  Result, return_list, int_add, list_append, list_prepend, list_subtract, list_set, list_delete,
  list_insert,
}
use ex_rocket.Merge.Operation.Binaries.{
  return_binary, binary_append, binary_erase, binary_insert, binary_replace,
}
use ex_rocket.Merge.Vector.{insert_each, drain, remove}
use ex_rocket.Merge.Operation.Splices.{
  list_prepend-append, list_insert-splice, binary_insert-splice,
}
use ex_rocket.Merge.Operation.Dispatch.{dispatch, process_eetf_merge_operation}

module _ {O : Type 0} where
  -- The term is an integer, a list or a binary.
  abbrev pub IsPlain : EetfTerm O → Type 0
  IsPlain (fix_integer i) = Unit
  IsPlain (list ts) = Unit
  IsPlain (binary bytes) = Unit
  IsPlain _ = ⊥

  -- What a call returns, if it returns a value, is plain.
  pub record MakesPlain (r : Result O) : Type 0 where
    pub at : (t : EetfTerm O) → r ≡ returns (some t) → IsPlain t

  plain_value : (t : EetfTerm O) → IsPlain t → MakesPlain (returns (some t))
  plain_value t h = record { at = λ u e. let same : t ≡ u = cc in subst IsPlain same h }

  pub nothing-plain : MakesPlain (returns none)
  nothing-plain = record { at = λ u e. cc }

  panic : MakesPlain panics
  panic = record { at = λ u e. cc }

  -- One branch after the other.
  if_plain :
      (b : Bool) (x y : Result O) → MakesPlain x → MakesPlain y → MakesPlain (if b then x else y)
  if_plain true x y hx hy = hx
  if_plain false x y hx hy = hy

  >>=-plain {ℓ} :
      {A : Type ℓ} (m : Outcome A) (f : A → Result O)
      → ((a : A) → MakesPlain (f a))
      → MakesPlain (m >>= f)
  >>=-plain (returns a) f h = h a
  >>=-plain panics f h = panic

  -- The operations keep a plain value plain, and make one where there is none.
  module _ (existing : Option (EetfTerm O)) (kept : MakesPlain (returns existing)) where
    int_add-plain : (value : EetfTerm O) → MakesPlain (int_add existing value)
    unfolding int_add
    int_add-plain (fix_integer n) = plain_value _ tt
    int_add-plain _ = kept

    list_append-plain : (value : EetfTerm O) → MakesPlain (list_append existing value)
    unfolding list_append
    list_append-plain (list ts) = plain_value _ tt
    list_append-plain _ = kept

    list_prepend-plain : (value : EetfTerm O) → MakesPlain (list_prepend existing value)
    list_prepend-plain (list ts) = rw (list_prepend-append existing ts) (plain_value _ tt)
    list_prepend-plain _ = unfold list_prepend in kept

    list_subtract-plain :
        (eq : EetfTerm O → EetfTerm O → Bool) (value : EetfTerm O)
        → MakesPlain (list_subtract eq existing value)
    unfolding list_subtract
    list_subtract-plain eq (list ts) = plain_value _ tt
    list_subtract-plain eq _ = kept

    list_set-plain :
        (value : EetfTerm O) (rest : List (EetfTerm O)) → MakesPlain (list_set existing value rest)
    unfolding list_set
    list_set-plain (fix_integer p) (new_value ∷ rest) = plain_value _ tt
    list_set-plain _ _ = kept

    list_delete-plain :
        (value : EetfTerm O) (rest : List (EetfTerm O))
        → MakesPlain (list_delete existing value rest)
    unfolding list_delete
    list_delete-plain (fix_integer p) [] =
        if_plain _ _ _ (>>=-plain (remove (as_usize p) _) return_list (λ ts. plain_value _ tt))
          (plain_value _ tt)
    list_delete-plain (fix_integer p) (fix_integer q ∷ rest) =
        if_plain _ _ _
          (>>=-plain (drain (as_usize p) (as_usize q) _) return_list (λ ts. plain_value _ tt))
          (plain_value _ tt)
    list_delete-plain (fix_integer p) (_ ∷ rest) = plain_value _ tt
    list_delete-plain _ _ = kept

    list_insert-plain :
        (value : EetfTerm O) (rest : List (EetfTerm O))
        → MakesPlain (list_insert existing value rest)
    list_insert-plain (fix_integer p) (list ts ∷ rest) =
        rw (list_insert-splice existing p ts rest) (plain_value _ tt)
    list_insert-plain _ _ = unfold list_insert in kept

    binary_append-plain : (value : EetfTerm O) → MakesPlain (binary_append existing value)
    unfolding binary_append
    binary_append-plain (binary bytes) = plain_value _ tt
    binary_append-plain _ = kept

    binary_erase-plain :
        (value : EetfTerm O) (rest : List (EetfTerm O))
        → MakesPlain (binary_erase existing value rest)
    unfolding binary_erase
    binary_erase-plain (fix_integer p) (fix_integer n ∷ rest) =
        if_plain _ _ _ (>>=-plain (drain (as_usize p) _ _) return_binary (λ b. plain_value _ tt))
          (plain_value _ tt)
    binary_erase-plain _ _ = kept

    binary_insert-plain :
        (value : EetfTerm O) (rest : List (EetfTerm O))
        → MakesPlain (binary_insert existing value rest)
    binary_insert-plain (fix_integer p) (binary bytes ∷ rest) =
        rw (binary_insert-splice existing p bytes rest) (plain_value _ tt)
    binary_insert-plain _ _ = unfold binary_insert in kept

    binary_replace-plain :
        (value : EetfTerm O) (rest : List (EetfTerm O))
        → MakesPlain (binary_replace existing value rest)
    unfolding binary_replace
    binary_replace-plain (fix_integer p) (fix_integer n ∷ binary replacement ∷ rest) =
        if_plain _ _ _
          (>>=-plain (drain (as_usize p) _ _) _ (λ left.
            >>=-plain (insert_each (as_usize p) replacement left) return_binary
              (λ b. plain_value _ tt)))
          (plain_value _ tt)
    binary_replace-plain _ _ = kept

module _ {O : Type 0} (eq : EetfTerm O → EetfTerm O → Bool) where
  dispatch-plain :
      (existing : Option (EetfTerm O))
      → MakesPlain (returns existing)
      → (name : String) (value : EetfTerm O) (rest : List (EetfTerm O))
      → MakesPlain (dispatch eq name existing value rest)
  unfolding dispatch
  dispatch-plain existing kept name value rest =
      if_plain _ _ _ (int_add-plain existing kept value) (
        if_plain _ _ _ (list_append-plain existing kept value) (
          if_plain _ _ _ (list_prepend-plain existing kept value) (
            if_plain _ _ _ (list_subtract-plain existing kept eq value) (
              if_plain _ _ _ (list_set-plain existing kept value rest) (
                if_plain _ _ _ (list_delete-plain existing kept value rest) (
                  if_plain _ _ _ (list_insert-plain existing kept value rest) (
                    if_plain _ _ _ (binary_append-plain existing kept value) (
                      if_plain _ _ _ (binary_erase-plain existing kept value rest) (
                        if_plain _ _ _ (binary_insert-plain existing kept value rest) (
                          if_plain _ _ _ (binary_replace-plain existing kept value rest)
                            kept))))))))))

  -- An operand keeps a plain value plain, and makes one or nothing where there is none.
  pub process-plain :
      (existing : Option (EetfTerm O)) (operand : EetfTerm O)
      → MakesPlain (returns existing)
      → MakesPlain (process_eetf_merge_operation eq existing operand)
  unfolding process_eetf_merge_operation
  process-plain existing (tuple (cons (atom name) (cons value rest))) kept =
      dispatch-plain existing kept name value (elements rest)
  process-plain existing _ kept = kept

  pub plain_ignored :
      (t : EetfTerm O) (existing : Option (EetfTerm O))
      → IsPlain t
      → process_eetf_merge_operation eq existing t ≡ returns existing
  unfolding process_eetf_merge_operation
  plain_ignored (fix_integer i) existing h = refl
  plain_ignored (list ts) existing h = refl
  plain_ignored (binary bytes) existing h = refl
  plain_ignored (atom s) existing h = absurd h
  plain_ignored (tuple ts) existing h = absurd h
  plain_ignored _ existing h = refl

  -- The value that an operand makes where there is none changes nothing as an operand.
  pub process_eetf_merge_operation-ignored :
      (operand t : EetfTerm O) (existing : Option (EetfTerm O))
      → process_eetf_merge_operation eq none operand ≡ returns (some t)
      → process_eetf_merge_operation eq existing t ≡ returns existing
  process_eetf_merge_operation-ignored operand t existing h =
      plain_ignored t existing ((process-plain none operand nothing-plain).at t h)
