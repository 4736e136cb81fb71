-- ===== src/Merge/Operation/Dispatch.antt =====
-- The choice of the operation by the name in front of the tuple.
use text.Mathlib.Text.{◌==◌}
use ex_rocket.Prelude.{Bool, Option, some, List, [], ◌∷◌, ◌≡◌, refl, String, if◌then◌else◌}
use ex_rocket.Prelude.Int.{pos, negsuc}
use ex_rocket.Merge.Outcome.{returns, panics}
use ex_rocket.Merge.Term.{
  EetfTerm, atom, fix_integer, binary, list, tuple, Terms, nil, cons, elements,
}
use ex_rocket.Merge.Operation.Lists.{
  Result, int_add, list_append, list_prepend, list_subtract, list_set, list_delete, list_insert,
}
use ex_rocket.Merge.Operation.Binaries.{binary_append, binary_erase, binary_insert, binary_replace}

module _ {O : Type 0} (eq : EetfTerm O → EetfTerm O → Bool) where
  -- `match op_atom.name.as_str()`; `value` is the second element of the tuple.
  unfoldable pub dispatch : String → Option (EetfTerm O) → EetfTerm O → List (EetfTerm O) → Result O
  dispatch name existing value rest =
      if name == "int_add"
      then int_add existing value
      else if name == "list_append"
      then list_append existing value
      else if name == "list_prepend"
      then list_prepend existing value
      else if name == "list_subtract"
      then list_subtract eq existing value
      else if name == "list_set"
      then list_set existing value rest
      else if name == "list_delete"
      then list_delete existing value rest
      else if name == "list_insert"
      then list_insert existing value rest
      else if name == "binary_append"
      then binary_append existing value
      else if name == "binary_erase"
      then binary_erase existing value rest
      else if name == "binary_insert"
      then binary_insert existing value rest
      else if name == "binary_replace"
      then binary_replace existing value rest
      else returns existing

  -- An operand that is no tuple of a name and a value leaves the value as it is.
  unfoldable pub process_eetf_merge_operation : Option (EetfTerm O) → EetfTerm O → Result O
  unfolding dispatch
  process_eetf_merge_operation existing (tuple (cons (atom name) (cons value rest))) =
      dispatch name existing value (elements rest)
  process_eetf_merge_operation existing _ = returns existing

abbrev never_equal : EetfTerm Unit → EetfTerm Unit → Bool
never_equal s t = Bool.false

abbrev numbers : Terms Unit
numbers = cons (fix_integer (pos 1)) (cons (fix_integer (pos 2)) (cons (fix_integer (pos 3)) nil))

abbrev operand : String → Terms Unit → EetfTerm Unit
operand name rest = tuple (cons (atom name) rest)

inserts :
    process_eetf_merge_operation never_equal (some (list numbers)) (
      operand "list_insert"
        (cons (fix_integer (pos 1)) (cons (list (cons (atom "a") (cons (atom "b") nil))) nil)))
    ≡ returns (
        some (
          list (
            cons (fix_integer (pos 1)) (
              cons
                (atom "a")
                (cons (atom "b") (cons (fix_integer (pos 2)) (cons (fix_integer (pos 3)) nil)))))))
unfolding process_eetf_merge_operation list_insert
inserts = refl

range_turned_round :
    process_eetf_merge_operation never_equal
      (some (list numbers))
      (operand "list_delete" (cons (fix_integer (pos 2)) (cons (fix_integer (pos 1)) nil)))
    ≡ panics
unfolding process_eetf_merge_operation list_delete
range_turned_round = refl

negative_count :
    process_eetf_merge_operation never_equal
      (some (binary (b'a' ∷ b'b' ∷ b'c' ∷ [])))
      (operand "binary_erase" (cons (fix_integer (pos 2)) (cons (fix_integer (negsuc 0)) nil)))
    ≡ panics
unfolding process_eetf_merge_operation binary_erase
negative_count = refl

wraps_to_i32 :
    process_eetf_merge_operation never_equal
      (some (fix_integer (pos 2147483647)))
      (operand "int_add" (cons (fix_integer (pos 1)) nil))
    ≡ returns (some (fix_integer (negsuc 2147483647)))
unfolding process_eetf_merge_operation int_add
wraps_to_i32 = refl
