-- ===== src/Merge/Operation/Lists.antt =====
-- The operations on integers and lists.
use ex_rocket.Prelude.{
  ℕ, Bool, false, not, ◌&&◌, ◌||◌, Option, some, List, [], ◌∷◌, ◌++◌, length, set, ltb, leb,
  if◌then◌else◌,
}
use ex_rocket.Prelude.Int.{ℤ, pos, ◌+ℤ◌, wrap32, as_usize}
use ex_rocket.Merge.Outcome.{Outcome, returns, ◌>>=◌}
use ex_rocket.Merge.Term.{EetfTerm, fix_integer, list, elements, of_elements}
use ex_rocket.Merge.Vector.{insert_each, drain, remove}

abbrev pub Result : Type 0 → Type 0
Result O = Outcome (Option (EetfTerm O))

module _ {O : Type 0} where
  -- A missing value, a big integer and a value of another kind count as 0.
  abbrev pub existing_int : Option (EetfTerm O) → ℤ
  existing_int (some (fix_integer i)) = i
  existing_int _ = pos 0

  -- A missing value and a value of another kind count as the empty list.
  abbrev pub existing_list : Option (EetfTerm O) → List (EetfTerm O)
  existing_list (some (list ts)) = elements ts
  existing_list _ = []

  abbrev pub return_list : List (EetfTerm O) → Result O
  return_list ts = returns (some (list (of_elements ts)))

  -- The sum of two i32 fits an i64; the result is cast to i32.
  unfoldable pub int_add : Option (EetfTerm O) → EetfTerm O → Result O
  unfolding wrap32 ◌+ℤ◌
  int_add existing (fix_integer add_value) =
      returns (some (fix_integer (wrap32 (existing_int existing +ℤ add_value))))
  int_add existing _ = returns existing

  unfoldable pub list_append : Option (EetfTerm O) → EetfTerm O → Result O
  list_append existing (list append_list) =
      return_list (existing_list existing ++ elements append_list)
  list_append existing _ = returns existing

  unfoldable pub list_prepend : Option (EetfTerm O) → EetfTerm O → Result O
  unfolding insert_each
  list_prepend existing (list prepend_list) = do
    ts ← insert_each 0 (elements prepend_list) (existing_list existing)
    return_list ts
  list_prepend existing _ = returns existing

  module _ (eq : EetfTerm O → EetfTerm O → Bool) where
    -- `slice.contains(x)` asks each element whether it is equal to `x`.
    unfoldable pub contains : List (EetfTerm O) → EetfTerm O → Bool
    contains [] x = false
    contains (t ∷ ts) x = eq t x || contains ts x

    -- `existing.retain(|elem| !subtract.contains(elem))`
    unfoldable pub retain_not_in : List (EetfTerm O) → List (EetfTerm O) → List (EetfTerm O)
    unfolding contains
    retain_not_in subtract [] = []
    retain_not_in subtract (t ∷ ts) =
        let rest = retain_not_in subtract ts in if not (contains subtract t) then t ∷ rest else rest

    unfoldable pub list_subtract : Option (EetfTerm O) → EetfTerm O → Result O
    unfolding retain_not_in
    list_subtract existing (list subtract_list) =
        return_list (retain_not_in (elements subtract_list) (existing_list existing))
    list_subtract existing _ = returns existing

  -- An index behind the end changes no element.
  unfoldable pub list_set : Option (EetfTerm O) → EetfTerm O → List (EetfTerm O) → Result O
  unfolding as_usize
  list_set existing (fix_integer position) (new_value ∷ rest) =
      let ts = existing_list existing in
      let index = as_usize position in
      return_list (if ltb index (length ts) then set ts index new_value else ts)
  list_set existing _ _ = returns existing

  -- `{list_delete, start, end}`
  unfoldable pub delete_range : List (EetfTerm O) → ℕ → ℕ → Result O
  unfolding drain
  delete_range ts start_index end_index =
      if ltb start_index (length ts) && leb end_index (length ts)
      then (do left ← drain start_index end_index ts; return_list left)
      else return_list ts

  -- `{list_delete, pos}`
  unfoldable pub delete_one : List (EetfTerm O) → ℕ → Result O
  unfolding remove
  delete_one ts start_index =
      if ltb start_index (length ts)
      then (do left ← remove start_index ts; return_list left)
      else return_list ts

  -- A third element that is no integer deletes nothing.
  abbrev pub delete_to : List (EetfTerm O) → ℕ → EetfTerm O → Result O
  delete_to ts start_index (fix_integer end_position) =
      delete_range ts start_index (as_usize end_position)
  delete_to ts start_index _ = return_list ts

  unfoldable pub list_delete : Option (EetfTerm O) → EetfTerm O → List (EetfTerm O) → Result O
  unfolding as_usize delete_range delete_one
  list_delete existing (fix_integer position) [] =
      delete_one (existing_list existing) (as_usize position)
  list_delete existing (fix_integer position) (end_term ∷ rest) =
      delete_to (existing_list existing) (as_usize position) end_term
  list_delete existing _ _ = returns existing

  unfoldable pub list_insert : Option (EetfTerm O) → EetfTerm O → List (EetfTerm O) → Result O
  unfolding as_usize insert_each
  list_insert existing (fix_integer position) (list insert_list ∷ rest) =
      let ts = existing_list existing in
      let index = as_usize position in
      if leb index (length ts)
      then (do left ← insert_each index (elements insert_list) ts; return_list left)
      else return_list ts
  list_insert existing _ _ = returns existing
