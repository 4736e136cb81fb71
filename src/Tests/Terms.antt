-- ===== src/Tests/Terms.antt =====
-- Operations on Erlang's terms at concrete inputs.
use ex_rocket.Prelude.{
  ℕ, ◌≡◌, refl, ◌↔◌, leb, length, Option, none, some, [], ◌∷◌, ◌++◌, arith, if◌then◌else◌,
}
use ex_rocket.Prelude.Int.{pos, negsuc, ◌+ℤ◌, wrap32, as_usize}
use ex_rocket.Text.Utf8.{Bytes}
use ex_rocket.Merge.Counter.{counter_merge}
use ex_rocket.Merge.Outcome.{returns, panics, ◌>>=◌}
use ex_rocket.Merge.Term.{
  EetfTerm, atom, fix_integer, binary, list, tuple, Terms, nil, cons, elements,
}
use ex_rocket.Merge.Vector.{splice}
use ex_rocket.Merge.Operation.Lists.{int_add, list_prepend, list_insert, existing_list, return_list}
use ex_rocket.Merge.Operation.Binaries.{binary_erase, binary_insert, binary_replace}
use ex_rocket.Merge.Operation.Dispatch.{process_eetf_merge_operation}
use ex_rocket.Merge.Operation.Faults.{BadRange, process_eetf_merge_operation-panics}
use ex_rocket.Merge.Operation.Results.{process_eetf_merge_operation-ignored}
use ex_rocket.Merge.Operation.Splices.{list_prepend-append, list_insert-splice}
use ex_rocket.Merge.Operation.Integers.{int_add_twice}
use ex_rocket.Merge.Operation.Rewrites.{binary_replace-erase_insert}
use ex_rocket.Merge.Erlang.{erlang_merge}
use ex_rocket.Merge.Erlang.Fallback.{erlang_merge-counter}
use ex_rocket.Merge.Erlang.Partial.{erlang_merge-partial_lost}
use ex_rocket.Merge.Erlang.Rounds.{erlang_merge-append, erlang_merge-terms}
use ex_rocket.Tests.Crates.{eetf, same_integer}

abbrev Value : Type 0
Value = EetfTerm Unit

abbrev int : ℕ → Value
int n = fix_integer (pos n)

abbrev two_one : Terms Unit
two_one = cons (int 2) (cons (int 1) nil)

abbrev turned_round : Value
turned_round = tuple (cons (atom "list_delete") (cons (int 1) (cons (int 0) nil)))

process_eetf_merge_operation-panics_example :
    (process_eetf_merge_operation same_integer (some (list two_one)) turned_round ≡ panics)
    ↔ BadRange (some (list two_one)) turned_round
process_eetf_merge_operation-panics_example =
    process_eetf_merge_operation-panics same_integer (some (list two_one)) turned_round

process_eetf_merge_operation-ignored_example :
    process_eetf_merge_operation same_integer (some (int 7)) (int 5) ≡ returns (some (int 7))
unfolding process_eetf_merge_operation int_add
process_eetf_merge_operation-ignored_example =
    process_eetf_merge_operation-ignored same_integer
      (tuple (cons (atom "int_add") (cons (int 5) nil))) (int 5) (some (int 7)) refl

list_prepend-append_example :
    list_prepend (some (list two_one)) (list two_one)
    ≡ return_list (elements two_one ++ existing_list (some (list two_one)))
list_prepend-append_example = list_prepend-append (some (list two_one)) two_one

list_insert-splice_example :
    list_insert (some (list two_one)) (fix_integer (pos 1)) (list two_one ∷ [])
    ≡ return_list (
        if leb (as_usize (pos 1)) (length (existing_list (some (list two_one))))
        then splice (as_usize (pos 1)) (elements two_one) (existing_list (some (list two_one)))
        else existing_list (some (list two_one)))
list_insert-splice_example = list_insert-splice (some (list two_one)) (pos 1) two_one []

int_add_twice_example :
    (int_add (some (int 2147483647)) (int 3) >>= λ v. int_add v (fix_integer (negsuc 4)))
    ≡ int_add (some (int 2147483647)) (fix_integer (wrap32 (pos 3 +ℤ negsuc 4)))
int_add_twice_example = int_add_twice (some (int 2147483647)) (pos 3) (negsuc 4)

abbrev abc : Option Value
abc = some (binary (b'a' ∷ b'b' ∷ b'c' ∷ []))

binary_replace-erase_insert_example :
    binary_replace abc (fix_integer (pos 1)) (fix_integer (pos 1) ∷ binary (b'x' ∷ []) ∷ []) ≡ (
      binary_erase abc (fix_integer (pos 1)) (fix_integer (pos 1) ∷ []) >>= λ v.
      binary_insert v (fix_integer (pos 1)) (binary (b'x' ∷ []) ∷ []))
unfolding as_usize
binary_replace-erase_insert_example =
    binary_replace-erase_insert abc (pos 1) (pos 1) (b'x' ∷ []) (omega arith) (omega arith)

abbrev plus_five : Bytes
plus_five = 1 ∷ 5 ∷ []

abbrev plus_six : Bytes
plus_six = 1 ∷ 6 ∷ []

abbrev adds : ℕ → Value
adds n = tuple (cons (atom "int_add") (cons (int n) nil))

erlang_merge-terms_example :
    erlang_merge eetf [] (some (0 ∷ 1 ∷ [])) (plus_five ∷ plus_six ∷ [])
    ≡ returns (some (0 ∷ 12 ∷ []))
unfolding process_eetf_merge_operation int_add
erlang_merge-terms_example =
    erlang_merge-terms eetf [] (some (0 ∷ 1 ∷ [])) plus_five (plus_six ∷ []) (adds 5) (adds 6 ∷ [])
      (int 12) (0 ∷ 12 ∷ []) (refl, (refl, tt)) refl refl

erlang_merge-append_example :
    erlang_merge eetf [] (some (0 ∷ 6 ∷ [])) (plus_six ∷ [])
    ≡ erlang_merge eetf [] (some (0 ∷ 1 ∷ [])) ((plus_five ∷ []) ++ (plus_six ∷ []))
unfolding process_eetf_merge_operation int_add
erlang_merge-append_example =
    erlang_merge-append eetf [] (some (0 ∷ 1 ∷ [])) plus_five plus_six (0 ∷ 6 ∷ []) (0 ∷ 12 ∷ []) []
      [] (adds 5) (adds 6) (int 6) (int 12) [] [] (refl, tt) (refl, tt) refl refl refl refl refl

erlang_merge-counter_example :
    erlang_merge eetf [] (some (b'4' ∷ [])) ((b'2' ∷ []) ∷ [])
    ≡ returns (counter_merge [] (some (b'4' ∷ [])) ((b'2' ∷ []) ∷ []))
erlang_merge-counter_example =
    erlang_merge-counter eetf [] (some (b'4' ∷ [])) ((b'2' ∷ []) ∷ []) (refl, tt)

erlang_merge-partial_lost_example :
    (erlang_merge eetf [] none (plus_five ∷ plus_six ∷ []) ≡ returns (some (0 ∷ 11 ∷ [])))
    × (erlang_merge eetf [] (some (0 ∷ 1 ∷ [])) ((0 ∷ 11 ∷ []) ∷ plus_six ∷ [])
        ≡ erlang_merge eetf [] (some (0 ∷ 1 ∷ [])) (plus_six ∷ []))
unfolding process_eetf_merge_operation int_add
erlang_merge-partial_lost_example =
    erlang_merge-partial_lost eetf [] (some (0 ∷ 1 ∷ [])) plus_five plus_six (0 ∷ 11 ∷ [])
      (0 ∷ 7 ∷ []) (plus_six ∷ []) [] (adds 5) (adds 6) (int 11) (int 7) (adds 6 ∷ []) []
      (refl, (refl, tt)) (refl, tt) refl refl refl refl refl
