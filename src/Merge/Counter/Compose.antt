-- ===== src/Merge/Counter/Compose.antt =====
-- RocksDB may merge a run of operands first, with no base value, and use the result as one operand
-- (`set_merge_operator_associative` of options.rs registers the same function for both). This file
-- is about `counter_merge` in several rounds.
use mathlib.Core.List.{Perm, foldr}
use mathlib.Core.List.Perm
use ex_rocket.Prelude.{◌≡◌, refl, sym, ap, ◌∙◌, Option, none, some, List, [], ◌∷◌, ◌++◌}
use ex_rocket.Prelude.Int.{ℤ, pos, ◌+ℤ◌, +ℤ_assoc, +ℤ_comm, zero-+ℤ, wrap64}
use ex_rocket.Prelude.Int.Wrap.{wrap64-IsI64, wrap64_add_left, wrap64_add_right}
use ex_rocket.Text.Utf8.{Bytes}
use ex_rocket.Text.Number.{to_string}
use ex_rocket.Merge.Counter.{parse_counter, or_zero, initial, counter_merge}
use ex_rocket.Merge.Counter.Sum.{
  total, total-append, counter_merge-total, parse_counter-to_string, initial-some, initial-none,
}

merge_eq :
    (key : Bytes) (e e' : Option Bytes) (xs ys : List Bytes)
    → wrap64 (initial e +ℤ total xs) ≡ wrap64 (initial e' +ℤ total ys)
    → counter_merge key e xs ≡ counter_merge key e' ys
merge_eq key e e' xs ys h =
    counter_merge-total key e xs
    ∙ ap (λ (z : ℤ). some (to_string z)) h
    ∙ sym (counter_merge-total key e' ys)

-- The number that a merged value is read as.
stored_value :
    (key v : Bytes) (e : Option Bytes) (xs : List Bytes)
    → counter_merge key e xs ≡ some v
    → or_zero (parse_counter v) ≡ wrap64 (initial e +ℤ total xs)
stored_value key v e xs h =
    let sum = initial e +ℤ total xs in
    let text : v ≡ to_string (wrap64 sum) = cc (counter_merge-total key e xs) in
    ap (λ (b : Bytes). or_zero (parse_counter b)) text
    ∙ ap or_zero (parse_counter-to_string (wrap64 sum) (wrap64-IsI64 sum))

-- Merging in two rounds, the second on the stored result of the first, is merging in one.
pub counter_merge-append :
    (key v : Bytes) (e : Option Bytes) (xs ys : List Bytes)
    → counter_merge key e xs ≡ some v
    → counter_merge key (some v) ys ≡ counter_merge key e (xs ++ ys)
counter_merge-append key v e xs ys h = merge_eq key (some v) e ys (xs ++ ys) (
    rw (initial-some v, stored_value key v e xs h, total-append xs ys)
      (wrap64_add_left (initial e +ℤ total xs) (total ys)
        ∙ ap wrap64 (+ℤ_assoc (initial e) (total xs) (total ys))))

add_left_congr : (a t u : ℤ) → wrap64 t ≡ wrap64 u → wrap64 (a +ℤ t) ≡ wrap64 (a +ℤ u)
add_left_congr a t u h =
    sym (wrap64_add_right a t) ∙ ap (λ (z : ℤ). wrap64 (a +ℤ z)) h ∙ wrap64_add_right a u

run_value :
    (key v : Bytes) (xs : List Bytes)
    → counter_merge key none xs ≡ some v
    → or_zero (parse_counter v) ≡ wrap64 (total xs)
run_value key v xs h =
    stored_value key v none xs h ∙ rw initial-none (ap wrap64 (zero-+ℤ (total xs)))

-- A run `xs` of operands that was merged with no base value stands for its operands, wherever it is
-- in the list of operands.
pub counter_merge-partial :
    (key v : Bytes) (e : Option Bytes) (before xs after : List Bytes)
    → counter_merge key none xs ≡ some v
    → counter_merge key e (before ++ v ∷ after) ≡ counter_merge key e (before ++ (xs ++ after))
counter_merge-partial key v e before xs after h =
    let run : wrap64 (total (v ∷ after)) ≡ wrap64 (total (xs ++ after)) =
      rw (run_value key v xs h, total-append xs after) (wrap64_add_left (total xs) (total after)) in
    merge_eq key e e (before ++ v ∷ after) (before ++ (xs ++ after)) (
      rw (total-append before (v ∷ after), total-append before (xs ++ after))
        (add_left_congr (initial e) _ _ (add_left_congr (total before) _ _ run)))

total-foldr :
    (xs : List Bytes) → total xs ≡ foldr (λ x n. or_zero (parse_counter x) +ℤ n) (pos 0) xs
total-foldr [] = refl
total-foldr (x ∷ xs) = ap (◌+ℤ◌ (or_zero (parse_counter x))) (total-foldr xs)

ℤ-set : IsSet ℤ
ℤ-set = hlevel

add_left_comm : (a b c : ℤ) → a +ℤ (b +ℤ c) ≡ b +ℤ (a +ℤ c)
add_left_comm a b c = sym (+ℤ_assoc a b c) ∙ ap (λ (z : ℤ). z +ℤ c) (+ℤ_comm a b) ∙ +ℤ_assoc b a c

total-perm : {xs ys : List Bytes} → Perm xs ys → total xs ≡ total ys
total-perm {xs} {ys} p =
    total-foldr xs
    ∙ Perm.foldr-eq ℤ-set (λ x n. or_zero (parse_counter x) +ℤ n)
        (λ x y n. add_left_comm (or_zero (parse_counter x)) (or_zero (parse_counter y)) n) p (pos 0)
    ∙ sym (total-foldr ys)

-- The order in which the operands of a counter arrive does not matter.
pub counter_merge-perm :
    (key : Bytes) (e : Option Bytes) {xs ys : List Bytes}
    → Perm xs ys
    → counter_merge key e xs ≡ counter_merge key e ys
counter_merge-perm key e {xs} {ys} p =
    merge_eq key e e xs ys (ap (λ (z : ℤ). wrap64 (initial e +ℤ z)) (total-perm p))
