-- ===== src/Merge/Counter/Sum.antt =====
-- `counter_merge` against the sum of the numbers that its inputs spell.
use ex_rocket.Prelude.{
  ◌≡◌, refl, ap, sym, ◌∙◌, ◌≡⟨◌⟩◌, ◌∎, Option, none, some, List, [], ◌∷◌, ◌++◌, arith,
}
use ex_rocket.Prelude.Int.{ℤ, pos, ◌+ℤ◌, +ℤ_assoc, +ℤ-zero, zero-+ℤ, IsI64, wrap64}
use ex_rocket.Prelude.Int.Wrap.{wrap64-IsI64, wrap64_id, wrap64_add_left}
use ex_rocket.Text.Utf8.{Bytes, Chars, from_utf8, from_utf8_ascii}
use ex_rocket.Text.Number.{to_string}
use ex_rocket.Text.Number.RoundTrip.{parse_i64-to_string, parse_i64-IsI64, to_string-IsAscii}
use ex_rocket.Merge.Counter.{
  parse_text, parse_counter, or_zero, initial, add_operand, add_operands, counter_merge,
}

-- The sum of the readable operands, with no bound.
abbrev pub total : List Bytes → ℤ
total [] = pos 0
total (op ∷ ops) = or_zero (parse_counter op) +ℤ total ops

add_operand-or_zero : (r : ℤ) (o : Option ℤ) → IsI64 r → add_operand r o ≡ wrap64 (r +ℤ or_zero o)
add_operand-or_zero r none h = sym (ap wrap64 (+ℤ-zero r) ∙ wrap64_id r h)
add_operand-or_zero r (some n) h = refl

add_operands-total :
    (r : ℤ) (ops : List Bytes) → IsI64 r → add_operands r ops ≡ wrap64 (r +ℤ total ops)
unfolding add_operands
add_operands-total r [] h = sym (ap wrap64 (+ℤ-zero r) ∙ wrap64_id r h)
add_operands-total r (op ∷ ops) h =
    let n = or_zero (parse_counter op) in
    add_operands (add_operand r (parse_counter op)) ops
    ≡⟨ ap (λ (z : ℤ). add_operands z ops) (add_operand-or_zero r (parse_counter op) h) ⟩
      add_operands (wrap64 (r +ℤ n)) ops
    ≡⟨ add_operands-total (wrap64 (r +ℤ n)) ops (wrap64-IsI64 (r +ℤ n)) ⟩
      wrap64 (wrap64 (r +ℤ n) +ℤ total ops)
    ≡⟨ wrap64_add_left (r +ℤ n) (total ops) ⟩ wrap64 (r +ℤ n +ℤ total ops)
    ≡⟨ ap wrap64 (+ℤ_assoc r n (total ops)) ⟩ wrap64 (r +ℤ (n +ℤ total ops)) ∎

parse_counter-IsI64 : (v : Bytes) (z : ℤ) → parse_counter v ≡ some z → IsI64 z
unfolding parse_counter
parse_counter-IsI64 v z = text (from_utf8 v)
  where
    text : (o : Option Chars) → parse_text o ≡ some z → IsI64 z
    text none h = cc
    text (some cs) h = parse_i64-IsI64 cs z h

initial-IsI64 : (e : Option Bytes) → IsI64 (initial e)
unfolding initial
initial-IsI64 none = omega arith
initial-IsI64 (some v) = parsed (parse_counter v) refl
  where
    parsed : (o : Option ℤ) → parse_counter v ≡ o → IsI64 (or_zero o)
    parsed none h = omega arith
    parsed (some z) h = parse_counter-IsI64 v z h

-- The merged value is the text of the exact sum, wrapped to i64 once.
pub counter_merge-total :
    (key : Bytes) (e : Option Bytes) (ops : List Bytes)
    → counter_merge key e ops ≡ some (to_string (wrap64 (initial e +ℤ total ops)))
unfolding counter_merge
counter_merge-total key e ops =
    ap (λ (z : ℤ). some (to_string z)) (add_operands-total (initial e) ops (initial-IsI64 e))

pub total-append : (xs ys : List Bytes) → total (xs ++ ys) ≡ total xs +ℤ total ys
total-append [] ys = sym (zero-+ℤ (total ys))
total-append (x ∷ xs) ys =
    ap (◌+ℤ◌ (or_zero (parse_counter x))) (total-append xs ys)
    ∙ sym (+ℤ_assoc (or_zero (parse_counter x)) (total xs) (total ys))

-- What a merge stores is read back as the number that was merged.
pub parse_counter-to_string : (z : ℤ) → IsI64 z → parse_counter (to_string z) ≡ some z
unfolding parse_counter
parse_counter-to_string z h =
    rw (from_utf8_ascii (to_string z) (to_string-IsAscii z)) (parse_i64-to_string z h)

pub initial-none : initial none ≡ pos 0
unfolding initial
initial-none = refl

pub initial-some : (v : Bytes) → initial (some v) ≡ or_zero (parse_counter v)
unfolding initial
initial-some v = refl
