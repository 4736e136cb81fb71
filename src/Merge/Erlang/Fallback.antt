-- ===== src/Merge/Erlang/Fallback.antt =====
-- `erlang_merge` on operands that are no terms.
use ex_rocket.Prelude.{◌≡◌, refl, ap, false, Option, none, List, [], ◌∷◌, All}
use ex_rocket.Text.Utf8.{Bytes}
use ex_rocket.Merge.Outcome.{Outcome, returns, ◌>>=◌}
use ex_rocket.Merge.Counter.{counter_merge}
use ex_rocket.Merge.Term.{Eetf}
use ex_rocket.Merge.Erlang.{
  Progress, decode_existing, process_operands, or_fallback, encoded, erlang_merge,
}

module _ {O : Type 0} (crate : Eetf O) where
  no_term_skipped :
      (progress : Progress O) (ops : List Bytes)
      → All (λ op. crate.decode op ≡ none) ops
      → process_operands crate progress ops ≡ returns progress
  unfolding process_operands
  no_term_skipped progress [] h = refl
  no_term_skipped progress (op ∷ ops) h = rw h.0 (no_term_skipped progress ops h.1)

  -- If no operand is a term, the merge returns what `counter_merge` makes of the same values,
  -- whether or not the existing value is a term.
  pub erlang_merge-counter :
      (key : Bytes) (e : Option Bytes) (ops : List Bytes)
      → All (λ op. crate.decode op ≡ none) ops
      → erlang_merge crate key e ops ≡ returns (counter_merge key e ops)
  unfolding erlang_merge counter_merge
  erlang_merge-counter key e ops h =
      let start : Progress O = record { current = decode_existing crate e; is_etf = false } in
      ap
        (λ (r : Outcome (Progress O)).
          r >>= λ p. returns (or_fallback crate (encoded crate p) e ops))
        (no_term_skipped start ops h)
