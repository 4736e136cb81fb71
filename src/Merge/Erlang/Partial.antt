-- ===== src/Merge/Erlang/Partial.antt =====
-- `erlang_merge` on a run of operands without a base value, whose result is an operand in turn.
-- options.rs registers it for such merges too.
use ex_rocket.Prelude.{◌≡◌, sym, ap, ◌∙◌, Option, none, some, List, [], ◌∷◌}
use ex_rocket.Text.Utf8.{Bytes}
use ex_rocket.Merge.Outcome.{Outcome, returns, panics, ◌>>=◌}
use ex_rocket.Merge.Term.{EetfTerm, Eetf}
use ex_rocket.Merge.Operation.Dispatch.{process_eetf_merge_operation}
use ex_rocket.Merge.Operation.Results.{MakesPlain, nothing-plain, process-plain, plain_ignored}
use ex_rocket.Merge.Erlang.{decode_existing, erlang_merge}
use ex_rocket.Merge.Erlang.Rounds.{Decodes, run_terms, erlang_merge-terms}

module _ {O : Type 0} (crate : Eetf O) where
  rest-plain :
      (o : Outcome (Option (EetfTerm O))) (f : Option (EetfTerm O) → Outcome (Option (EetfTerm O)))
      → MakesPlain o
      → ((current : Option (EetfTerm O)) → MakesPlain (returns current) → MakesPlain (f current))
      → MakesPlain (o >>= f)
  rest-plain (returns current) f h k = k current h
  rest-plain panics f h k = h

  -- Operations keep a plain value plain, and make one where there is none.
  run_terms-plain :
      (current : Option (EetfTerm O)) (ts : List (EetfTerm O))
      → MakesPlain (returns current)
      → MakesPlain (run_terms crate current ts)
  run_terms-plain current [] h = h
  run_terms-plain current (t ∷ ts) h =
      rest-plain (process_eetf_merge_operation crate.eq current t) _
        (process-plain crate.eq current t h) (λ next k. run_terms-plain next ts k)

  -- A run of operands that are terms is merged with no base value, and its result `v`, which the crate
  -- decodes to the term it encoded, is stored as one operand in their place. If other operands that are
  -- terms follow, and merging them makes a term that can be encoded, then merging with `v` in front of
  -- them stores what merging without it does: all updates of the run are lost.
  pub erlang_merge-partial_lost :
      (key : Bytes) (e : Option Bytes) (x y v buffer : Bytes) (xs ys : List Bytes)
      (t u middle result : EetfTerm O) (ts us : List (EetfTerm O))
      → Decodes crate (x ∷ xs) (t ∷ ts)
      → Decodes crate (y ∷ ys) (u ∷ us)
      → run_terms crate none (t ∷ ts) ≡ returns (some middle)
      → crate.encode middle ≡ some v
      → crate.decode v ≡ some middle
      → run_terms crate (decode_existing crate e) (u ∷ us) ≡ returns (some result)
      → crate.encode result ≡ some buffer
      → (erlang_merge crate key none (x ∷ xs) ≡ returns (some v))
        × (erlang_merge crate key e (v ∷ y ∷ ys) ≡ erlang_merge crate key e (y ∷ ys))
  erlang_merge-partial_lost key e x y v buffer xs ys t u middle result ts us hx hy r1 enc dec r2
        enc' =
      let plain = (run_terms-plain none (t ∷ ts) nothing-plain).at middle r1 in
      let ignored = plain_ignored crate.eq middle (decode_existing crate e) plain in
      let whole : run_terms crate (decode_existing crate e) (middle ∷ u ∷ us)
          ≡ returns (some result) =
        ap (λ (o : Outcome (Option (EetfTerm O))). o >>= λ next. run_terms crate next (u ∷ us))
          ignored
        ∙ r2 in
      (
        erlang_merge-terms crate key none x xs t ts middle v hx r1 enc,
        erlang_merge-terms crate key e v (y ∷ ys) middle (u ∷ us) result buffer (dec, hy) whole enc'
            ∙ sym (erlang_merge-terms crate key e y ys u us result buffer hy r2 enc'),
      )
