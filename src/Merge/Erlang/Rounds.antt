-- ===== src/Merge/Erlang/Rounds.antt =====
-- `erlang_merge` on operands that are terms, in one round and in two.
use ex_rocket.Prelude.{
  ◌≡◌, refl, ap, sym, ◌∙◌, Bool, true, false, Option, some, List, [], ◌∷◌, ◌++◌, arith,
}
use ex_rocket.Text.Utf8.{Bytes}
use ex_rocket.Merge.Outcome.{Outcome, returns, panics, ◌>>=◌}
use ex_rocket.Merge.Term.{EetfTerm, Eetf}
use ex_rocket.Merge.Operation.Dispatch.{process_eetf_merge_operation}
use ex_rocket.Merge.Erlang.{
  Progress, decode_existing, process_operands, or_fallback, encoded, erlang_merge,
}

module _ {O : Type 0} (crate : Eetf O) where
  -- The operands are the terms `ts`.
  abbrev pub Decodes : List Bytes → List (EetfTerm O) → Type 0
  Decodes [] [] = Unit
  Decodes (op ∷ ops) (t ∷ ts) = (crate.decode op ≡ some t) × Decodes ops ts
  Decodes _ _ = ⊥

  -- The operations, one after the other.
  abbrev pub run_terms : Option (EetfTerm O) → List (EetfTerm O) → Outcome (Option (EetfTerm O))
  run_terms current [] = returns current
  run_terms current (t ∷ ts) =
      process_eetf_merge_operation crate.eq current t >>= λ next. run_terms next ts

  abbrev as_progress : Bool → Outcome (Option (EetfTerm O)) → Outcome (Progress O)
  as_progress is_etf (returns current) = returns (record { current = current; is_etf = is_etf })
  as_progress is_etf panics = panics

  step_terms :
      (o : Outcome (Option (EetfTerm O))) (ops : List Bytes) (ts : List (EetfTerm O))
      → ((c : Option (EetfTerm O))
          → process_operands crate (record { current = c; is_etf = true }) ops
            ≡ as_progress true (run_terms c ts))
      → (o >>= (λ c. returns (record { current = c; is_etf = true })) >>= λ next.
          process_operands crate next ops)
        ≡ as_progress true (o >>= λ next. run_terms next ts)
  step_terms (returns c) ops ts f = f c
  step_terms panics ops ts f = refl

  process_operands-terms :
      (progress : Progress O) (ops : List Bytes) (ts : List (EetfTerm O))
      → progress.is_etf ≡ true
      → Decodes ops ts
      → process_operands crate progress ops ≡ as_progress true (run_terms progress.current ts)
  unfolding process_operands
  process_operands-terms progress [] [] e h = ground arith
  process_operands-terms progress (op ∷ ops) [] e h = absurd h
  process_operands-terms progress [] (t ∷ ts) e h = absurd h
  process_operands-terms progress (op ∷ ops) (t ∷ ts) e h = rw h.0 (
      step_terms (process_eetf_merge_operation crate.eq progress.current t) ops ts
        (λ c. process_operands-terms (record { current = c; is_etf = true }) ops ts refl h.1))

  process_operands-first :
      (progress : Progress O) (op : Bytes) (ops : List Bytes) (t : EetfTerm O)
      (ts : List (EetfTerm O))
      → Decodes (op ∷ ops) (t ∷ ts)
      → process_operands crate progress (op ∷ ops)
        ≡ as_progress true (run_terms progress.current (t ∷ ts))
  unfolding process_operands
  process_operands-first progress op ops t ts h = rw h.0 (
      step_terms (process_eetf_merge_operation crate.eq progress.current t) ops ts
        (λ c. process_operands-terms (record { current = c; is_etf = true }) ops ts refl h.1))

  -- Operands that are terms are performed in order on the term that the existing value encodes, and
  -- the encoding of the result is stored.
  pub erlang_merge-terms :
      (key : Bytes) (e : Option Bytes) (op : Bytes) (ops : List Bytes) (t : EetfTerm O)
      (ts : List (EetfTerm O)) (result : EetfTerm O) (buffer : Bytes)
      → Decodes (op ∷ ops) (t ∷ ts)
      → run_terms (decode_existing crate e) (t ∷ ts) ≡ returns (some result)
      → crate.encode result ≡ some buffer
      → erlang_merge crate key e (op ∷ ops) ≡ returns (some buffer)
  unfolding erlang_merge
  erlang_merge-terms key e op ops t ts result buffer h run enc =
      let start : Progress O = record { current = decode_existing crate e; is_etf = false } in
      let done : process_operands crate start (op ∷ ops)
          ≡ returns (record { current = some result; is_etf = true }) =
        process_operands-first start op ops t ts h ∙ ap (as_progress true) run in
      ap
        (λ (r : Outcome (Progress O)).
          r >>= λ p. returns (or_fallback crate (encoded crate p) e (op ∷ ops)))
        done
      ∙ ap (λ (b : Option Bytes). returns (or_fallback crate b e (op ∷ ops))) enc

  run_terms-append :
      (current : Option (EetfTerm O)) (ts us : List (EetfTerm O))
      → run_terms current (ts ++ us) ≡ (run_terms current ts >>= λ next. run_terms next us)
  run_terms-append current [] us = refl
  run_terms-append current (t ∷ ts) us =
      rest (process_eetf_merge_operation crate.eq current t) (λ c. run_terms-append c ts us)
    where
      rest :
          (o : Outcome (Option (EetfTerm O)))
          → ((c : Option (EetfTerm O))
              → run_terms c (ts ++ us) ≡ (run_terms c ts >>= λ next. run_terms next us))
          → (o >>= λ c. run_terms c (ts ++ us))
            ≡ (o >>= (λ c. run_terms c ts) >>= λ next. run_terms next us)
      rest (returns c) f = f c
      rest panics f = refl

  Decodes-append :
      (xs ys : List Bytes) (ts us : List (EetfTerm O))
      → Decodes xs ts
      → Decodes ys us
      → Decodes (xs ++ ys) (ts ++ us)
  Decodes-append [] ys [] us h k = k
  Decodes-append [] ys (t ∷ ts) us h k = absurd h
  Decodes-append (x ∷ xs) ys [] us h k = absurd h
  Decodes-append (x ∷ xs) ys (t ∷ ts) us h k = (h.0, Decodes-append xs ys ts us h.1 k)

  -- Merging terms in two rounds, the second on the stored result of the first, stores what merging
  -- them in one round does, if the crate decodes what it encoded.
  pub erlang_merge-append :
      (key : Bytes) (e : Option Bytes) (x y v buffer : Bytes) (xs ys : List Bytes)
      (t u middle result : EetfTerm O) (ts us : List (EetfTerm O))
      → Decodes (x ∷ xs) (t ∷ ts)
      → Decodes (y ∷ ys) (u ∷ us)
      → run_terms (decode_existing crate e) (t ∷ ts) ≡ returns (some middle)
      → crate.encode middle ≡ some v
      → crate.decode v ≡ some middle
      → run_terms (some middle) (u ∷ us) ≡ returns (some result)
      → crate.encode result ≡ some buffer
      → erlang_merge crate key (some v) (y ∷ ys) ≡ erlang_merge crate key e ((x ∷ xs) ++ (y ∷ ys))
  erlang_merge-append key e x y v buffer xs ys t u middle result ts us hx hy r1 enc dec r2 enc' =
      let second : run_terms (crate.decode v) (u ∷ us) ≡ returns (some result) =
        ap (λ (c : Option (EetfTerm O)). run_terms c (u ∷ us)) dec ∙ r2 in
      let whole : run_terms (decode_existing crate e) ((t ∷ ts) ++ (u ∷ us))
          ≡ returns (some result) =
        run_terms-append (decode_existing crate e) (t ∷ ts) (u ∷ us)
        ∙ ap (λ (r : Outcome (Option (EetfTerm O))). r >>= λ c. run_terms c (u ∷ us)) r1
        ∙ r2 in
      erlang_merge-terms key (some v) y ys u us result buffer hy second enc'
      ∙ sym (
          erlang_merge-terms key e x (xs ++ (y ∷ ys)) t (ts ++ (u ∷ us)) result buffer
            (Decodes-append (x ∷ xs) (y ∷ ys) (t ∷ ts) (u ∷ us) hx hy) whole enc')
