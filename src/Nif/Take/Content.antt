-- ===== src/Nif/Take/Content.antt =====
-- The rows that an iterator resource still holds, and what a call of `iterator_take` takes of them.
use ex_rocket.Prelude.{
  ℕ, zero, suc, ◌≤◌, ◌≡◌, refl, subst, sym, ap, ◌∙◌, Bool, true, false, ◌&&◌, not, Option, none,
  some, List, [], ◌∷◌, ◌++◌, append-nil, append_assoc, length, arith, if◌then◌else◌, String,
}
use ex_rocket.Prelude.Result.{Result, ok}
use ex_rocket.Options.Iterator.{IteratorTakeOptions}
use ex_rocket.Nif.Take.{
  Entry, Source, Status, more, end_of_iterator, Page, page, IteratorState, pull_from, exceeds,
  reaches, is_empty, payload_after, round, take_rows, iterator_take,
}

module _ (source : Source) where
  open source use {Iter, next as source_next}

  -- The rows that the iterator of RocksDB will return, with no failure, up to its end; at its end it
  -- stays.
  abbrev pub Produces : Iter → List Entry → Type 0
  Produces iter [] = source_next iter ≡ (none, iter)
  Produces iter (row ∷ rows) =
      (iter' : Iter) × (source_next iter ≡ (some (ok row), iter')) × Produces iter' rows

  abbrev pub Pends : Option Entry → Iter → List Entry → Type 0
  Pends none iter rows = Produces iter rows
  Pends (some row) iter rows = (rest : List Entry) × (rows ≡ row ∷ rest) × Produces iter rest

  -- The rows that an iterator resource still holds, the pending row first.
  abbrev pub Content : IteratorState source → List Entry → Type 0
  Content state rows = Pends state.pending state.iter rows

  -- What a call returned: the rows `new` behind `rows`, and `left` is what the state still holds.
  pub record Taken (remaining : ℕ) (rows content : List Entry)
      (result : Page × IteratorState source) : Type 0 where
    pub new : List Entry
    pub left : List Entry
    pub status : Status
    pub returned : result.0 ≡ page (rows ++ new) status
    pub held : Content result.1 left
    pub parts : content ≡ new ++ left
    pub bounded : length new ≤ remaining
    pub at_end : status ≡ end_of_iterator → left ≡ []
    pub forward : 1 ≤ remaining → 1 ≤ length content → 1 ≤ length (rows ++ new)
    pub finishes : 1 ≤ remaining → length content ≡ 0 → status ≡ end_of_iterator

  pull_from-nil :
      (pending : Option Entry) (iter : Iter)
      → Pends pending iter []
      → pull_from source pending iter ≡ (none, record { iter = iter; pending = none })
  pull_from-nil none iter h =
      ap
        (λ (x : Option (Result String Entry) × Iter).
          let y : Option (Result String Entry) × IteratorState source =
            (x.0, record { iter = x.1; pending = none }) in
          y)
        h
  pull_from-nil (some e) iter (rest, eq, p) = cc

  pull_from-cons :
      (pending : Option Entry) (iter : Iter) (row : Entry) (rows : List Entry)
      → Pends pending iter (row ∷ rows)
      → (iter' : Iter) × (pull_from source pending iter
          ≡ (some (ok row), record { iter = iter'; pending = none }))
        × Produces iter' rows
  pull_from-cons none iter row rows (iter', e, p) = (
    iter',
    ap
        (λ (x : Option (Result String Entry) × Iter).
          let y : Option (Result String Entry) × IteratorState source =
            (x.0, record { iter = x.1; pending = none }) in
          y)
        e,
    p,
  )
  pull_from-cons (some e) iter row rows (rest, eq, p) =
      let tails : rest ≡ rows = cc in (iter, cc, subst (Produces iter) tails p)

  module _ (remaining : ℕ) (max_bytes : Option ℕ) (rows : List Entry) (payload : ℕ)
      (state rest : IteratorState source) where
    take_rows-end :
        pull_from source state.pending state.iter ≡ (none, rest)
        → take_rows source (suc remaining) max_bytes rows payload state
          ≡ (page rows end_of_iterator, rest)
    unfolding take_rows
    take_rows-end e =
        ap (round source (take_rows source remaining max_bytes) max_bytes rows payload) e

    -- One round that found a row.
    pub take_rows-row :
        (row : Entry)
        → pull_from source state.pending state.iter ≡ (some (ok row), rest)
        → take_rows source (suc remaining) max_bytes rows payload state ≡ (
            let payload' = payload_after payload row in
            if not (is_empty rows) && exceeds max_bytes payload'
            then (page rows more, record rest { pending = some row })
            else if reaches max_bytes payload'
            then (page (rows ++ (row ∷ [])) more, rest)
            else take_rows source remaining max_bytes (rows ++ (row ∷ [])) payload' rest)
    unfolding take_rows
    take_rows-row row e =
        ap (round source (take_rows source remaining max_bytes) max_bytes rows payload) e

  Taken-if :
      {n : ℕ} {rows content : List Entry} (b : Bool) (x y : Page × IteratorState source)
      → (b ≡ true → Taken n rows content x)
      → Taken n rows content y
      → Taken n rows content (if b then x else y)
  Taken-if true x y hx hy = hx refl
  Taken-if false x y hx hy = hy

  some_rows :
      (rows : List Entry) (b : Bool) → (not (is_empty rows) && b) ≡ true → 1 ≤ length (rows ++ [])
  some_rows [] b h = cc
  some_rows (row ∷ rows) b h = omega arith

  some_row : (row : Entry) (rows new : List Entry) → 1 ≤ length (rows ++ (row ∷ new))
  some_row row [] new = omega arith
  some_row row (x ∷ rows) new = omega arith

  module _ (n : ℕ) (rows content : List Entry) (row : Entry) (iter : Iter)
      (p : Produces iter content) where
    held_back_lem :
        1 ≤ length (rows ++ [])
        → Taken
            (suc n)
            rows
            (row ∷ content)
            (page rows more, record { iter = iter; pending = some row })
    held_back_lem behind = record {
      new = [];
      left = row ∷ content;
      status = more;
      returned = ap (λ (r : List Entry). page r more) (sym (append-nil rows));
      held = (content, refl, p);
      parts = refl;
      bounded = omega arith;
      at_end = λ e. cc;
      forward = λ _ _. behind;
      finishes = λ _ e. cc;
    }

    filled_lem :
        Taken
          (suc n)
          rows
          (row ∷ content)
          (page (rows ++ (row ∷ [])) more, record { iter = iter; pending = none })
    filled_lem = record {
      new = row ∷ [];
      left = content;
      status = more;
      returned = refl;
      held = p;
      parts = refl;
      bounded = omega arith;
      at_end = λ e. cc;
      forward = λ _ _. some_row row rows [];
      finishes = λ _ e. cc;
    }

  again_lem :
      (n : ℕ) (rows content : List Entry) (row : Entry) (result : Page × IteratorState source)
      → Taken n (rows ++ (row ∷ [])) content result
      → Taken (suc n) rows (row ∷ content) result
  again_lem n rows content row result t = record {
    new = row ∷ t.new;
    left = t.left;
    status = t.status;
    returned =
        t.returned ∙ ap (λ (r : List Entry). page r t.status) (append_assoc rows (row ∷ []) t.new);
    held = t.held;
    parts = ap (◌∷◌ row) t.parts;
    bounded = omega (arith, t.bounded);
    at_end = t.at_end;
    forward = λ _ _. some_row row rows t.new;
    finishes = λ _ e. cc;
  }

  -- At the end nothing is pending, and the iterator stays.
  Produces-nil : (pending : Option Entry) (iter : Iter) → Pends pending iter [] → Produces iter []
  Produces-nil none iter h = h
  Produces-nil (some e) iter (rest, eq, p) = cc

  pub take_rows-Taken :
      (remaining : ℕ) (max_bytes : Option ℕ) (rows : List Entry) (payload : ℕ)
      (state : IteratorState source) (content : List Entry)
      → Content state content
      → Taken remaining rows content (take_rows source remaining max_bytes rows payload state)
  unfolding take_rows
  take_rows-Taken zero max_bytes rows payload state content h = record {
    new = [];
    left = content;
    status = more;
    returned = ap (λ (r : List Entry). page r more) (sym (append-nil rows));
    held = h;
    parts = refl;
    bounded = omega arith;
    at_end = λ e. cc;
    forward = λ h _. omega arith;
    finishes = λ h _. absurd (omega arith);
  }
  take_rows-Taken (suc remaining) max_bytes rows payload state [] h =
      rw
        (take_rows-end remaining max_bytes rows payload state _
          (pull_from-nil state.pending state.iter h))
        (record {
          new = [];
          left = [];
          status = end_of_iterator;
          returned = ap (λ (r : List Entry). page r end_of_iterator) (sym (append-nil rows));
          held = Produces-nil state.pending state.iter h;
          parts = refl;
          bounded = omega arith;
          at_end = λ e. refl;
          forward = λ _ h. omega arith;
          finishes = λ _ _. refl;
        })
  take_rows-Taken (suc remaining) max_bytes rows payload state (row ∷ content) h =
      let (iter, e, p) = pull_from-cons state.pending state.iter row content h in
      let payload' = payload_after payload row in
      rw (take_rows-row remaining max_bytes rows payload state _ row e) (
        Taken-if (not (is_empty rows) && exceeds max_bytes payload') _ _
          (λ b. held_back_lem remaining rows content row iter p (some_rows rows _ b))
          (Taken-if (reaches max_bytes payload') _ _
            (λ _. filled_lem remaining rows content row iter p)
            (again_lem remaining rows content row _ (
              take_rows-Taken remaining max_bytes (rows ++ (row ∷ [])) payload'
                (record { iter = iter; pending = none }) content p))))

  -- On an iterator that returns its rows with no failure, a page holds rows from the front of the
  -- content, at most `max_entries` of them; the state still holds exactly the others, and the end is
  -- reported only when none is left.
  pub iterator_take-Taken :
      (options : IteratorTakeOptions) (state : IteratorState source) (content : List Entry)
      → Content state content
      → Taken options.max_entries [] content (iterator_take source options state)
  unfolding iterator_take
  iterator_take-Taken options state content h =
      take_rows-Taken options.max_entries options.max_bytes [] 0 state content h
