-- ===== src/Nif/Take/Bounds.antt =====
-- The payload of a page of `iterator_take`, and its first row.
use ex_rocket.Prelude.{
  ℕ, zero, suc, ◌+◌, ◌-◌, ◌^◌, ◌≤◌, ◌<◌, ◌≡◌, refl, Bool, true, false, ◌&&◌, not, none, some, List,
  [], ◌∷◌, ◌++◌, length, ◌⊎◌, inl, inr, leb, arith, Option, if◌then◌else◌, String,
}
use ex_rocket.Prelude.Result.{Result, ok, err}
use ex_rocket.Options.Iterator.{IteratorTakeOptions}
use ex_rocket.Nif.Take.{
  Entry, Source, Status, more, end_of_iterator, Page, page, failed, IteratorState, pull, exceeds,
  reaches, is_empty, payload_after, round, take_rows, iterator_take,
}

-- The bytes of the keys and the values.
unfoldable pub payload_of : List Entry → ℕ
payload_of [] = 0
payload_of ((key, value) ∷ rows) = length key + length value + payload_of rows

payload_of-snoc :
    (rows : List Entry) (row : Entry)
    → payload_of (rows ++ (row ∷ [])) ≡ payload_of rows + (length row.0 + length row.1)
unfolding payload_of
payload_of-snoc [] (key, value) = omega arith
payload_of-snoc ((k, v) ∷ rows) row = let rest = payload_of-snoc rows row in omega (arith, rest)

payload_of-one : (row : Entry) → payload_of (row ∷ []) ≡ length row.0 + length row.1
unfolding payload_of
payload_of-one (key, value) = omega arith

-- A page of one row, or with a payload of at most `max_bytes`.
pub data Fits (max_bytes : ℕ) : Page → Type 0 where
  single :
      {rows : List Entry} {status : Status} → length rows ≤ 1 → Fits max_bytes (page rows status)
  within :
      {rows : List Entry} {status : Status}
      → payload_of rows ≤ max_bytes
      → Fits max_bytes (page rows status)
  no_page : {reason : String} → Fits max_bytes (failed reason)

module _ (source : Source) (max_bytes : ℕ) (small : max_bytes < 2 ^ 64 - 1) where
  -- What the loop keeps: `payload` is the payload of `rows`, within the limit.
  abbrev Counts : List Entry → ℕ → Type 0
  Counts rows payload = (payload ≡ payload_of rows) × (payload_of rows ≤ max_bytes)

  Fits-if :
      (b : Bool) (x y : Page × IteratorState source)
      → (b ≡ true → Fits max_bytes x.0)
      → (b ≡ false → Fits max_bytes y.0)
      → Fits max_bytes (if b then x else y).0
  Fits-if true x y hx hy = hx refl
  Fits-if false x y hx hy = hy refl

  payload_after-exact :
      (payload : ℕ) (row : Entry)
      → payload_after payload row ≤ max_bytes
      → payload_after payload row ≡ payload + (length row.0 + length row.1)
  payload_after-exact payload (key, value) h = ground (arith, small)

  kept :
      (rows : List Entry) (payload : ℕ) (row : Entry)
      → Counts rows payload
      → (not (is_empty rows) && exceeds (some max_bytes) (payload_after payload row)) ≡ false
      → Fits max_bytes (page (rows ++ (row ∷ [])) more)
  kept [] payload row (e, h) _ = single (omega arith)
  kept (r ∷ rows) payload row (e, h) below =
      let limit : payload_after payload row ≤ max_bytes = ground arith in
      let exact = payload_after-exact payload row limit in
      let snoc = payload_of-snoc (r ∷ rows) row in within (omega (arith, limit, exact, snoc))

  counted :
      (rows : List Entry) (payload : ℕ) (row : Entry)
      → Counts rows payload
      → reaches (some max_bytes) (payload_after payload row) ≡ false
      → Counts (rows ++ (row ∷ [])) (payload_after payload row)
  counted rows payload row (e, h) below =
      let limit : payload_after payload row ≤ max_bytes = ground arith in
      let exact = payload_after-exact payload row limit in
      let snoc = payload_of-snoc rows row in
      (omega (arith, exact, snoc), omega (arith, limit, exact, snoc))

  round-Fits :
      (again : List Entry → ℕ → IteratorState source → Page × IteratorState source)
      (rows : List Entry) (payload : ℕ)
      (pulled : Option (Result String Entry) × IteratorState source)
      → ((rows' : List Entry) (payload' : ℕ) (state : IteratorState source)
          → Counts rows' payload'
          → Fits max_bytes (again rows' payload' state).0)
      → Counts rows payload
      → Fits max_bytes (round source again (some max_bytes) rows payload pulled).0
  round-Fits again rows payload (none, rest) next (e, h) = within h
  round-Fits again rows payload (some (err reason), rest) next (e, h) = no_page
  round-Fits again rows payload (some (ok row), rest) next counts =
      let payload' = payload_after payload row in
      Fits-if (not (is_empty rows) && exceeds (some max_bytes) payload') _ _
        (λ _. within (counts.1))
        (λ first.
          Fits-if (reaches (some max_bytes) payload') _ _ (λ _. kept rows payload row counts first)
            (λ below.
              next (rows ++ (row ∷ [])) payload' rest (counted rows payload row counts below)))

  take_rows-Fits :
      (remaining : ℕ) (rows : List Entry) (payload : ℕ) (state : IteratorState source)
      → Counts rows payload
      → Fits max_bytes (take_rows source remaining (some max_bytes) rows payload state).0
  unfolding take_rows
  take_rows-Fits zero rows payload state (e, h) = within h
  take_rows-Fits (suc remaining) rows payload state counts =
      round-Fits (take_rows source remaining (some max_bytes)) rows payload (pull source state)
        (take_rows-Fits remaining) counts

pub iterator_take-within :
    (source : Source) (options : IteratorTakeOptions) (max_bytes : ℕ) (state : IteratorState source)
    → options.max_bytes ≡ some max_bytes
    → max_bytes < 2 ^ 64 - 1
    → Fits max_bytes (iterator_take source options state).0
unfolding iterator_take payload_of
iterator_take-within source options max_bytes state e small =
    rw e (take_rows-Fits source max_bytes small options.max_entries [] 0 state (refl, omega arith))

-- What a call returns whose first row is as large as the limit or larger: that row and no other, with
-- nothing pending. A failure or an end in place of a first row is returned as it is.
abbrev pub ReturnsLarge :
    (source : Source)
    → ℕ
    → Option (Result String Entry) × IteratorState source
    → Page × IteratorState source
    → Type 0
ReturnsLarge source max_bytes (some (ok row), rest) outcome =
    (length row.0 + length row.1 < max_bytes) ⊎ (outcome ≡ (page (row ∷ []) more, rest))
ReturnsLarge source max_bytes (some (err reason), rest) outcome = outcome ≡ (failed reason, rest)
ReturnsLarge source max_bytes (none, rest) outcome = outcome ≡ (page [] end_of_iterator, rest)

payload_after-large :
    (max_bytes : ℕ) (row : Entry)
    → max_bytes < 2 ^ 64 - 1
    → max_bytes ≤ length row.0 + length row.1
    → max_bytes ≤ payload_after 0 row
payload_after-large max_bytes (key, value) small large = ground (arith, small, large)

module _ (source : Source) (max_bytes : ℕ) (small : max_bytes < 2 ^ 64 - 1) where
  reaches_if :
      (payload : ℕ) (x y : Page × IteratorState source)
      → max_bytes ≤ payload
      → (if reaches (some max_bytes) payload then x else y) ≡ x
  reaches_if payload x y h = ground (arith, h)

  round-Large :
      (again : List Entry → ℕ → IteratorState source → Page × IteratorState source)
      (pulled : Option (Result String Entry) × IteratorState source)
      → ReturnsLarge source max_bytes pulled (round source again (some max_bytes) [] 0 pulled)
  round-Large again (none, rest) = refl
  round-Large again (some (err reason), rest) = refl
  round-Large again (some (ok row), rest) = on (leb max_bytes (length row.0 + length row.1)) refl
    where
      on :
          (large : Bool)
          → leb max_bytes (length row.0 + length row.1) ≡ large
          → ReturnsLarge source max_bytes
              (some (ok row), rest)
              (round source again (some max_bytes) [] 0 (some (ok row), rest))
      on true e =
          let large : max_bytes ≤ length row.0 + length row.1 = ground (arith, e) in
          inr (reaches_if (payload_after 0 row) _ _ (payload_after-large max_bytes row small large))
      on false e = inl (ground (arith, e))

  pub take_rows-Large :
      (entries : ℕ) (state : IteratorState source)
      → 0 < entries
      → ReturnsLarge source max_bytes
          (pull source state)
          (take_rows source entries (some max_bytes) [] 0 state)
  unfolding take_rows
  take_rows-Large zero state h = absurd (omega (arith, h))
  take_rows-Large (suc remaining) state h =
      round-Large (take_rows source remaining (some max_bytes)) (pull source state)
