-- ===== src/Nif/Take/Handler/Limits.antt =====
-- The size of a page against the limits of the module.
use ex_rocket.Prelude.{
  ℕ, zero, suc, ◌+◌, ◌≤◌, ◌≡◌, refl, Bool, true, false, ◌&&◌, not, Option, none, some, List, [],
  ◌∷◌, ◌++◌, String, length, length-append, arith, if◌then◌else◌,
}
use ex_rocket.Prelude.Result.{Result, ok, err}
use ex_rocket.Options.Rustler.{Rustler}
use ex_rocket.Options.Iterator.{IteratorTakeOptions, max_entries_limit, max_bytes_limit, decode}
use ex_rocket.Options.Iterator.Bounds.{InRange, decode-InRange}
use ex_rocket.Nif.Take.{
  Entry, Page, page, failed, Status, Source, IteratorState, exceeds, reaches, is_empty,
  payload_after, pull, round, take_rows, iterator_take,
}
use ex_rocket.Nif.Take.Bounds.{Fits, iterator_take-within}
use ex_rocket.Nif.Take.Handler.{paged, take}

-- A page of at most `limit` rows.
pub data Short (limit : ℕ) : Page → Type 0 where
  short :
      {rows : List Entry} {status : Status} → length rows ≤ limit → Short limit (page rows status)
  no_page : {reason : String} → Short limit (failed reason)

-- A page within the limit of bytes, if there is one.
abbrev pub FitsIn : Option ℕ → Page → Type 0
FitsIn none p = Unit
FitsIn (some max_bytes) p = Fits max_bytes p

module _ (source : Source) (limit : ℕ) where
  Short-if :
      (b : Bool) (x y : Page × IteratorState source)
      → Short limit x.0
      → Short limit y.0
      → Short limit (if b then x else y).0
  Short-if true x y hx hy = hx
  Short-if false x y hx hy = hy

  round-Short :
      (again : List Entry → ℕ → IteratorState source → Page × IteratorState source)
      (max_bytes : Option ℕ) (rows : List Entry) (payload : ℕ)
      (pulled : Option (Result String Entry) × IteratorState source)
      → ((rows' : List Entry) (payload' : ℕ) (state : IteratorState source)
          → length rows' ≡ suc (length rows)
          → Short limit (again rows' payload' state).0)
      → suc (length rows) ≤ limit
      → Short limit (round source again max_bytes rows payload pulled).0
  round-Short again max_bytes rows payload (none, rest) next room = short (omega (arith, room))
  round-Short again max_bytes rows payload (some (err reason), rest) next room = no_page
  round-Short again max_bytes rows payload (some (ok row), rest) next room =
      let payload' = payload_after payload row in
      let one_more : length (rows ++ (row ∷ [])) ≡ suc (length rows) =
        omega (arith, length-append rows (row ∷ [])) in
      Short-if (not (is_empty rows) && exceeds max_bytes payload') _ _ (short (omega (arith, room)))
        (Short-if (reaches max_bytes payload') _ _ (short (omega (arith, room, one_more)))
          (next (rows ++ (row ∷ [])) payload' rest one_more))

  take_rows-Short :
      (remaining : ℕ) (max_bytes : Option ℕ) (rows : List Entry) (payload : ℕ)
      (state : IteratorState source)
      → length rows + remaining ≤ limit
      → Short limit (take_rows source remaining max_bytes rows payload state).0
  unfolding take_rows
  take_rows-Short zero max_bytes rows payload state room = short (omega (arith, room))
  take_rows-Short (suc remaining) max_bytes rows payload state room =
      round-Short (take_rows source remaining max_bytes) max_bytes rows payload (pull source state)
        (λ rows' payload' state' one_more.
          take_rows-Short remaining max_bytes rows' payload' state' (omega (arith, room, one_more)))
        (omega (arith, room))

iterator_take-FitsIn :
    (source : Source) (options : IteratorTakeOptions) (max_bytes : Option ℕ)
    (state : IteratorState source)
    → options.max_bytes ≡ max_bytes
    → InRange max_bytes_limit max_bytes
    → FitsIn max_bytes (iterator_take source options state).0
iterator_take-FitsIn source options none state e range = tt
iterator_take-FitsIn source options (some max_bytes) state e (_, range) =
    iterator_take-within source options max_bytes state e (omega (arith, range))

-- With options that decode, `iterator_take` answers with a page of at most `max_entries` rows, and so
-- at most MAX_ENTRIES, or the reason of a failure; and with a limit of bytes, which is at most
-- MAX_BYTES, the page is within it or a single row.
pub take-Short :
    (r : Rustler) (source : Source) (term : r.Term) (options : IteratorTakeOptions)
    (state : IteratorState source)
    → decode r term ≡ ok options
    → (p : Page) × (state' : IteratorState source) × (take r source term state ≡ (paged p, state'))
      × Short options.max_entries p
      × (options.max_entries ≤ max_entries_limit)
      × FitsIn options.max_bytes p
      × InRange max_bytes_limit options.max_bytes
unfolding take iterator_take
take-Short r source term options state d =
    let (some_rows, most, bytes) = decode-InRange r term options d in
    let result = iterator_take source options state in
    (
      result.0,
      result.1,
      rw d refl,
      take_rows-Short source options.max_entries options.max_entries options.max_bytes [] 0 state
          (omega arith),
      most,
      iterator_take-FitsIn source options options.max_bytes state refl bytes,
      bytes,
    )
