-- ===== src/Nif/Take.antt =====
-- `iterator_take` and `next` of native/rocker/src/nif.rs. RocksDB's iterator is the parameter
-- `source`. That a binary cannot be allocated is not modelled.
pub mod Content
pub mod Bounds
pub mod Pages
pub mod Handler
use ex_rocket.Prelude.{
  ℕ, zero, suc, ◌+◌, ◌-◌, ◌^◌, Bool, true, false, ◌&&◌, not, Option, none, some, List, [], ◌∷◌,
  ◌++◌, String, length, ltb, leb, if◌then◌else◌, min,
}
use ex_rocket.Prelude.Result.{Result, ok, err}
use ex_rocket.Text.Utf8.{Bytes}
use ex_rocket.Options.Iterator.{IteratorTakeOptions}

-- A key and its value.
abbrev pub Entry : Type 0
Entry = Bytes × Bytes

-- `DBIterator::next`: the next row or the reason why there is none, and `none` at the end.
pub record Source : Type 1 where
  pub Iter : Type 0
  pub next : Iter → Option (Result String Entry) × Iter

-- `usize::saturating_add`
abbrev pub saturating_add : ℕ → ℕ → ℕ
saturating_add a b = min (a + b) (2 ^ 64 - 1)

pub data Status : Type 0 where
  more end_of_iterator : Status

pub data Page : Type 0 where
  page : List Entry → Status → Page
  failed : String → Page

-- `options.max_bytes.is_some_and(|max_bytes| next_payload > max_bytes)`
abbrev pub exceeds : Option ℕ → ℕ → Bool
exceeds none payload = false
exceeds (some max_bytes) payload = ltb max_bytes payload

-- `options.max_bytes.is_some_and(|max_bytes| payload_bytes >= max_bytes)`
abbrev pub reaches : Option ℕ → ℕ → Bool
reaches none payload = false
reaches (some max_bytes) payload = leb max_bytes payload

abbrev pub is_empty : List Entry → Bool
is_empty [] = true
is_empty (row ∷ rows) = false

abbrev pub payload_after : ℕ → Entry → ℕ
payload_after payload (key, value) =
    saturating_add payload (saturating_add (length key) (length value))

module _ (source : Source) where
  open source use {Iter, next as source_next}

  pub record IteratorState : Type 0 where
    pub iter : Iter
    pub pending : Option Entry

  -- `match state.pending.take() { Some(item) => Some(Ok(item)), None => state.iter.next() }`
  abbrev pub pull_from : Option Entry → Iter → Option (Result String Entry) × IteratorState
  pull_from (some entry) iter = (some (ok entry), record { iter = iter; pending = none })
  pull_from none iter =
      let (item, iter') = source_next iter in (item, record { iter = iter'; pending = none })

  abbrev pub pull : IteratorState → Option (Result String Entry) × IteratorState
  pull state = pull_from state.pending state.iter

  -- One round of the loop on the item that was pulled; `again` is the next round.
  abbrev pub round :
      (List Entry → ℕ → IteratorState → Page × IteratorState)
      → Option ℕ
      → List Entry
      → ℕ
      → Option (Result String Entry) × IteratorState
      → Page × IteratorState
  round again max_bytes rows payload (none, rest) = (page rows end_of_iterator, rest)
  round again max_bytes rows payload (some (err reason), rest) = (failed reason, rest)
  round again max_bytes rows payload (some (ok entry), rest) =
      let next_payload = payload_after payload entry in
      if not (is_empty rows) && exceeds max_bytes next_payload
      then (page rows more, record rest { pending = some entry })
      else if reaches max_bytes next_payload
      then (page (rows ++ (entry ∷ [])) more, rest)
      else again (rows ++ (entry ∷ [])) next_payload rest

  -- The loop with `remaining` rows still allowed.
  unfoldable pub take_rows : ℕ → Option ℕ → List Entry → ℕ → IteratorState → Page × IteratorState
  take_rows zero max_bytes rows payload state = (page rows more, state)
  take_rows (suc remaining) max_bytes rows payload state =
      round (take_rows remaining max_bytes) max_bytes rows payload (pull state)

  unfoldable pub iterator_take : IteratorTakeOptions → IteratorState → Page × IteratorState
  unfolding take_rows
  iterator_take options state = take_rows options.max_entries options.max_bytes [] 0 state

  -- The row, the reason of a failure, or the end.
  unfoldable pub next : IteratorState → Option (Result String Entry) × IteratorState
  next state = pull state
