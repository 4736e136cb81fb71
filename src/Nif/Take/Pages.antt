-- ===== src/Nif/Take/Pages.antt =====
-- Repeated calls of `iterator_take`: the limit on a page's payload, and the rows of all pages.
use ex_rocket.Prelude.{
  ℕ, zero, suc, ◌-◌, ◌^◌, ◌≤◌, ◌<◌, ◌≡◌, ◌≢◌, refl, sym, ap, ◌∙◌, none, some, List, [], ◌++◌,
  append-nil, length, arith, length-append, Option,
}
use ex_rocket.Options.Iterator.{IteratorTakeOptions}
use ex_rocket.Nif.Take.{
  Entry, Source, Status, more, end_of_iterator, Page, page, failed, IteratorState, pull,
  iterator_take,
}
use ex_rocket.Nif.Take.Content.{Content, Taken, iterator_take-Taken}
use ex_rocket.Nif.Take.Bounds.{Fits, iterator_take-within, ReturnsLarge, take_rows-Large}

-- With a byte limit below 2 ^ 64 - 1, and one row or more allowed, a page has a payload of at most
-- `max_bytes`, or it is a single row. If the row that comes first, pending or from the iterator, has
-- `max_bytes` bytes or more, however large it is, the page is that row alone, with the status `more`
-- and nothing held back; a failure or an end that comes first is the whole answer.
pub iterator_take-Fits :
    (source : Source) (options : IteratorTakeOptions) (max_bytes : ℕ) (state : IteratorState source)
    → options.max_bytes ≡ some max_bytes
    → max_bytes < 2 ^ 64 - 1
    → 0 < options.max_entries
    → Fits max_bytes (iterator_take source options state).0
      × ReturnsLarge source max_bytes (pull source state) (iterator_take source options state)
unfolding iterator_take
iterator_take-Fits source options max_bytes state e small positive = (
  iterator_take-within source options max_bytes state e small,
  rw e (take_rows-Large source max_bytes small options.max_entries state positive),
)

abbrev behind : List Entry → Option (List Entry) → Option (List Entry)
behind rows none = none
behind rows (some later) = some (rows ++ later)

-- The rows of one page, and what `again` finds behind it. `none` stands for a failure.
abbrev continue : {S : Type 0} → (S → Option (List Entry)) → Page × S → Option (List Entry)
continue again (page rows more, state) = behind rows (again state)
continue again (page rows end_of_iterator, state) = some rows
continue again (failed reason, state) = none

-- A client's loop: it asks for pages until the status is `end_of_iterator`, `calls` times at most.
unfoldable pub read_pages :
    (source : Source) → ℕ → IteratorTakeOptions → IteratorState source → Option (List Entry)
read_pages source zero options state = none
read_pages source (suc calls) options state =
    continue (read_pages source calls options) (iterator_take source options state)

read_pages-status :
    (source : Source) (calls : ℕ) (options : IteratorTakeOptions) (content new left : List Entry)
    (status : Status) (state : IteratorState source)
    → content ≡ new ++ left
    → (status ≡ end_of_iterator → left ≡ [])
    → (status ≡ more → read_pages source calls options state ≡ some left)
    → continue (read_pages source calls options) (page new status, state) ≡ some content
read_pages-status source calls options content new left more state parts at_end again =
    ap (behind new) (again refl) ∙ ap some (sym parts)
read_pages-status source calls options content new left end_of_iterator state parts at_end again =
    ap some (sym (parts ∙ ap (λ (l : List Entry). new ++ l) (at_end refl) ∙ append-nil new))

read_pages-Taken :
    (source : Source) (calls : ℕ) (options : IteratorTakeOptions) (content : List Entry)
    (result : Page × IteratorState source)
    → 1 ≤ options.max_entries
    → length content ≤ calls
    → ((state : IteratorState source) (left : List Entry)
        → Content source state left
        → length left < calls
        → read_pages source calls options state ≡ some left)
    → Taken source options.max_entries [] content result
    → continue (read_pages source calls options) result ≡ some content
read_pages-Taken source calls options content (returned, state) positive enough again t =
    let fewer : t.status ≡ more → length t.left < calls = λ going_on.
      let lengths = ap length t.parts ∙ length-append t.new t.left in
      let filled : length content ≢ 0 =
        λ none_left. let ended = t.finishes positive none_left in cc in
      let progress = t.forward positive (omega (arith, filled)) in
      omega (arith, lengths, progress, enough) in
    let whole =
      ap (λ (r : Page). continue (read_pages source calls options) (r, state)) t.returned in
    whole
    ∙ read_pages-status source calls options content t.new t.left t.status state t.parts t.at_end
        (λ going_on. again state t.left t.held (fewer going_on))

-- With one row or more allowed in a page, and an iterator that returns its rows with no failure, a
-- client that asks for pages until the end is reported reads every row that the iterator holds, each
-- once and in order, in at most one call more than there are rows.
pub read_pages-all :
    (source : Source) (calls : ℕ) (options : IteratorTakeOptions) (state : IteratorState source)
    (content : List Entry)
    → Content source state content
    → 1 ≤ options.max_entries
    → length content < calls
    → read_pages source calls options state ≡ some content
unfolding read_pages
read_pages-all source zero options state content h positive enough = absurd (omega arith)
read_pages-all source (suc calls) options state content h positive enough =
    read_pages-Taken source calls options content (iterator_take source options state) positive
      (omega arith)
      (λ state' left h' fewer. read_pages-all source calls options state' left h' positive fewer)
      (iterator_take-Taken source options state content h)
