-- ===== src/Tests/Database.antt =====
-- Handlers, batches, iterators and their resources at concrete inputs.
use mathlib.Core.List.{Memᴰ}
use ex_rocket.Prelude.{◌<◌, ◌≤◌, ◌≡◌, refl, ◌⊎◌, none, some, List, [], ◌∷◌, arith}
use ex_rocket.Prelude.Chain.{collect}
use ex_rocket.Text.Utf8.{Bytes, Chars}
use ex_rocket.Options.Iterator.{IteratorTakeOptions, max_entries_limit, max_bytes_limit, decode}
use ex_rocket.Nif.Handlers.{
  Item, item, items, done, resource_busy, unknown_cf, DbResource, new, close, get, get_cf,
}
use ex_rocket.Nif.Batch.{fill, write_batch}
use ex_rocket.Nif.Batch.Atomic.{Refused, Submitted, write_batch-Atomic}
use ex_rocket.Nif.Batch.Encoded.{Request, put, put_cf, tuples, all_resolved, fill-tuples}
use ex_rocket.Nif.Mode.{from, reverse, iterator_mode, chosen, writes_reverse, iterator_mode-Written}
use ex_rocket.Nif.MultiGet.{map, multi_get, multi_get_cf}
use ex_rocket.Nif.MultiGet.Each.{multi_get-Each, multi_get_cf-Each}
use ex_rocket.Nif.Lifecycle.{
  World, opened, snapshot, children, snapshots, snapshot_iterates, make_snapshot_iterator_resource,
  Reachable, starts, steps,
}
use ex_rocket.Nif.Lifecycle.Closing.{Reachable-open, close-Reachable}
use ex_rocket.Nif.Take.{Entry, Page, IteratorState, pull, iterator_take}
use ex_rocket.Nif.Take.Handler.{paged, take}
use ex_rocket.Nif.Take.Handler.Limits.{Short, take-Short}
use ex_rocket.Nif.Take.Content.{Taken, iterator_take-Taken}
use ex_rocket.Nif.Take.Bounds.{Fits, ReturnsLarge}
use ex_rocket.Nif.Take.Pages.{iterator_take-Fits, read_pages, read_pages-all}
use ex_rocket.Tests.Crates.{
  Value, Row, next, end, atoms, numbers, binaries, strings, tuples as tuple, lists, maps, rustler,
  terms, rocks, pointwise, source,
}

abbrev a : Bytes
a = b'a' ∷ []

abbrev one : Bytes
one = b'1' ∷ []

abbrev cf : Chars
cf = b'c' ∷ b'f' ∷ []

abbrev rows : List Row
rows = ([], a, one) ∷ (cf, a, a) ∷ []

abbrev resource : DbResource rocks
resource = new rocks rows

-- A put in the default column family and one in `cf`.
abbrev puts_both : Value
puts_both = lists (
    next (tuple (next (atoms "put") (next (binaries a) (next (binaries one) end)))) (
      next
        (tuple
          (next (atoms "put_cf") (next (strings cf) (next (binaries a) (next (binaries a) end)))))
        end))

write_batch-Atomic_example :
    let outcome = write_batch rustler rocks puts_both (maps end) resource in
    Refused rustler rocks puts_both (maps end) resource outcome
    ⊎ Submitted rustler rocks puts_both (maps end) resource outcome
write_batch-Atomic_example = write_batch-Atomic rustler rocks puts_both (maps end) resource

abbrev requests : List Request
requests = put a one ∷ put_cf cf a a ∷ []

fill-tuples_example :
    fill rustler rocks rows (tuples rustler rocks terms requests)
    ≡ all_resolved rustler rocks terms rows requests
fill-tuples_example = fill-tuples rustler rocks terms rows requests

iterator_mode-Written_example :
    chosen rustler terms (
      iterator_mode rustler
        (tuple (next (atoms "from") (next (binaries a) (next (atoms "reverse") end)))))
    ≡ some (from a reverse)
iterator_mode-Written_example =
    iterator_mode-Written rustler terms (atoms "from" ∷ binaries a ∷ atoms "reverse" ∷ [])
      (from a reverse) (writes_reverse a)

multi_get-Each_example :
    (found : List Item) × (multi_get rustler rocks
        (lists (next (binaries a) (next (binaries one) end)))
        resource
      ≡ (items found, resource))
    × (map item found ≡ map (λ (key : Bytes). (get rocks key resource).0) (a ∷ one ∷ []))
unfolding collect
multi_get-Each_example =
    multi_get-Each rustler rocks pointwise (lists (next (binaries a) (next (binaries one) end)))
      (binaries a ∷ binaries one ∷ []) (a ∷ one ∷ []) resource rows refl refl refl

-- A key in `cf`, and one in a column family that is not there.
abbrev pairs : List (Chars × Bytes)
pairs = (cf, a) ∷ (a, a) ∷ []

abbrev pair_terms : List Value
pair_terms =
    tuple (next (strings cf) (next (binaries a) end))
    ∷ tuple (next (strings a) (next (binaries a) end))
    ∷ []

abbrev pair_list : Value
pair_list = lists (
    next (tuple (next (strings cf) (next (binaries a) end)))
      (next (tuple (next (strings a) (next (binaries a) end))) end))

multi_get_cf-Each_example :
    ((multi_get_cf rustler rocks pair_list resource ≡ (unknown_cf, resource))
      × (pair : Chars × Bytes) × Memᴰ pair pairs
      × ((get_cf rocks pair.0 pair.1 resource).0 ≡ unknown_cf))
    ⊎ ((found : List Item) × (multi_get_cf rustler rocks pair_list resource
          ≡ (items found, resource))
        × (map item found
            ≡ map (λ (pair : Chars × Bytes). (get_cf rocks pair.0 pair.1 resource).0) pairs))
unfolding collect
multi_get_cf-Each_example =
    multi_get_cf-Each rustler rocks pointwise pair_list pair_terms pairs resource rows refl refl
      refl

-- A snapshot, and an iterator that reads from it.
abbrev world : World rocks
world = make_snapshot_iterator_resource rocks 0 (snapshot rocks rows (opened rocks rows))

reached : Reachable rocks world
unfolding snapshot
reached =
    steps (steps (starts rows) (snapshots rows refl (omega arith)))
      (snapshot_iterates 0 (Memᴰ.head refl) (omega arith))

Reachable-open_example : (db : List Row) × (world.resource.db ≡ some db)
unfolding snapshot make_snapshot_iterator_resource
Reachable-open_example = Reachable-open rocks world reached (omega arith)

close-Reachable_example :
    (children rocks world ≡ 0
      → close rocks world.resource ≡ (done, record { db = none; leases = 0 }))
    × (0 < children rocks world → close rocks world.resource ≡ (resource_busy, world.resource))
close-Reachable_example = close-Reachable rocks world reached

abbrev entries : List Entry
entries = (a, one) ∷ (one, a) ∷ (a, a) ∷ []

abbrev state : IteratorState source
state = record { iter = entries; pending = none }

abbrev options : IteratorTakeOptions
options = record { max_entries = 10; max_bytes = some 5 }

-- Each row is larger than the limit.
abbrev tight : IteratorTakeOptions
tight = record { max_entries = 10; max_bytes = some 1 }

iterator_take-Taken_example : Taken source 10 [] entries (iterator_take source options state)
iterator_take-Taken_example =
    iterator_take-Taken source options state entries (_, refl, (_, refl, (_, refl, refl)))

iterator_take-Fits_example :
    Fits 1 (iterator_take source tight state).0
    × ReturnsLarge source 1 (pull source state) (iterator_take source tight state)
iterator_take-Fits_example =
    iterator_take-Fits source tight 1 state refl (omega arith) (omega arith)

read_pages-all_example : read_pages source 4 options state ≡ some entries
read_pages-all_example =
    read_pages-all source 4 options state entries (_, refl, (_, refl, (_, refl, refl)))
      (omega arith) (omega arith)

-- Pages of at most 2 rows and 5 bytes.
abbrev limits : Value
limits = maps (
    next (atoms "max_entries") (next (numbers 2) (next (atoms "max_bytes") (next (numbers 5) end))))

abbrev limited : IteratorTakeOptions
limited = record { max_entries = 2; max_bytes = some 5 }

take-Short_example :
    (p : Page) × (state' : IteratorState source) × (take rustler source limits state
      ≡ (paged p, state'))
    × Short 2 p
    × (2 ≤ max_entries_limit)
    × Fits 5 p
    × ((0 < 5) × (5 ≤ max_bytes_limit))
unfolding decode
take-Short_example = take-Short rustler source limits limited state refl
