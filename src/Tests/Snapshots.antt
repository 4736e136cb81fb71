-- ===== src/Tests/Snapshots.antt =====
-- Snapshots and iterators as resources, at concrete inputs.
use mathlib.Core.List.{Memᴰ}
use ex_rocket.Prelude.{◌≡◌, refl, subst, List, [], ◌∷◌, arith}
use ex_rocket.Text.Utf8.{Bytes, Chars}
use ex_rocket.Nif.Handlers.{new, close}
use ex_rocket.Nif.Lifecycle.{
  World, SnapshotResource, opened, snapshot, calls, snapshots, Reachable, starts, steps, now,
}
use ex_rocket.Nif.Lifecycle.Handlers.{creates_cf, run_term}
use ex_rocket.Nif.Handlers.Closed.{puts, perform}
use ex_rocket.Nif.Snapshot.{decode_snapshot}
use ex_rocket.Nif.Snapshot.Repeats.{one, read_snapshot, read_db, read_snapshot-repeats}
use ex_rocket.Nif.Iterators.Asked.{iterates_snapshot_cf, run_iterator, asked, Makes}
use ex_rocket.Nif.Iterators.Steps.{run_iterator-Makes}
use ex_rocket.Tests.Crates.{
  Value, maps, files, next, end, atoms, numbers, tuples, rustler, rocks, frozen, resources,
  taken_rows, source, iterators,
}

abbrev a : Bytes
a = b'a' ∷ []

abbrev cf : Chars
cf = b'c' ∷ b'f' ∷ []

-- A snapshot, and then a put.
abbrev world : World rocks
world = snapshot rocks taken_rows (opened rocks taken_rows)

abbrev updated : World rocks
updated = record world { resource = (perform rocks (puts a a) world.resource).1 }

reached : Reachable rocks updated
unfolding snapshot
reached =
    steps (steps (starts taken_rows) (snapshots taken_rows refl (omega arith))) (calls (puts a a))

abbrev s : SnapshotResource rocks
s = record { id = 0; snapshot = taken_rows }

abbrev term : Value
term = tuples (next (atoms "snap") (next (numbers 7) (next (numbers 0) end)))

read_snapshot-repeats_example :
    read_snapshot rustler rocks resources term (one a) updated.resource
    ≡ ((read_db rustler rocks resources (one a) (new rocks taken_rows)).0, updated.resource)
unfolding snapshot decode_snapshot
read_snapshot-repeats_example =
    read_snapshot-repeats rustler rocks resources frozen updated s term (one a)
      (new rocks taken_rows) taken_rows reached (Memᴰ.head refl) refl refl refl (λ now e name. refl)

abbrev mode : Value
mode = tuples (next (atoms "end") end)

run_iterator-Makes_example :
    let call = iterates_snapshot_cf term cf mode in
    let outcome = run_iterator rustler rocks resources source iterators call updated in
    Makes rustler rocks resources source iterators updated
      (asked rustler rocks resources source iterators call updated)
      outcome
    × Reachable rocks outcome.1
unfolding snapshot decode_snapshot
run_iterator-Makes_example =
    run_iterator-Makes rustler rocks resources source iterators updated reached (omega arith)
      (iterates_snapshot_cf term cf mode)
      λ found e.
        let same : s ≡ found = cc in
        subst (λ (x : SnapshotResource rocks). Memᴰ x.id updated.references) same (Memᴰ.head refl)

-- A column family is created, and the database is closed.
abbrev made_cf : World rocks
made_cf = record (opened rocks taken_rows) {
  resource = (run_term rustler rocks files (creates_cf cf (maps end)) (new rocks taken_rows)).1;
}

abbrev shut : World rocks
shut = record made_cf { resource = (close rocks made_cf.resource).1 }

-- A put on the closed database.
abbrev after_put : World rocks
after_put = record shut { resource = (perform rocks (puts a a) shut.resource).1 }
