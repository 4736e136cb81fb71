-- ===== src/Tests/Options.antt =====
-- The decoders of options at concrete maps.
use ex_rocket.Prelude.{◌≤◌, ◌<◌, ◌≡◌, refl, true, false, ◌&&◌, some, List}
use ex_rocket.Options.Iterator as Iterator
use ex_rocket.Options.Iterator.{IteratorTakeOptions, max_entries_limit, max_bytes_limit}
use ex_rocket.Options.Iterator.Bounds.{InRange, decode-InRange}
use ex_rocket.Options.Write as Write
use ex_rocket.Options.Write.{RockerWriteOptions}
use ex_rocket.Options.Write.Laws.{value_of, decode-ok}
use ex_rocket.Tests.Crates.{Value, next, end, atoms, numbers, booleans, maps, as_entries, rustler}

abbrev limits : Value
limits = maps (
    next (atoms "max_bytes")
      (next (numbers 4096) (next (atoms "max_entries") (next (numbers 50) end))))

abbrev taken : IteratorTakeOptions
taken = record { max_entries = 50; max_bytes = some 4096 }

decode-InRange_example :
    (0 < taken.max_entries)
    × (taken.max_entries ≤ max_entries_limit)
    × InRange max_bytes_limit taken.max_bytes
unfolding Iterator.decode
decode-InRange_example = decode-InRange rustler limits taken refl

abbrev synced : Value
synced = maps (next (atoms "sync") (next (booleans true) end))

abbrev syncs : RockerWriteOptions
syncs = record { sync = true; disable_wal = false }

decode-ok_example :
    (entries : List (Value × Value)) × (as_entries synced ≡ some entries)
    × (syncs.sync ≡ value_of rustler "sync" false entries)
    × (syncs.disable_wal ≡ value_of rustler "disable_wal" false entries)
    × ((syncs.sync && syncs.disable_wal) ≡ false)
unfolding Write.decode
decode-ok_example = decode-ok rustler synced syncs refl
