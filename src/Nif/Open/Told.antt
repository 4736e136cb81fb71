-- ===== src/Nif/Open/Told.antt =====
-- What a database is opened with.
use ex_rocket.Prelude.{◌≡◌, refl, sym, ap, ◌∙◌, Option, none, some, List, String, inl, inr}
use ex_rocket.Prelude.Chain.{◌>>=◌}
use ex_rocket.Prelude.Result.{Result, ok, err, Result-cases}
use ex_rocket.Text.Utf8.{Chars}
use ex_rocket.Options.Rustler.{Rustler}
use ex_rocket.Options.Rocker.Types.{RockerOptions}
use ex_rocket.Options.Rocker.Fields.{fields, field_type, default}
use ex_rocket.Options.Rocker.Decode.{decode}
use ex_rocket.Options.Rocker.Decode.Values.{given_last, decode-given}
use ex_rocket.Options.Rocker.Settings as Settings
use ex_rocket.Options.Rocker.Settings.{from}
use ex_rocket.Options.Rocker.Settings.Asked.{all_said, asked}
use ex_rocket.Options.Rocker.Settings.Told.{from-asked}
use ex_rocket.Nif.Rocks.{Rocks}
use ex_rocket.Nif.Handlers.{Reply, bad_arg, item, failed, DbResource, new}
use ex_rocket.Nif.Open.{
  Files, encode_named_option_error, handed, replied, opened_by, with_names, decode_cf_names,
  open_db, open_for_read_only, open_cf, open_cf_for_read_only, destroy, repair, list_cf,
}
use ex_rocket.Nif.Open.Refused.{
  FileCall, opens, opens_read_only, destroys, repairs, lists_cf, opens_cf, opens_cf_read_only, run,
  as_opened, run-refused,
}

module _ (r : Rustler) (rocks : Rocks) (files : Files rocks r.Float) where
  open r use {Term, Float, map_entries}
  open files use {Disk}

  -- The function of the crate that a call opens a database with, for the calls that do.
  abbrev pub opening :
      FileCall Term → List (Settings.Call Float) → Disk → Option (Result String rocks.Db × Disk)
  opening (opens path) calls disk = some (files.open_db calls path disk)
  opening (opens_read_only path) calls disk = some (files.open_for_read_only calls path disk)
  opening (opens_cf path cfs) calls disk = do
    names ← decode_cf_names r rocks files cfs
    some (files.open_cf calls path names disk)
  opening (opens_cf_read_only path cfs) calls disk = do
    names ← decode_cf_names r rocks files cfs
    some (files.open_cf_for_read_only calls path names disk)
  opening _ calls disk = none

  -- That a database was opened, and is handed out with no leases.
  abbrev pub HandedOut : Option (Result String rocks.Db × Disk) → DbResource rocks → Disk → Type 0
  HandedOut result resource disk =
      (db : rocks.Db) × (result ≡ some (ok db, disk)) × (resource ≡ new rocks db)

  opened_by-handed :
      (result : Result String rocks.Db × Disk) (resource : DbResource rocks) (disk : Disk)
      → opened_by {rocks = rocks} result ≡ (handed resource, disk)
      → HandedOut (some result) resource disk
  opened_by-handed (ok db, s) resource disk h =
      let same : handed (new rocks db) ≡ handed resource = ap (λ p. p.0) h in
      let there : s ≡ disk = ap (λ p. p.1) h in (db, rw there refl, cc)
  opened_by-handed (err reason, s) resource disk h =
      let other : replied (item (failed reason)) ≡ handed resource = ap (λ p. p.0) h in cc

  no_handed :
      (answer : Reply × Disk) (resource : DbResource rocks) (disk : Disk) {A : Type 0}
      → as_opened r rocks files answer ≡ (handed resource, disk)
      → A
  no_handed (reply, s) resource disk h =
      let other : replied reply ≡ handed resource = ap (λ p. p.0) h in cc

  with_names-handed :
      (cfs : Option (List Chars)) (body : List Chars → Disk → Result String rocks.Db × Disk)
      (disk : Disk) (resource : DbResource rocks) (disk' : Disk)
      → with_names r rocks files cfs (λ names disk. opened_by (body names disk)) disk
        ≡ (handed resource, disk')
      → HandedOut (cfs >>= λ names. some (body names disk)) resource disk'
  with_names-handed none body disk resource disk' h =
      let other : replied bad_arg ≡ handed resource = ap (λ p. p.0) h in cc
  with_names-handed (some cfs) body disk resource disk' h =
      opened_by-handed (body cfs disk) resource disk' h

  run-opening :
      (call : FileCall Term) (options : Term) (settings : RockerOptions Float) (disk : Disk)
      (resource : DbResource rocks) (disk' : Disk)
      → decode r options ≡ ok settings
      → run r rocks files call options disk ≡ (handed resource, disk')
      → HandedOut (opening call (from settings) disk) resource disk'
  unfolding run open_db open_for_read_only open_cf open_cf_for_read_only destroy repair list_cf
  run-opening (opens path) options settings disk resource disk' d h =
      let h' = rw d at h in opened_by-handed _ resource disk' h'
  run-opening (opens_read_only path) options settings disk resource disk' d h =
      let h' = rw d at h in opened_by-handed _ resource disk' h'
  run-opening (opens_cf path cfs) options settings disk resource disk' d h =
      let h' = rw d at h in
      with_names-handed (decode_cf_names r rocks files cfs) _ disk resource disk' h'
  run-opening (opens_cf_read_only path cfs) options settings disk resource disk' d h =
      let h' = rw d at h in
      with_names-handed (decode_cf_names r rocks files cfs) _ disk resource disk' h'
  run-opening (destroys path) options settings disk resource disk' d h =
      no_handed (destroy r rocks files path options disk) resource disk' h
  run-opening (repairs path) options settings disk resource disk' d h =
      no_handed (repair r rocks files path options disk) resource disk' h
  run-opening (lists_cf path) options settings disk resource disk' d h =
      no_handed (list_cf r rocks files path options disk) resource disk' h

  -- A call that hands out a resource has read a map of options, in which the last entry for a name
  -- gives the value of the field, and the default if there is none; it has told the crate, field by
  -- field, what the fields with a value ask for, and the crate has opened the database of the
  -- resource, which has no leases.
  pub run-handed :
      (call : FileCall Term) (options : Term) (disk : Disk) (resource : DbResource rocks)
      (disk' : Disk)
      → run r rocks files call options disk ≡ (handed resource, disk')
      → (entries : List (Term × Term)) × (settings : RockerOptions Float) × (calls : List
          (Settings.Call Float))
        × (map_entries options ≡ some entries)
        × ((name : String)
            → settings name ≡ given_last r name (field_type name) (default name) entries)
        × (all_said calls ≡ asked settings fields)
        × HandedOut (opening call calls disk) resource disk'
  run-handed call options disk resource disk' h = elim (Result-cases (decode r options)) [
    | inl (settings, d) ↦
        let (entries, e, valid, given) = decode-given r options settings d in
        (
          entries,
          settings,
          from settings,
          e,
          given,
          from-asked settings valid,
          run-opening call options settings disk resource disk' d h,
        )
    | inr (reason, d) ↦
        let other : replied (encode_named_option_error reason) ≡ handed resource =
          ap (λ p. p.0) (sym (run-refused r rocks files options reason call disk d) ∙ h) in
        cc
  ]
