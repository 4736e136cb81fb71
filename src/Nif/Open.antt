-- ===== src/Nif/Open.antt =====
-- The handlers of native/rocker/src/nif.rs that take options for a database: `open`, `open_cf`, their
-- read-only forms, `create_cf`, `list_cf`, `destroy` and `repair`; and `get_db_path`.
pub mod Refused
pub mod Told
use ex_rocket.Prelude.{◌≡◌, refl, Option, none, some, List, [], ◌∷◌, String}
use ex_rocket.Prelude.Chain.{◌>>=◌, collect}
use ex_rocket.Prelude.Result.{Result, ok, err}
use ex_rocket.Text.Utf8.{Chars}
use ex_rocket.Options.Rustler.{Rustler}
use ex_rocket.Options.Rocker.Types.{RockerOptions}
use ex_rocket.Options.Rocker.Validate.{OptionsError, unknown, invalid}
use ex_rocket.Options.Rocker.Decode.{decode}
use ex_rocket.Options.Rocker.Settings as Settings
use ex_rocket.Nif.Rocks.{Rocks, Outcome}
use ex_rocket.Nif.Handlers.{
  Reply, done, item, failed, bad_arg, unknown_option, invalid_option, db_path, cf_names, written,
  DbResource, new, with_db,
}

-- The functions of the crate that take `Options`, on the files of all databases. Options are what the
-- calls of setters make of the default. `open` is a word of this language, so `DB::open` and the
-- handler are `open_db`.
pub record Files (rocks : Rocks) (F : Type 0) : Type 1 where
  pub Disk : Type 0
  pub open_db : List (Settings.Call F) → Chars → Disk → Result String rocks.Db × Disk
  pub open_for_read_only : List (Settings.Call F) → Chars → Disk → Result String rocks.Db × Disk
  pub open_cf : List (Settings.Call F) → Chars → List Chars → Disk → Result String rocks.Db × Disk
  pub open_cf_for_read_only :
      List (Settings.Call F) → Chars → List Chars → Disk → Result String rocks.Db × Disk
  pub destroy : List (Settings.Call F) → Chars → Disk → Outcome × Disk
  pub repair : List (Settings.Call F) → Chars → Disk → Outcome × Disk
  pub list_cf : List (Settings.Call F) → Chars → Disk → Result String (List Chars) × Disk
  pub create_cf : Chars → List (Settings.Call F) → rocks.Db → Outcome × rocks.Db
  pub path : rocks.Db → Chars

-- `encode_named_option_error`, for both kinds of error.
abbrev pub encode_named_option_error : OptionsError → Reply
encode_named_option_error (unknown key) = unknown_option key
encode_named_option_error (invalid key) = invalid_option key

abbrev pub listed : {S : Type 0} → Result String (List Chars) × S → Reply × S
listed (ok cfs, s) = (cf_names cfs, s)
listed (err reason, s) = (item (failed reason), s)

-- `{ok, Resource}`, or another reply.
pub data Opened (rocks : Rocks) : Type 0 where
  handed : DbResource rocks → Opened rocks
  replied : Reply → Opened rocks

abbrev pub opened_by : {rocks : Rocks} {S : Type 0} → Result String rocks.Db × S → Opened rocks × S
opened_by {rocks} (ok db, s) = (handed (new rocks db), s)
opened_by (err reason, s) = (replied (item (failed reason)), s)

module _ (r : Rustler) (rocks : Rocks) (files : Files rocks r.Float) where
  open r use {Term, Float, decode_string, decode_list}
  open files use {Disk}

  -- `db_options!` before the rest of a handler: an error ends the call.
  abbrev pub on_decoded :
      {A S : Type 0}
      → Result OptionsError (RockerOptions Float)
      → (Reply → A)
      → (List (Settings.Call Float) → S → A × S)
      → S
      → A × S
  on_decoded (ok options) reply body s = body (Settings.from options) s
  on_decoded (err reason) reply body s = (reply (encode_named_option_error reason), s)

  abbrev pub with_options :
      {A S : Type 0} → Term → (Reply → A) → (List (Settings.Call Float) → S → A × S) → S → A × S
  with_options term reply body s = on_decoded (decode r term) reply body s

  unfoldable pub open_db : Chars → Term → Disk → Opened rocks × Disk
  open_db path options =
      with_options options replied λ calls disk. opened_by (files.open_db calls path disk)

  unfoldable pub open_for_read_only : Chars → Term → Disk → Opened rocks × Disk
  open_for_read_only path options =
      with_options options replied
        λ calls disk. opened_by (files.open_for_read_only calls path disk)

  unfoldable pub decode_cf_names : Term → Option (List Chars)
  decode_cf_names term = do terms ← decode_list term; collect decode_string terms

  -- `decode_cf_names(names)?` before the rest of a handler.
  abbrev pub with_names :
      Option (List Chars) → (List Chars → Disk → Opened rocks × Disk) → Disk → Opened rocks × Disk
  with_names none body disk = (replied bad_arg, disk)
  with_names (some cfs) body disk = body cfs disk

  unfoldable pub open_cf : Chars → Term → Term → Disk → Opened rocks × Disk
  open_cf path cfs options = with_options options replied λ calls.
      with_names (decode_cf_names cfs) λ names disk. opened_by (files.open_cf calls path names disk)

  unfoldable pub open_cf_for_read_only : Chars → Term → Term → Disk → Opened rocks × Disk
  open_cf_for_read_only path cfs options = with_options options replied λ calls.
      with_names (decode_cf_names cfs)
        λ names disk. opened_by (files.open_cf_for_read_only calls path names disk)

  unfoldable pub destroy : Chars → Term → Disk → Reply × Disk
  destroy path options =
      with_options options (λ reply. reply) λ calls disk. written (files.destroy calls path disk)

  unfoldable pub repair : Chars → Term → Disk → Reply × Disk
  repair path options =
      with_options options (λ reply. reply) λ calls disk. written (files.repair calls path disk)

  unfoldable pub list_cf : Chars → Term → Disk → Reply × Disk
  list_cf path options =
      with_options options (λ reply. reply) λ calls disk. listed (files.list_cf calls path disk)

  unfoldable pub create_cf : Chars → Term → DbResource rocks → Reply × DbResource rocks
  create_cf name options =
      with_options options (λ reply. reply)
        λ calls. with_db rocks λ db. written (files.create_cf name calls db)

  unfoldable pub get_db_path : DbResource rocks → Reply × DbResource rocks
  get_db_path = with_db rocks λ db. (db_path (files.path db), db)
