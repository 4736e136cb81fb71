-- ===== src/Tests/Crates.antt =====
-- Small instances of the crates: terms of Erlang as data, a database as a list of its entries, and an
-- encoding of some terms of `eetf`.
use ex_rocket.Prelude.{
  ℕ, Bool, true, false, ◌&&◌, ◌==◌, ◌≡◌, refl, ap, Option, none, some, List, [], ◌∷◌, String,
  if◌then◌else◌,
}
use ex_rocket.Prelude.Int.{ℤ, pos}
use ex_rocket.Prelude.Result.{Result, ok}
use ex_rocket.Text.Utf8.{Bytes, Chars}
use ex_rocket.Options.Rustler.{Rustler}
use ex_rocket.Nif.Batch.Encoded.{Terms}
use ex_rocket.Nif.Rocks.{Rocks, BatchOperation, Outcome, Lookup}
use ex_rocket.Nif.Rocks as Queued
use ex_rocket.Nif.MultiGet.{map}
use ex_rocket.Nif.MultiGet.Each.{Pointwise}
use ex_rocket.Nif.Take.{Entry, Source}
use ex_rocket.Options.Read as Read
use ex_rocket.Options.Rocker.Settings.{Call}
use ex_rocket.Nif.Open.{Files}
use ex_rocket.Nif.Mode.{IteratorMode}
use ex_rocket.Nif.Lifecycle.{SnapshotResource}
use ex_rocket.Nif.Snapshot.{Resources}
use ex_rocket.Nif.Snapshot.Repeats.{Frozen}
use ex_rocket.Nif.Iterators.{Iterators}
use ex_rocket.Merge.Term.{EetfTerm, fix_integer, tuple, cons, nil, atom, Eetf}

mutual
  pub data Value : Type 0 where
    atoms : String → Value
    binaries strings : List ℕ → Value
    booleans : Bool → Value
    numbers : ℕ → Value
    tuples lists maps : Values → Value

  pub data Values : Type 0 where
    end : Values
    next : Value → Values → Values

abbrev pub listed : Values → List Value
listed end = []
listed (next v vs) = v ∷ listed vs

abbrev pub paired : Values → List (Value × Value)
paired (next k (next v vs)) = (k, v) ∷ paired vs
paired _ = []

abbrev pub values : List Value → Values
values [] = end
values (v ∷ vs) = next v (values vs)

pub listed-values : (vs : List Value) → listed (values vs) ≡ vs
listed-values [] = refl
listed-values (v ∷ vs) = ap (◌∷◌ v) (listed-values vs)

abbrev pub as_entries : Value → Option (List (Value × Value))
as_entries (maps vs) = some (paired vs)
as_entries _ = none

abbrev pub as_atom : Value → Option String
as_atom (atoms s) = some s
as_atom _ = none

abbrev pub as_bool : Value → Option Bool
as_bool (booleans b) = some b
as_bool _ = none

abbrev pub as_usize : Value → Option ℕ
as_usize (numbers n) = some n
as_usize _ = none

abbrev pub as_int : Value → Option ℤ
as_int (numbers n) = some (pos n)
as_int _ = none

abbrev pub as_float : Value → Option (Unit {0})
as_float _ = none

abbrev pub as_string : Value → Option Chars
as_string (strings s) = some s
as_string _ = none

abbrev pub as_binary : Value → Option Bytes
as_binary (binaries s) = some s
as_binary _ = none

abbrev pub as_list : Value → Option (List Value)
as_list (lists vs) = some (listed vs)
as_list _ = none

abbrev pub as_tuple : Value → Option (List Value)
as_tuple (tuples vs) = some (listed vs)
as_tuple _ = none

abbrev pub rustler : Rustler
rustler = record {
  Term = Value;
  map_entries = as_entries;
  atom_to_string = as_atom;
  decode_bool = as_bool;
  decode_usize = as_usize;
  decode_u32 = as_usize;
  decode_u64 = as_usize;
  decode_i32 = as_int;
  decode_i64 = as_int;
  Float = Unit {0};
  decode_f64 = as_float;
  decode_string = as_string;
  decode_binary = as_binary;
  decode_list = as_list;
  get_tuple = as_tuple;
}

abbrev pub terms : Terms rustler
terms = record {
  atom = atoms;
  binary = binaries;
  string = strings;
  tuple = λ (vs : List Value). tuples (values vs);
  atom-read = λ name. refl;
  binary-read = λ bytes. refl;
  string-read = λ chars. refl;
  tuple-read = λ vs. ap some (listed-values vs);
}

-- The column family, the key and the value.
abbrev pub Row : Type 0
Row = Chars × Bytes × Bytes

abbrev pub equal : List ℕ → List ℕ → Bool
equal [] [] = true
equal (x ∷ xs) (y ∷ ys) = (x == y) && equal xs ys
equal _ _ = false

abbrev pub lookup : Chars → Bytes → List Row → Lookup
lookup cf key [] = ok none
lookup cf key ((cf', key', bytes) ∷ rows) =
    if equal cf cf' && equal key key' then ok (some bytes) else lookup cf key rows

abbrev pub without : Chars → Bytes → List Row → List Row
without cf key [] = []
without cf key ((cf', key', bytes) ∷ rows) =
    let rest = without cf key rows in
    if equal cf cf' && equal key key' then rest else (cf', key', bytes) ∷ rest

abbrev pub is_found : Lookup → Bool
is_found (ok (some bytes)) = true
is_found _ = false

-- Only `cf` is a column family beside the default one, which has the empty name.
abbrev pub handle : List Row → Chars → Option Chars
handle rows name = if equal name (b'c' ∷ b'f' ∷ []) then some name else none

abbrev pub put_row : Chars → Bytes → Bytes → List Row → List Row
put_row cf key bytes rows = (cf, key, bytes) ∷ without cf key rows

abbrev pub apply : BatchOperation Chars → List Row → List Row
apply (Queued.put key bytes) rows = put_row [] key bytes rows
apply (Queued.delete key) rows = without [] key rows
apply (Queued.put_cf cf key bytes) rows = put_row cf key bytes rows
apply (Queued.delete_cf cf key) rows = without cf key rows
apply (Queued.merge key bytes) rows = put_row [] key bytes rows
apply (Queued.merge_cf cf key bytes) rows = put_row cf key bytes rows
apply (Queued.delete_range from to) rows = rows

abbrev pub apply_all : List (BatchOperation Chars) → List Row → List Row
apply_all [] rows = rows
apply_all (o ∷ operations) rows = apply_all operations (apply o rows)

-- Every operation succeeds; a merge replaces the value.
abbrev pub rocks : Rocks
rocks = record {
  Db = List Row;
  Cf = Chars;
  Snapshot = List Row;
  cf_handle = handle;
  put = λ (key bytes : Bytes) (db : List Row). (ok tt, put_row [] key bytes db);
  put_cf = λ (cf : Chars) (key bytes : Bytes) (db : List Row). (ok tt, put_row cf key bytes db);
  get = lookup [];
  get_cf = lookup;
  multi_get = λ (keys : List Bytes) (db : List Row). map (λ (key : Bytes). lookup [] key db) keys;
  multi_get_cf = λ (requests : List (Chars × Bytes)) (db : List Row).
      map (λ (request : Chars × Bytes). lookup request.0 request.1 db) requests;
  delete = λ (key : Bytes) (db : List Row). (ok tt, without [] key db);
  delete_cf = λ (cf : Chars) (key : Bytes) (db : List Row). (ok tt, without cf key db);
  merge = λ (key bytes : Bytes) (db : List Row). (ok tt, put_row [] key bytes db);
  merge_cf = λ (cf : Chars) (key bytes : Bytes) (db : List Row). (ok tt, put_row cf key bytes db);
  delete_range_cf = λ (cf : Chars) (from to : Bytes) (db : List Row). (ok tt, db);
  key_may_exist = λ (key : Bytes) (db : List Row). is_found (lookup [] key db);
  key_may_exist_cf = λ (cf : Chars) (key : Bytes) (db : List Row). is_found (lookup cf key db);
  drop_cf = λ (name : Chars) (db : List Row). (ok tt, db);
  flush_wal = λ (sync : Bool) (db : List Row). (ok tt, db);
  latest_sequence_number = λ (db : List Row). 0;
  write = λ (batch : List (BatchOperation Chars)) (db : List Row). (ok tt, apply_all batch db);
  write_opt =
      λ _ (batch : List (BatchOperation Chars)) (db : List Row). (ok tt, apply_all batch db);
  snapshot = λ (db : List Row). db;
  snapshot_get = lookup [];
  snapshot_get_cf = lookup;
  snapshot_multi_get =
      λ (keys : List Bytes) (db : List Row). map (λ (key : Bytes). lookup [] key db) keys;
  snapshot_multi_get_cf = λ (requests : List (Chars × Bytes)) (db : List Row).
      map (λ (request : Chars × Bytes). lookup request.0 request.1 db) requests;
}

abbrev pub frozen : Frozen rocks
frozen = record {
  one = λ key db. refl;
  one_cf = λ cf key db. refl;
  many = λ keys db. refl;
  many_cf = λ requests db. refl;
}

-- The files are the calls of setters that the last database was opened with.
abbrev pub files : Files rocks Unit
files = record {
  Disk = List (Call Unit);
  open_db = λ (calls : List (Call Unit)) (path : Chars) (disk : List (Call Unit)). (ok [], calls);
  open_for_read_only =
      λ (calls : List (Call Unit)) (path : Chars) (disk : List (Call Unit)). (ok [], calls);
  open_cf =
      λ (calls : List (Call Unit)) (path : Chars) (cfs : List Chars) (disk : List (Call Unit)).
        (ok [], calls);
  open_cf_for_read_only =
      λ (calls : List (Call Unit)) (path : Chars) (cfs : List Chars) (disk : List (Call Unit)).
        (ok [], calls);
  destroy = λ (calls : List (Call Unit)) (path : Chars) (disk : List (Call Unit)). (ok tt, []);
  repair = λ (calls : List (Call Unit)) (path : Chars) (disk : List (Call Unit)). (ok tt, disk);
  list_cf = λ (calls : List (Call Unit)) (path : Chars) (disk : List (Call Unit)). (ok [], disk);
  create_cf = λ (name : Chars) (calls : List (Call Unit)) (db : List Row). (ok tt, db);
  path = λ (db : List Row). [];
}

abbrev pub pointwise : Pointwise rocks
pointwise = record { by_key = λ keys db. refl; by_pair = λ requests db. refl }

abbrev pub first : List Entry → Option (Result String Entry) × List Entry
first [] = (none, [])
first (row ∷ rows) = (some (ok row), rows)

-- An iterator over the rows that are left.
abbrev pub source : Source
source = record { Iter = List Entry; next = first }

-- A number is the resource of the snapshot with this number, which was taken of a single row.
abbrev pub taken_rows : List Row
taken_rows = ([], b'a' ∷ [], b'1' ∷ []) ∷ []

abbrev pub as_resource : Value → Option (SnapshotResource rocks)
as_resource (numbers n) = some (record { id = n; snapshot = taken_rows })
as_resource _ = none

abbrev pub resources : Resources rustler rocks
resources = record { decode_resource = as_resource }

abbrev pub entries_of : List Row → List Entry
entries_of [] = []
entries_of ((cf, key, bytes) ∷ rows) = (key, bytes) ∷ entries_of rows

-- Modes, bounds and column families do not restrict an iterator.
abbrev pub iterators : Iterators rocks source
iterators = record {
  iterator = λ (mode : IteratorMode) (db : List Row). entries_of db;
  iterator_opt = λ (calls : List Read.Call) (mode : IteratorMode) (db : List Row). entries_of db;
  prefix_iterator = λ (prefix : Bytes) (db : List Row). entries_of db;
  iterator_cf = λ (cf : Chars) (mode : IteratorMode) (db : List Row). entries_of db;
  prefix_iterator_cf = λ (cf : Chars) (prefix : Bytes) (db : List Row). entries_of db;
  snapshot_iterator = λ (mode : IteratorMode) (db : List Row). entries_of db;
  snapshot_iterator_cf = λ (cf : Chars) (mode : IteratorMode) (db : List Row). entries_of db;
}

-- Byte 0 and `n` is the integer `n`; byte 1 and `n` is the operation that adds `n`.
abbrev pub read_term : Bytes → Option (EetfTerm Unit)
read_term (kind ∷ n ∷ []) =
    if kind == 0
    then some (fix_integer (pos n))
    else if kind == 1
    then some (tuple (cons (atom "int_add") (cons (fix_integer (pos n)) nil)))
    else none
read_term _ = none

abbrev pub write_term : EetfTerm Unit → Option Bytes
write_term (fix_integer (pos n)) = some (0 ∷ n ∷ [])
write_term _ = none

abbrev pub same_integer : EetfTerm Unit → EetfTerm Unit → Bool
same_integer (fix_integer (pos m)) (fix_integer (pos n)) = m == n
same_integer _ _ = false

abbrev pub eetf : Eetf Unit
eetf = record { decode = read_term; encode = write_term; eq = same_integer }
