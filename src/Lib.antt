-- ===== src/Lib.antt =====
-- ex_rocket: a model of the native part of the library, native/rocker/src.
--
-- The program is an Erlang NIF around RocksDB. Erlang calls a function of nif.rs with terms; the
-- function decodes them, runs an operation of the `rocksdb` crate on a database, an iterator or a
-- snapshot that it finds in a resource, and encodes a reply. RocksDB calls back the merge operators
-- of merge.rs while it merges the operands of a key.
--
-- Prelude   natural numbers with tests, lists over them, integers with the wrapping of i64 and i32,
--           `?` on results and options
-- Text      what the code uses of Rust's str: UTF-8, trim, split, to_lowercase, parse of integers,
--           to_string
-- Merge     native/rocker/src/merge.rs. Counter: counter_merge. Bitset: bitset_merge, set_bit,
--           clear_bit. Operation: process_eetf_merge_operation, an operation for a function, with
--           insert, drain and remove of Vec in Vector. Erlang: erlang_merge. A function that may
--           panic has an Outcome.
-- Options   native/rocker/src/iterator_options.rs (Iterator), read_options.rs (Read),
--           write_options.rs (Write) and options.rs (Rocker). In Rocker the struct is the table of
--           its fields (Fields), the arms of decode are a table of keys (Arms, Decode), and the
--           conversion to the crate's Options is the list of the calls of its setters (Steps,
--           Settings); Settings.Asked says what a field asks for.
-- Nif       native/rocker/src/nif.rs. Handlers: DbResource, db_read!, the calls that run one
--           operation, close. Open: the calls that take database options. Backup:
--           checkpoints and backups. Batch: write_batch.
--           MultiGet: multi_get, multi_get_cf. Mode: iterator_mode. Lifecycle: leases, snapshots
--           and iterators as resources, and the order in which they go, as a step relation
--           (Handlers: the calls that decode terms first, as its steps; Final: a database that is
--           closed).
--           Locking: the lock of a database, and the steps inside the handlers and close.
--           Snapshot: the calls that read from a snapshot. Iterators: the calls that make an
--           iterator. Take: iterator_take and next.
-- Tests     the theorems at concrete inputs, with small instances of the crates
--
-- The crates are parameters: `rustler` reads terms (Options.Rustler), `rocksdb` is a record of its
-- operations on a database that is passed along (Nif.Rocks, Nif.Take.Source, Nif.Open.Files,
-- Nif.Iterators.Iterators), `eetf` decodes, encodes and compares terms (Merge.Term.Eetf). A law of
-- a crate is a hypothesis of the theorem that needs it.
--
-- Arithmetic is that of a release build, which wraps around; usize has 64 bits. Byte strings are
-- lists of numbers, and where it matters that they are below 256 this is a hypothesis. Fuel appears
-- only in the client's loop of Nif.Take.Pages, with the number of calls that is enough.
--
-- Not modelled: that a binary or an atom cannot be made, the mutex of a snapshot or of an iterator,
-- and the registration of the resource types.
pub mod Prelude
pub mod Text
pub mod Merge
pub mod Options
pub mod Nif
pub mod Tests
