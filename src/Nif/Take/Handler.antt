-- ===== src/Nif/Take/Handler.antt =====
-- `iterator_take` of native/rocker/src/nif.rs from the term of its options on.
pub mod Limits
use ex_rocket.Prelude.{String}
use ex_rocket.Prelude.Result.{Result, ok, err}
use ex_rocket.Options.Rustler.{Rustler}
use ex_rocket.Options.Iterator.{IteratorTakeOptions, IteratorOptionsError, invalid, unknown, decode}
use ex_rocket.Nif.Handlers.{Reply, invalid_iterator_options, unknown_option}
use ex_rocket.Nif.Take.{Page, Source, IteratorState, iterator_take}

-- `{ok, Rows, Status}` or the reason of a failure, or a refusal of the options.
pub data Answer : Type 0 where
  paged : Page → Answer
  refused : Reply → Answer

abbrev pub encode_iterator_options_error : IteratorOptionsError → Reply
encode_iterator_options_error invalid = invalid_iterator_options
encode_iterator_options_error (unknown key) = unknown_option key

abbrev pub as_answer : {S : Type 0} → Page × S → Answer × S
as_answer (p, s) = (paged p, s)

module _ (r : Rustler) (source : Source) where
  abbrev pub take_decoded :
      Result IteratorOptionsError IteratorTakeOptions
      → IteratorState source
      → Answer × IteratorState source
  take_decoded (ok options) state = as_answer (iterator_take source options state)
  take_decoded (err reason) state = (refused (encode_iterator_options_error reason), state)

  unfoldable pub take : r.Term → IteratorState source → Answer × IteratorState source
  take options state = take_decoded (decode r options) state
