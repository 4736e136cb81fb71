-- ===== src/Merge/Erlang.antt =====
-- `erlang_merge` of native/rocker/src/merge.rs. The `eetf` crate's `decode`, `encode` and equality
-- are the parameter `crate`.
pub mod Fallback
pub mod Rounds
pub mod Partial
use ex_rocket.Prelude.{Bool, true, false, Option, none, some, List, [], ◌∷◌}
use ex_rocket.Text.Number.{to_string}
use ex_rocket.Text.Utf8.{Bytes}
use ex_rocket.Merge.Outcome.{Outcome, returns, ◌>>=◌}
use ex_rocket.Merge.Counter.{initial, add_operands}
use ex_rocket.Merge.Term.{EetfTerm, Eetf}
use ex_rocket.Merge.Operation.Dispatch.{process_eetf_merge_operation}

-- `current_eetf_term` and `is_etf_processing`.
pub record Progress (O : Type 0) : Type 0 where
  pub current : Option (EetfTerm O)
  pub is_etf : Bool

module _ {O : Type 0} (crate : Eetf O) where
  -- `existing_val.and_then(|val| EetfTerm::decode(val).ok())`
  abbrev pub decode_existing : Option Bytes → Option (EetfTerm O)
  decode_existing none = none
  decode_existing (some val) = crate.decode val

  -- An operand that is no term is skipped.
  abbrev pub process_operand : Progress O → Option (EetfTerm O) → Outcome (Progress O)
  process_operand progress none = returns progress
  process_operand progress (some operand) = do
    current ← process_eetf_merge_operation crate.eq progress.current operand
    returns (record { current = current; is_etf = true })

  unfoldable pub process_operands : Progress O → List Bytes → Outcome (Progress O)
  process_operands progress [] = returns progress
  process_operands progress (op ∷ ops) = do
    next ← process_operand progress (crate.decode op)
    process_operands next ops

  -- `result_eetf_term.encode(&mut buffer)`, if there is a term.
  abbrev pub encode_current : Option (EetfTerm O) → Option Bytes
  encode_current none = none
  encode_current (some term) = crate.encode term

  abbrev pub encoded : Progress O → Option Bytes
  encoded progress = elim progress.is_etf [ true ↦ encode_current progress.current | false ↦ none ]

  -- The same statements as in `counter_merge`, for operands that are no terms.
  unfoldable pub counter_fallback : Option Bytes → List Bytes → Bytes
  unfolding initial add_operands to_string
  counter_fallback existing_val operands = to_string (add_operands (initial existing_val) operands)

  abbrev pub or_fallback : Option Bytes → Option Bytes → List Bytes → Option Bytes
  or_fallback (some buffer) existing_val operands = some buffer
  or_fallback none existing_val operands = some (counter_fallback existing_val operands)

  unfoldable pub erlang_merge : Bytes → Option Bytes → List Bytes → Outcome (Option Bytes)
  unfolding process_operands counter_fallback
  erlang_merge key existing_val operands = do
    progress ←
        process_operands (record { current = decode_existing existing_val; is_etf = false })
          operands
    returns (or_fallback (encoded progress) existing_val operands)
