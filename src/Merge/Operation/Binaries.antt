-- ===== src/Merge/Operation/Binaries.antt =====
-- The operations on binaries.
use ex_rocket.Prelude.{
  ℕ, ◌+◌, ◌%◌, ◌^◌, ◌&&◌, Option, some, List, [], ◌∷◌, ◌++◌, length, leb, if◌then◌else◌,
}
use ex_rocket.Prelude.Int.{as_usize}
use ex_rocket.Text.Utf8.{Bytes}
use ex_rocket.Merge.Outcome.{returns, ◌>>=◌}
use ex_rocket.Merge.Term.{EetfTerm, fix_integer, binary}
use ex_rocket.Merge.Vector.{insert_each, drain}
use ex_rocket.Merge.Operation.Lists.{Result}

-- `start_pos + erase_count` in usize.
abbrev pub add_usize : ℕ → ℕ → ℕ
add_usize a b = (a + b) % 2 ^ 64

module _ {O : Type 0} where
  -- A missing value and a value of another kind count as the empty binary.
  abbrev pub existing_binary : Option (EetfTerm O) → Bytes
  existing_binary (some (binary bytes)) = bytes
  existing_binary _ = []

  abbrev pub return_binary : Bytes → Result O
  return_binary bytes = returns (some (binary bytes))

  unfoldable pub binary_append : Option (EetfTerm O) → EetfTerm O → Result O
  binary_append existing (binary append_binary) =
      return_binary (existing_binary existing ++ append_binary)
  binary_append existing _ = returns existing

  -- `if start_pos <= len && end_pos <= len { bytes.drain(start_pos..end_pos) }`
  unfoldable pub erase_bytes : Bytes → ℕ → ℕ → Result O
  unfolding drain
  erase_bytes bytes start_pos end_pos =
      if leb start_pos (length bytes) && leb end_pos (length bytes)
      then (do left ← drain start_pos end_pos bytes; return_binary left)
      else return_binary bytes

  unfoldable pub binary_erase : Option (EetfTerm O) → EetfTerm O → List (EetfTerm O) → Result O
  unfolding as_usize erase_bytes
  binary_erase existing (fix_integer position) (fix_integer count ∷ rest) =
      let start_pos = as_usize position in
      erase_bytes (existing_binary existing) start_pos (add_usize start_pos (as_usize count))
  binary_erase existing _ _ = returns existing

  unfoldable pub binary_insert : Option (EetfTerm O) → EetfTerm O → List (EetfTerm O) → Result O
  unfolding as_usize insert_each
  binary_insert existing (fix_integer position) (binary insert_binary ∷ rest) =
      let bytes = existing_binary existing in
      let insert_pos = as_usize position in
      if leb insert_pos (length bytes)
      then (do left ← insert_each insert_pos insert_binary bytes; return_binary left)
      else return_binary bytes
  binary_insert existing _ _ = returns existing

  -- The range is drained, and the replacement is put in its place byte by byte.
  unfoldable pub replace_bytes : Bytes → ℕ → ℕ → Bytes → Result O
  unfolding drain insert_each
  replace_bytes bytes start_pos end_pos replacement =
      if leb start_pos (length bytes) && leb end_pos (length bytes)
      then (do
        left ← drain start_pos end_pos bytes
        new ← insert_each start_pos replacement left
        return_binary new)
      else return_binary bytes

  unfoldable pub binary_replace : Option (EetfTerm O) → EetfTerm O → List (EetfTerm O) → Result O
  unfolding as_usize replace_bytes
  binary_replace existing (fix_integer position) (fix_integer count ∷ binary replacement ∷ rest) =
      let start_pos = as_usize position in
      replace_bytes (existing_binary existing) start_pos (add_usize start_pos (as_usize count))
        replacement
  binary_replace existing _ _ = returns existing
