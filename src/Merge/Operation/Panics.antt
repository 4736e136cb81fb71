-- ===== src/Merge/Operation/Panics.antt =====
-- When an operation panics.
use ex_rocket.Prelude.{
  ℕ, ◌≤◌, ◌<◌, ◌≡◌, ◌≢◌, ◌↔◌, Option, List, [], ◌∷◌, ◌++◌, ap, ◌∙◌, take, drop, le→leb, arith,
  length,
}
use ex_rocket.Prelude.Int.{as_usize}
use ex_rocket.Merge.Outcome.{returns, panics}
use ex_rocket.Merge.Vector.{insert_each, insert_each-splice, length_cut, splice_cut}
use ex_rocket.Merge.Term.{EetfTerm, fix_integer, binary}
use ex_rocket.Merge.Operation.Lists.{existing_list, delete_range, delete_one, list_delete}
use ex_rocket.Merge.Operation.Binaries.{
  add_usize, existing_binary, return_binary, erase_bytes, binary_erase, replace_bytes,
  binary_replace,
}

module _ {O : Type 0} where
  -- A deletion with an end in front of its start panics if the start is in the list; nothing else
  -- in `list_delete` does.
  pub delete_range-panics :
      (ts : List (EetfTerm O)) (start stop : ℕ)
      → (delete_range ts start stop ≡ panics) ↔ ((start < length ts) × (stop < start))
  unfolding delete_range
  delete_range-panics ts start stop = ground arith

  pub delete_one-returns : (ts : List (EetfTerm O)) (start : ℕ) → delete_one ts start ≢ panics
  unfolding delete_one
  delete_one-returns ts start = ground arith

  pub erase_bytes-panics :
      (bytes : List ℕ) (start stop : ℕ)
      → (erase_bytes {O = O} bytes start stop ≡ panics) ↔ ((start ≤ length bytes) × (stop < start))
  unfolding erase_bytes
  erase_bytes-panics bytes start stop = ground arith

  pub replace_bytes-returns :
      (bytes replacement : List ℕ) (start stop : ℕ)
      → start ≤ stop
      → stop ≤ length bytes
      → replace_bytes {O = O} bytes start stop replacement
        ≡ return_binary (take start bytes ++ (replacement ++ drop stop bytes))
  unfolding replace_bytes
  replace_bytes-returns bytes replacement start stop h k =
      let left = take start bytes ++ drop stop bytes in
      let gap : insert_each start replacement left
          ≡ returns (take start bytes ++ (replacement ++ drop stop bytes)) =
        insert_each-splice start replacement left (omega (arith, length_cut start stop bytes h k))
        ∙ ap returns (splice_cut start stop replacement bytes (omega arith)) in
      rw (
        le→leb start (length bytes) (omega arith),
        le→leb stop (length bytes) k,
        le→leb start stop h,
        gap,
      )

  pub replace_bytes-panics :
      (bytes replacement : List ℕ) (start stop : ℕ)
      → (replace_bytes {O = O} bytes start stop replacement ≡ panics)
        ↔ ((start ≤ length bytes) × (stop < start))
  unfolding replace_bytes
  replace_bytes-panics bytes replacement start stop =
      ground (arith, replace_bytes-returns bytes replacement start stop)

  -- The ranges on which each operation panics.
  abbrev pub BadDelete : Option (EetfTerm O) → EetfTerm O → List (EetfTerm O) → Type 0
  BadDelete existing (fix_integer p) (fix_integer q ∷ rest) =
      (as_usize p < length (existing_list existing)) × (as_usize q < as_usize p)
  BadDelete existing _ _ = ⊥

  abbrev pub BadErase : Option (EetfTerm O) → EetfTerm O → List (EetfTerm O) → Type 0
  BadErase existing (fix_integer p) (fix_integer n ∷ rest) =
      (as_usize p ≤ length (existing_binary existing))
      × (add_usize (as_usize p) (as_usize n) < as_usize p)
  BadErase existing _ _ = ⊥

  abbrev pub BadReplace : Option (EetfTerm O) → EetfTerm O → List (EetfTerm O) → Type 0
  BadReplace existing value (count ∷ binary replacement ∷ rest) =
      BadErase existing value (count ∷ [])
  BadReplace existing _ _ = ⊥

  pub list_delete-panics :
      (existing : Option (EetfTerm O)) (value : EetfTerm O) (rest : List (EetfTerm O))
      → (list_delete existing value rest ≡ panics) ↔ BadDelete existing value rest
  unfolding list_delete
  list_delete-panics existing (fix_integer p) (fix_integer q ∷ rest) =
      delete_range-panics (existing_list existing) (as_usize p) (as_usize q)
  list_delete-panics existing (fix_integer p) [] =
      (λ h. delete_one-returns (existing_list existing) (as_usize p) h, λ h. absurd h)
  list_delete-panics existing _ _ = ground arith

  pub binary_erase-panics :
      (existing : Option (EetfTerm O)) (value : EetfTerm O) (rest : List (EetfTerm O))
      → (binary_erase existing value rest ≡ panics) ↔ BadErase existing value rest
  unfolding binary_erase
  binary_erase-panics existing (fix_integer p) (fix_integer n ∷ rest) =
      erase_bytes-panics (existing_binary existing) (as_usize p)
        (add_usize (as_usize p) (as_usize n))
  binary_erase-panics existing _ _ = ground arith

  pub binary_replace-panics :
      (existing : Option (EetfTerm O)) (value : EetfTerm O) (rest : List (EetfTerm O))
      → (binary_replace existing value rest ≡ panics) ↔ BadReplace existing value rest
  unfolding binary_replace
  binary_replace-panics existing (fix_integer p) (fix_integer n ∷ binary replacement ∷ rest) =
      replace_bytes-panics (existing_binary existing) replacement (as_usize p)
        (add_usize (as_usize p) (as_usize n))
  binary_replace-panics existing _ _ = ground arith
