-- ===== src/Options/Write/Laws.antt =====
-- What `RockerWriteOptions::decode` accepts.
use text.Mathlib.Text.{◌==◌ as str_eq}
use text.Mathlib.TextEquality.{eq_iff}
use ex_rocket.Prelude.{
  ◌≡◌, refl, sym, ap, ◌∙◌, Bool, true, false, ◌&&◌, Option, some, List, [], ◌∷◌, String, arith,
  Option-cases, inl, inr, if◌then◌else◌,
}
use ex_rocket.Prelude.Result.{ok, err, ok_or, >>=-eq-ok, ok_or-eq-ok}
use ex_rocket.Options.Rustler.{Rustler, fold_entries}
use ex_rocket.Options.Write.{RockerWriteOptions, default, invalid, check, entry_for, entry, decode}

not_both : (k : String) → str_eq k "sync" ≡ true → str_eq k "disable_wal" ≡ false
not_both k h = let e : k ≡ "sync" = (eq_iff k "sync").0 h in rw e refl

module _ (r : Rustler) where
  open r use {Term, map_entries, atom_to_string, decode_bool}

  -- An entry for the option `name`, with a Boolean value.
  abbrev pub value_for : String → Option String → Option Bool → Bool → Bool
  value_for name (some key) (some value) old = if str_eq key name then value else old
  value_for name _ _ old = old

  -- The Boolean that the entries of a map give to `name`, and `old` if there is no such entry.
  abbrev pub value_of : String → Bool → List (Term × Term) → Bool
  value_of name old [] = old
  value_of name old ((key, value) ∷ rest) =
      value_of name (value_for name (atom_to_string key) (decode_bool value) old) rest

  entry-values :
      (options next : RockerWriteOptions) (key value : Term)
      → entry r options (key, value) ≡ ok next
      → (next.sync ≡ value_for "sync" (atom_to_string key) (decode_bool value) options.sync)
        × (next.disable_wal
            ≡ value_for "disable_wal" (atom_to_string key) (decode_bool value) options.disable_wal)
  entry-values options next key value h = elim (Option-cases (atom_to_string key)) [
    | inl e ↦ let refused : err invalid ≡ ok next = rw e at h in cc
    | inr (k, e) ↦
        let named : entry_for r options k value ≡ ok next = rw e at h in
        rw e (ground (arith, not_both k, named))
  ]

  fold_entries-values :
      (options next : RockerWriteOptions) (entries : List (Term × Term))
      → fold_entries (entry r) options entries ≡ ok next
      → (next.sync ≡ value_of "sync" options.sync entries)
        × (next.disable_wal ≡ value_of "disable_wal" options.disable_wal entries)
  unfolding fold_entries
  fold_entries-values options next [] h = ground arith
  fold_entries-values options next ((key, value) ∷ rest) h =
      let (middle, e, h') =
        >>=-eq-ok (entry r options (key, value)) (λ n. fold_entries (entry r) n rest) h in
      let (s, d) = entry-values options middle key value e in
      let (s', d') = fold_entries-values middle next rest h' in
      (
        s' ∙ ap (λ (b : Bool). value_of "sync" b rest) s,
        d' ∙ ap (λ (b : Bool). value_of "disable_wal" b rest) d,
      )

  check-ok :
      (options accepted : RockerWriteOptions)
      → check options ≡ ok accepted
      → (options ≡ accepted) × ((accepted.sync && accepted.disable_wal) ≡ false)
  check-ok options accepted h = ground arith

  -- Accepted options hold what the map gives, with both options off by default, and never ask for a
  -- synchronous write without the write-ahead log.
  pub decode-ok :
      (term : Term) (options : RockerWriteOptions)
      → decode r term ≡ ok options
      → (entries : List (Term × Term)) × (map_entries term ≡ some entries)
        × (options.sync ≡ value_of "sync" false entries)
        × (options.disable_wal ≡ value_of "disable_wal" false entries)
        × ((options.sync && options.disable_wal) ≡ false)
  unfolding decode
  decode-ok term options h =
      let (entries, e, h1) = >>=-eq-ok (ok_or (map_entries term) invalid) _ h in
      let (folded, f, h2) = >>=-eq-ok (fold_entries (entry r) default entries) check h1 in
      let (same, both) = check-ok folded options h2 in
      let (s, d) = fold_entries-values default folded entries f in
      (
        entries,
        ok_or-eq-ok (map_entries term) invalid e,
        sym (ap (λ (o : RockerWriteOptions). o.sync) same) ∙ s,
        sym (ap (λ (o : RockerWriteOptions). o.disable_wal) same) ∙ d,
        both,
      )
