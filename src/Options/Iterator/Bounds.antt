-- ===== src/Options/Iterator/Bounds.antt =====
-- What `IteratorTakeOptions::decode` accepts.
use text.Mathlib.Text.{◌==◌ as str_eq}
use ex_rocket.Prelude.{
  ℕ, ◌≤◌, ◌<◌, ◌≡◌, subst, Option, none, some, String, arith, Bool-cases, inl, inr,
}
use ex_rocket.Prelude.Result.{ok, err, ◌>>=◌, ok_or, >>=-eq-ok, ok_or-eq-ok}
use ex_rocket.Options.Rustler.{Rustler, fold_entries, fold_entries_inv}
use ex_rocket.Options.Iterator.{
  IteratorTakeOptions, invalid, unknown, Limits, within, entry_for, entry, decode,
  max_entries_limit, max_bytes_limit,
}

-- The ranges of the two limits; a limit that is not given is in range.
abbrev pub InRange : ℕ → Option ℕ → Type 0
InRange limit none = Unit
InRange limit (some n) = (0 < n) × (n ≤ limit)

pub record LimitsInRange (limits : Limits) : Type 0 where
  pub entries : InRange max_entries_limit limits.max_entries
  pub bytes : InRange max_bytes_limit limits.max_bytes

within-InRange : (limit : ℕ) (o : Option ℕ) (n : ℕ) → within limit o ≡ ok n → (0 < n) × (n ≤ limit)
within-InRange limit none n h = cc
within-InRange limit (some d) n h = ground arith

store_InRange :
    (limit : ℕ) (o : Option ℕ) (store : ℕ → Limits) (next : Limits)
    → ((n : ℕ) → (0 < n) × (n ≤ limit) → LimitsInRange (store n))
    → (within limit o >>= λ n. ok (store n)) ≡ ok next
    → LimitsInRange next
store_InRange limit o store next keep h =
    let (n, e, rest) = >>=-eq-ok (within limit o) (λ n. ok (store n)) h in
    let same : store n ≡ next = cc in subst LimitsInRange same (keep n (within-InRange limit o n e))

accepted :
    (limits : Limits) (n : ℕ) (options : IteratorTakeOptions)
    → LimitsInRange limits
    → limits.max_entries ≡ some n
    → ◌≡◌ {A = IteratorTakeOptions}
        (record { max_entries = n; max_bytes = limits.max_bytes })
        options
    → (0 < options.max_entries)
      × (options.max_entries ≤ max_entries_limit)
      × InRange max_bytes_limit options.max_bytes
accepted limits n options p g h =
    let range : (0 < n) × (n ≤ max_entries_limit) = subst (InRange max_entries_limit) g p.entries in
    subst
      (λ (o : IteratorTakeOptions).
        (0 < o.max_entries)
        × (o.max_entries ≤ max_entries_limit)
        × InRange max_bytes_limit o.max_bytes)
      h (range.0, range.1, p.bytes)

abbrev no_limits : Limits
no_limits = record { max_entries = none; max_bytes = none }

module _ (r : Rustler) where
  open r use {Term, map_entries, atom_to_string, decode_usize}

  entry_for-InRange :
      (limits : Limits) (key : String) (value : Term) (next : Limits)
      → LimitsInRange limits
      → entry_for r limits key value ≡ ok next
      → LimitsInRange next
  entry_for-InRange limits key value next p h = elim (Bool-cases (str_eq key "max_entries")) [
    | inl e ↦
        store_InRange max_entries_limit (decode_usize value)
          (λ n. record limits { max_entries = some n }) next
          (λ n b. record { entries = b; bytes = p.bytes }) (rw e at h)
    | inr ne ↦ elim (Bool-cases (str_eq key "max_bytes")) [
      | inl e ↦
          store_InRange max_bytes_limit (decode_usize value)
            (λ n. record limits { max_bytes = some n }) next
            (λ n b. record { entries = p.entries; bytes = b }) (rw (ne, e) at h)
      | inr other ↦ let impossible : err (unknown key) ≡ ok next = rw (ne, other) at h in cc
    ]
  ]

  entry-InRange :
      (limits : Limits) (x : Term × Term) (next : Limits)
      → LimitsInRange limits
      → entry r limits x ≡ ok next
      → LimitsInRange next
  entry-InRange limits (key, value) next p h =
      let (name, e, rest) =
        >>=-eq-ok (ok_or (atom_to_string key) invalid) (λ n. entry_for r limits n value) h in
      entry_for-InRange limits name value next p rest

  -- Accepted options take at least one and at most 100,000 entries, and at least one byte and at
  -- most 64 MiB where a number of bytes is given.
  pub decode-InRange :
      (term : Term) (options : IteratorTakeOptions)
      → decode r term ≡ ok options
      → (0 < options.max_entries)
        × (options.max_entries ≤ max_entries_limit)
        × InRange max_bytes_limit options.max_bytes
  unfolding decode
  decode-InRange term options h =
      let (entries, e, h1) = >>=-eq-ok (ok_or (map_entries term) invalid) _ h in
      let (limits, f, h2) = >>=-eq-ok (fold_entries (entry r) no_limits entries) _ h1 in
      let (n, g, h3) = >>=-eq-ok (ok_or limits.max_entries invalid) _ h2 in
      let inv =
        fold_entries_inv LimitsInRange (entry r) entry-InRange no_limits entries limits
          (record { entries = tt; bytes = tt }) f in
      accepted limits n options inv (ok_or-eq-ok limits.max_entries invalid g) (cc)
