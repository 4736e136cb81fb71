-- ===== src/Options/Rustler.antt =====
-- What the option decoders take from the `rustler` crate: an Erlang term is opaque, and is read by
-- the crate's functions. The loop over the entries of a map is the same in all decoders.
use mathlib.Core.List.{Memᴰ}
use mathlib.Core.List.Memᴰ as Member
use ex_rocket.Prelude.{ℕ, ◌≡◌, refl, subst, ap, ◌∙◌, inl, inr, Bool, Option, List, [], ◌∷◌, String}
use ex_rocket.Prelude.Result.{Result, ok, err, Result-cases, ◌>>=◌, >>=-eq-ok}
use ex_rocket.Prelude.Int.{ℤ}
use ex_rocket.Text.Utf8.{Bytes, Chars}

pub record Rustler : Type 1 where
  pub Term : Type 0
  -- `MapIterator::new`: the entries of a map, and `none` for a term that is no map.
  pub map_entries : Term → Option (List (Term × Term))
  pub atom_to_string : Term → Option String
  pub decode_bool : Term → Option Bool
  pub decode_usize : Term → Option ℕ
  pub decode_u32 : Term → Option ℕ
  pub decode_u64 : Term → Option ℕ
  pub decode_i32 : Term → Option ℤ
  pub decode_i64 : Term → Option ℤ
  pub Float : Type 0
  pub decode_f64 : Term → Option Float
  pub decode_string : Term → Option Chars
  pub decode_binary : Term → Option Bytes
  -- `decode::<ListIterator>` of a proper list, and `get_tuple`: the terms inside.
  pub decode_list : Term → Option (List Term)
  pub get_tuple : Term → Option (List Term)

-- `for (key, value) in iterator { … }`, left by the first error.
unfoldable pub fold_entries {ℓ κ ι} :
    {T : Type ℓ} {S : Type κ} {E : Type ι} → (S → T → Result E S) → S → List T → Result E S
fold_entries entry s [] = ok s
fold_entries entry s (x ∷ xs) = entry s x >>= λ next. fold_entries entry next xs

-- What every entry keeps, the loop keeps.
pub fold_entries_inv {ℓ κ ι ν} :
    {T : Type ℓ} {S : Type κ} {E : Type ι} (P : S → Type ν) (entry : S → T → Result E S)
    → ((s : S) (x : T) (t : S) → P s → entry s x ≡ ok t → P t)
    → (s : S) (xs : List T) (t : S) → P s
    → fold_entries entry s xs ≡ ok t
    → P t
unfolding fold_entries
fold_entries_inv P entry keep s [] t p h = let same : s ≡ t = cc in subst P same p
fold_entries_inv P entry keep s (x ∷ xs) t p h =
    let (next, e, rest) = >>=-eq-ok (entry s x) (λ n. fold_entries entry n xs) h in
    fold_entries_inv P entry keep next xs t (keep s x next p e) rest

-- The loop left by an error: an entry is refused, in the state that the entries before it left.
pub fold_entries-err {ℓ κ ι} :
    {T : Type ℓ} {S : Type κ} {E : Type ι} (entry : S → T → Result E S) (s : S) (xs : List T)
    (e : E)
    → fold_entries entry s xs ≡ err e
    → (x : T) × Memᴰ x xs × (s' : S) × (entry s' x ≡ err e)
unfolding fold_entries
fold_entries-err entry s [] e h = cc
fold_entries-err entry s (x ∷ xs) e h = elim (Result-cases (entry s x)) [
  | inl (next, eq) ↦
      let later : fold_entries entry next xs ≡ err e = rw eq at h in
      let (y, m, s', refused) = fold_entries-err entry next xs e later in
      (y, Member.tail m, s', refused)
  | inr (refusal, eq) ↦
      let now : err refusal ≡ err e = rw eq at h in
      let same : refusal ≡ e = cc in (x, Member.head refl, s, eq ∙ ap err same)
]

-- The loop that ends: each entry was accepted, in some state.
pub fold_entries-ok {ℓ κ ι} :
    {T : Type ℓ} {S : Type κ} {E : Type ι} (entry : S → T → Result E S) (s : S) (xs : List T)
    {x : T} {t : S}
    → fold_entries entry s xs ≡ ok t
    → Memᴰ x xs
    → (before : S) × (after : S) × (entry before x ≡ ok after)
unfolding fold_entries
fold_entries-ok entry s [] h m = elim m [ ]
fold_entries-ok entry s (y ∷ ys) h m =
    let (next, e, rest) = >>=-eq-ok (entry s y) (λ n. fold_entries entry n ys) h in
    elim m [
      | Member.head same ↦ (s, next, ap (entry s) same ∙ e)
      | Member.tail later ↦ fold_entries-ok entry next ys rest later
    ]
