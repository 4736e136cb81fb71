-- ===== src/Prelude/Chain.antt =====
-- Rust's `?` on a result whose errors are all the same.
use mathlib.Core.Path.{◌≡◌, refl}
use mathlib.Core.Option.{Option, none, some}
use mathlib.Core.List.{List, [], ◌∷◌}

module _ {ℓ κ} {A : Type ℓ} {B : Type κ} where
  infixl 5 ◌>>=◌
  abbrev pub ◌>>=◌ : Option A → (A → Option B) → Option B
  none >>= f = none
  some a >>= f = f a

  -- A chain that finds something is two steps that do.
  pub >>=-eq-some :
      (first : Option A) (next : A → Option B) {result : B}
      → (first >>= next) ≡ some result
      → (middle : A) × (first ≡ some middle) × (next middle ≡ some result)
  >>=-eq-some none next returned = cc
  >>=-eq-some (some middle) next returned = (middle, refl, returned)

-- `iterator.map(f).collect()` into a result: all, or nothing at the first failure.
unfoldable pub collect {ℓ κ} : {A : Type ℓ} {B : Type κ} → (A → Option B) → List A → Option (List B)
collect f [] = some []
collect f (x ∷ xs) = f x >>= λ y. collect f xs >>= λ ys. some (y ∷ ys)
