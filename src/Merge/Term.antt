-- ===== src/Merge/Term.antt =====
-- The terms of the `eetf` crate as far as native/rocker/src/merge.rs names them, and what the code
-- takes from the crate: `Term::decode`, `Term::encode` and the equality of terms.
use ex_rocket.Prelude.{◌≡◌, refl, ap, Bool, Option, List, [], ◌∷◌, String}
use ex_rocket.Prelude.Int.{ℤ}
use ex_rocket.Text.Utf8.{Bytes}

-- `other` stands for the constructors of `eetf::Term` that the code never names (floats, pids,
-- maps and so on), with their content in `O`.
mutual
  pub data EetfTerm (O : Type 0) : Type 0 where
    atom : String → EetfTerm O
    fix_integer : ℤ → EetfTerm O
    big_integer : ℤ → EetfTerm O
    binary : Bytes → EetfTerm O
    list : Terms O → EetfTerm O
    tuple : Terms O → EetfTerm O
    other : O → EetfTerm O

  -- `Vec<Term>`
  pub data Terms (O : Type 0) : Type 0 where
    nil : Terms O
    cons : EetfTerm O → Terms O → Terms O

module _ {O : Type 0} where
  abbrev pub elements : Terms O → List (EetfTerm O)
  elements nil = []
  elements (cons t ts) = t ∷ elements ts

  abbrev pub of_elements : List (EetfTerm O) → Terms O
  of_elements [] = nil
  of_elements (t ∷ ts) = cons t (of_elements ts)

  pub elements-of_elements : (ts : List (EetfTerm O)) → elements (of_elements ts) ≡ ts
  elements-of_elements [] = refl
  elements-of_elements (t ∷ ts) = ap (◌∷◌ t) (elements-of_elements ts)

  pub of_elements-elements : (ts : Terms O) → of_elements (elements ts) ≡ ts
  of_elements-elements nil = refl
  of_elements-elements (cons t ts) = ap (cons t) (of_elements-elements ts)

-- The parts of the crate that the code calls.
pub record Eetf (O : Type 0) : Type 0 where
  pub decode : Bytes → Option (EetfTerm O)
  pub encode : EetfTerm O → Option Bytes
  pub eq : EetfTerm O → EetfTerm O → Bool
