-- ===== src/Merge/Operation/Integers.antt =====
-- The results of `int_add`, alone and in a row.
use ex_rocket.Prelude.{◌≡◌, ap, ◌∙◌, sym, subst, Option, some}
use ex_rocket.Prelude.Int.{ℤ, ◌+ℤ◌, +ℤ_assoc, +ℤ_comm, IsI32, wrap32}
use ex_rocket.Prelude.Int.Wrap.{wrap32-IsI32, wrap32_add_left, wrap32_add_right}
use ex_rocket.Merge.Outcome.{returns, ◌>>=◌}
use ex_rocket.Merge.Term.{EetfTerm, fix_integer}
use ex_rocket.Merge.Operation.Lists.{existing_int, int_add}

module _ {O : Type 0} where
  -- The result is an i32, also where the sum is not.
  int_add-IsI32 :
      (existing : Option (EetfTerm O)) (n z : ℤ)
      → int_add existing (fix_integer n) ≡ returns (some (fix_integer z))
      → IsI32 z
  unfolding int_add
  int_add-IsI32 existing n z h =
      let same : wrap32 (existing_int existing +ℤ n) ≡ z = cc in
      subst IsI32 same (wrap32-IsI32 (existing_int existing +ℤ n))

  -- Two additions in a row are one addition of the sum, wrapped once.
  pub int_add_twice :
      (existing : Option (EetfTerm O)) (m n : ℤ)
      → (int_add existing (fix_integer m) >>= λ v. int_add v (fix_integer n))
        ≡ int_add existing (fix_integer (wrap32 (m +ℤ n)))
  unfolding int_add
  int_add_twice existing m n =
      ap (λ (z : ℤ). returns (some (fix_integer z)))
        (wrap32_add_left (existing_int existing +ℤ m) n
          ∙ ap wrap32 (+ℤ_assoc (existing_int existing) m n)
          ∙ sym (wrap32_add_right (existing_int existing) (m +ℤ n)))

  -- Additions may be made in either order.
  pub int_add_comm :
      (existing : Option (EetfTerm O)) (m n : ℤ)
      → (int_add existing (fix_integer m) >>= λ v. int_add v (fix_integer n))
        ≡ (int_add existing (fix_integer n) >>= λ v. int_add v (fix_integer m))
  int_add_comm existing m n =
      int_add_twice existing m n
      ∙ ap (λ (z : ℤ). int_add existing (fix_integer (wrap32 z))) (+ℤ_comm m n)
      ∙ sym (int_add_twice existing n m)
