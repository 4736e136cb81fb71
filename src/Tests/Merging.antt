-- ===== src/Tests/Merging.antt =====
-- Counters and bitsets at concrete inputs.
use mathlib.Core.List.Perm
use ex_rocket.Prelude.{◌≡◌, refl, some, List, [], ◌∷◌, ◌++◌, arith}
use ex_rocket.Prelude.Int.{◌+ℤ◌, wrap64}
use ex_rocket.Text.Utf8.{Bytes}
use ex_rocket.Text.Number.{to_string, print_ℕ}
use ex_rocket.Merge.Counter.{counter_merge, initial}
use ex_rocket.Merge.Counter.Sum.{total, counter_merge-total}
use ex_rocket.Merge.Counter.Compose.{
  counter_merge-append, counter_merge-partial, counter_merge-perm,
}
use ex_rocket.Merge.Bitset.{bitset_merge, bytes_or_empty, set_bit}
use ex_rocket.Merge.Bitset.Bits.{test_bit}
use ex_rocket.Merge.Bitset.Effect.{perform_all, Holds, bitset_merge-Holds}
use ex_rocket.Merge.Bitset.Partial.{plus_lost}

abbrev key : Bytes
key = b'k' ∷ []

abbrev forty : Bytes
forty = b'4' ∷ b'0' ∷ []

abbrev two : Bytes
two = b'2' ∷ []

abbrev minus_three : Bytes
minus_three = b'-' ∷ b'3' ∷ []

counter_merge-total_example :
    counter_merge key (some forty) (two ∷ minus_three ∷ [])
    ≡ some (to_string (wrap64 (initial (some forty) +ℤ total (two ∷ minus_three ∷ []))))
counter_merge-total_example = counter_merge-total key (some forty) (two ∷ minus_three ∷ [])

counter_merge-append_example :
    counter_merge key (some (b'4' ∷ b'2' ∷ [])) (minus_three ∷ [])
    ≡ counter_merge key (some forty) ((two ∷ []) ++ (minus_three ∷ []))
unfolding counter_merge
counter_merge-append_example =
    counter_merge-append key (b'4' ∷ b'2' ∷ []) (some forty) (two ∷ []) (minus_three ∷ []) refl

counter_merge-partial_example :
    counter_merge key (some forty) ((two ∷ []) ++ ((b'-' ∷ b'1' ∷ []) ∷ (two ∷ [])))
    ≡ counter_merge key (some forty) ((two ∷ []) ++ ((two ∷ minus_three ∷ []) ++ (two ∷ [])))
unfolding counter_merge
counter_merge-partial_example =
    counter_merge-partial key (b'-' ∷ b'1' ∷ []) (some forty) (two ∷ []) (two ∷ minus_three ∷ [])
      (two ∷ []) refl

counter_merge-perm_example :
    counter_merge key (some forty) (two ∷ minus_three ∷ [])
    ≡ counter_merge key (some forty) (minus_three ∷ two ∷ [])
counter_merge-perm_example = counter_merge-perm key (some forty) (Perm.swap minus_three two [])

-- Positions 0 and 9 in, then 0 out.
abbrev commands : List Bytes
commands = (b'+' ∷ b'9' ∷ []) ∷ (b'-' ∷ b'0' ∷ []) ∷ []

bitset_merge-Holds_example :
    (v : Bytes) × (bitset_merge key (some (1 ∷ [])) commands ≡ some v)
    × Holds v (perform_all commands (test_bit (bytes_or_empty (some (1 ∷ [])))))
bitset_merge-Holds_example = bitset_merge-Holds key (some (1 ∷ [])) commands (omega arith, tt)

plus_lost_example :
    bitset_merge key (some (1 ∷ [])) ((0 ∷ 2 ∷ []) ∷ commands)
    ≡ bitset_merge key (some (1 ∷ [])) commands
unfolding bitset_merge set_bit print_ℕ
plus_lost_example =
    plus_lost key (some (1 ∷ [])) 9 (0 ∷ 2 ∷ []) commands (omega arith) refl (omega arith)
