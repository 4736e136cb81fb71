-- ===== src/Nif/Locking/Release.antt =====
-- That the guards of the lock are given back.
use ex_rocket.Prelude.{
  ℕ, zero, suc, ◌+◌, ◌*◌, ◌<◌, ◌≤◌, ◌≡◌, ◌⊎◌, refl, Bool, true, false, arith, Option-cases, inl,
  inr,
}
use ex_rocket.Nif.Rocks.{Rocks}
use ex_rocket.Nif.Lifecycle.Invariant.{one_if}
use ex_rocket.Nif.Locking.{
  State, Step, finds_open, finds_closed, unlocks_read, unlocks_leased, finds_open_write,
  finds_closed_write, unlocks_write, closes_closed, closes_busy, checks, takes, unlocks_close,
  Reachable, steps,
}
use ex_rocket.Nif.Locking.Invariant.{Inv, Reachable-Inv}

ℕ-cases : (n : ℕ) → (n ≡ 0) ⊎ ((m : ℕ) × (n ≡ suc m))
ℕ-cases zero = inl refl
ℕ-cases (suc n) = inr (n, refl)

-- There is no thread at a point, or there is one.
at_point : {A : Type 0} (n : ℕ) → ((m : ℕ) → n ≡ suc m → A) → (n ≡ 0 → A) → A
at_point zero one no_one = no_one refl
at_point (suc n) one no_one = one n refl

module _ (rocks : Rocks) where
  -- `n` steps in a row.
  pub data Run : ℕ → State rocks → State rocks → Type 0 where
    ends : {s : State rocks} → Run 0 s s
    goes : {n : ℕ} {s s' s'' : State rocks} → Step rocks s s' → Run n s' s'' → Run (suc n) s s''

  -- The steps that the threads at each point are away from the end of their guard.
  abbrev pub steps_left : State rocks → ℕ
  steps_left s =
      2 * s.locked
      + s.reading
      + s.leased
      + 2 * s.write_locked
      + s.writing
      + 3 * s.closing
      + 2 * s.checked
      + s.emptied

  -- A step that brings a thread nearer to the end.
  Nearer : State rocks → Type 0
  Nearer s = (s' : State rocks) × Step rocks s s' × (steps_left s' < steps_left s)

  module _ (s : State rocks) (v : Inv rocks s) where
    locked-Nearer : (n : ℕ) → s.locked ≡ suc n → Nearer s
    unfolding Nearer
    locked-Nearer n at = elim (Option-cases s.resource.db) [
      | inl e ↦ elim (ℕ-cases s.readers) [
        | inl free ↦ absurd (ground (arith, v, at, free))
        | inr (m, guards) ↦ (_, finds_closed n m at guards e, omega (arith, at))
      ]
      | inr (db, e) ↦ (_, finds_open n db at e, omega (arith, at))
    ]

    reading-Nearer : (n : ℕ) → s.reading ≡ suc n → Nearer s
    unfolding Nearer
    reading-Nearer n at = elim (ℕ-cases s.readers) [
      | inl free ↦ absurd (ground (arith, v, at, free))
      | inr (m, guards) ↦ (_, unlocks_read n m at guards, omega (arith, at))
    ]

    leased-Nearer : (n : ℕ) → s.leased ≡ suc n → Nearer s
    unfolding Nearer
    leased-Nearer n at = elim (ℕ-cases s.readers) [
      | inl free ↦ absurd (ground (arith, v, at, free))
      | inr (m, guards) ↦ (_, unlocks_leased n m at guards, omega (arith, at))
    ]

    write_locked-Nearer : (n : ℕ) → s.write_locked ≡ suc n → Nearer s
    unfolding Nearer
    write_locked-Nearer n at = elim (Option-cases s.resource.db) [
      | inl e ↦ (_, finds_closed_write n at e, omega (arith, at))
      | inr (db, e) ↦ (_, finds_open_write n db at e, omega (arith, at))
    ]

    closing-Nearer : (n : ℕ) → s.closing ≡ suc n → Nearer s
    unfolding Nearer
    closing-Nearer n at = elim (Option-cases s.resource.db) [
      | inl e ↦ (_, closes_closed n at e, omega (arith, at))
      | inr (db, e) ↦ elim (ℕ-cases s.resource.leases) [
        | inl idle ↦ (_, checks n db at e idle, omega (arith, at))
        | inr (m, held) ↦
            (_, closes_busy n db at e (λ idle. omega (arith, held, idle)), omega (arith, at))
      ]
    ]

    -- As long as there is a guard there is a thread that can go on.
    nearer : 0 < s.readers + one_if s.writer → Nearer s
    unfolding Nearer
    nearer held = at_point s.locked locked-Nearer λ e1. at_point s.reading reading-Nearer λ e2.
        at_point s.leased leased-Nearer λ e3. at_point s.write_locked write_locked-Nearer λ e4.
          at_point s.closing closing-Nearer λ e5.
            at_point s.writing (λ n at. (_, unlocks_write n at, omega (arith, at)))
              λ e6.
                at_point s.checked (λ n at. (_, takes n at, omega (arith, at)))
                  λ e7.
                    at_point s.emptied (λ n at. (_, unlocks_close n at, omega (arith, at)))
                      λ e8. absurd (ground (arith, v, held, e1, e2, e3, e4, e5, e6, e7, e8))

  -- That steps which are at most those left lead to a state where the lock is free.
  abbrev pub Released : State rocks → Type 0
  Released s =
      (s' : State rocks) × (n : ℕ) × (n ≤ steps_left s)
      × Run n s s'
      × (s'.readers ≡ 0)
      × (s'.writer ≡ false)

  free_lem : (writer : Bool) → one_if writer ≡ 0 → writer ≡ false
  free_lem false h = refl
  free_lem true h = cc

  after_step :
      (s s' : State rocks)
      → Step rocks s s'
      → steps_left s' < steps_left s
      → Released s'
      → Released s
  after_step s s' step less (s'', n, most, run, free, open_lock) =
      (s'', suc n, omega (arith, less, most), goes step run, free, open_lock)

  Released-now : (s : State rocks) → s.readers + one_if s.writer ≡ 0 → Released s
  Released-now s free =
      (s, 0, omega arith, ends, omega (arith, free), free_lem s.writer (omega (arith, free)))

  release : (fuel : ℕ) (s : State rocks) → Reachable rocks s → steps_left s ≤ fuel → Released s
  unfolding Nearer
  release zero s reached enough =
      at_point (s.readers + one_if s.writer)
        (λ m held.
          let (s', step, less) = nearer s (Reachable-Inv rocks s reached) (omega (arith, held)) in
          absurd (omega (arith, less, enough)))
        (Released-now s)
  release (suc fuel) s reached enough =
      at_point (s.readers + one_if s.writer)
        (λ m held.
          let (s', step, less) = nearer s (Reachable-Inv rocks s reached) (omega (arith, held)) in
          after_step s s' step less
            (release fuel s' (steps reached step) (omega (arith, less, enough))))
        (Released-now s)

  -- In every state that can be reached there are steps, at most as many as the threads with a guard
  -- are away from the end of it, after which the lock is free: no interleaving ends in a deadlock.
  pub Reachable-Released : (s : State rocks) → Reachable rocks s → Released s
  Reachable-Released s reached = release (steps_left s) s reached (omega arith)
