-- ===== src/Kernel/Metrics/Deadline/Laws.antt =====
-- A task's deadlines stay on the grid of its period, and the tracker skips just the ones it missed.
use sputter_os.Prelude.{
  ap, ℕ, zero, suc, ◌+◌, ◌*◌, ◌≤◌, ◌<◌, ◌≡◌, ◌⊎◌, inl, inr, refl, arith, none, some, Bool-cases,
  leb→le, leb, true, false,
}
use sputter_os.Kernel.Metrics.Deadline.{
  DeadlineTracker, wrap64, is_due, skip_missed, advance, time_until_next,
}

wrap64_small : (n : ℕ) → n < 18446744073709551616 → wrap64 n ≡ n
wrap64_small n h = omega arith

-- The last deadline that was missed is not after `now`, unless none was.
abbrev pub Skipped : ℕ → ℕ → ℕ → ℕ → ℕ → Type 0
Skipped period now next k next' =
    (next' ≡ next + k * period) × (now < next') × ((next' ≡ next) ⊎ (next' ≤ now + period))

skip_missed_lem :
    (fuel period now next : ℕ)
    → 0 < period
    → now + period < 18446744073709551616
    → now < next + fuel
    → (next' : ℕ) × (k : ℕ) × (skip_missed (suc fuel) period now next ≡ some next')
      × Skipped period now next k next'
unfolding skip_missed
skip_missed_lem zero period now next hp hw hf =
    let e : leb next now ≡ false = ground arith in
    (next, 0, rw e refl, (omega arith, omega arith, inl refl))
skip_missed_lem (suc fuel) period now next hp hw hf = elim (Bool-cases (leb next now)) [
  | inl e ↦
      let le = leb→le next now e in
      let (next', k, run, (grid, late, early)) =
        skip_missed_lem fuel period now (next + period) hp hw (omega arith) in
      (
        next',
        suc k,
        rw e (rw (wrap64_small (next + period) (omega arith)) run),
        (grind arith, late, inr (elim early [ inl a ↦ omega arith | inr b ↦ b ])),
      )
  | inr e ↦ (next, 0, rw e refl, (omega arith, ground arith, inl refl))
]

-- Where a period is positive and neither the deadline nor the present lies within a period of the end
-- of 64-bit time, `advance` ends. It moves the deadline by whole periods, at least one, to after `now`;
-- and no further than one period, or than one period after `now` if the task is late.
pub advance_on_grid :
    (t : DeadlineTracker) (now : ℕ)
    → 0 < t.period_us
    → t.next_activation + t.period_us < 18446744073709551616
    → now + t.period_us < 18446744073709551616
    → (t' : DeadlineTracker) × (k : ℕ) × (advance (suc now) t now ≡ some t')
      × (t' ≡ record t { next_activation = t.next_activation + suc k * t.period_us })
      × (is_due t' now ≡ false)
      × (0 < time_until_next t' now)
      × ((t'.next_activation ≡ t.next_activation + t.period_us)
          ⊎ (time_until_next t' now ≤ t.period_us))
unfolding advance is_due time_until_next
advance_on_grid t now hp hn hw =
    let (next', k, run, (grid, late, early)) =
      skip_missed_lem now t.period_us now (t.next_activation + t.period_us) hp hw (omega arith) in
    let run' : advance (suc now) t now ≡ some (record t { next_activation = next' }) =
      rw (advance, wrap64_small (t.next_activation + t.period_us) hn, run) refl in
    let grid' : next' ≡ t.next_activation + suc k * t.period_us = grind arith in
    (
      record t { next_activation = next' },
      k,
      run',
      ap (λ n. record t { next_activation = n }) grid',
      ground arith,
      ground arith,
      elim early [ inl a ↦ inl a | inr b ↦ inr (ground arith) ],
    )

skip_missed_stuck :
    (fuel now next : ℕ)
    → next ≤ now
    → now < 18446744073709551616
    → skip_missed fuel 0 now next ≡ none
unfolding skip_missed
skip_missed_stuck zero now next h hw = refl
skip_missed_stuck (suc fuel) now next h hw =
    let e : leb next now ≡ true = ground arith in
    rw e (
      rw (wrap64_small (next + 0) (omega arith))
        (skip_missed_stuck fuel now (next + 0) (omega arith) hw))

-- A period of 0 with a deadline that has been reached keeps the loop of `advance` going for ever.
pub advance_stuck :
    (fuel : ℕ) (t : DeadlineTracker) (now : ℕ)
    → t.period_us ≡ 0
    → t.next_activation ≤ now
    → now < 18446744073709551616
    → advance fuel t now ≡ none
unfolding advance
advance_stuck fuel t now hp hn hw =
    let stuck = skip_missed_stuck fuel now (t.next_activation + 0) (omega arith) hw in
    rw (advance, hp, wrap64_small (t.next_activation + 0) (omega arith)) (rw stuck refl)
