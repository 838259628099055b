-- ===== src/Kernel/Crunch/Overruns.antt =====
-- What a row of overruns does to the crunch loop.
use sputter_os.Prelude.{
  subst, ℕ, zero, suc, ◌+◌, ◌≤◌, ◌<◌, true, false, ◌≡◌, refl, ◌∙◌, ap, sym, arith, Option, none,
  some, leb, leb→le, ◌⊎◌, Bool-cases, inl, inr, lt→ltb,
}
use sputter_os.Kernel.Crunch.{
  CrunchState, Hooks, Dispatcher, Round, again, done, inc32, account, timed_crunch, crunch_round,
  keeps_running, after_round, crunch_loop, run_loop, abort_crunch,
}

module _ {F W : Type 0} (hooks : Hooks F W) (to_float : ℕ → F) (max_overruns core_id : ℕ)
    (limited : 0 < max_overruns) (narrow : max_overruns < 4294967296) where
  -- An overrun below the limit is counted, and the one that reaches it ends the loop.
  account_over :
      (started elapsed : ℕ) (d : Dispatcher F W)
      → hooks.max_iteration_us d.shared.world < elapsed
      → d.consecutive_overruns < max_overruns
      → let (round, d') = account hooks to_float max_overruns core_id started elapsed d in
        (d'.consecutive_overruns ≡ d.consecutive_overruns + 1)
        × (((round ≡ again) × (d.consecutive_overruns + 1 < max_overruns))
            ⊎ ((round ≡ done) × (d.consecutive_overruns + 1 ≡ max_overruns)))
  unfolding account
  account_over started elapsed d over below =
      let c = d.consecutive_overruns in
      let e : inc32 c ≡ c + 1 = omega arith in
      elim (Bool-cases (leb max_overruns (c + 1))) [
        | inl full ↦
            rw (lt→ltb _ elapsed over, lt→ltb 0 max_overruns limited, e, full)
              (refl, inr (refl, omega (arith, leb→le max_overruns (c + 1) full)))
        | inr room ↦
            rw (lt→ltb _ elapsed over, lt→ltb 0 max_overruns limited, e, room)
              (refl, inl (refl, ground arith))
      ]

  crunch_round_aborted :
      (d : Dispatcher F W)
      → hooks.is_aborted d.shared.world ≡ true
      → crunch_round hooks to_float max_overruns core_id d
        ≡ (done, record d { shared = abort_crunch hooks to_float max_overruns core_id d.shared })
  unfolding crunch_round
  crunch_round_aborted d a = rw (crunch_round, a)

  crunch_round_going :
      (d : Dispatcher F W)
      → hooks.is_aborted d.shared.world ≡ false
      → let ((t, elapsed), s) = timed_crunch hooks to_float max_overruns core_id d.shared in
        crunch_round hooks to_float max_overruns core_id d
        ≡ account hooks to_float max_overruns core_id t elapsed (record d { shared = s })
  unfolding crunch_round
  crunch_round_going d a = rw (crunch_round, a)

  -- The loop behind its condition, on what the body returned.
  abbrev resume : ℕ → Round × Dispatcher F W → Option (Dispatcher F W)
  resume fuel r = after_round r.0 r.1 (crunch_loop hooks to_float max_overruns core_id fuel r.1)

  crunch_loop_step :
      (fuel : ℕ) (d : Dispatcher F W)
      → keeps_running hooks to_float max_overruns core_id d.shared ≡ true
      → crunch_loop hooks to_float max_overruns core_id (suc fuel) d
        ≡ resume fuel (crunch_round hooks to_float max_overruns core_id d)
  unfolding crunch_loop
  crunch_loop_step fuel d goes = rw goes

  -- Every iteration overruns, whatever the state it starts in.
  abbrev pub AlwaysOverruns : Type 0
  AlwaysOverruns =
      (s : CrunchState F W)
      → let ((t, elapsed), s') = timed_crunch hooks to_float max_overruns core_id s in
        hooks.max_iteration_us s'.world < elapsed

  -- A result with at most the permitted number of consecutive overruns.
  abbrev pub HasStopped : Option (Dispatcher F W) → Type 0
  HasStopped none = ⊥
  HasStopped (some d) = d.consecutive_overruns ≤ max_overruns

  crunch_loop-HasStopped :
      AlwaysOverruns
      → (fuel : ℕ) (d : Dispatcher F W) → d.consecutive_overruns < max_overruns
      → max_overruns ≤ d.consecutive_overruns + fuel
      → HasStopped (crunch_loop hooks to_float max_overruns core_id fuel d)
  unfolding crunch_loop
  crunch_loop-HasStopped always zero d below enough = absurd (omega arith)
  crunch_loop-HasStopped always (suc fuel) d below enough =
      let timed = timed_crunch hooks to_float max_overruns core_id d.shared in
      let d0 = record d { shared = timed.1 } in
      let next = account hooks to_float max_overruns core_id timed.0.0 timed.0.1 d0 in
      let (grown, ends) = account_over timed.0.0 timed.0.1 d0 (always d.shared) below in
      elim (Bool-cases (keeps_running hooks to_float max_overruns core_id d.shared)) [
        | inr stops ↦ rw stops (omega arith)
        | inl goes ↦
            let step = crunch_loop_step fuel d goes in
            elim (Bool-cases (hooks.is_aborted d.shared.world)) [
              | inl a ↦
                  subst HasStopped (sym (step ∙ ap (resume fuel) (crunch_round_aborted d a)))
                    (omega arith)
              | inr a ↦
                  subst HasStopped (sym (step ∙ ap (resume fuel) (crunch_round_going d a)))
                    (elim ends [
                      | inl (e, room) ↦
                          rw e
                            (crunch_loop-HasStopped always fuel next.1 (omega arith) (omega arith))
                      | inr (e, full) ↦ rw e (omega arith)
                    ])
            ]
      ]

  -- With a limit on consecutive overruns, a crunch task that overruns in every iteration cannot keep
  -- its core: the loop returns after at most as many iterations as the limit, whatever the kernel's
  -- state, the stop conditions and the other cores do, and never counts more in a row than the limit.
  pub run_loop_ends :
      AlwaysOverruns
      → (fuel : ℕ) (s : CrunchState F W) → max_overruns ≤ fuel
      → HasStopped (run_loop hooks to_float max_overruns core_id fuel s)
  unfolding run_loop
  run_loop_ends always fuel s enough = elim (Bool-cases (hooks.is_aborted s.world)) [
    | inl a ↦ rw a (omega arith)
    | inr a ↦ rw a (
        crunch_loop-HasStopped always fuel
          (record { shared = s; consecutive_overruns = 0; total_overruns = 0 }) limited
          (omega arith))
  ]
