-- ===== src/Kernel/Dispatch/Starvation.antt =====
-- The background ring: its bounds, and what the budget test does to a task that does not fit.
use sputter_os.Prelude.{
  ℕ, zero, suc, ◌+◌, ◌-◌, ◌%◌, ◌<◌, ◌≡◌, refl, arith, ◌∙◌, Bool, false, [], ◌∷◌, Option, length,
  length-set, ltb, if◌then◌else◌, Bool-cases, Option-cases, inl, inr, lt→ltb,
}
use sputter_os.Kernel.Metrics.Deadline.{wrap64}
use sputter_os.Kernel.Dispatch.{
  Env, Background, Ring, nth, run_timed, ring_round, run_ring, background_phase,
}
use native.Mathlib.Nat.{mod-lt}

module _ {F A W : Type 0} (zero_float : F) (to_float : ℕ → F) (divide : F → F → F)
    (clock : W → Option ℕ × W) where
  -- In a ring of two, the task whose turn is second loses it when its budget does not fit behind the
  -- first: after the phase it has not run, and the turn is again the first task's.
  pub second_starves :
      (a b : Background F A W) (control_budget now busy : ℕ) (e : Env F A W)
      → let run = run_timed zero_float to_float divide clock (a.run now) a.timer e in
        (if ltb busy control_budget then control_budget - busy else 0)
          < wrap64 (wrap64 (0 + run.0.last_duration) + b.max_budget_us run.1)
        → background_phase zero_float to_float divide clock control_budget now busy
            (record { tasks = a ∷ b ∷ []; round_robin = 0 })
            e
          ≡ (
            record { tasks = record a { timer = run.0 } ∷ b ∷ []; round_robin = 0 },
            (wrap64 (0 + run.0.last_duration), run.1),
          )
  unfolding background_phase run_ring ring_round nth
  second_starves a b control_budget now busy e h =
      rw (background_phase, run_ring, ring_round, nth, lt→ltb _ _ h) refl

  ring_round_bounds :
      (gap_budget : ℕ) (is_first : Bool) (now used : ℕ) (r : Ring F A W) (e : Env F A W)
      → r.round_robin < length r.tasks
      → let r' =
          (ring_round zero_float to_float divide clock gap_budget is_first now used r e).1.0 in
        (length r'.tasks ≡ length r.tasks) × (r'.round_robin < length r'.tasks)
  unfolding ring_round
  ring_round_bounds gap_budget is_first now used r e h =
      let turn : (r.round_robin + 1) % length r.tasks < length r.tasks = grind (arith, mod-lt) in
      elim (Option-cases (nth r.tasks r.round_robin)) [
        | inl q ↦ rw (ring_round, q) (refl, turn)
        | inr (bg, q) ↦
            let set_len = length-set r.tasks r.round_robin (record bg {
              timer = (run_timed zero_float to_float divide clock (bg.run now) bg.timer e).0;
            }) in
            elim (Bool-cases
              (if is_first then false else ltb gap_budget (wrap64 (used + bg.max_budget_us e)))) [
                | inl o ↦ rw (ring_round, q, o) (refl, turn)
                | inr o ↦ rw (ring_round, q, o, set_len) (refl, turn)
              ]
      ]

  -- The loop leaves the ring its number of tasks, and a turn within it.
  pub run_ring_bounds :
      (left gap_budget : ℕ) (is_first : Bool) (now used : ℕ) (r : Ring F A W) (e : Env F A W)
      → r.round_robin < length r.tasks
      → let r' =
          (run_ring zero_float to_float divide clock left gap_budget is_first now used r e).0 in
        (length r'.tasks ≡ length r.tasks) × (r'.round_robin < length r'.tasks)
  unfolding run_ring
  run_ring_bounds zero gap_budget is_first now used r e h = (refl, h)
  run_ring_bounds (suc left) gap_budget is_first now used r e h =
      let a = ring_round_bounds gap_budget is_first now used r e h in
      let round = ring_round zero_float to_float divide clock gap_budget is_first now used r e in
      let b = run_ring_bounds left gap_budget false now round.1.1.0 round.1.0 round.1.1.1 a.1 in
      elim (Bool-cases round.0) [
        | inl q ↦ rw (run_ring, q) (b.0 ∙ a.0, b.1)
        | inr q ↦ rw (run_ring, q) a
      ]
