-- ===== src/Kernel/Dispatch/Slots.antt =====
-- What a tick does to the task list of its core.
use sputter_os.Prelude.{
  ℕ, ◌<◌, ◌≡◌, refl, ap, arith, true, List, [], ◌∷◌, Option, none, some, length, map, ◌==◌,
  Bool-cases, Option-cases, inl, inr,
}
use sputter_os.Kernel.Dispatch.{
  Env, Task, Slot, Core, due, check_deadline, dispatch_slot, dispatch_slots, background_phase, tick,
}
use sputter_os.Kernel.Dispatch.Starvation.{run_ring_bounds}

module _ {F A W : Type 0} where
  unfoldable pub due_of : Slot F A W → ℕ → Option ℕ
  due_of s now =
      due s.task.is_scheduled s.task.kernel_managed_period s.task.period_us s.last_dispatch now

  -- A slot without what it measures: its task, and its last dispatch as of a tick at `now`.
  unfoldable pub schedule_at : ℕ → Slot F A W → Task F A W × ℕ
  schedule_at now s = (s.task, elim (due_of s now) [ none ↦ s.last_dispatch | some last ↦ last ])

  unfoldable pub schedule : Slot F A W → Task F A W × ℕ
  schedule s = (s.task, s.last_dispatch)

module _ {F A W : Type 0} (zero_float : F) (to_float : ℕ → F) (divide : F → F → F)
    (clock : W → Option ℕ × W) where
  schedule-check_deadline :
      (now : ℕ) (s : Slot F A W) (e : Env F A W)
      → schedule (check_deadline zero_float to_float divide clock now s e).0 ≡ schedule s
  unfolding check_deadline schedule
  schedule-check_deadline now s e = ground arith

  pub schedule-dispatch_slot :
      (now : ℕ) (s : Slot F A W) (busy : ℕ) (e : Env F A W)
      → schedule (dispatch_slot zero_float to_float divide clock now s busy e).0 ≡ schedule_at now s
  unfolding dispatch_slot schedule_at due_of schedule
  schedule-dispatch_slot now s busy e = elim (Option-cases (due_of s now)) [
    | inl q ↦ rw (dispatch_slot, schedule_at, due_of, q) refl
    | inr (last, q) ↦ rw (dispatch_slot, schedule_at, due_of, q) (schedule-check_deadline now _ _)
  ]

  -- A tick keeps the tasks and their order; it moves the last dispatch of exactly the slots that are
  -- due, whatever the tasks before them did to the world.
  pub schedule-dispatch_slots :
      (now : ℕ) (ss : List (Slot F A W)) (busy : ℕ) (e : Env F A W)
      → map schedule (dispatch_slots zero_float to_float divide clock now ss busy e).0
        ≡ map (schedule_at now) ss
  unfolding dispatch_slots
  schedule-dispatch_slots now [] busy e = refl
  schedule-dispatch_slots now (s ∷ ss) busy e =
      let step = dispatch_slot zero_float to_float divide clock now s busy e in
      rw (schedule-dispatch_slot now s busy e)
        (ap (λ r. schedule_at now s ∷ r) (schedule-dispatch_slots now ss step.1.0 step.1.1))

  -- A slot that is not due is left alone, its timer with it, and so is the world and the busy time.
  pub dispatch_slot_skips :
      (now : ℕ) (s : Slot F A W) (busy : ℕ) (e : Env F A W)
      → due_of s now ≡ none
      → dispatch_slot zero_float to_float divide clock now s busy e ≡ (s, (busy, e))
  unfolding dispatch_slot due_of
  dispatch_slot_skips now s busy e q = rw (dispatch_slot, q) refl

  -- A tick, on any core, leaves a background ring whose turn is within it its number of tasks and a turn
  -- within it, keeps the tasks of the core, moves the last dispatch of the slots that are due, and
  -- notes its time.
  pub tick_bounds :
      (dflt : A) (capacity control_budget : ℕ) (c : Core F A W) (now : ℕ)
      → c.ring.round_robin < length c.ring.tasks
      → let c' = tick zero_float to_float divide clock dflt capacity control_budget c now in
        (length c'.ring.tasks ≡ length c.ring.tasks)
        × (c'.ring.round_robin < length c'.ring.tasks)
        × (map schedule c'.slots ≡ map (schedule_at now) c.slots)
        × (c'.last_time ≡ now)
  unfolding tick background_phase
  tick_bounds dflt capacity control_budget c now h =
      elim (Bool-cases (c.core_id == c.background_core_id)) [
        | inl q ↦
            let b =
              run_ring_bounds zero_float to_float divide clock (length c.ring.tasks) _ true now 0
                c.ring _ h in
            rw (tick, background_phase, q) (b.0, b.1, schedule-dispatch_slots now c.slots 0 _, refl)
        | inr q ↦ rw (tick, q) (refl, h, schedule-dispatch_slots now c.slots 0 _, refl)
      ]
