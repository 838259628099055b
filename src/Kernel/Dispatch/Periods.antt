-- ===== src/Kernel/Dispatch/Periods.antt =====
-- Period-aware dispatch: how far apart the runs of a task are.
use sputter_os.Prelude.{
  if_both, ℕ, ◌+◌, ◌≤◌, ◌<◌, ◌≡◌, refl, ◌∙◌, ap, sym, arith, true, List, [], ◌∷◌, ◌++◌, Option,
  none, some, Bool-cases, ltb→lt, inl, inr, ltb, append-nil, append_assoc,
}
use sputter_os.Kernel.Metrics.Timer.{TaskTimer, record_deadline_miss}
use sputter_os.Kernel.Dispatch.{
  Env, Task, Slot, due, read_clock, run_timed, check_deadline, dispatch_slot,
}

-- Ticks come at most `step` apart, on a clock that does not go back and stays within 64 bits.
unfoldable pub Paced : ℕ → ℕ → List ℕ → Type 0
Paced step prev [] = Unit
Paced step prev (t ∷ ts) =
    ((prev ≤ t) × (t ≤ prev + step) × (t < 18446744073709551616)) × Paced step t ts

-- Each time is at least `low` and less than `high` after the one before, and `end` is less than `low`
-- after the last.
unfoldable pub Spaced : ℕ → ℕ → ℕ → ℕ → List ℕ → Type 0
Spaced low high end prev [] = end < prev + low
Spaced low high end prev (t ∷ ts) =
    ((prev + low ≤ t) × (t < prev + high)) × Spaced low high end t ts

-- The time of the last tick; `prev` where there is none.
abbrev pub end_of : ℕ → List ℕ → ℕ
end_of prev [] = prev
end_of prev (t ∷ ts) = end_of t ts

due_late :
    (period last now : ℕ)
    → 0 < period
    → 0 < last
    → last + period ≤ now
    → now < 18446744073709551616
    → due true true period last now ≡ some now
unfolding due
due_late period last now hp hl h hw = ground arith

due_early :
    (period last now : ℕ)
    → 0 < last
    → last ≤ now
    → now < last + period
    → now < 18446744073709551616
    → due true true period last now ≡ none
unfolding due
due_early period last now hl h hp hw = ground arith

module _ {F A W : Type 0} (zero_float : F) (to_float : ℕ → F) (divide : F → F → F)
    (clock : W → Option ℕ × W) where
  -- A slot at the ticks of its core at these times. `others` is all that happens in front of the slot's
  -- turn at a tick, by the tick's time, and `busy` the busy time at its turn.
  unfoldable pub slot_ticks :
      (ℕ → Env F A W → Env F A W)
      → (ℕ → ℕ)
      → List ℕ
      → Slot F A W
      → Env F A W
      → Slot F A W × Env F A W
  slot_ticks others busy [] s e = (s, e)
  slot_ticks others busy (t ∷ ts) s e =
      let (s', (_, e')) =
        dispatch_slot zero_float to_float divide clock t s (busy t) (others t e) in
      slot_ticks others busy ts s' e'

  -- A record in the world of the times at which a task was run: the task's code adds the time that it is
  -- given, and nothing else changes the record.
  pub record Witnesses (times : W → List ℕ) (others : ℕ → Env F A W → Env F A W) (task : Task F A W)
      : Type 0 where
    pub noted : (now : ℕ) (e : Env F A W) → times (task.run now e).world ≡ times e.world ++ now ∷ []
    pub clock_keeps : (w : W) → times (clock w).1 ≡ times w
    pub overrun_keeps :
        (actual wcet : ℕ) (e : Env F A W)
        → times (task.on_overrun actual wcet e).world ≡ times e.world
    pub others_keep : (now : ℕ) (e : Env F A W) → times (others now e).world ≡ times e.world

  module _ (times : W → List ℕ) (others : ℕ → Env F A W → Env F A W) (task : Task F A W)
      (w : Witnesses times others task) where
    -- The task's slot.
    abbrev pub slot_of : TaskTimer F → ℕ → Slot F A W
    slot_of timer last = record { task = task; timer = timer; last_dispatch = last }

    run_timed-times :
        (timer : TaskTimer F) (now : ℕ) (e : Env F A W)
        → times (run_timed zero_float to_float divide clock (task.run now) timer e).1.world
          ≡ times e.world ++ now ∷ []
    unfolding run_timed read_clock
    run_timed-times timer now e =
        w.clock_keeps _ ∙ (w.noted now _ ∙ ap (λ l. l ++ now ∷ []) (w.clock_keeps e.world))

    -- A slot that keeps its task and the time of the last run, and a record of runs.
    abbrev IsAt : ℕ → List ℕ → Slot F A W → Env F A W → Type 0
    IsAt last runs s e = ((timer : TaskTimer F) × (s ≡ slot_of timer last)) × (times e.world ≡ runs)

    check_deadline-IsAt :
        (now last : ℕ) (timer : TaskTimer F) (e : Env F A W)
        → let (s', e') =
            check_deadline zero_float to_float divide clock now (slot_of timer last) e in
          IsAt last (times e.world) s' e'
    unfolding check_deadline
    check_deadline-IsAt now last timer e =
        let P = λ (r : Slot F A W × Env F A W). IsAt last (times e.world) r.0 r.1 in
        let plain : P (slot_of timer last, e) = ((timer, refl), refl) in
        if_both P task.is_scheduled _ _
          (if_both P (ltb 0 task.declared_wcet_us) _ _
            (if_both P (ltb task.declared_wcet_us timer.last_duration) _ _
              ((record_deadline_miss timer, refl), w.overrun_keeps _ _ _) plain)
            plain)
          plain

    -- What a slot that is due does, and one that is not.
    dispatch_slot-due :
        (now busy last last' : ℕ) (timer : TaskTimer F) (e : Env F A W)
        → due task.is_scheduled task.kernel_managed_period task.period_us last now ≡ some last'
        → let (s', (_, e')) =
            dispatch_slot zero_float to_float divide clock now (slot_of timer last) busy e in
          IsAt last' (times e.world ++ now ∷ []) s' e'
    unfolding dispatch_slot due
    dispatch_slot-due now busy last last' timer e d =
        let (timer', e') = run_timed zero_float to_float divide clock (task.run now) timer e in
        let (at, kept) = check_deadline-IsAt now last' timer' e' in
        rw d (at, kept ∙ run_timed-times timer now e)

    dispatch_slot-skip :
        (now busy last : ℕ) (timer : TaskTimer F) (e : Env F A W)
        → due task.is_scheduled task.kernel_managed_period task.period_us last now ≡ none
        → dispatch_slot zero_float to_float divide clock now (slot_of timer last) busy e
          ≡ (slot_of timer last, (busy, e))
    unfolding dispatch_slot due
    dispatch_slot-skip now busy last timer e d = rw d refl

    module _ (scheduled : task.is_scheduled ≡ true) (managed : task.kernel_managed_period ≡ true)
        (positive : 0 < task.period_us) (busy : ℕ → ℕ) (step : ℕ) where
      abbrev period : ℕ
      period = task.period_us

      -- A scheduled task with a positive kernel-managed period has run at a time `last` that is not 0, and
      -- now it is `prev`, less than a period later. The clock does not go back and stays within 64 bits,
      -- and from `prev` on the ticks are at most `step` apart. Then each further run is at least its period
      -- after the one before and comes before another step has passed beyond the period, and at the last
      -- tick less than a period has passed since the last run. The runs are those that the task's code
      -- notes down when it is called; whatever else happens leaves the notes alone.
      pub dispatched_on_period :
          (last prev : ℕ) (ticks : List ℕ) (timer : TaskTimer F) (e : Env F A W)
          → 0 < last
          → last ≤ prev
          → prev < last + task.period_us
          → Paced step prev ticks
          → (runs : List ℕ) × (times (slot_ticks others busy ticks (slot_of timer last) e).1.world
              ≡ times e.world ++ runs)
            × Spaced task.period_us (task.period_us + step) (end_of prev ticks) last runs
      unfolding slot_ticks Paced Spaced
      dispatched_on_period last prev [] timer e hl h h' p =
          ([], sym (append-nil (times e.world)), h')
      dispatched_on_period last prev (t ∷ ts) timer e hl h h' ((a, b, c), p) =
          let e0 = others t e in
          elim (Bool-cases (ltb t (last + period))) [
            | inl early ↦
                let in_time = ltb→lt t (last + period) early in
                let d : due task.is_scheduled task.kernel_managed_period period last t ≡ none =
                  rw (scheduled, managed) (due_early period last t hl (omega arith) in_time c) in
                let (runs, noted, spaced) =
                  dispatched_on_period last t ts timer e0 hl (omega arith) in_time p in
                (
                  runs,
                  ap (λ r. times (slot_ticks others busy ts r.0 r.1.1).1.world)
                        (dispatch_slot-skip t (busy t) last timer e0 d)
                      ∙ (noted ∙ ap (λ l. l ++ runs) (w.others_keep t e)),
                  spaced,
                )
            | inr late ↦
                let over : last + period ≤ t = ground arith in
                let d : due task.is_scheduled task.kernel_managed_period period last t ≡ some t =
                  rw (scheduled, managed) (due_late period last t positive hl over c) in
                let ((timer', at), noted) = dispatch_slot-due t (busy t) last t timer e0 d in
                let e' =
                  (dispatch_slot zero_float to_float divide clock t (slot_of timer last) (busy t)
                    e0).1.1 in
                let (runs, later, spaced) =
                  dispatched_on_period t t ts timer' e' (omega arith) (omega arith) (omega arith)
                    p in
                (
                  t ∷ runs,
                  ap (λ s. times (slot_ticks others busy ts s e').1.world) at
                      ∙ (later
                          ∙ (ap (λ l. l ++ runs) (noted ∙ ap (λ l. l ++ t ∷ []) (w.others_keep t e))
                              ∙ append_assoc (times e.world) (t ∷ []) runs)),
                  ((over, omega arith), spaced),
                )
          ]
