-- ===== src/Kernel/Dispatch/Keeps.antt =====
-- What a tick keeps: a property of the state that the tasks, the clock and the error log keep.
use sputter_os.Prelude.{
  subst, ℕ, zero, suc, ◌≡◌, sym, ap, arith, Bool, true, false, List, [], ◌∷◌, Option, some, length,
  All, set, ◌==◌, ltb, Option-cases, inl, inr, if◌then◌else◌, if_both,
}
use sputter_os.Kernel.State.{KernelState}
use sputter_os.Kernel.Metrics.Timer.{TaskTimer}
use sputter_os.Kernel.Dispatch.{
  Env, Task, Slot, Background, Ring, Core, nth, read_clock, run_timed, check_deadline,
  dispatch_slot, dispatch_slots, ring_round, run_ring, background_phase, tick,
}
use sputter_os.Kernel.Dispatch.Slots.{due_of, schedule, schedule_at, schedule-dispatch_slot}
use sputter_os.Logging.Errors.{ErrorLogger}

module _ {F A W : Type 0} where
  abbrev pub kernel_state : Env F A W → KernelState
  kernel_state e = e.machine.state

  abbrev pub with_errors : Env F A W → ErrorLogger F → Env F A W
  with_errors e l = record e { machine = record e.machine { errors = l } }

  -- A task keeps a property, in its tick and when it overruns.
  abbrev pub TaskKeeps : (Env F A W → Type 0) → Task F A W → Type 0
  TaskKeeps P t =
      ((now : ℕ) (e : Env F A W) → P e → P (t.run now e))
      × ((actual wcet : ℕ) (e : Env F A W) → P e → P (t.on_overrun actual wcet e))

  abbrev pub BackgroundKeeps : (Env F A W → Type 0) → Background F A W → Type 0
  BackgroundKeeps P b = (now : ℕ) (e : Env F A W) → P e → P (b.run now e)

  abbrev pub SlotsKeep : (Env F A W → Type 0) → List (Slot F A W) → Type 0
  SlotsKeep P ss = All (λ s. TaskKeeps P s.task) ss

  abbrev pub RingKeeps : (Env F A W → Type 0) → Ring F A W → Type 0
  RingKeeps P r = All (BackgroundKeeps P) r.tasks

  nth-All :
      (P : Background F A W → Type 0) (bs : List (Background F A W)) (i : ℕ) (b : Background F A W)
      → All P bs
      → nth bs i ≡ some b
      → P b
  unfolding nth
  nth-All P [] i b h e = absurd (ground arith)
  nth-All P (x ∷ xs) zero b (h, hs) e = subst P (ground arith) h
  nth-All P (x ∷ xs) (suc i) b (h, hs) e = nth-All P xs i b hs e

  All-set :
      (P : Background F A W → Type 0) (bs : List (Background F A W)) (i : ℕ) (b : Background F A W)
      → All P bs
      → P b
      → All P (set bs i b)
  All-set P [] i b h p = tt
  All-set P (x ∷ xs) zero b (h, hs) p = (p, hs)
  All-set P (x ∷ xs) (suc i) b (h, hs) p = (h, All-set P xs i b hs p)

module _ {F A W : Type 0} (zero_float : F) (to_float : ℕ → F) (divide : F → F → F)
    (clock : W → Option ℕ × W) where
  module _ (K : Task F A W → Type 0) where
    slot-kept :
        (now : ℕ) (s : Slot F A W) (busy : ℕ) (e : Env F A W)
        → K s.task
        → K (dispatch_slot zero_float to_float divide clock now s busy e).0.task
    unfolding schedule schedule_at
    slot-kept now s busy e h =
        subst K
          (sym
            (ap (λ x. x.0) (schedule-dispatch_slot zero_float to_float divide clock now s busy e)))
          h

    slots-kept :
        (now : ℕ) (ss : List (Slot F A W)) (busy : ℕ) (e : Env F A W)
        → All (λ s. K s.task) ss
        → All (λ s. K s.task) (dispatch_slots zero_float to_float divide clock now ss busy e).0
    unfolding dispatch_slots
    slots-kept now [] busy e h = tt
    slots-kept now (s ∷ ss) busy e (h, hs) =
        let step = dispatch_slot zero_float to_float divide clock now s busy e in
        (slot-kept now s busy e h, slots-kept now ss step.1.0 step.1.1 hs)

  -- What does not depend on a background task's timer holds of the ring's tasks after a round too.
  module _ (K : Background F A W → Type 0)
      (timerless : (b : Background F A W) (t : TaskTimer F)
        → K b
        → K (record b { timer = t })) where
    ring_round-All :
        (gap_budget : ℕ) (is_first : Bool) (now used : ℕ) (r : Ring F A W) (e : Env F A W)
        → All K r.tasks
        → All K
            (ring_round zero_float to_float divide clock gap_budget is_first now used r e).1.0.tasks
    unfolding ring_round
    ring_round-All gap_budget is_first now used r e keep =
        elim (Option-cases (nth r.tasks r.round_robin)) [
          | inl q ↦ rw (ring_round, q) keep
          | inr (bg, q) ↦
              let L = λ (x : Bool × (Ring F A W × (ℕ × Env F A W))). All K x.1.0.tasks in
              let here = nth-All K r.tasks r.round_robin bg keep q in
              rw (ring_round, q)
                (if_both L _ _ _ keep
                  (All-set K r.tasks r.round_robin _ keep (timerless bg _ here)))
        ]

    run_ring-All :
        (left gap_budget : ℕ) (is_first : Bool) (now used : ℕ) (r : Ring F A W) (e : Env F A W)
        → All K r.tasks
        → All K
            (run_ring zero_float to_float divide clock left gap_budget is_first now used r
              e).0.tasks
    unfolding run_ring
    run_ring-All zero gap_budget is_first now used r e keep = keep
    run_ring-All (suc left) gap_budget is_first now used r e keep =
        let step = ring_round zero_float to_float divide clock gap_budget is_first now used r e in
        let here = ring_round-All gap_budget is_first now used r e keep in
        let L = λ (x : Ring F A W × (ℕ × Env F A W)). All K x.0.tasks in
        if_both L step.0 _ _
          (run_ring-All left gap_budget false now step.1.1.0 step.1.0 step.1.1.1 here) here

  -- After a tick the core has tasks of the same kinds.
  pub tick-tasks :
      (K : Task F A W → Type 0) (L : Background F A W → Type 0)
      → ((b : Background F A W) (t : TaskTimer F) → L b → L (record b { timer = t }))
      → (dflt : A) (capacity control_budget : ℕ) (c : Core F A W) (now : ℕ)
      → All (λ s. K s.task) c.slots
      → All L c.ring.tasks
      → let c' = tick zero_float to_float divide clock dflt capacity control_budget c now in
        All (λ s. K s.task) c'.slots × All L c'.ring.tasks
  unfolding tick background_phase
  tick-tasks K L timerless dflt capacity control_budget c now slots ring = (
    slots-kept K now c.slots 0 _ slots,
    if_both (λ (x : Ring F A W × (ℕ × Env F A W)). All L x.0.tasks)
        (c.core_id == c.background_core_id) _ _
        (run_ring-All L timerless (length c.ring.tasks) _ true now 0 c.ring _ ring) ring,
  )

module _ {F A W : Type 0} (zero_float : F) (to_float : ℕ → F) (divide : F → F → F)
    (clock : W → Option ℕ × W) (P : Env F A W → Type 0)
    (logs : (e : Env F A W) (l : ErrorLogger F) → P e → P (with_errors e l))
    (reads : (e : Env F A W) → P e → P (record e { world = (clock e.world).1 })) where
  run_timed-keeps :
      (body : Env F A W → Env F A W) (timer : TaskTimer F) (e : Env F A W)
      → ((e : Env F A W) → P e → P (body e))
      → P e
      → P (run_timed zero_float to_float divide clock body timer e).1
  unfolding run_timed read_clock
  run_timed-keeps body timer e keep h = reads _ (keep _ (reads e h))

  check_deadline-keeps :
      (now : ℕ) (s : Slot F A W) (e : Env F A W)
      → TaskKeeps P s.task
      → P e
      → P (check_deadline zero_float to_float divide clock now s e).1
  unfolding check_deadline
  check_deadline-keeps now s e keep h =
      let K = λ (r : Slot F A W × Env F A W). P r.1 in
      if_both K s.task.is_scheduled _ _
        (if_both K (ltb 0 s.task.declared_wcet_us) _ _
          (if_both K (ltb s.task.declared_wcet_us s.timer.last_duration) _ _
            (keep.1 _ _ _ (logs e _ h)) h)
          h)
        h

  dispatch_slot-keeps :
      (now : ℕ) (s : Slot F A W) (busy : ℕ) (e : Env F A W)
      → TaskKeeps P s.task
      → P e
      → P (dispatch_slot zero_float to_float divide clock now s busy e).1.1
  unfolding dispatch_slot due_of
  dispatch_slot-keeps now s busy e keep h = elim (Option-cases (due_of s now)) [
    | inl q ↦ rw (dispatch_slot, q) h
    | inr (last, q) ↦
        let (timer, e') = run_timed zero_float to_float divide clock (s.task.run now) s.timer e in
        let ran = run_timed-keeps (s.task.run now) s.timer e (keep.0 now) h in
        rw (dispatch_slot, q)
          (check_deadline-keeps now (record s { timer = timer; last_dispatch = last }) e' keep ran)
  ]

  dispatch_slots-keeps :
      (now : ℕ) (ss : List (Slot F A W)) (busy : ℕ) (e : Env F A W)
      → SlotsKeep P ss
      → P e
      → P (dispatch_slots zero_float to_float divide clock now ss busy e).1.1
  unfolding dispatch_slots
  dispatch_slots-keeps now [] busy e keep h = h
  dispatch_slots-keeps now (s ∷ ss) busy e (keep, keeps) h =
      let step = dispatch_slot zero_float to_float divide clock now s busy e in
      dispatch_slots-keeps now ss step.1.0 step.1.1 keeps (dispatch_slot-keeps now s busy e keep h)

  ring_round-keeps :
      (gap_budget : ℕ) (is_first : Bool) (now used : ℕ) (r : Ring F A W) (e : Env F A W)
      → RingKeeps P r
      → P e
      → P (ring_round zero_float to_float divide clock gap_budget is_first now used r e).1.1.1
  unfolding ring_round
  ring_round-keeps gap_budget is_first now used r e keep h =
      elim (Option-cases (nth r.tasks r.round_robin)) [
        | inl q ↦ rw (ring_round, q) h
        | inr (bg, q) ↦
            let K = λ (x : Bool × (Ring F A W × (ℕ × Env F A W))). P x.1.1.1 in
            let here = nth-All (BackgroundKeeps P) r.tasks r.round_robin bg keep q in
            rw (ring_round, q)
              (if_both K _ _ _ h (run_timed-keeps (bg.run now) bg.timer e (here now) h))
      ]

  run_ring-keeps :
      (left gap_budget : ℕ) (is_first : Bool) (now used : ℕ) (r : Ring F A W) (e : Env F A W)
      → RingKeeps P r
      → P e
      → P (run_ring zero_float to_float divide clock left gap_budget is_first now used r e).1.1
  unfolding run_ring
  run_ring-keeps zero gap_budget is_first now used r e keep h = h
  run_ring-keeps (suc left) gap_budget is_first now used r e keep h =
      let step = ring_round zero_float to_float divide clock gap_budget is_first now used r e in
      let here = ring_round-keeps gap_budget is_first now used r e keep h in
      let same =
        ring_round-All zero_float to_float divide clock (BackgroundKeeps P) (λ b t k. k) gap_budget
          is_first now used r e keep in
      let K = λ (x : Ring F A W × (ℕ × Env F A W)). P x.1.1 in
      if_both K step.0 _ _
        (run_ring-keeps left gap_budget false now step.1.1.0 step.1.0 step.1.1.1 same here) here

  -- The phases of a tick, from what the roll-over test leaves.
  phases-keep :
      (control_budget : ℕ) (c : Core F A W) (now : ℕ) (e : Env F A W)
      → SlotsKeep P c.slots
      → RingKeeps P c.ring
      → P e
      → let s = dispatch_slots zero_float to_float divide clock now c.slots 0 e in
        let r =
          if c.core_id == c.background_core_id
          then background_phase zero_float to_float divide clock control_budget now s.1.0 c.ring
              s.1.1
          else (c.ring, (0, s.1.1)) in
        P (record r.1.1 { world = (clock r.1.1.world).1 })
  unfolding background_phase
  phases-keep control_budget c now e slots ring h =
      let s = dispatch_slots zero_float to_float divide clock now c.slots 0 e in
      let one = dispatch_slots-keeps now c.slots 0 e slots h in
      let K = λ (x : Ring F A W × (ℕ × Env F A W)). P x.1.1 in
      let two = run_ring-keeps (length c.ring.tasks) _ true now 0 c.ring s.1.1 ring one in
      reads _ (if_both K (c.core_id == c.background_core_id) _ (c.ring, (0, s.1.1)) two one)

  -- A property that the error log, the clock and all tasks of a core keep holds after a tick of that core,
  -- whatever the tasks overrun and whatever the clock reads.
  pub tick-keeps :
      (dflt : A) (capacity control_budget : ℕ) (c : Core F A W) (now : ℕ)
      → SlotsKeep P c.slots
      → RingKeeps P c.ring
      → P c.env
      → P (tick zero_float to_float divide clock dflt capacity control_budget c now).env
  unfolding tick background_phase read_clock
  tick-keeps dflt capacity control_budget c now slots ring h =
      phases-keep control_budget c now _ slots ring (
        if_both P (ltb now c.last_time) _ c.env
          (if_both P (c.last_time == 0) c.env _ h (logs c.env _ h)) h)
