-- ===== src/Kernel/Dispatch.antt =====
-- `System::tick` of kernel/System.h for one core, with the tasks' code, the clock and the rest of the
-- outside world as parameters. A task is the user's code on `Env`: the kernel's state machine with its
-- error log, the command queue, and a world `W`. No slot holds a null pointer: `addTask` refuses them.
pub mod Periods
pub mod Starvation
pub mod Slots
pub mod Keeps
mod Tests
use sputter_os.Prelude.{
  ℕ, zero, suc, ◌+◌, ◌-◌, ◌%◌, Bool, true, false, List, [], ◌∷◌, Option, none, some, if◌then◌else◌,
  ltb, leb, ◌==◌, length, set,
}
use sputter_os.Logging.Errors.{log, timer_rollover, deadline_miss}
use sputter_os.Sync.Queue.{Queue, size}
use sputter_os.Kernel.State.{Machine}
use sputter_os.Kernel.Metrics.Deadline.{wrap64}
use sputter_os.Kernel.Metrics.Timer.{TaskTimer, start, stop, record_deadline_miss}
use sputter_os.Kernel.Metrics.Depth.{DepthMonitor, sample_depth}
use sputter_os.Kernel.Metrics.Health.{
  Utilization, Health, record_tick_start, record_tick_end, record_gap,
}

pub record Env (F A W : Type 0) : Type 0 where
  pub machine : Machine F
  pub commands : Queue A
  pub world : W

-- `ITask`, with what `IScheduledTask` adds to it: the defaults of ITask.h where a task is not scheduled.
pub record Task (F A W : Type 0) : Type 0 where
  pub run : ℕ → Env F A W → Env F A W
  pub is_scheduled : Bool
  pub kernel_managed_period : Bool
  pub period_us : ℕ
  pub declared_wcet_us : ℕ
  pub on_overrun : ℕ → ℕ → Env F A W → Env F A W

-- A task of a core with its timer and its `s_lastDispatch`.
pub record Slot (F A W : Type 0) : Type 0 where
  pub task : Task F A W
  pub timer : TaskTimer F
  pub last_dispatch : ℕ

pub record Background (F A W : Type 0) : Type 0 where
  pub run : ℕ → Env F A W → Env F A W
  pub max_budget_us : Env F A W → ℕ
  pub timer : TaskTimer F

-- `s_backgroundTasks` with `s_bgRoundRobin`.
pub record Ring (F A W : Type 0) : Type 0 where
  pub tasks : List (Background F A W)
  pub round_robin : ℕ

-- What `tick` reads and writes; `epoch` is the system timer's.
pub record Core (F A W : Type 0) : Type 0 where
  pub core_id : ℕ
  pub epoch : ℕ
  pub last_time : ℕ
  pub utilization : Utilization
  pub slots : List (Slot F A W)
  pub background_core_id : ℕ
  pub ring : Ring F A W
  pub health : Health F
  pub queue_monitor : DepthMonitor F
  pub env : Env F A W

-- Unsigned 64-bit subtraction.
abbrev pub minus64 : ℕ → ℕ → ℕ
minus64 a b = wrap64 (a + 18446744073709551616 - wrap64 b)

-- `SystemTimer::nowMicros` on a reading of its source.
abbrev pub now_micros : ℕ → Option ℕ → ℕ
now_micros epoch none = 0
now_micros epoch (some raw) = minus64 raw epoch

-- The period test: `none` to skip the slot, else the value that `s_lastDispatch` gets.
unfoldable pub due : Bool → Bool → ℕ → ℕ → ℕ → Option ℕ
due is_scheduled managed period last now =
    if is_scheduled
    then (if managed
        then (if ltb 0 period
            then (if last == 0
                then some now
                else if ltb (minus64 now last) period
                then none
                else some now)
            else some last)
        else some last)
    else some last

unfoldable pub nth {ℓ} : {A : Type ℓ} → List A → ℕ → Option A
nth [] i = none
nth (x ∷ xs) zero = some x
nth (x ∷ xs) (suc i) = nth xs i

module _ {F A W : Type 0} (zero_float : F) (to_float : ℕ → F) (divide : F → F → F)
    (clock : W → Option ℕ × W) where
  unfoldable pub read_clock : Env F A W → Option ℕ × Env F A W
  read_clock e = let (now, w) = clock e.world in (now, record e { world = w })

  -- `timer().start(); tick(...); timer().stop();`
  unfoldable pub run_timed :
      (Env F A W → Env F A W) → TaskTimer F → Env F A W → TaskTimer F × Env F A W
  run_timed body timer e =
      let (t0, e0) = read_clock e in
      let (t1, e1) = read_clock (body e0) in
      (stop zero_float to_float divide (start timer t0) t1, e1)

  -- The deadline test behind a dispatch.
  unfoldable pub check_deadline : ℕ → Slot F A W → Env F A W → Slot F A W × Env F A W
  check_deadline now s e =
      let actual = s.timer.last_duration in
      let wcet = s.task.declared_wcet_us in
      let m = record e.machine {
        errors = log e.machine.errors deadline_miss now (to_float actual);
      } in
      if s.task.is_scheduled
      then (if ltb 0 wcet
          then (if ltb wcet actual
              then (
                record s { timer = record_deadline_miss s.timer },
                s.task.on_overrun actual wcet (record e { machine = m }),
              )
              else (s, e))
          else (s, e))
      else (s, e)

  -- One round of the loop over the tasks: the slot, the busy time so far and the rest.
  unfoldable pub dispatch_slot : ℕ → Slot F A W → ℕ → Env F A W → Slot F A W × (ℕ × Env F A W)
  dispatch_slot now s busy e =
      let t = s.task in
      elim (due t.is_scheduled t.kernel_managed_period t.period_us s.last_dispatch now) [
        | none ↦ (s, (busy, e))
        | some last ↦
            let (timer, e') = run_timed (t.run now) s.timer e in
            let (s', e'') =
              check_deadline now (record s { timer = timer; last_dispatch = last }) e' in
            (s', (wrap64 (busy + timer.last_duration), e''))
      ]

  unfoldable pub dispatch_slots :
      ℕ → List (Slot F A W) → ℕ → Env F A W → List (Slot F A W) × (ℕ × Env F A W)
  dispatch_slots now [] busy e = ([], (busy, e))
  dispatch_slots now (s ∷ ss) busy e =
      let (s', (busy', e')) = dispatch_slot now s busy e in
      let (ss', r) = dispatch_slots now ss busy' e' in (s' ∷ ss', r)

  -- One round of the loop over the background ring: whether the loop goes on, the ring, `used` and
  -- the rest. The turn moves on before the budget is looked at.
  unfoldable pub ring_round :
      ℕ → Bool → ℕ → ℕ → Ring F A W → Env F A W → Bool × (Ring F A W × (ℕ × Env F A W))
  ring_round gap_budget is_first now used r e =
      let r' = record r { round_robin = (r.round_robin + 1) % length r.tasks } in
      elim (nth r.tasks r.round_robin) [
        | none ↦ (true, (r', (used, e)))
        | some bg ↦
            let (timer, e') = run_timed (bg.run now) bg.timer e in
            let r'' = record r' {
              tasks = set r.tasks r.round_robin (record bg { timer = timer });
            } in
            let is_over =
              if is_first then false else ltb gap_budget (wrap64 (used + bg.max_budget_us e)) in
            if is_over
            then (false, (r', (used, e)))
            else (true, (r'', (wrap64 (used + timer.last_duration), e')))
      ]

  -- The loop, for the rounds that are left.
  unfoldable pub run_ring :
      ℕ → ℕ → Bool → ℕ → ℕ → Ring F A W → Env F A W → Ring F A W × (ℕ × Env F A W)
  run_ring zero gap_budget is_first now used r e = (r, (used, e))
  run_ring (suc left) gap_budget is_first now used r e =
      let (goes_on, (r', (used', e'))) = ring_round gap_budget is_first now used r e in
      let rest = run_ring left gap_budget false now used' r' e' in
      if goes_on then rest else (r', (used', e'))

  unfoldable pub background_phase :
      ℕ → ℕ → ℕ → Ring F A W → Env F A W → Ring F A W × (ℕ × Env F A W)
  background_phase control_budget now busy r e =
      let gap_budget = if ltb busy control_budget then control_budget - busy else 0 in
      run_ring (length r.tasks) gap_budget true now 0 r e

  -- `System::tick`. `capacity` is the command queue's, `control_budget` is `CfgControlBudgetUs`.
  unfoldable pub tick : A → ℕ → ℕ → Core F A W → ℕ → Core F A W
  tick dflt capacity control_budget c now =
      let m = c.env.machine in
      let rolled = record c.env {
        machine = record m { errors = log m.errors timer_rollover now zero_float };
      } in
      let e0 =
        if ltb now c.last_time then (if c.last_time == 0 then c.env else rolled) else c.env in
      let u = record_tick_start c.utilization now in
      let (slots', (busy, e1)) = dispatch_slots now c.slots 0 e0 in
      let (ring', (used, e2)) =
        if c.core_id == c.background_core_id
        then background_phase control_budget now busy c.ring e1
        else (c.ring, (0, e1)) in
      let busy' = wrap64 (busy + used) in
      let (read, e3) = read_clock e2 in
      let tick_end = now_micros c.epoch read in
      let wall = if leb now tick_end then tick_end - now else 0 in
      let gap = if leb busy' wall then wall - busy' else 0 in
      let depth = size dflt capacity e3.commands in
      record c {
        last_time = now;
        utilization = record_tick_end u tick_end busy';
        slots = slots';
        ring = ring';
        health = record_gap zero_float to_float divide c.health gap tick_end;
        queue_monitor =
            (if c.core_id == 0
              then sample_depth zero_float to_float divide c.queue_monitor depth tick_end
              else c.queue_monitor);
        env = e3;
      }
