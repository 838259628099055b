-- ===== src/Builder/Build.antt =====
-- `SystemBuilder::build` of include/sputteros/builder/SystemBuilder.h, on the static state of `System` that it writes. `C` is
-- the type of a clock source. `none` is the write past the end of `s_backgroundTasks`.
pub mod Order
pub mod Calls
pub mod Retry
pub mod Wired
mod Tests
use sputter_os.Prelude.{
  not, ◌*◌, ℕ, ◌+◌, Bool, true, false, List, [], ◌∷◌, ◌++◌, Option, none, some, if◌then◌else◌, ltb,
  leb, ◌==◌, length, map, take, ◌>>=◌,
}
use sputter_os.Kernel.State.{Machine, configured, transition_to}
use sputter_os.Builder.Checks.{
  Pinned, CrunchTask, CoreInfo, BuildError, already_built, all_tasks, validate,
}
use sputter_os.Builder.Topology.{
  max_tasks_per_core, prepend_task, on_core, core_has, sort_cores, background_core,
}

-- What the builder sets in a `TaskTimer`.
pub record TimerSetup (C : Type 0) : Type 0 where
  pub clock : Option C
  pub window_us : ℕ

-- The builder's own fields and the configuration. The kernel's tasks are constructed in static storage:
-- `control`, `comms` and `diagnostics` are their addresses, with what the builder asks of the first two.
-- `watchdog_kick` is the address of a function.
pub record Setup (C : Type 0) : Type 0 where
  pub has_app : Bool
  pub core_count : ℕ
  pub min_period_us : ℕ
  pub max_background : ℕ
  pub metrics_window_us : ℕ
  pub clock_source : Option C
  pub control : Pinned
  pub comms : Pinned
  pub diagnostics : ℕ
  pub watchdog_kick : Option ℕ

-- The static state. `background` is the used part of `s_backgroundTasks`, `monitored` that of
-- `s_allTasks`, and `watched` what the diagnostics task is given of it.
pub record Static (F C : Type 0) : Type 0 where
  pub cores : List CoreInfo
  pub background : List ℕ
  pub background_core_id : ℕ
  pub monitored : List ℕ
  pub watched : List ℕ
  pub has_drain : Bool
  pub drain_wired : Bool
  pub kick_fn : Option ℕ
  pub timers : ℕ → TimerSetup C
  pub system_clock : Option C
  pub metrics_window_us : ℕ
  pub is_built : Bool
  pub machine : Machine F

abbrev default_window_us : ℕ
default_window_us = 60000000

module _ {C : Type 0} where
  unfoldable pub fresh_timer : TimerSetup C
  fresh_timer = record { clock = none; window_us = default_window_us }

  -- A setter called on the timer at an address.
  unfoldable pub set_timer :
      (TimerSetup C → TimerSetup C) → ℕ → (ℕ → TimerSetup C) → ℕ → TimerSetup C
  set_timer change a timers b = if b == a then change (timers b) else timers b

  -- The same on the tasks of a loop.
  unfoldable pub set_timers :
      (TimerSetup C → TimerSetup C) → List ℕ → (ℕ → TimerSetup C) → ℕ → TimerSetup C
  set_timers change [] timers = timers
  set_timers change (a ∷ ids) timers = set_timers change ids (set_timer change a timers)

-- The kernel's tasks in front of the others, where their core has room.
unfoldable pub place_tasks : {C : Type 0} → Setup C → List CoreInfo → List CoreInfo
place_tasks s cores =
    let controlled = on_core 0 (prepend_task s.control) cores in
    let comms_core = if core_has (λ c. c.is_crunch) 1 cores then 0 else 1 in
    if leb 2 s.core_count
    then on_core comms_core (prepend_task s.comms) controlled
    else on_core 0 (prepend_task s.control) (on_core 0 (prepend_task s.comms) cores)

unfoldable pub task_ids : List CoreInfo → List ℕ
task_ids cores = map (λ t. t.info.id) (all_tasks cores)

unfoldable pub crunch_ids : List CoreInfo → List ℕ
crunch_ids [] = []
crunch_ids (c ∷ cs) =
    let rest = crunch_ids cs in elim c.crunch_task [ none ↦ rest | some t ↦ t.crunch_id ∷ rest ]

-- The loop that fills `s_allTasks`, behind what it holds.
unfoldable pub push_all : ℕ → List ℕ → List ℕ → List ℕ
push_all limit held [] = held
push_all limit held (id ∷ ids) =
    push_all limit (if ltb (length held) limit then held ++ id ∷ [] else held) ids

-- `kMaxMonitoredTasks`
abbrev pub max_monitored : ℕ
max_monitored = 16

-- `BackgroundDiagnosticsTask::setMonitoredTasks`
unfoldable pub set_monitored_tasks : List ℕ → List ℕ
set_monitored_tasks ids =
    take (if ltb (length ids) max_monitored then length ids else max_monitored) ids

module _ {F C : Type 0} where
  -- The tasks whose timers are set up, in the order of the loops.
  unfoldable pub timed_ids : Static F C → List ℕ
  timed_ids b = task_ids b.cores ++ (b.background ++ crunch_ids b.cores)

  -- The block under `if (m_app)`.
  unfoldable pub create_kernel : Setup C → Static F C → Option (Static F C)
  create_kernel s b =
      let cores = place_tasks s b.cores in
      let emplaced = s.control.info.id ∷ s.comms.info.id ∷ s.diagnostics ∷ [] in
      let created = record b {
        cores = cores;
        background = b.background ++ s.diagnostics ∷ [];
        background_core_id = (if leb 2 s.core_count then background_core s.core_count cores else 0);
        watched = [];
        drain_wired = b.has_drain;
        kick_fn = s.watchdog_kick;
        timers = set_timers (λ t. fresh_timer) emplaced b.timers;
      } in
      if not s.has_app
      then some b
      else if ltb (length b.background) s.max_background
      then some created
      else none

  unfoldable pub give_monitored : Setup C → Static F C → Static F C
  give_monitored s b =
      let ids = push_all (s.core_count * max_tasks_per_core) [] (task_ids b.cores) in
      if s.has_app then record b { monitored = ids; watched = set_monitored_tasks ids } else b

  unfoldable pub give_clock : Setup C → Static F C → Static F C
  give_clock s b = elim s.clock_source [
    | none ↦ b
    | some c ↦ record b {
      system_clock = some c;
      timers = set_timers (λ t. record t { clock = some c }) (timed_ids b) b.timers;
    }
  ]

  unfoldable pub give_window : Setup C → Static F C → Static F C
  give_window s b =
      let w = s.metrics_window_us in
      record b {
        timers = set_timers (λ t. record t { window_us = w }) (timed_ids b) b.timers;
        metrics_window_us = w;
      }

  module _ (to_float : ℕ → F) where
    -- What follows the last validation.
    unfoldable pub configure : Setup C → Static F C → Static F C
    configure s b =
        let b' = give_window s (give_clock s (give_monitored s b)) in
        record b' { is_built = true; machine = (transition_to to_float b'.machine configured).1 }

    unfoldable pub conclude :
        Setup C → Option BuildError → Static F C → Option BuildError × Static F C
    conclude s none b = (none, configure s b)
    conclude s (some e) b = (some e, b)

    module _ (divide : F → F → F) where
      -- From the sort on. `dflt` is what a read out of range would give.
      unfoldable pub check_and_configure :
          Pinned → Setup C → Static F C → Option BuildError × Static F C
      check_and_configure dflt s b =
          let cores = sort_cores dflt b.cores in
          let (error, errors) =
            validate to_float divide s.min_period_us s.core_count cores b.machine.errors in
          let checked = record b {
            cores = cores;
            machine = record b.machine { errors = errors };
          } in
          conclude s error checked

      unfoldable pub build : Pinned → Setup C → Static F C → Option (Option BuildError × Static F C)
      build dflt s b =
          let go = create_kernel s b >>= λ created. some (check_and_configure dflt s created) in
          if b.is_built then some (some already_built, b) else go
