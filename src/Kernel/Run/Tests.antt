-- ===== src/Kernel/Run/Tests.antt =====
-- A run of two cores at a concrete input. A `float` and a command are natural numbers; the world is the time that is
-- left, which each reading of the clock takes 1 from, and the stop condition fires at 0.
use sputter_os.Prelude.{
  ℕ, ◌-◌, ◌/◌, ◌<◌, ◌≤◌, ◌≡◌, refl, arith, true, false, List, [], ◌∷◌, Option, none, some, All,
  replicate, ◌==◌, Bool-cases, inl, inr,
}
use sputter_os.Logging.Errors.{soft_abort}
use sputter_os.Sync.Barrier.{ready, init_state}
use sputter_os.Kernel.State.{configured, shutdown, is_active}
use sputter_os.Kernel.Lifecycle.{init_core, init_tasks}
use sputter_os.Kernel.Metrics.Timer.{TaskTimer, empty_tally, micros_max}
use sputter_os.Kernel.Dispatch.{Env, Task, Slot, Background, Core, read_clock, now_micros}
use sputter_os.Kernel.Dispatch.Keeps.{
  kernel_state, TaskKeeps, BackgroundKeeps, tick-keeps, tick-tasks,
}
use sputter_os.Kernel.Run.{
  Runtime, RunSetup, any_stop_fired, goes_on, tick_now, run, signal_init, start_core,
}
use sputter_os.Kernel.Run.Ends.{GetsNearer, run_shuts_down}

abbrev same : ℕ → ℕ
same n = n

abbrev divide : ℕ → ℕ → ℕ
divide a b = a / b

abbrev clock : ℕ → Option ℕ × ℕ
clock w = (some w, w - 1)

abbrev setup : RunSetup ℕ ℕ ℕ
setup = record {
  is_multi = true;
  handled = false;
  peers = λ k ss. ss;
  others = λ k e. e;
  stops = (λ e. (e.world == 0, e)) ∷ [];
  inits = (λ s. s) ∷ [];
  crunch = none;
  dflt = 0;
  capacity = 3;
  control_budget = 50;
  max_overruns = 10;
}

abbrev AtMost : ℕ → Env ℕ ℕ ℕ → Type 0
AtMost n e = e.world ≤ n

-- A task that never puts the end off.
abbrev Hurries : Task ℕ ℕ ℕ → Type 0
Hurries t = (n : ℕ) → TaskKeeps (AtMost n) t

abbrev BackgroundHurries : Background ℕ ℕ ℕ → Type 0
BackgroundHurries b = (n : ℕ) → BackgroundKeeps (AtMost n) b

abbrev Hurried : ℕ → Core ℕ ℕ ℕ → Type 0
Hurried k c = All (λ s. Hurries s.task) c.slots × All BackgroundHurries c.ring.tasks

All-at :
    {A : Type 0} (P : A → ℕ → Type 0) (n : ℕ) (xs : List A)
    → All (λ x. (n : ℕ) → P x n) xs
    → All (λ x. P x n) xs
All-at P n [] h = tt
All-at P n (x ∷ xs) (h, hs) = (h n, All-at P n xs hs)

goes_on-same :
    (k : ℕ) (c : Core ℕ ℕ ℕ)
    → (goes_on 0 same divide clock setup k c).0 ≡ true
    → (0 < c.env.world) × ((goes_on 0 same divide clock setup k c).1 ≡ c)
unfolding goes_on any_stop_fired
goes_on-same k c again = elim (Bool-cases (is_active c.env.machine.state)) [
  | inr idle ↦ absurd (ground (arith, idle))
  | inl active ↦ elim (Bool-cases (c.env.world == 0)) [
    | inl over ↦ absurd (ground (arith, active, over))
    | inr left ↦ (ground arith, rw (active, left) refl)
  ]
]

tick_now-nearer :
    (c : Core ℕ ℕ ℕ)
    → Hurried 0 c
    → Hurried 0 (tick_now 0 same divide clock setup c)
      × ((tick_now 0 same divide clock setup c).env.world ≤ c.env.world - 1)
unfolding tick_now read_clock
tick_now-nearer c (slots, ring) =
    let n = c.env.world - 1 in
    let c0 = record c { env = record c.env { world = n } } in
    let now = now_micros c.epoch (some c.env.world) in
    (
      tick-tasks 0 same divide clock Hurries BackgroundHurries (λ b t h. h) 0 3 50 c0 now slots
          ring,
      tick-keeps 0 same divide clock (AtMost n) (λ e l h. h) (λ e h. omega arith) 0 3 50 c0 now
          (All-at (λ (s : Slot ℕ ℕ ℕ) n. TaskKeeps (AtMost n) s.task) n c.slots slots)
          (All-at (λ b n. BackgroundKeeps (AtMost n) b) n c.ring.tasks ring) (omega arith),
    )

gets_nearer :
    GetsNearer 0 same divide clock setup (λ k e w. w) ((λ e w. w), tt) Hurried (λ k c. c.env.world)
gets_nearer k c inv again =
    let (some_left, stays) = goes_on-same k c again in
    let (inv', fewer) = tick_now-nearer c inv in rw stays (inv', omega arith)

abbrev new_timer : TaskTimer ℕ
new_timer = record {
  last_duration = 0;
  start_us = 0;
  tally = empty_tally;
  window_us = 60000000;
  window_start_us = 0;
  report = record {
    reported_sample_count = 0;
    reported_min_duration = micros_max;
    reported_max_duration = 0;
    reported_avg_us = 0;
    reported_overruns = 0;
    reported_misses = 0;
    reported_histogram = [];
  };
}

-- A task that takes another unit of time.
abbrev worker : Task ℕ ℕ ℕ
worker = record {
  run = λ now e. record e { world = e.world - 1 };
  is_scheduled = true;
  kernel_managed_period = false;
  period_us = 0;
  declared_wcet_us = 0;
  on_overrun = λ actual wcet e. e;
}

abbrev core : Core ℕ ℕ ℕ
core = record {
  core_id = 0;
  epoch = 0;
  last_time = 0;
  utilization = record {
    tick_start = 0;
    busy_us = 0;
    total_us = 0;
    tick_count = 0;
    reported_busy_us = 0;
    reported_total_us = 0;
    reported_ticks = 0;
  };
  slots = record { task = worker; timer = new_timer; last_dispatch = 0 } ∷ [];
  background_core_id = 1;
  ring = record { tasks = []; round_robin = 0 };
  health = record {
    total_gap_us = 0;
    max_gap_us = 0;
    gap_ticks = 0;
    total_overruns = 0;
    total_deadline_misses = 0;
    window_us = 0;
    window_start_us = 0;
    reported_total_gap_us = 0;
    reported_max_gap_us = 0;
    reported_avg_gap_us = 0;
    reported_tick_count = 0;
  };
  queue_monitor = record {
    last_depth = 0;
    max_depth = 0;
    sum_depth = 0;
    sample_count = 0;
    window_us = 0;
    window_start_us = 0;
    reported_max_depth = 0;
    reported_avg_depth = 0;
    reported_sample_count = 0;
  };
  env = record {
    machine = record {
      state = configured;
      errors = record {
        buf = replicate 33 (record { code = soft_abort; timestamp = 0; value = 0 });
        head = 0;
        tail = 0;
      };
    };
    commands = record { buf = 0 ∷ 0 ∷ 0 ∷ 0 ∷ []; head = 0; tail = 0 };
    world = 20;
  };
}

abbrev fresh : Runtime ℕ ℕ ℕ
fresh = record {
  core = core;
  watchdog = record { last_kick = 0 ∷ 0 ∷ []; alive = false ∷ false ∷ [] };
  sync = record { states = init_state ∷ ready ∷ []; reports = [] };
  is_initialized = false;
}

worker-Hurries : Hurries worker
worker-Hurries n = ((λ now e h. omega arith), (λ actual wcet e h. h))

run_shuts_down_example :
    (r' : Runtime ℕ ℕ ℕ) × (run 0 same divide clock setup 3000 fresh ≡ some r')
    × (kernel_state r'.core.env ≡ shutdown)
    × (r'.is_initialized ≡ true)
unfolding start_core signal_init init_core init_tasks
run_shuts_down_example =
    run_shuts_down 0 same divide clock setup (λ k e w. w) ((λ e w. w), tt) Hurried
      (λ k c. c.env.world) gets_nearer ((λ s. refl), tt) refl (λ k ss. refl) 3000 fresh refl
      (inl refl) ((((λ now e w. w), (λ actual wcet e w. w)), tt), tt) (omega arith) (omega arith)
      ((worker-Hurries, tt), tt) (omega arith)
