-- ===== src/Kernel/Dispatch/Tests.antt =====
-- The dispatcher's theorems at concrete inputs. A `float`, a command and the world are natural numbers
-- here; the world is the time, and each reading of the clock takes 5 µs.
use sputter_os.Prelude.{
  ◌++◌, refl, ℕ, ◌+◌, ◌/◌, ◌<◌, ◌≡◌, arith, true, List, [], ◌∷◌, Option, some, length, map,
  replicate,
}
use sputter_os.Logging.Errors.{soft_abort}
use sputter_os.Kernel.State.{running}
use sputter_os.Kernel.Metrics.Timer.{TaskTimer, empty_tally, micros_max}
use sputter_os.Kernel.Dispatch.{Env, Task, Slot, Background, Core, tick}
use sputter_os.Kernel.Dispatch.Periods.{slot_ticks, Witnesses, Paced, Spaced, dispatched_on_period}
use sputter_os.Kernel.Dispatch.Slots.{schedule, schedule_at, tick_bounds}

abbrev same : ℕ → ℕ
same n = n

abbrev divide : ℕ → ℕ → ℕ
divide a b = a / b

abbrev clock : ℕ → Option ℕ × ℕ
clock w = (some w, w + 5)

abbrev new_timer : TaskTimer ℕ
new_timer = record {
  last_duration = 0;
  start_us = 0;
  tally = empty_tally;
  window_us = 60000000;
  window_start_us = 0;
  report = record {
    reported_sample_count = 0;
    reported_min_duration = micros_max;
    reported_max_duration = 0;
    reported_avg_us = 0;
    reported_overruns = 0;
    reported_misses = 0;
    reported_histogram = [];
  };
}

abbrev env : Env ℕ ℕ ℕ
env = record {
  machine = record {
    state = running;
    errors = record {
      buf = replicate 33 (record { code = soft_abort; timestamp = 0; value = 0 });
      head = 0;
      tail = 0;
    };
  };
  commands = record { buf = 0 ∷ 0 ∷ 0 ∷ 0 ∷ []; head = 2; tail = 1 };
  world = 1000;
}

-- A task that takes `cost`, every 100 µs, with a declared worst case of 20 µs.
abbrev sampler : ℕ → Task ℕ ℕ ℕ
sampler cost = record {
  run = λ now e. record e { world = e.world + cost };
  is_scheduled = true;
  kernel_managed_period = true;
  period_us = 100;
  declared_wcet_us = 20;
  on_overrun = λ actual budget e. e;
}

abbrev table : List (Slot ℕ ℕ ℕ)
table =
    record { task = sampler 7; timer = new_timer; last_dispatch = 950 }
    ∷ record { task = sampler 40; timer = new_timer; last_dispatch = 900 }
    ∷ []

abbrev background : ℕ → ℕ → Background ℕ ℕ ℕ
background cost budget = record {
  run = λ now e. record e { world = e.world + cost };
  max_budget_us = λ e. budget;
  timer = new_timer;
}

abbrev core : Core ℕ ℕ ℕ
core = record {
  core_id = 0;
  epoch = 0;
  last_time = 990;
  utilization = record {
    tick_start = 0;
    busy_us = 0;
    total_us = 0;
    tick_count = 0;
    reported_busy_us = 0;
    reported_total_us = 0;
    reported_ticks = 0;
  };
  slots = table;
  background_core_id = 0;
  ring = record { tasks = background 10 10 ∷ background 30 60 ∷ []; round_robin = 1 };
  health = record {
    total_gap_us = 0;
    max_gap_us = 0;
    gap_ticks = 0;
    total_overruns = 0;
    total_deadline_misses = 0;
    window_us = 0;
    window_start_us = 0;
    reported_total_gap_us = 0;
    reported_max_gap_us = 0;
    reported_avg_gap_us = 0;
    reported_tick_count = 0;
  };
  queue_monitor = record {
    last_depth = 0;
    max_depth = 0;
    sum_depth = 0;
    sample_count = 0;
    window_us = 0;
    window_start_us = 0;
    reported_max_depth = 0;
    reported_avg_depth = 0;
    reported_sample_count = 0;
  };
  env = env;
}

paced : Paced 30 1000 (1030 ∷ 1060 ∷ 1090 ∷ 1120 ∷ [])
unfolding Paced
paced = ground arith

-- A task that notes its runs and takes 7 µs; the world is the time and the notes.
abbrev noting : Task ℕ ℕ (ℕ × List ℕ)
noting = record {
  run = λ now e. record e { world = (e.world.0 + 7, e.world.1 ++ now ∷ []) };
  is_scheduled = true;
  kernel_managed_period = true;
  period_us = 100;
  declared_wcet_us = 20;
  on_overrun = λ actual budget e. e;
}

abbrev noted_clock : ℕ × List ℕ → Option ℕ × (ℕ × List ℕ)
noted_clock (w, notes) = (some w, (w + 5, notes))

-- Other tasks take 3 µs at each tick.
abbrev others : ℕ → Env ℕ ℕ (ℕ × List ℕ) → Env ℕ ℕ (ℕ × List ℕ)
others now e = record e { world = (e.world.0 + 3, e.world.1) }

noting-Witnesses : Witnesses 0 same divide noted_clock (λ w. w.1) others noting
noting-Witnesses = record {
  noted = λ now e. refl;
  clock_keeps = λ w. refl;
  overrun_keeps = λ actual budget e. refl;
  others_keep = λ now e. refl;
}

abbrev noted_env : Env ℕ ℕ (ℕ × List ℕ)
noted_env = record { machine = env.machine; commands = env.commands; world = (1000, []) }

dispatched_on_period_example :
    let ticks : List ℕ = 1030 ∷ 1060 ∷ 1090 ∷ 1120 ∷ [] in
    (runs : List ℕ) × ((slot_ticks 0 same divide noted_clock others
        (λ t. 3)
        ticks
        (record { task = noting; timer = new_timer; last_dispatch = 1000 })
        noted_env).1.world.1
      ≡ [] ++ runs)
    × Spaced 100 130 1120 1000 runs
dispatched_on_period_example =
    dispatched_on_period 0 same divide noted_clock (λ w. w.1) others noting noting-Witnesses refl
      refl (omega arith) (λ t. 3) 30 1000 1000 (1030 ∷ 1060 ∷ 1090 ∷ 1120 ∷ []) new_timer noted_env
      (omega arith) (omega arith) (omega arith) paced

tick_bounds_example :
    let c' = tick 0 same divide clock 0 3 50 core 1000 in
    (length c'.ring.tasks ≡ 2)
    × (c'.ring.round_robin < length c'.ring.tasks)
    × (map schedule c'.slots ≡ map (schedule_at 1000) table)
    × (c'.last_time ≡ 1000)
tick_bounds_example = tick_bounds 0 same divide clock 0 3 50 core 1000 (omega arith)
