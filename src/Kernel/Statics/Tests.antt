-- ===== src/Kernel/Statics/Tests.antt =====
-- A reset at concrete inputs: two cores, of which the first has run one task.
use sputter_os.Prelude.{
  if◌then◌else◌, ℕ, ◌/◌, ◌≡◌, Bool, true, false, [], ◌∷◌, none, some, replicate,
}
use sputter_os.Logging.Errors.{soft_abort}
use sputter_os.Kernel.State.{unconfigured, running}
use sputter_os.Kernel.Metrics.Timer.{TaskTimer, empty_tally}
use sputter_os.Sync.Watchdog.{make_watchdog}
use sputter_os.Sync.Barrier.{make_sync}
use sputter_os.Builder.Checks.{Pinned, CoreInfo}
use sputter_os.Builder.Build.{Setup, Static, fresh_timer}
use sputter_os.Kernel.Statics.{List, Statics, empty_core, snapshot, reset_system}
use sputter_os.Kernel.Statics.Blank.{idle_snapshot, snapshot-reset_system}
use sputter_os.Builder.Build.Calls.{Registration, add_scheduled, add_background, set_drain}

abbrev same : ℕ → ℕ
same n = n

abbrev divide : ℕ → ℕ → ℕ
divide a b = a / b

abbrev pinned : ℕ → ℕ → Pinned
pinned id priority = record {
  info = record { id = id; is_scheduled = true; schedule_priority = priority; period_us = 200 };
  declared_wcet_us = 10;
  has_dependencies = true;
}

abbrev user_core : CoreInfo
user_core = record { tasks = pinned 10 9 ∷ []; is_crunch = false; crunch_task = none }

-- A system that runs, and the same where a build has failed.
abbrev static_of : Bool → Static ℕ ℕ
static_of is_built = record {
  cores = user_core ∷ empty_core ∷ [];
  background = 20 ∷ [];
  background_core_id = 1;
  monitored = 10 ∷ [];
  watched = 10 ∷ [];
  has_drain = true;
  drain_wired = true;
  kick_fn = some 90;
  timers = λ a. fresh_timer;
  system_clock = some 77;
  metrics_window_us = 5000;
  is_built = is_built;
  machine = record {
    state = if is_built then running else unconfigured;
    errors = record {
      buf = replicate 33 (record { code = soft_abort; timestamp = 0; value = 0 });
      head = 4;
      tail = 1;
    };
  };
}

abbrev timer : TaskTimer ℕ
timer = record {
  last_duration = 12;
  start_us = 0;
  tally = empty_tally;
  window_us = 5000;
  window_start_us = 0;
  report = record {
    reported_sample_count = 4;
    reported_min_duration = 1;
    reported_max_duration = 12;
    reported_avg_us = 2;
    reported_overruns = 0;
    reported_misses = 0;
    reported_histogram = 4 ∷ replicate 7 0;
  };
}

abbrev before : Statics ℕ ℕ ℕ ℕ
before = record {
  static = static_of true;
  epoch = 1000;
  commands = record { buf = 5 ∷ 6 ∷ 7 ∷ []; head = 2; tail = 0 };
  watchdog = make_watchdog 2;
  sync = make_sync 2;
  telemetry = record { buf = []; head = 0; tail = 0; count = 0; verbosity = 2 };
  profiler = record { baseline_free_bytes = 900; peak_used_bytes = 300 };
  utilizations = replicate 2 (record {
    tick_start = 40;
    busy_us = 30;
    total_us = 60;
    tick_count = 3;
    reported_busy_us = 700;
    reported_total_us = 900;
    reported_ticks = 1000;
  });
  queue_monitor = record {
    last_depth = 2;
    max_depth = 3;
    sum_depth = 8;
    sample_count = 4;
    window_us = 5000;
    window_start_us = 0;
    reported_max_depth = 0;
    reported_avg_depth = 0;
    reported_sample_count = 0;
  };
  health = record {
    total_gap_us = 80;
    max_gap_us = 30;
    gap_ticks = 3;
    total_overruns = 1;
    total_deadline_misses = 2;
    window_us = 5000;
    window_start_us = 0;
    reported_total_gap_us = 0;
    reported_max_gap_us = 0;
    reported_avg_gap_us = 0;
    reported_tick_count = 0;
  };
  round_robin = 1;
  last_times = 500 ∷ 500 ∷ [];
  last_dispatch = [];
  safety_abort = true;
  stops = 1 ∷ [];
  initialized = true ∷ true ∷ [];
  timer_at = λ a. timer;
}

snapshot-reset_system_example :
    snapshot 0 same divide none (reset_system 0 2 0 2 before) ≡ idle_snapshot 0 same divide 2 300
snapshot-reset_system_example = snapshot-reset_system 0 same divide 0 2 2 before

abbrev setup : Setup ℕ
setup = record {
  has_app = true;
  core_count = 2;
  min_period_us = 10;
  max_background = 4;
  metrics_window_us = 5000;
  clock_source = some 77;
  control = pinned 1 0;
  comms = pinned 2 1;
  diagnostics = 3;
  watchdog_kick = some 90;
}

abbrev calls : List Registration
calls = add_scheduled 0 (pinned 10 9) ∷ add_background 20 ∷ set_drain true ∷ []
