-- ===== src/Builder/Build/Tests.antt =====
-- Builds at concrete inputs: two cores, two user tasks on Core 0, one of them with priority 0, and a
-- background task.
use sputter_os.Prelude.{
  ℕ, ◌/◌, ◌≡◌, ◌≢◌, refl, Bool, true, false, [], ◌∷◌, Option, none, some, arith, replicate, map,
}
use sputter_os.Logging.Errors.{soft_abort}
use sputter_os.Kernel.State.{unconfigured}
use sputter_os.Builder.Sort.{effective_priority, period_band, sort_tasks, sort_loop, sift}
use sputter_os.Builder.Checks.{
  Pinned, CoreInfo, BuildError, duplicate_task, dependencies_failed, is_active_core, has_low_period,
  is_below, has_duplicate, occurs, check_late, check_crunches, check_crunch, dependencies_hold,
  any_active, all_tasks, validate, utilization, warn,
}
use sputter_os.Builder.Topology.{
  add_task, prepend_task, on_core, core_has, sort_core, sort_cores, add_background_task,
}
use sputter_os.Builder.Build.{
  Setup, Static, fresh_timer, place_tasks, create_kernel, give_monitored, give_clock, give_window,
  configure, conclude, check_and_configure, build,
}
use sputter_os.Builder.Build.Order.{StartsWith, control_task_first}
use sputter_os.Builder.Build.Retry.{failed_build_sticks}
use sputter_os.Builder.Build.Wired.{IsReady, build-IsReady}

abbrev pinned : ℕ → ℕ → ℕ → Bool → Pinned
pinned id priority period depends = record {
  info = record { id = id; is_scheduled = true; schedule_priority = priority; period_us = period };
  declared_wcet_us = 10;
  has_dependencies = depends;
}

abbrev control : Pinned
control = pinned 1 0 0 true

abbrev setup : Setup ℕ
setup = record {
  has_app = true;
  core_count = 2;
  min_period_us = 10;
  max_background = 4;
  metrics_window_us = 5000;
  clock_source = some 77;
  control = control;
  comms = pinned 2 1 0 true;
  diagnostics = 3;
  watchdog_kick = some 90;
}

abbrev bare_core : CoreInfo
bare_core = record { tasks = []; is_crunch = false; crunch_task = none }

-- What the user registered; `depends` tells whether the second task has its dependencies.
abbrev registered : Bool → Static ℕ ℕ
registered depends = record {
  cores = on_core 0 (add_task (pinned 11 255 5000 depends)) (
      on_core 0 (add_task (pinned 10 0 200 true))
        (replicate 2 (record { tasks = []; is_crunch = false; crunch_task = none })));
  background = add_background_task 4 20 [];
  background_core_id = 0;
  monitored = [];
  watched = [];
  has_drain = true;
  drain_wired = false;
  kick_fn = none;
  timers = λ a. fresh_timer;
  system_clock = none;
  metrics_window_us = 0;
  is_built = false;
  machine = record {
    state = unconfigured;
    errors = record {
      buf = replicate 33 (record { code = soft_abort; timestamp = 0; value = 0 });
      head = 0;
      tail = 0;
    };
  };
}

abbrev same : ℕ → ℕ
same n = n

abbrev divide : ℕ → ℕ → ℕ
divide a b = a / b

abbrev try_build : Static ℕ ℕ → Option (Option BuildError × Static ℕ ℕ)
try_build b = build same divide control setup b

-- The state that a build leaves; where it writes out of range, the state before.
after : Static ℕ ℕ → Static ℕ ℕ
after b = elim (try_build b) [ none ↦ b | some (r, b') ↦ b' ]

build_order :
    map (λ c. map (λ t. t.info.id) c.tasks) (after (registered true)).cores
    ≡ (1 ∷ 10 ∷ 11 ∷ []) ∷ (2 ∷ []) ∷ []
unfolding after build create_kernel place_tasks on_core core_has prepend_task add_task
    check_and_configure conclude configure sort_cores sort_core sort_tasks sort_loop sift
    effective_priority period_band validate any_active is_active_core all_tasks has_low_period
    is_below has_duplicate occurs check_late check_crunches check_crunch dependencies_hold
    utilization warn give_monitored give_clock give_window add_background_task
build_order = refl

build_passes : try_build (registered true) ≡ some (none, after (registered true))
unfolding after build create_kernel place_tasks on_core core_has prepend_task add_task
    check_and_configure conclude sort_cores sort_core sort_tasks sort_loop sift effective_priority
    period_band validate any_active is_active_core all_tasks has_low_period is_below has_duplicate
    occurs check_late check_crunches check_crunch dependencies_hold utilization warn
    add_background_task
build_passes = refl

-- Without the dependencies of the second task the build fails, and it fails again.
retried : Static ℕ ℕ
retried = after (after (registered false))

first_fails :
    try_build (registered false) ≡ some (some dependencies_failed, after (registered false))
unfolding after build create_kernel place_tasks on_core core_has prepend_task add_task
    check_and_configure conclude sort_cores sort_core sort_tasks sort_loop sift effective_priority
    period_band validate any_active is_active_core all_tasks has_low_period is_below has_duplicate
    occurs check_late check_crunches check_crunch dependencies_hold utilization warn
    add_background_task
first_fails = refl

second_fails : try_build (after (registered false)) ≡ some (some duplicate_task, retried)
unfolding retried after build create_kernel place_tasks on_core core_has prepend_task add_task
    check_and_configure conclude sort_cores sort_core sort_tasks sort_loop sift effective_priority
    period_band validate any_active is_active_core all_tasks has_low_period is_below has_duplicate
    occurs check_late check_crunches check_crunch dependencies_hold utilization warn
    add_background_task
second_fails = refl

control_task_first_example : StartsWith control (after (registered true)).cores
control_task_first_example =
    control_task_first same divide control setup (registered true) (after (registered true)) none
      (add_task (pinned 11 255 5000 true) (add_task (pinned 10 0 200 true) bare_core))
      (bare_core ∷ []) refl (unfold effective_priority in refl) (unfold effective_priority in refl)
      (unfold on_core in refl) (unfold add_task in omega arith) refl build_passes

failed_build_sticks_example : some duplicate_task ≢ none
failed_build_sticks_example =
    failed_build_sticks same divide control setup (registered false) (after (registered false))
      retried dependencies_failed (some duplicate_task)
      (add_task (pinned 11 255 5000 false) (add_task (pinned 10 0 200 true) bare_core))
      (bare_core ∷ []) refl (unfold effective_priority in refl) (unfold effective_priority in refl)
      (unfold on_core in refl) (unfold add_task in omega arith) first_fails second_fails

build-IsReady_example : IsReady setup 77 (after (registered true))
build-IsReady_example =
    build-IsReady same divide control setup (registered true) (after (registered true)) 77 refl
      (omega arith) refl refl refl build_passes
