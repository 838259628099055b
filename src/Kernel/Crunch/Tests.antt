-- ===== src/Kernel/Crunch/Tests.antt =====
-- The crunch loop at a concrete input: the world is a clock that an iteration moves by 100.
use sputter_os.Prelude.{ℕ, false, [], arith}
use sputter_os.Kernel.State.{running}
use sputter_os.Kernel.Crunch.{CrunchState, Hooks, timed_crunch, run_loop}
use sputter_os.Kernel.Crunch.Overruns.{HasStopped, AlwaysOverruns, run_loop_ends}

-- The clock stands still but for the iterations, which take 100 each, also at the wrap.
abbrev slow : Hooks ℕ ℕ
slow = record {
  now = λ s. (s.world, record s { world = 100 });
  is_aborted = λ w. false;
  stop_fired = λ w. false;
  crunch = λ t s. record s { world = 200 };
  on_crunch_abort = λ s. s;
  max_iteration_us = λ w. 50;
  extra_kick = λ s. s;
}

abbrev at_start : CrunchState ℕ ℕ
at_start = record {
  machine = record { state = running; errors = record { buf = []; head = 0; tail = 0 } };
  watchdog = record { last_kick = []; alive = [] };
  world = 0;
}

always_slow : AlwaysOverruns slow (λ n. n) 3 0 (omega arith) (omega arith)
unfolding timed_crunch
always_slow s = omega arith

run_loop_ends_example :
    HasStopped slow (λ n. n) 3 0 (omega arith) (omega arith) (run_loop slow (λ n. n) 3 0 5 at_start)
run_loop_ends_example =
    run_loop_ends slow (λ n. n) 3 0 (omega arith) (omega arith) always_slow 5 at_start (omega arith)
