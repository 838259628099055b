-- ===== src/Kernel/Tests.antt =====
-- The kernel's theorems at concrete inputs.
use sputter_os.Prelude.{ℕ, ◌≤◌, [], ◌∷◌, replicate}
use sputter_os.Logging.Errors.{Entry, soft_abort}
use sputter_os.Kernel.State.{running, suspending, configured, Machine, transition_all}
use sputter_os.Kernel.State.Laws.{phase, phase-transition_all}

abbrev to_float : ℕ → ℕ
to_float n = n

abbrev blank : Entry ℕ
blank = record { code = soft_abort; timestamp = 0; value = 0 }

abbrev live : Machine ℕ
live = record { state = running; errors = record { buf = replicate 33 blank; head = 0; tail = 0 } }

phase-transition_all_example :
    phase running ≤ phase (transition_all to_float live (suspending ∷ configured ∷ [])).state
phase-transition_all_example = phase-transition_all to_float live (suspending ∷ configured ∷ [])
