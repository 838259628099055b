-- ===== src/Builder/Build/Calls.antt =====
-- The registration calls of `SystemBuilder` and `CoreBuilder` before `build`, as values.
use sputter_os.Prelude.{ℕ, Bool, List, [], ◌∷◌, if◌then◌else◌, ltb}
use sputter_os.Builder.Checks.{Pinned, CrunchTask}
use sputter_os.Builder.Topology.{add_task, set_crunch_task, on_core, add_background_task}
use sputter_os.Builder.Build.{Setup, Static}

-- `core(c).addScheduledTask`, `core(c).setCrunchTask`, `addBackgroundTask` and `setTelemetryDrain`, which
-- is told whether the function is there. A null pointer registers nothing and is no call.
pub data Registration : Type 0 where
  add_scheduled : ℕ → Pinned → Registration
  add_crunch : ℕ → CrunchTask → Registration
  add_background : ℕ → Registration
  set_drain : Bool → Registration

-- `core`: a number out of range is the first core.
unfoldable pub core_index : {C : Type 0} → Setup C → ℕ → ℕ
core_index s c = if ltb c s.core_count then c else 0

module _ {F C : Type 0} (s : Setup C) where
  unfoldable pub apply_call : Registration → Static F C → Static F C
  apply_call (add_scheduled c t) b = record b {
    cores = on_core (core_index s c) (add_task t) b.cores;
  }
  apply_call (add_crunch c t) b = record b {
    cores = on_core (core_index s c) (set_crunch_task t) b.cores;
  }
  apply_call (add_background id) b = record b {
    background = add_background_task s.max_background id b.background;
  }
  apply_call (set_drain given) b = record b { has_drain = given }

  unfoldable pub apply_calls : List Registration → Static F C → Static F C
  apply_calls [] b = b
  apply_calls (c ∷ cs) b = apply_calls cs (apply_call c b)
