-- ===== src/Kernel/State.antt =====
-- kernel/KernelState.h, and `System::transitionTo` and `System::isActiveState` of kernel/System.h.
pub mod Laws
use sputter_os.Prelude.{ℕ, Bool, true, false, List, [], ◌∷◌, if◌then◌else◌}
use sputter_os.Logging.Errors.{ErrorLogger, log, invalid_state}

pub data KernelState : Type 0 where
  unconfigured configured initializing running suspending suspended aborting aborted : KernelState
  shutting_down shutdown : KernelState

-- The value of the enumerator.
unfoldable pub code : KernelState → ℕ
code unconfigured = 0
code configured = 1
code initializing = 2
code running = 3
code suspending = 4
code suspended = 5
code aborting = 6
code aborted = 7
code shutting_down = 8
code shutdown = 9

-- The `switch` of `transitionTo`: the current state, then the target.
unfoldable pub is_allowed : KernelState → KernelState → Bool
is_allowed unconfigured configured = true
is_allowed configured initializing = true
is_allowed initializing running = true
is_allowed running suspending = true
is_allowed running aborting = true
is_allowed running shutting_down = true
is_allowed suspending suspended = true
is_allowed suspended running = true
is_allowed suspended shutting_down = true
is_allowed aborting aborted = true
is_allowed aborted running = true
is_allowed aborted shutting_down = true
is_allowed shutting_down shutdown = true
is_allowed _ _ = false

-- `s_kernelState` with the error logger that a refusal writes to. `F` is `float`.
pub record Machine (F : Type 0) : Type 0 where
  pub state : KernelState
  pub errors : ErrorLogger F

-- `to_float` is the conversion of an integer to `float`.
module _ {F : Type 0} (to_float : ℕ → F) where
  unfoldable pub transition_to : Machine F → KernelState → Bool × Machine F
  transition_to m target =
      if is_allowed m.state target
      then (true, record m { state = target })
      else (false, record m { errors = log m.errors invalid_state 0 (to_float (code target)) })

  -- A sequence of requests.
  unfoldable pub transition_all : Machine F → List KernelState → Machine F
  transition_all m [] = m
  transition_all m (t ∷ ts) = transition_all (transition_to m t).1 ts

unfoldable pub is_active : KernelState → Bool
is_active running = true
is_active suspending = true
is_active suspended = true
is_active _ = false
