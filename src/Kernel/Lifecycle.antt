-- ===== src/Kernel/Lifecycle.antt =====
-- `System::init` and the end of `System::run` of kernel/System.h: what they do to the kernel's state.
-- The `init` of tasks is the user's code, which may use the kernel's state machine too.
pub mod Laws
use sputter_os.Prelude.{ℕ, Bool, true, false, List, [], ◌∷◌, if◌then◌else◌, ◌==◌}
use sputter_os.Kernel.State.{
  KernelState, configured, initializing, running, shutting_down, shutdown, code, Machine,
  transition_to,
}

unfoldable pub is_state : KernelState → KernelState → Bool
is_state s t = code s == code t

-- `if (s_kernelState == source) transitionTo(target);`
unfoldable pub advance_from :
    {F : Type 0} → (ℕ → F) → KernelState → KernelState → Machine F → Machine F
advance_from to_float source target m =
    if is_state m.state source then (transition_to to_float m target).1 else m

-- The `init` of the tasks in their order: scheduled ones, the crunch task, background ones.
unfoldable pub init_tasks :
    {F W : Type 0} → List (Machine F × W → Machine F × W) → Machine F × W → Machine F × W
init_tasks [] s = s
init_tasks (t ∷ ts) s = init_tasks ts (t s)

module _ {F W : Type 0} (to_float : ℕ → F) where
  unfoldable pub init_core : List (Machine F × W → Machine F × W) → Machine F × W → Machine F × W
  init_core tasks (m, w) =
      let (m', w') = init_tasks tasks (advance_from to_float configured initializing m, w) in
      (advance_from to_float initializing running m', w')

-- Phase 5 of `run`.
unfoldable pub finish : {F : Type 0} → (ℕ → F) → Machine F → Machine F
finish to_float m =
    advance_from to_float shutting_down shutdown (advance_from to_float running shutting_down m)
