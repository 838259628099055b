-- ===== src/Kernel/Lifecycle/Laws.antt =====
-- Where the kernel's life begins to run and where it ends.
use sputter_os.Prelude.{
  ℕ, ◌≡◌, refl, arith, Bool, true, false, List, [], ◌∷◌, if◌then◌else◌, All, ◌∙◌, ◌==◌, ◌⊎◌, inl,
  inr,
}
use sputter_os.Kernel.State.{
  KernelState, configured, initializing, running, shutting_down, shutdown, Machine, transition_to,
  is_allowed, code,
}
use sputter_os.Kernel.Lifecycle.{is_state, advance_from, init_tasks, init_core, finish}

-- The task leaves the kernel's state alone.
abbrev pub KeepsState : {F W : Type 0} → (Machine F × W → Machine F × W) → Type 0
KeepsState {F} {W} t = (s : Machine F × W) → (t s).0.state ≡ s.0.state

-- The states in which `finish` acts.
unfoldable pub is_ending : KernelState → Bool
is_ending running = true
is_ending shutting_down = true
is_ending _ = false

finish_at :
    {F : Type 0} (to_float : ℕ → F) (m : Machine F) (s : KernelState)
    → m.state ≡ s
    → finish to_float m ≡ (if is_ending s then record m { state = shutdown } else m)
unfolding finish advance_from is_state transition_to is_allowed code is_ending
finish_at to_float m s e = ground (arith, e)

-- The end of `run` takes a running kernel, or one already shutting down, to `SHUTDOWN`; in any other
-- state it does nothing. It never has a transition refused: the error log stays.
pub finish_cases :
    {F : Type 0} (to_float : ℕ → F) (m : Machine F)
    → finish to_float m ≡ (if is_ending m.state then record m { state = shutdown } else m)
finish_cases to_float m = finish_at to_float m m.state refl

pub init_tasks-state :
    {F W : Type 0} (tasks : List (Machine F × W → Machine F × W)) (s : Machine F × W)
    → All KeepsState tasks
    → (init_tasks tasks s).0.state ≡ s.0.state
unfolding init_tasks
init_tasks-state [] s h = refl
init_tasks-state (t ∷ ts) s (h, hs) = init_tasks-state ts (t s) hs ∙ h s

==-refl : (n : ℕ) → (n == n) ≡ true
==-refl n = ground arith

advance_from-hit :
    {F : Type 0} (to_float : ℕ → F) (m : Machine F) (s t : KernelState)
    → m.state ≡ s
    → is_allowed s t ≡ true
    → (advance_from to_float s t m).state ≡ t
unfolding advance_from is_state transition_to
advance_from-hit to_float m s t e h = rw (e, ==-refl (code s), h) refl

-- Initialising the first core of a system in `CONFIGURED`, with tasks that leave the kernel's state alone,
-- ends in `RUNNING`.
pub init_core_runs :
    {F W : Type 0} (to_float : ℕ → F) (tasks : List (Machine F × W → Machine F × W)) (m : Machine F)
    (w : W)
    → m.state ≡ configured
    → All KeepsState tasks
    → (init_core to_float tasks (m, w)).0.state ≡ running
unfolding init_core
init_core_runs to_float tasks m w e h =
    let m1 = advance_from to_float configured initializing m in
    let s1 = advance_from-hit to_float m configured initializing e (unfold is_allowed in refl) in
    advance_from-hit to_float (init_tasks tasks (m1, w)).0 initializing running
      (init_tasks-state tasks (m1, w) h ∙ s1) (unfold is_allowed in refl)

advance_from-miss :
    {F : Type 0} (to_float : ℕ → F) (m : Machine F) (s t u : KernelState)
    → m.state ≡ u
    → is_state u s ≡ false
    → (advance_from to_float s t m).state ≡ u
unfolding advance_from
advance_from-miss to_float m s t u e h = rw (e, h) refl

-- A core that initialises while the kernel already runs leaves it running.
init_core_joins :
    {F W : Type 0} (to_float : ℕ → F) (tasks : List (Machine F × W → Machine F × W)) (m : Machine F)
    (w : W)
    → m.state ≡ running
    → All KeepsState tasks
    → (init_core to_float tasks (m, w)).0.state ≡ running
unfolding init_core
init_core_joins to_float tasks m w e h =
    let m1 = advance_from to_float configured initializing m in
    let s1 =
      advance_from-miss to_float m configured initializing running e
        (unfold is_state code in refl) in
    advance_from-miss to_float (init_tasks tasks (m1, w)).0 initializing running running
      (init_tasks-state tasks (m1, w) h ∙ s1) (unfold is_state code in refl)

-- The first core to initialise, and those that follow.
pub init_core-running :
    {F W : Type 0} (to_float : ℕ → F) (tasks : List (Machine F × W → Machine F × W)) (m : Machine F)
    (w : W)
    → (m.state ≡ configured) ⊎ (m.state ≡ running)
    → All KeepsState tasks
    → (init_core to_float tasks (m, w)).0.state ≡ running
init_core-running to_float tasks m w (inl first) h = init_core_runs to_float tasks m w first h
init_core-running to_float tasks m w (inr later) h = init_core_joins to_float tasks m w later h
