-- ===== src/Kernel/State/Laws.antt =====
-- The life of the kernel: which states follow which, under any requests.
use sputter_os.Prelude.{
  ℕ, ◌+◌, ◌≤◌, ◌≡◌, refl, arith, true, false, List, [], ◌∷◌, Bool-cases, inl, inr, ◌⊎◌,
}
use native.Mathlib.Nat.{le_trans, le_refl}
use sputter_os.Logging.Errors.{log, invalid_state}
use sputter_os.Kernel.State.{
  KernelState, unconfigured, configured, initializing, running, suspending, suspended, aborting,
  aborted, shutting_down, shutdown, code, is_allowed, Machine, transition_to, transition_all,
}

-- Set-up, operation, and the two steps down.
unfoldable pub phase : KernelState → ℕ
phase unconfigured = 0
phase configured = 1
phase initializing = 2
phase running = 3
phase suspending = 3
phase suspended = 3
phase aborting = 3
phase aborted = 3
phase shutting_down = 4
phase shutdown = 5

phase-is_allowed :
    (s t : KernelState) → is_allowed s t ≡ true → (phase s ≤ phase t) × (phase t ≤ phase s + 1)
unfolding is_allowed phase
phase-is_allowed s t h = ground arith

phase_last : (s : KernelState) → 5 ≤ phase s → s ≡ shutdown
unfolding phase
phase_last s h = ground arith

module _ {F : Type 0} (to_float : ℕ → F) where
  -- A request either moves the state along an edge of the table and touches nothing else, or keeps the
  -- state, reports failure and adds one `INVALID_STATE` entry that carries the target's number.
  pub transition_to_cases :
      (m : Machine F) (target : KernelState)
      → ((is_allowed m.state target ≡ true)
          × (transition_to to_float m target ≡ (true, record m { state = target })))
        ⊎ ((is_allowed m.state target ≡ false)
            × (transition_to to_float m target ≡ (
              false,
              record m { errors = log m.errors invalid_state 0 (to_float (code target)) },
            )))
  unfolding transition_to
  transition_to_cases m target = elim (Bool-cases (is_allowed m.state target)) [
    | inl e ↦ inl (e, rw e)
    | inr e ↦ inr (e, rw e)
  ]

  phase-transition_to :
      (m : Machine F) (target : KernelState)
      → let s' = (transition_to to_float m target).1.state in
        (phase m.state ≤ phase s') × (phase s' ≤ phase m.state + 1)
  unfolding transition_to
  phase-transition_to m target = elim (Bool-cases (is_allowed m.state target)) [
    | inl e ↦ rw e (phase-is_allowed m.state target e)
    | inr e ↦ rw e (omega arith)
  ]

  -- No sequence of requests leads back to an earlier phase: a kernel that has run is never configured
  -- or initialised again, and one that shuts down never runs again.
  pub phase-transition_all :
      (m : Machine F) (targets : List KernelState)
      → phase m.state ≤ phase (transition_all to_float m targets).state
  unfolding transition_all
  phase-transition_all m [] = le_refl (phase m.state)
  phase-transition_all m (t ∷ ts) =
      le_trans (phase-transition_to m t).0 (phase-transition_all (transition_to to_float m t).1 ts)

  -- `SHUTDOWN` is left by no request.
  pub shutdown_final :
      (m : Machine F) (targets : List KernelState)
      → m.state ≡ shutdown
      → (transition_all to_float m targets).state ≡ shutdown
  shutdown_final m targets e =
      phase_last _ (le_trans (rw e (unfold phase in le_refl 5)) (phase-transition_all m targets))

-- The requests that shut a kernel down from each state that has been configured.
unfoldable pub way_down : KernelState → List KernelState
way_down unconfigured = configured ∷ initializing ∷ running ∷ shutting_down ∷ shutdown ∷ []
way_down configured = initializing ∷ running ∷ shutting_down ∷ shutdown ∷ []
way_down initializing = running ∷ shutting_down ∷ shutdown ∷ []
way_down running = shutting_down ∷ shutdown ∷ []
way_down suspending = suspended ∷ shutting_down ∷ shutdown ∷ []
way_down suspended = shutting_down ∷ shutdown ∷ []
way_down aborting = aborted ∷ shutting_down ∷ shutdown ∷ []
way_down aborted = shutting_down ∷ shutdown ∷ []
way_down shutting_down = shutdown ∷ []
way_down shutdown = []

granted :
    {F : Type 0} (to_float : ℕ → F) (m : Machine F) (s : KernelState)
    → m.state ≡ s
    → transition_all to_float m (way_down s) ≡ record m { state = shutdown }
unfolding way_down transition_all transition_to is_allowed
granted to_float m s e = ground (arith, e)

-- From every state some requests, all of them granted, lead to `SHUTDOWN`.
pub shutdown_reachable :
    {F : Type 0} (to_float : ℕ → F) (m : Machine F)
    → transition_all to_float m (way_down m.state) ≡ record m { state = shutdown }
shutdown_reachable to_float m = granted to_float m m.state refl
