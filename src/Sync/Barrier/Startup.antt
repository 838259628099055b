-- ===== src/Sync/Barrier/Startup.antt =====
-- How `startupBarrier` ends.
use mathlib.Core.Bool.{false≢true}
use sputter_os.Prelude.{
  ℕ, zero, suc, ◌+◌, ◌<◌, Bool, true, false, List, [], ◌∷◌, ◌≡◌, refl, ◌∙◌, sym, arith, Option,
  none, some, ltb, length, All, get_or, set, length-set, get_or-set_self, Bool-cases, inl, inr,
  ltb→lt, lt→ltb,
}
use sputter_os.Sync.Barrier.{
  CoreState, unborn, init_state, ready, failed, gone, core_code, same_core_state, CoreSync,
  set_core, set_error, any_error, all_in_state, add32, meanwhile, startup_wait, startup_barrier,
}

same_core_state-ready : (s : CoreState) → same_core_state s ready ≡ true → s ≡ ready
unfolding core_code
same_core_state-ready unborn e = absurd (false≢true e)
same_core_state-ready init_state e = absurd (false≢true e)
same_core_state-ready ready e = refl
same_core_state-ready failed e = absurd (false≢true e)
same_core_state-ready gone e = absurd (false≢true e)

module _ (s : CoreState) (ss : List CoreState) where
  all_in_state-yes :
      same_core_state s ready ≡ true → all_in_state ready (s ∷ ss) ≡ all_in_state ready ss
  unfolding all_in_state
  all_in_state-yes h = rw h

  all_in_state-no : same_core_state s ready ≡ false → all_in_state ready (s ∷ ss) ≡ false
  unfolding all_in_state
  all_in_state-no h = rw h

all_in_state-All : (ss : List CoreState) → all_in_state ready ss ≡ true → All (λ s. s ≡ ready) ss
all_in_state-All [] e = tt
all_in_state-All (s ∷ ss) e = elim (Bool-cases (same_core_state s ready)) [
  | inl h ↦ (same_core_state-ready s h, all_in_state-All ss (sym (all_in_state-yes s ss h) ∙ e))
  | inr h ↦ absurd (false≢true (sym (all_in_state-no s ss h) ∙ e))
]

set_error-failed :
    (handled : Bool) (m : CoreSync) (core_id : ℕ)
    → core_id < length m.states
    → get_or (set_error handled m core_id).states core_id unborn ≡ failed
unfolding set_error set_core
set_error-failed true m core_id h = get_or-set_self m.states core_id failed unborn h
set_error-failed false m core_id h = get_or-set_self m.states core_id failed unborn h

module _ (handled : Bool) (peers : ℕ → List CoreState → List CoreState) where
  -- A wait that ended: all cores were seen ready, or this core is now in error.
  abbrev pub HasEnded : ℕ → Option (Bool × CoreSync) → Type 0
  HasEnded core_id none = ⊥
  HasEnded core_id (some (true, m)) = All (λ s. s ≡ ready) m.states
  HasEnded core_id (some (false, m)) = get_or m.states core_id unborn ≡ failed

  startup_wait-HasEnded :
      ((k : ℕ) (ss : List CoreState) → length (peers k ss) ≡ length ss)
      → (fuel k elapsed core_id timeout poll : ℕ) (m : CoreSync) → 0 < poll
      → 0 < fuel
      → timeout + poll < 4294967296
      → elapsed < timeout + poll
      → timeout < elapsed + fuel
      → core_id < length m.states
      → HasEnded core_id (startup_wait handled peers fuel k elapsed core_id timeout poll m)
  unfolding startup_wait
  startup_wait-HasEnded keep zero k elapsed core_id timeout poll m p f small inside enough here =
      absurd (omega arith)
  startup_wait-HasEnded keep (suc fuel) k elapsed core_id timeout poll m p f small inside enough
        here =
      let m1 = meanwhile handled peers k m in
      let m2 = meanwhile handled peers (k + 1) m1 in
      let here1 : core_id < length m1.states = omega (arith, keep k m.states) in
      let here2 : core_id < length m2.states =
        omega (arith, keep k m.states, keep (k + 1) m1.states) in
      elim (Bool-cases (ltb elapsed timeout)) [
        | inl e ↦
            let lt = ltb→lt elapsed timeout e in
            let next : add32 elapsed poll ≡ elapsed + poll = omega arith in
            elim (Bool-cases (any_error m1.states)) [
              | inl a ↦ rw (e, a) (set_error-failed handled m1 core_id here1)
              | inr a ↦ elim (Bool-cases (all_in_state ready m2.states)) [
                | inl r ↦ rw (e, a, r) (all_in_state-All m2.states r)
                | inr r ↦
                    rw (e, a, r, next)
                      (startup_wait-HasEnded keep fuel (k + 2) (elapsed + poll) core_id timeout poll
                        m2 p (omega arith) small (omega arith) (omega arith) here2)
              ]
            ]
        | inr e ↦ rw e (set_error-failed handled m core_id here)
      ]

  -- With a poll interval that is not zero, a timeout far enough below `2 ^ 32`, and fuel for one
  -- round per millisecond, the startup barrier ends, whatever the other cores do: either it passes,
  -- and then every core was seen ready, or it fails, and then this core is in error.
  pub startup_barrier_ends :
      (fuel core_id timeout poll : ℕ) (m : CoreSync)
      → ((k : ℕ) (ss : List CoreState) → length (peers k ss) ≡ length ss)
      → 0 < poll
      → timeout + poll < 4294967296
      → timeout < fuel
      → core_id < length m.states
      → HasEnded core_id (startup_barrier handled peers fuel core_id timeout poll m)
  unfolding startup_barrier set_core
  startup_barrier_ends fuel core_id timeout poll m keep p small enough here =
      startup_wait-HasEnded keep fuel 0 0 core_id timeout poll
        (record m { states = set m.states core_id ready }) p (omega arith) small (omega arith)
        (omega arith) (omega (arith, length-set m.states core_id ready))

startup_wait_stuck :
    (handled : Bool) (fuel k core_id timeout : ℕ) (m : CoreSync)
    → any_error m.states ≡ false
    → all_in_state ready m.states ≡ false
    → 0 < timeout
    → startup_wait handled (λ k ss. ss) fuel k 0 core_id timeout 0 m ≡ none
unfolding startup_wait
startup_wait_stuck handled zero k core_id timeout m a r h = refl
startup_wait_stuck handled (suc fuel) k core_id timeout m a r h =
    rw (lt→ltb 0 timeout h, a, r) (startup_wait_stuck handled fuel (k + 2) core_id timeout m a r h)

-- With a poll interval of 0 the elapsed time never grows: while the other cores stay as they are, one
-- of them not ready and none in error, the barrier never returns, whatever the timeout.
pub startup_barrier_stuck :
    (handled : Bool) (fuel core_id timeout : ℕ) (m : CoreSync)
    → any_error (set m.states core_id ready) ≡ false
    → all_in_state ready (set m.states core_id ready) ≡ false
    → 0 < timeout
    → startup_barrier handled (λ k ss. ss) fuel core_id timeout 0 m ≡ none
unfolding startup_barrier set_core
startup_barrier_stuck handled fuel core_id timeout m a r h =
    startup_wait_stuck handled fuel 0 core_id timeout
      (record m { states = set m.states core_id ready }) a r h
