-- ===== src/Sync/Barrier/Shutdown.antt =====
-- How `shutdownBarrier` and `waitForCore` end.
use mathlib.Core.Bool.{false≢true}
use sputter_os.Prelude.{
  ℕ, zero, suc, ◌+◌, ◌<◌, ◌≤◌, ◌⊎◌, inl, inr, Bool, true, false, not, ◌&&◌, List, [], ◌∷◌, ◌≡◌,
  refl, ◌∙◌, sym, arith, Option, none, some, ltb, leb, All, get_or, Bool-cases, ltb→lt, leb→le,
}
use sputter_os.Sync.Barrier.{
  CoreState, unborn, init_state, ready, failed, gone, core_code, same_core_state, CoreSync,
  set_core, all_terminated, add32, meanwhile, shutdown_wait, shutdown_barrier, wait_for_core,
}

-- A core that has shut down or is in error.
abbrev pub IsTerminated : CoreState → Type 0
IsTerminated s = (s ≡ gone) ⊎ (s ≡ failed)

terminated :
    (s : CoreState)
    → (not (same_core_state s gone) && not (same_core_state s failed)) ≡ false
    → IsTerminated s
unfolding core_code
terminated unborn e = absurd (false≢true (sym e))
terminated init_state e = absurd (false≢true (sym e))
terminated ready e = absurd (false≢true (sym e))
terminated failed e = inr refl
terminated gone e = inl refl

all_terminated-All : (ss : List CoreState) → all_terminated ss ≡ true → All IsTerminated ss
unfolding all_terminated
all_terminated-All [] e = tt
all_terminated-All (s ∷ ss) e =
    let alive = not (same_core_state s gone) && not (same_core_state s failed) in
    elim (Bool-cases alive) [
      | inl h ↦ absurd (false≢true (sym (rw h refl) ∙ e))
      | inr h ↦ (terminated s h, all_terminated-All ss (sym (rw h refl) ∙ e))
    ]

module _ (handled : Bool) (peers : ℕ → List CoreState → List CoreState) where
  -- A wait that ended: what is known when it did not time out.
  abbrev pub EndsWith : (CoreSync → Type 0) → Option (Bool × CoreSync) → Type 0
  EndsWith P none = ⊥
  EndsWith P (some (true, m)) = P m
  EndsWith P (some (false, m)) = Unit

  shutdown_wait-EndsWith :
      (fuel k elapsed timeout poll : ℕ) (m : CoreSync)
      → 0 < poll
      → timeout + poll < 4294967296
      → 0 < fuel
      → elapsed < timeout + poll
      → timeout < elapsed + fuel
      → EndsWith
          (λ m. All IsTerminated m.states)
          (shutdown_wait handled peers fuel k elapsed timeout poll m)
  unfolding shutdown_wait
  shutdown_wait-EndsWith zero k elapsed timeout poll m p small f inside enough =
      absurd (omega arith)
  shutdown_wait-EndsWith (suc fuel) k elapsed timeout poll m p small f inside enough =
      let m1 = meanwhile handled peers k m in
      elim (Bool-cases (ltb elapsed timeout)) [
        | inl e ↦
            let lt = ltb→lt elapsed timeout e in
            let next : add32 elapsed poll ≡ elapsed + poll = omega arith in
            elim (Bool-cases (all_terminated m1.states)) [
              | inl a ↦ rw (e, a) (all_terminated-All m1.states a)
              | inr a ↦
                  rw (e, a, next)
                    (shutdown_wait-EndsWith fuel (k + 1) (elapsed + poll) timeout poll m1 p small
                      (omega arith) (omega arith) (omega arith))
            ]
        | inr e ↦ rw e tt
      ]

  -- With a poll interval that is not zero, a timeout far enough below `2 ^ 32`, and fuel for one round per
  -- millisecond, the shutdown barrier ends, whatever the other cores do; when it passes, every core was
  -- seen shut down or in error.
  pub shutdown_barrier_ends :
      (fuel core_id timeout poll : ℕ) (m : CoreSync)
      → 0 < poll
      → timeout + poll < 4294967296
      → timeout < fuel
      → EndsWith
          (λ m. All IsTerminated m.states)
          (shutdown_barrier handled peers fuel core_id timeout poll m)
  unfolding shutdown_barrier
  shutdown_barrier_ends fuel core_id timeout poll m p small enough =
      shutdown_wait-EndsWith fuel 0 0 timeout poll (set_core m core_id gone) p small (omega arith)
        (omega arith) (omega arith)

  -- A wait for a core ends in the same way; when it passes, the core was seen in the target state or one
  -- with a greater number.
  pub wait_for_core_ends :
      (fuel k elapsed peer_id : ℕ) (target : CoreState) (timeout poll : ℕ) (m : CoreSync)
      → 0 < poll
      → timeout + poll < 4294967296
      → 0 < fuel
      → elapsed < timeout + poll
      → timeout < elapsed + fuel
      → EndsWith
          (λ m. core_code target ≤ core_code (get_or m.states peer_id unborn))
          (wait_for_core handled peers fuel k elapsed peer_id target timeout poll m)
  unfolding wait_for_core
  wait_for_core_ends zero k elapsed peer_id target timeout poll m p small f inside enough =
      absurd (omega arith)
  wait_for_core_ends (suc fuel) k elapsed peer_id target timeout poll m p small f inside enough =
      let m1 = meanwhile handled peers k m in
      let seen = core_code (get_or m1.states peer_id unborn) in
      elim (Bool-cases (ltb elapsed timeout)) [
        | inl e ↦
            let lt = ltb→lt elapsed timeout e in
            let next : add32 elapsed poll ≡ elapsed + poll = omega arith in
            elim (Bool-cases (leb (core_code target) seen)) [
              | inl a ↦ rw (e, a) (leb→le (core_code target) seen a)
              | inr a ↦
                  rw (e, a, next)
                    (wait_for_core_ends fuel (k + 1) (elapsed + poll) peer_id target timeout poll m1
                      p small (omega arith) (omega arith) (omega arith))
            ]
        | inr e ↦ rw e tt
      ]
