-- ===== src/Kernel/Statics/Alike.antt =====
-- Static states that differ in the tasks' timers, the window and the error log only, and what keeps them so.
use sputter_os.Prelude.{
  ℕ, Bool, true, false, List, [], ◌∷◌, Option, none, some, ◌≡◌, refl, ◌∙◌, ap, if◌then◌else◌, not,
  ltb, length, Bool-cases, Option-cases, inl, inr,
}
use sputter_os.Logging.Errors.{ErrorLogger}
use sputter_os.Kernel.State.{KernelState, Machine, is_allowed, transition_to}
use sputter_os.Builder.Checks.{CoreInfo}
use sputter_os.Builder.Build.{
  TimerSetup, Setup, Static, create_kernel, give_monitored, give_clock, give_window, configure,
}
use sputter_os.Builder.Build.Calls.{
  Registration, add_scheduled, add_crunch, add_background, set_drain, apply_call, apply_calls,
}
use sputter_os.Kernel.Statics.{reset_static}

-- The static state but for the tasks' timers, the window and the error log.
pub record Known (C : Type 0) : Type 0 where
  pub cores : List CoreInfo
  pub background : List ℕ
  pub background_core_id : ℕ
  pub monitored : List ℕ
  pub watched : List ℕ
  pub has_drain : Bool
  pub drain_wired : Bool
  pub kick_fn : Option ℕ
  pub system_clock : Option C
  pub is_built : Bool
  pub state : KernelState

abbrev pub known : {F C : Type 0} → Static F C → Known C
known b = record {
  cores = b.cores;
  background = b.background;
  background_core_id = b.background_core_id;
  monitored = b.monitored;
  watched = b.watched;
  has_drain = b.has_drain;
  drain_wired = b.drain_wired;
  kick_fn = b.kick_fn;
  system_clock = b.system_clock;
  is_built = b.is_built;
  state = b.machine.state;
}

module _ {F C : Type 0} where
  -- Other timers, another window and another error log.
  abbrev pub patch : (ℕ → TimerSetup C) → ℕ → ErrorLogger F → Static F C → Static F C
  patch t w l b = record b {
    timers = t;
    metrics_window_us = w;
    machine = record b.machine { errors = l };
  }

  abbrev pub Alike : Static F C → Static F C → Type 0
  Alike b b' = (t : ℕ → TimerSetup C) × (w : ℕ) × (l : ErrorLogger F) × (b' ≡ patch t w l b)

  pub Alike-known : (b b' : Static F C) → Alike b b' → known b ≡ known b'
  Alike-known b b' (t, w, l, e) = rw e refl

  -- Both states are there, and alike, or none of them is.
  abbrev pub Agrees : Option (Static F C) → Option (Static F C) → Type 0
  Agrees none none = Unit
  Agrees none (some b') = ⊥
  Agrees (some b) none = ⊥
  Agrees (some b) (some b') = Alike b b'

  choice-Agrees :
      (app room : Bool) (x x' y y' : Static F C)
      → Alike x x'
      → Alike y y'
      → Agrees
          (if not app then some x else if room then some y else none)
          (if not app then some x' else if room then some y' else none)
  choice-Agrees true true x x' y y' h k = k
  choice-Agrees true false x x' y y' h k = tt
  choice-Agrees false room x x' y y' h k = h

  choice-Alike :
      (c : Bool) (x x' y y' : Static F C)
      → Alike x x'
      → Alike y y'
      → Alike (if c then x else y) (if c then x' else y')
  choice-Alike true x x' y y' h k = h
  choice-Alike false x x' y y' h k = k

  -- The registration calls look at none of what differs.
  apply_call-patch :
      (s : Setup C) (t : ℕ → TimerSetup C) (w : ℕ) (l : ErrorLogger F) (c : Registration)
      (b : Static F C)
      → apply_call s c (patch t w l b) ≡ patch t w l (apply_call s c b)
  unfolding apply_call
  apply_call-patch s t w l (add_scheduled i p) b = refl
  apply_call-patch s t w l (add_crunch i p) b = refl
  apply_call-patch s t w l (add_background id) b = refl
  apply_call-patch s t w l (set_drain given) b = refl

  apply_calls-patch :
      (s : Setup C) (t : ℕ → TimerSetup C) (w : ℕ) (l : ErrorLogger F) (cs : List Registration)
      (b : Static F C)
      → apply_calls s cs (patch t w l b) ≡ patch t w l (apply_calls s cs b)
  unfolding apply_calls
  apply_calls-patch s t w l [] b = refl
  apply_calls-patch s t w l (c ∷ cs) b =
      ap (apply_calls s cs) (apply_call-patch s t w l c b)
      ∙ apply_calls-patch s t w l cs (apply_call s c b)

  pub apply_calls-reset :
      (s : Setup C) (n : ℕ) (cs : List Registration) (b b' : Static F C)
      → Alike (apply_calls s cs (reset_static n b)) (apply_calls s cs (reset_static n b'))
  unfolding reset_static
  apply_calls-reset s n cs b b' = (_, _, _, apply_calls-patch s _ _ _ cs (reset_static n b))

  pub create_kernel-Agrees :
      (s : Setup C) (b b' : Static F C)
      → Alike b b'
      → Agrees (create_kernel s b) (create_kernel s b')
  unfolding create_kernel
  create_kernel-Agrees s b b' (t, w, l, e) = rw e (
      choice-Agrees s.has_app (ltb (length b.background) s.max_background) _ _ _ _ (_, _, _, refl)
        (_, _, _, refl))

  give_monitored-Alike :
      (s : Setup C) (b b' : Static F C)
      → Alike b b'
      → Alike (give_monitored s b) (give_monitored s b')
  unfolding give_monitored
  give_monitored-Alike s b b' (t, w, l, e) =
      rw e (choice-Alike s.has_app _ _ _ _ (_, _, _, refl) (_, _, _, refl))

  give_clock-Alike :
      (s : Setup C) (b b' : Static F C) → Alike b b' → Alike (give_clock s b) (give_clock s b')
  unfolding give_clock
  give_clock-Alike s b b' (t, w, l, e) = elim (Option-cases s.clock_source) [
    | inl bare ↦ rw (bare, e) (_, _, _, refl)
    | inr (c, given) ↦ rw (given, e) (_, _, _, refl)
  ]

  give_window-Alike :
      (s : Setup C) (b b' : Static F C) → Alike b b' → Alike (give_window s b) (give_window s b')
  unfolding give_window
  give_window-Alike s b b' (t, w, l, e) = rw e (_, _, _, refl)

module _ {F : Type 0} (to_float : ℕ → F) where
  transition_to-errors :
      (m : Machine F) (l : ErrorLogger F) (target : KernelState)
      → (l' : ErrorLogger F) × ((transition_to to_float (record m { errors = l }) target).1
          ≡ record (transition_to to_float m target).1 { errors = l' })
  unfolding transition_to
  transition_to-errors m l target = elim (Bool-cases (is_allowed m.state target)) [
    | inl e ↦ rw e (_, refl)
    | inr e ↦ rw e (_, refl)
  ]

  module _ {C : Type 0} (s : Setup C) where
    pub configure-Alike :
        (b b' : Static F C) → Alike b b' → Alike (configure to_float s b) (configure to_float s b')
    unfolding configure
    configure-Alike b b' h =
        let wired = give_window s (give_clock s (give_monitored s b)) in
        let (t, w, l, e) =
          give_window-Alike s (give_clock s (give_monitored s b))
            (give_clock s (give_monitored s b'))
            (give_clock-Alike s (give_monitored s b) (give_monitored s b')
              (give_monitored-Alike s b b' h)) in
        let (l', k) = transition_to-errors wired.machine l KernelState.configured in
        (t, w, l', rw e (ap (λ m. record (patch t w l wired) { is_built = true; machine = m }) k))
