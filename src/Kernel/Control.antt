-- ===== src/Kernel/Control.antt =====
-- include/sputteros/kernel/tasks/ScheduledControlTask.h. The application and the safety monitors are the user's
-- code on a world `W`; a null pointer is `none`.
pub mod Gate
mod Tests
use sputter_os.Prelude.{
  ℕ, zero, suc, Bool, true, false, List, [], ◌∷◌, Option, none, some, if◌then◌else◌,
}
use sputter_os.Sync.Queue.{Queue, try_pop}

-- `IUserApplication`.
pub record Application (A W : Type 0) : Type 0 where
  pub start_app : W → W
  pub tick_app : ℕ → W → W
  pub handle_command : A → W → W
  pub force_safe_abort : W → W

-- The command queue, the flag of `System::signalSafetyAbort`, and the world.
pub record Plant (A W : Type 0) : Type 0 where
  pub queue : Queue A
  pub safety_abort : Bool
  pub plant_world : W

module _ {M W : Type 0} (is_safe : M → W → Bool) where
  -- The loop of `evaluateSafety`: whether a monitor is unsafe.
  unfoldable pub any_unsafe : List (Option M) → W → Bool
  any_unsafe [] w = false
  any_unsafe (none ∷ ms) w = any_unsafe ms w
  any_unsafe (some m ∷ ms) w = let rest = any_unsafe ms w in if is_safe m w then rest else true

module _ {A W : Type 0} where
  -- `if (m_app)`.
  abbrev pub when_app :
      Option (Application A W) → (Application A W → Plant A W → Plant A W) → Plant A W → Plant A W
  when_app none f s = s
  when_app (some a) f s = f a s

  unfoldable pub init_control : Option (Application A W) → Plant A W → Plant A W
  init_control app s = when_app app (λ a t. record t { plant_world = a.start_app t.plant_world }) s

-- `validateDependencies`, where either pointer may be null.
unfoldable pub control_dependencies_hold :
    {A W Q : Type 0} → Option Q → Option (Application A W) → Bool
control_dependencies_hold none app = false
control_dependencies_hold (some q) none = false
control_dependencies_hold (some q) (some a) = true

module _ {A W : Type 0} (dflt : A) (capacity : ℕ) where
  -- The `while` loop, counting down the commands this tick may still take.
  unfoldable pub take_commands : Application A W → ℕ → Plant A W → Plant A W
  take_commands a zero s = s
  take_commands a (suc left) s =
      let (got, q) = try_pop dflt capacity s.queue in
      elim got [
        | none ↦ record s { queue = q }
        | some cmd ↦
            take_commands a left
              (record s { queue = q; plant_world = a.handle_command cmd s.plant_world })
      ]

  -- With a queue, as `validateDependencies` demands.
  unfoldable pub process_commands : Option (Application A W) → ℕ → Plant A W → Plant A W
  process_commands app max_commands s = when_app app (λ a. take_commands a max_commands) s

module _ {A W M : Type 0} (dflt : A) (capacity : ℕ) (is_safe : M → W → Bool)
    (app : Option (Application A W)) (monitors : List (Option M)) where
  unfoldable pub evaluate_safety : Plant A W → Bool × Plant A W
  evaluate_safety s =
      let aborted =
        when_app app (λ a t. record t { plant_world = a.force_safe_abort t.plant_world }) s in
      if any_unsafe is_safe monitors s.plant_world
      then (false, record aborted { safety_abort = true })
      else (true, s)

  unfoldable pub control_tick : ℕ → ℕ → Plant A W → Plant A W
  control_tick max_commands now s =
      let (safe, s') = evaluate_safety s in
      let s'' = process_commands dflt capacity app max_commands s' in
      let ticked =
        when_app app (λ a t. record t { plant_world = a.tick_app now t.plant_world }) s'' in
      if safe then ticked else s'
