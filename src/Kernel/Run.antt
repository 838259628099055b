-- ===== src/Kernel/Run.antt =====
-- `System::run` of kernel/System.h for one core. The other cores act between any two rounds of the loop (`others`, by
-- the number of the round) and in the waits at the barriers (`peers`). `none` is fuel run out.

pub mod Ends
mod Tests
use sputter_os.Prelude.{
  ℕ, zero, suc, ◌+◌, Bool, true, false, List, [], ◌∷◌, Option, none, some, if◌then◌else◌, ◌>>=◌,
}
use sputter_os.Sync.Queue.{Queue}
use sputter_os.Sync.Watchdog.{Watchdog}
use sputter_os.Sync.Barrier.{CoreSync, init_state, set_core, startup_barrier, shutdown_barrier}
use sputter_os.Kernel.State.{Machine, is_active}
use sputter_os.Kernel.Lifecycle.{init_core, finish}
use sputter_os.Kernel.Dispatch.{Env, Core, now_micros, read_clock, tick}
use sputter_os.Kernel.Crunch.{CrunchState, Hooks, Dispatcher, run_loop}
use sputter_os.Sync.Barrier

-- The state that `run` works on: this core's, and the shared one that the core sees.
pub record Runtime (F A W : Type 0) : Type 0 where
  pub core : Core F A W
  pub watchdog : Watchdog
  pub sync : CoreSync
  pub is_initialized : Bool

-- What the run does not change. `inits` are the `init` of the tasks, `crunch` the crunch task of a core in
-- crunch mode, `handled` whether the barriers have an error handler.
pub record RunSetup (F A W : Type 0) : Type 0 where
  pub is_multi : Bool
  pub handled : Bool
  pub peers : ℕ → List Barrier.CoreState → List Barrier.CoreState
  pub others : ℕ → Env F A W → Env F A W
  pub stops : List (Env F A W → Bool × Env F A W)
  pub inits : List (Machine F × (Queue A × W) → Machine F × (Queue A × W))
  pub crunch : Option (Hooks F (Queue A × W))
  pub dflt : A
  pub capacity : ℕ
  pub control_budget : ℕ
  pub max_overruns : ℕ

-- The timeout of both barriers.
abbrev pub barrier_timeout : ℕ
barrier_timeout = 2000

-- `anyStopConditionFired`: the conditions behind one that fires are not asked.
unfoldable pub any_stop_fired :
    {F A W : Type 0} → List (Env F A W → Bool × Env F A W) → Env F A W → Bool × Env F A W
any_stop_fired [] e = (false, e)
any_stop_fired (stop ∷ stops) e =
    let (fired, e') = stop e in
    let rest = any_stop_fired stops e' in if fired then (true, e') else rest

module _ {F A W : Type 0} (zero_float : F) (to_float : ℕ → F) (divide : F → F → F)
    (clock : W → Option ℕ × W) (setup : RunSetup F A W) where
  -- The loop's condition at round `k`, and the state that its evaluation leaves.
  unfoldable pub goes_on : ℕ → Core F A W → Bool × Core F A W
  goes_on k c =
      let e = setup.others k c.env in
      let (fired, e') = any_stop_fired setup.stops e in
      if is_active e.machine.state
      then (if fired then false else true, record c { env = e' })
      else (false, record c { env = e })

  -- The loop's body.
  unfoldable pub tick_now : Core F A W → Core F A W
  tick_now c =
      let (read, e) = read_clock zero_float to_float divide clock c.env in
      tick zero_float to_float divide clock setup.dflt setup.capacity setup.control_budget
        (record c { env = e }) (now_micros c.epoch read)

  unfoldable pub flat_loop : ℕ → ℕ → Core F A W → Option (Core F A W)
  flat_loop zero k c = none
  flat_loop (suc fuel) k c =
      let (again, c') = goes_on k c in
      let rest = flat_loop fuel (k + 1) (tick_now c') in if again then rest else some c'

  -- Phase 1; there is nothing to signal on a single core.
  unfoldable pub signal_init : Runtime F A W → Runtime F A W
  signal_init r = record r {
    sync = (if setup.is_multi then set_core r.sync r.core.core_id init_state else r.sync);
  }

  -- Phase 2, `init`.
  unfoldable pub start_core : Runtime F A W → Runtime F A W
  start_core r =
      let e = r.core.env in
      let (m, (commands, world)) =
        init_core to_float setup.inits (e.machine, (e.commands, e.world)) in
      let started = record r.core {
        env = record { machine = m; commands = commands; world = world };
      } in
      if r.is_initialized then r else record r { core = started; is_initialized = true }

  -- Phase 4 on a core in crunch mode.
  unfoldable pub run_crunch : ℕ → Hooks F (Queue A × W) → Runtime F A W → Option (Runtime F A W)
  run_crunch fuel hooks r =
      let e = r.core.env in
      let shared : CrunchState F (Queue A × W) = record {
        machine = e.machine;
        watchdog = r.watchdog;
        world = (e.commands, e.world);
      } in
      do
        d ← run_loop hooks to_float setup.max_overruns r.core.core_id fuel shared
        some (record r {
          core = record r.core {
            env = record {
              machine = d.shared.machine;
              commands = d.shared.world.0;
              world = d.shared.world.1;
            };
          };
          watchdog = d.shared.watchdog;
        })

  unfoldable pub run_flat : ℕ → Runtime F A W → Option (Runtime F A W)
  run_flat fuel r = do c ← flat_loop fuel 0 r.core; some (record r { core = c })

  -- Phase 4.
  unfoldable pub run_core :
      ℕ → Option (Hooks F (Queue A × W)) → Runtime F A W → Option (Runtime F A W)
  run_core fuel none r = run_flat fuel r
  run_core fuel (some hooks) r = run_crunch fuel hooks r

  -- A barrier, whose result `run` ignores; there is none on a single core.
  unfoldable pub pass_barrier :
      (CoreSync → Option (Bool × CoreSync)) → Runtime F A W → Option (Runtime F A W)
  pass_barrier barrier r =
      let waited = barrier r.sync >>= λ p. some (record r { sync = p.1 }) in
      if setup.is_multi then waited else some r

  unfoldable pub finish_core : Runtime F A W → Runtime F A W
  finish_core r =
      let e = r.core.env in
      record r { core = record r.core { env = record e { machine = finish to_float e.machine } } }

  -- `run`, from a core identifier in range.
  unfoldable pub run : ℕ → Runtime F A W → Option (Runtime F A W)
  run fuel r =
      let id = r.core.core_id in
      let startup = startup_barrier setup.handled setup.peers fuel id barrier_timeout 1 in
      let shutdown = shutdown_barrier setup.handled setup.peers fuel id barrier_timeout 1 in
      do
        ready ← pass_barrier startup (start_core (signal_init r))
        done ← run_core fuel setup.crunch ready
        pass_barrier shutdown (finish_core done)
