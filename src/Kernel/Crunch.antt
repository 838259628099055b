-- ===== src/Kernel/Crunch.antt =====
-- include/sputteros/kernel/CrunchDispatcher.h. The crunch task is the user's code, and the other cores act between
-- any two steps of this one; both change the state that the hooks are given. `none` is fuel run out.
pub mod Overruns
mod Tests
use sputter_os.Prelude.{
  ℕ, zero, suc, ◌+◌, ◌%◌, Bool, true, false, ◌&&◌, not, Option, none, some, if◌then◌else◌, ltb, leb,
}
use sputter_os.Logging.Errors.{ErrorLogger, log, soft_abort, hard_fault, crunch_overrun}
use sputter_os.Kernel.State.{Machine, is_active}
use sputter_os.Kernel.Metrics.Deadline.{wrap64}
use sputter_os.Sync.Watchdog.{Watchdog, kick, time_since}

-- The static state of `System` that the loop reads and writes, with the rest of the world.
pub record CrunchState (F W : Type 0) : Type 0 where
  pub machine : Machine F
  pub watchdog : Watchdog
  pub world : W

-- `S::timer().nowMicros()`, the flags of `System`, the task, and the watchdog function, which does
-- nothing where the source has the null pointer.
pub record Hooks (F W : Type 0) : Type 0 where
  pub now : CrunchState F W → ℕ × CrunchState F W
  pub is_aborted : W → Bool
  pub stop_fired : W → Bool
  pub crunch : ℕ → CrunchState F W → CrunchState F W
  pub on_crunch_abort : CrunchState F W → CrunchState F W
  pub max_iteration_us : W → ℕ
  pub extra_kick : CrunchState F W → CrunchState F W

pub record Dispatcher (F W : Type 0) : Type 0 where
  pub shared : CrunchState F W
  pub consecutive_overruns : ℕ
  pub total_overruns : ℕ

-- Whether the loop goes on after a round.
pub data Round : Type 0 where
  again done : Round

abbrev pub inc32 : ℕ → ℕ
inc32 n = (n + 1) % 4294967296

module _ {F W : Type 0} where
  -- What a round leaves to do, `rest` being the loop from there.
  abbrev pub after_round :
      Round → Dispatcher F W → Option (Dispatcher F W) → Option (Dispatcher F W)
  after_round again d rest = rest
  after_round done d rest = some d

-- `max_overruns` is `CfgCrunchMaxOverruns`, `to_float` the conversion of an integer.
module _ {F W : Type 0} (hooks : Hooks F W) (to_float : ℕ → F) (max_overruns core_id : ℕ) where
  abbrev pub log_shared : CrunchState F W → (ErrorLogger F → ErrorLogger F) → CrunchState F W
  log_shared s write = record s { machine = record s.machine { errors = write s.machine.errors } }

  -- `onCrunchAbort` and the log entry of a safety abort.
  unfoldable pub abort_crunch : CrunchState F W → CrunchState F W
  abort_crunch s =
      let (t, s') = hooks.now (hooks.on_crunch_abort s) in
      log_shared s' (λ l. log l soft_abort t (to_float 0))

  -- The loop's condition.
  unfoldable pub keeps_running : CrunchState F W → Bool
  keeps_running s = is_active s.machine.state && not (hooks.stop_fired s.world)

  -- The accounting of an iteration that took `elapsed`.
  unfoldable pub account : ℕ → ℕ → Dispatcher F W → Round × Dispatcher F W
  account started elapsed d =
      let consecutive = inc32 d.consecutive_overruns in
      let logged = log_shared d.shared (λ l. log l crunch_overrun started (to_float elapsed)) in
      let counted : Dispatcher F W = record {
        shared = logged;
        consecutive_overruns = consecutive;
        total_overruns = inc32 d.total_overruns;
      } in
      let faulted =
        log_shared (hooks.on_crunch_abort logged)
          (λ l. log l hard_fault started (to_float consecutive)) in
      if ltb (hooks.max_iteration_us d.shared.world) elapsed
      then (if ltb 0 max_overruns && leb max_overruns consecutive
          then (done, record counted { shared = faulted })
          else (again, counted))
      else (again, record d { consecutive_overruns = 0 })

  -- The watchdog kicks and the timed iteration: its time stamp and its duration.
  unfoldable pub timed_crunch : CrunchState F W → (ℕ × ℕ) × CrunchState F W
  timed_crunch s =
      let (t, s1) = hooks.now s in
      let s2 = hooks.extra_kick (record s1 { watchdog = kick s1.watchdog core_id t }) in
      let (started, s3) = hooks.now s2 in
      let (ended, s4) = hooks.now (hooks.crunch t s3) in ((t, time_since started ended), s4)

  -- One pass of the loop's body.
  unfoldable pub crunch_round : Dispatcher F W → Round × Dispatcher F W
  crunch_round d =
      let ((t, elapsed), s) = timed_crunch d.shared in
      let next = account t elapsed (record d { shared = s }) in
      if hooks.is_aborted d.shared.world
      then (done, record d { shared = abort_crunch d.shared })
      else next

  unfoldable pub crunch_loop : ℕ → Dispatcher F W → Option (Dispatcher F W)
  crunch_loop zero d = none
  crunch_loop (suc fuel) d =
      let (round, d') = crunch_round d in
      let rest = crunch_loop fuel d' in
      if keeps_running d.shared then after_round round d' rest else some d

  unfoldable pub run_loop : ℕ → CrunchState F W → Option (Dispatcher F W)
  run_loop fuel s =
      let d : Dispatcher F W = record {
        shared = s;
        consecutive_overruns = 0;
        total_overruns = 0;
      } in
      if hooks.is_aborted s.world
      then some (record d { shared = abort_crunch s })
      else crunch_loop fuel d
