-- ===== src/Sync/Barrier.antt =====
-- include/sputteros/osal/sync/MultiCoreSync.h. A scan of all states is one step, and the other cores act
-- between a scan and the next: `peers` gives their effect at each point of a wait, numbered from 0.
-- The wait loops are on fuel, with `none` where it runs out.
pub mod Startup
pub mod Shutdown
mod Tests
use sputter_os.Prelude.{
  ℕ, zero, suc, ◌+◌, ◌%◌, Bool, true, false, not, ◌&&◌, ◌||◌, List, [], ◌∷◌, ◌++◌, Option, none,
  some, if◌then◌else◌, ltb, leb, ◌==◌, get_or, set, replicate,
}

pub data CoreState : Type 0 where
  unborn init_state ready failed gone : CoreState

-- The enumerators' values: `ERROR` is 3 and `SHUTDOWN` 4.
unfoldable pub core_code : CoreState → ℕ
core_code unborn = 0
core_code init_state = 1
core_code ready = 2
core_code failed = 3
core_code gone = 4

abbrev pub same_core_state : CoreState → CoreState → Bool
same_core_state a b = core_code a == core_code b

-- The states, and the reports to the error handler, by core, newest last.
pub record CoreSync : Type 0 where
  pub states : List CoreState
  pub reports : List ℕ

unfoldable pub make_sync : ℕ → CoreSync
make_sync n_cores = record { states = replicate n_cores unborn; reports = [] }

-- `setInit`, `setReady` and `setShutdown`.
unfoldable pub set_core : CoreSync → ℕ → CoreState → CoreSync
set_core m core_id target = record m { states = set m.states core_id target }

-- `setError`; `handled` tells whether there is an error handler.
unfoldable pub set_error : Bool → CoreSync → ℕ → CoreSync
set_error handled m core_id =
    let m' = set_core m core_id failed in
    if handled then record m' { reports = m'.reports ++ core_id ∷ [] } else m'

unfoldable pub any_error : List CoreState → Bool
any_error [] = false
any_error (s ∷ ss) = let rest = any_error ss in if same_core_state s failed then true else rest

unfoldable pub all_in_state : CoreState → List CoreState → Bool
all_in_state target [] = true
all_in_state target (s ∷ ss) =
    let rest = all_in_state target ss in if not (same_core_state s target) then false else rest

unfoldable pub all_terminated : List CoreState → Bool
all_terminated [] = true
all_terminated (s ∷ ss) =
    let rest = all_terminated ss in
    if not (same_core_state s gone) && not (same_core_state s failed) then false else rest

-- 32-bit milliseconds.
abbrev pub add32 : ℕ → ℕ → ℕ
add32 a b = (a + b) % 4294967296

module _ (handled : Bool) (peers : ℕ → List CoreState → List CoreState) where
  -- What the other cores did up to point `k`.
  abbrev pub meanwhile : ℕ → CoreSync → CoreSync
  meanwhile k m = record m { states = peers k m.states }

  -- The loop of `startupBarrier`; `k` counts the points at which the others act.
  unfoldable pub startup_wait : ℕ → ℕ → ℕ → ℕ → ℕ → ℕ → CoreSync → Option (Bool × CoreSync)
  startup_wait zero k elapsed core_id timeout poll m = none
  startup_wait (suc fuel) k elapsed core_id timeout poll m =
      let m1 = meanwhile k m in
      let m2 = meanwhile (k + 1) m1 in
      let rest = startup_wait fuel (k + 2) (add32 elapsed poll) core_id timeout poll m2 in
      if ltb elapsed timeout
      then (if any_error m1.states
          then some (false, set_error handled m1 core_id)
          else if all_in_state ready m2.states
          then some (true, m2)
          else rest)
      else some (false, set_error handled m core_id)

  unfoldable pub startup_barrier : ℕ → ℕ → ℕ → ℕ → CoreSync → Option (Bool × CoreSync)
  startup_barrier fuel core_id timeout poll m =
      startup_wait fuel 0 0 core_id timeout poll (set_core m core_id ready)

  unfoldable pub shutdown_wait : ℕ → ℕ → ℕ → ℕ → ℕ → CoreSync → Option (Bool × CoreSync)
  shutdown_wait zero k elapsed timeout poll m = none
  shutdown_wait (suc fuel) k elapsed timeout poll m =
      let m1 = meanwhile k m in
      let rest = shutdown_wait fuel (k + 1) (add32 elapsed poll) timeout poll m1 in
      if ltb elapsed timeout
      then (if all_terminated m1.states then some (true, m1) else rest)
      else some (false, m)

  unfoldable pub shutdown_barrier : ℕ → ℕ → ℕ → ℕ → CoreSync → Option (Bool × CoreSync)
  shutdown_barrier fuel core_id timeout poll m =
      shutdown_wait fuel 0 0 timeout poll (set_core m core_id gone)

  -- `waitForCore`, from the time `elapsed` on.
  unfoldable pub wait_for_core :
      ℕ → ℕ → ℕ → ℕ → CoreState → ℕ → ℕ → CoreSync → Option (Bool × CoreSync)
  wait_for_core zero k elapsed peer_id target timeout poll m = none
  wait_for_core (suc fuel) k elapsed peer_id target timeout poll m =
      let m1 = meanwhile k m in
      let rest = wait_for_core fuel (k + 1) (add32 elapsed poll) peer_id target timeout poll m1 in
      if ltb elapsed timeout
      then (if leb (core_code target) (core_code (get_or m1.states peer_id unborn))
          then some (true, m1)
          else rest)
      else some (false, m)
