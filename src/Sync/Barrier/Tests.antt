-- ===== src/Sync/Barrier/Tests.antt =====
-- The barriers and the watchdog at concrete inputs.
use sputter_os.Prelude.{true, false, [], ◌∷◌, ◌≡◌, refl, arith, some}
use sputter_os.Sync.Barrier.{
  unborn, init_state, ready, failed, gone, CoreSync, startup_barrier, startup_wait, any_error,
  all_in_state, set_error, set_core, core_code,
}
use sputter_os.Sync.Barrier.Startup.{HasEnded, startup_barrier_ends}
use sputter_os.Sync.Watchdog.{Watchdog}

-- Two cores, of which core 1 is ready.
abbrev two_cores : CoreSync
two_cores = record { states = init_state ∷ ready ∷ []; reports = [] }

startup_barrier_ends_example :
    HasEnded true (λ k ss. ss) 0 (startup_barrier true (λ k ss. ss) 20 0 10 1 two_cores)
startup_barrier_ends_example =
    startup_barrier_ends true (λ k ss. ss) 20 0 10 1 two_cores (λ k ss. refl) (omega arith)
      (omega arith) (omega arith) (omega arith)

-- A core that has already asked to shut down is not ready any more.
early_exit_run :
    startup_barrier true (λ k ss. ss) 5 0 2 1 (record { states = unborn ∷ gone ∷ []; reports = [] })
    ≡ some (false, record { states = failed ∷ gone ∷ []; reports = 0 ∷ [] })
unfolding startup_barrier startup_wait any_error all_in_state set_error set_core core_code
early_exit_run = refl

abbrev kicked : Watchdog
kicked = record { last_kick = 0 ∷ 40 ∷ []; alive = false ∷ true ∷ [] }
