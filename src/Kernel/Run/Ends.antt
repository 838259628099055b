-- ===== src/Kernel/Run/Ends.antt =====
-- How `System::run` ends on a core in flat mode.
use sputter_os.Prelude.{
  ℕ, zero, suc, ◌+◌, ◌<◌, ◌≡◌, ◌⊎◌, refl, sym, ◌∙◌, ap, subst, arith, Bool, true, false, List, [],
  ◌∷◌, Option, none, some, if◌then◌else◌, if_both, length, All, Bool-cases, Option-cases, inl, inr,
  length-set,
}
use sputter_os.Sync.Barrier.{CoreSync, init_state, set_core, startup_barrier, shutdown_barrier}
use sputter_os.Sync.Barrier
use sputter_os.Sync.Barrier.Startup.{HasEnded, startup_barrier_ends}
use sputter_os.Sync.Barrier.Shutdown.{EndsWith, IsTerminated, shutdown_barrier_ends}
use sputter_os.Kernel.State.{
  KernelState, unconfigured, configured, initializing, running, suspending, suspended, aborting,
  aborted, shutting_down, shutdown, Machine, is_active,
}
use sputter_os.Kernel.Lifecycle.Laws.{init_core-running, KeepsState, is_ending, finish_cases}
use sputter_os.Kernel.Dispatch.{Env, Core, now_micros, read_clock}
use sputter_os.Kernel.Dispatch.Keeps.{
  kernel_state, TaskKeeps, BackgroundKeeps, SlotsKeep, RingKeeps, tick-keeps, tick-tasks,
}
use sputter_os.Kernel.Run.{
  run_core, Runtime, RunSetup, any_stop_fired, goes_on, tick_now, flat_loop, signal_init,
  start_core, run_flat, pass_barrier, finish_core, run, barrier_timeout,
}

-- The kernel runs, or a core has begun to shut it down.
abbrev pub IsOnTheWay : KernelState → Type 0
IsOnTheWay running = Unit
IsOnTheWay shutting_down = Unit
IsOnTheWay shutdown = Unit
IsOnTheWay unconfigured = ⊥
IsOnTheWay configured = ⊥
IsOnTheWay initializing = ⊥
IsOnTheWay suspending = ⊥
IsOnTheWay suspended = ⊥
IsOnTheWay aborting = ⊥
IsOnTheWay aborted = ⊥

finish-shutdown :
    {F : Type 0} (to_float : ℕ → F) (m : Machine F) (s : KernelState)
    → m.state ≡ s
    → IsOnTheWay s
    → (if is_ending s then record m { state = shutdown } else m).state ≡ shutdown
unfolding is_ending
finish-shutdown to_float m running e h = refl
finish-shutdown to_float m shutting_down e h = refl
finish-shutdown to_float m shutdown e h = e
finish-shutdown to_float m unconfigured e h = absurd h
finish-shutdown to_float m configured e h = absurd h
finish-shutdown to_float m initializing e h = absurd h
finish-shutdown to_float m suspending e h = absurd h
finish-shutdown to_float m suspended e h = absurd h
finish-shutdown to_float m aborting e h = absurd h
finish-shutdown to_float m aborted e h = absurd h

module _ {F A W : Type 0} where
  abbrev pub OnTheWay : Env F A W → Type 0
  OnTheWay e = IsOnTheWay (kernel_state e)

  -- A stop condition that does not take the kernel off its way.
  abbrev pub StopKeeps : (Env F A W → Bool × Env F A W) → Type 0
  StopKeeps stop = (e : Env F A W) → OnTheWay e → OnTheWay (stop e).1

  any_stop_fired-keeps :
      (stops : List (Env F A W → Bool × Env F A W)) (e : Env F A W)
      → All StopKeeps stops
      → OnTheWay e
      → OnTheWay (any_stop_fired stops e).1
  unfolding any_stop_fired
  any_stop_fired-keeps [] e h w = w
  any_stop_fired-keeps (stop ∷ stops) e (h, hs) w =
      let P = λ (r : Bool × Env F A W). OnTheWay r.1 in
      if_both P (stop e).0 _ _ (h e w) (any_stop_fired-keeps stops (stop e).1 hs (h e w))

  -- The tasks of the core leave a running kernel running, or shut it down.
  abbrev pub IsCalm : Core F A W → Type 0
  IsCalm c = SlotsKeep OnTheWay c.slots × RingKeeps OnTheWay c.ring

  abbrev IsLive : Core F A W → Type 0
  IsLive c = OnTheWay c.env × IsCalm c

module _ {F A W : Type 0} (zero_float : F) (to_float : ℕ → F) (divide : F → F → F)
    (clock : W → Option ℕ × W) (setup : RunSetup F A W)
    (others_keep : (k : ℕ) (e : Env F A W) → OnTheWay e → OnTheWay (setup.others k e))
    (stops_keep : All StopKeeps setup.stops) where
  goes_on-IsLive :
      (k : ℕ) (c : Core F A W)
      → IsLive c
      → IsLive (goes_on zero_float to_float divide clock setup k c).1
  unfolding goes_on
  goes_on-IsLive k c (way, calm) =
      let e = setup.others k c.env in
      let kept = others_keep k c.env way in
      let P = λ (r : Bool × Core F A W). IsLive r.1 in
      if_both P (is_active e.machine.state) _ _
        (any_stop_fired-keeps setup.stops e stops_keep kept, calm) (kept, calm)

  tick_now-IsLive :
      (c : Core F A W) → IsLive c → IsLive (tick_now zero_float to_float divide clock setup c)
  unfolding tick_now read_clock
  tick_now-IsLive c (way, (slots, ring)) =
      let (read, w) = clock c.env.world in
      let c0 = record c { env = record c.env { world = w } } in
      let now = now_micros c.epoch read in
      (
        tick-keeps zero_float to_float divide clock OnTheWay (λ e l h. h) (λ e h. h) setup.dflt
            setup.capacity setup.control_budget c0 now slots ring way,
        tick-tasks zero_float to_float divide clock (TaskKeeps OnTheWay) (BackgroundKeeps OnTheWay)
            (λ b t h. h) setup.dflt setup.capacity setup.control_budget c0 now slots ring,
      )

  -- The rounds get nearer to the end, as long as an invariant of theirs holds.
  abbrev pub GetsNearer : (ℕ → Core F A W → Type 0) → (ℕ → Core F A W → ℕ) → Type 0
  GetsNearer Inv left =
      (k : ℕ) (c : Core F A W)
      → Inv k c
      → (goes_on zero_float to_float divide clock setup k c).0 ≡ true
      → let c' =
          tick_now zero_float to_float divide clock setup
            (goes_on zero_float to_float divide clock setup k c).1 in
        Inv (k + 1) c' × (left (k + 1) c' < left k c)

  module _ (Inv : ℕ → Core F A W → Type 0) (left : ℕ → Core F A W → ℕ)
      (progress : GetsNearer Inv left) where
    flat_loop-ends :
        (fuel k : ℕ) (c : Core F A W)
        → left k c < fuel
        → Inv k c
        → IsLive c
        → (c' : Core F A W) × (flat_loop zero_float to_float divide clock setup fuel k c ≡ some c')
          × IsLive c'
    unfolding flat_loop
    flat_loop-ends zero k c enough inv live = absurd (omega arith)
    flat_loop-ends (suc fuel) k c enough inv live =
        let step = goes_on zero_float to_float divide clock setup k c in
        let live' = goes_on-IsLive k c live in
        elim (Bool-cases step.0) [
          | inl again ↦
              let (inv', fewer) = progress k c inv again in
              let (c', ends, there) =
                flat_loop-ends fuel (k + 1) (tick_now zero_float to_float divide clock setup step.1)
                  (omega arith) inv' (tick_now-IsLive step.1 live') in
              (c', rw again ends, there)
          | inr over ↦ (step.1, rw over refl, live')
        ]

    run_flat-ends :
        (fuel : ℕ) (r : Runtime F A W)
        → left 0 r.core < fuel
        → Inv 0 r.core
        → IsLive r.core
        → (c' : Core F A W) × (run_flat zero_float to_float divide clock setup fuel r
            ≡ some (record r { core = c' }))
          × IsLive c'
    unfolding run_flat
    run_flat-ends fuel r enough inv live =
        let (c', ends, there) = flat_loop-ends fuel 0 r.core enough inv live in
        (c', rw ends refl, there)

    -- A barrier that ends is passed, and the core's own state is left as it is.
    pass_barrier-ends :
        (P : Option (Bool × CoreSync) → Type 0) (barrier : CoreSync → Option (Bool × CoreSync))
        (r : Runtime F A W)
        → ¬ P none
        → P (barrier r.sync)
        → (sync : CoreSync) × (pass_barrier zero_float to_float divide clock setup barrier r
            ≡ some (record r { sync = sync }))
    unfolding pass_barrier
    pass_barrier-ends P barrier r ends h = elim (Bool-cases setup.is_multi) [
      | inr single ↦ (r.sync, rw single refl)
      | inl multi ↦ elim (Option-cases (barrier r.sync)) [
        | inl stuck ↦ absurd (ends (subst P stuck h))
        | inr (p, e) ↦ (p.1, rw (multi, e) refl)
      ]
    ]

    module _ (calm_inits : All KeepsState setup.inits) (flat : setup.crunch ≡ none)
        (peers_keep : (k : ℕ) (ss : List Barrier.CoreState)
          → length (setup.peers k ss) ≡ length ss) where
      -- The start leaves the kernel running, and the core its tasks.
      start_core-IsLive :
          (r : Runtime F A W)
          → r.is_initialized ≡ false
          → (kernel_state r.core.env ≡ configured) ⊎ (kernel_state r.core.env ≡ running)
          → IsCalm r.core
          → IsLive (start_core zero_float to_float divide clock setup r).core
      unfolding start_core
      start_core-IsLive r fresh state calm = rw fresh (
        subst IsOnTheWay
            (sym (
              init_core-running to_float setup.inits r.core.env.machine
                (r.core.env.commands, r.core.env.world) state calm_inits))
            tt,
        calm,
      )

      started-sync :
          (r : Runtime F A W) → (start_core zero_float to_float divide clock setup r).sync ≡ r.sync
      unfolding start_core
      started-sync r = elim (Bool-cases r.is_initialized) [ inl e ↦ rw e refl | inr e ↦ rw e refl ]

      started-is_initialized :
          (r : Runtime F A W)
          → (start_core zero_float to_float divide clock setup r).is_initialized ≡ true
      unfolding start_core
      started-is_initialized r = elim (Bool-cases r.is_initialized) [
        | inl e ↦ rw e refl
        | inr e ↦ rw e refl
      ]

      signalled-length :
          (r : Runtime F A W)
          → length (signal_init zero_float to_float divide clock setup r).sync.states
            ≡ length r.sync.states
      unfolding signal_init set_core
      signalled-length r = elim (Bool-cases setup.is_multi) [
        | inl e ↦ rw e (length-set r.sync.states r.core.core_id init_state)
        | inr e ↦ rw e refl
      ]

      run_core-flat :
          (fuel : ℕ) (r : Runtime F A W)
          → run_core zero_float to_float divide clock setup fuel setup.crunch r
            ≡ run_flat zero_float to_float divide clock setup fuel r
      unfolding run_core
      run_core-flat fuel r = ap (λ o. run_core zero_float to_float divide clock setup fuel o r) flat

      -- The core as the loop gets it.
      abbrev pub first_core : Runtime F A W → Core F A W
      first_core r =
          (start_core zero_float to_float divide clock setup
            (signal_init zero_float to_float divide clock setup r)).core

      -- A core in flat mode that is not initialised yet, on a kernel that is configured or runs; whose
      -- `init` functions leave the kernel's state alone; whose tasks and stop conditions, and the other
      -- cores, leave a running kernel running or shut it down; and whose rounds get nearer to a stop
      -- condition: with fuel for the barriers' timeout and for the rounds that are left, `run` returns,
      -- whatever the clock reads and however the barriers end, and then the core is initialised and the
      -- kernel is in `SHUTDOWN`.
      pub run_shuts_down :
          (fuel : ℕ) (r : Runtime F A W)
          → r.is_initialized ≡ false
          → (kernel_state r.core.env ≡ configured) ⊎ (kernel_state r.core.env ≡ running)
          → IsCalm r.core
          → r.core.core_id < length r.sync.states
          → barrier_timeout < fuel
          → Inv 0 (first_core r)
          → left 0 (first_core r) < fuel
          → (r' : Runtime F A W) × (run zero_float to_float divide clock setup fuel r ≡ some r')
            × (kernel_state r'.core.env ≡ shutdown)
            × (r'.is_initialized ≡ true)
      unfolding run finish_core
      run_shuts_down fuel r fresh state calm here waits inv enough =
          let id = r.core.core_id in
          let startup = startup_barrier setup.handled setup.peers fuel id barrier_timeout 1 in
          let shut = shutdown_barrier setup.handled setup.peers fuel id barrier_timeout 1 in
          let signalled = signal_init zero_float to_float divide clock setup r in
          let started = start_core zero_float to_float divide clock setup signalled in
          let live =
            start_core-IsLive signalled (unfold signal_init in fresh) (unfold signal_init in state)
              (unfold signal_init in calm) in
          let inside : id < length started.sync.states =
            omega (arith, ap (λ s. length s.states) (started-sync signalled), signalled-length r) in
          let (sync, passed) =
            pass_barrier-ends (HasEnded setup.handled setup.peers id) startup started (λ n. n)
              (startup_barrier_ends setup.handled setup.peers fuel id barrier_timeout 1 started.sync
                peers_keep (omega arith) (omega arith) waits inside) in
          let ready = record started { sync = sync } in
          let (c', ended, (way, still)) = run_flat-ends fuel ready enough inv live in
          let finished =
            finish_core zero_float to_float divide clock setup (record ready { core = c' }) in
          let (sync', left_behind) =
            pass_barrier-ends (EndsWith setup.handled setup.peers (λ m. All IsTerminated m.states))
              shut finished (λ n. n)
              (shutdown_barrier_ends setup.handled setup.peers fuel id barrier_timeout 1
                finished.sync (omega arith) (omega arith) waits) in
          (
            record finished { sync = sync' },
            rw (passed, run_core-flat fuel ready ∙ ended) left_behind,
            ap (λ m. m.state) (finish_cases to_float c'.env.machine)
                ∙ finish-shutdown to_float c'.env.machine c'.env.machine.state refl way,
            started-is_initialized signalled,
          )
