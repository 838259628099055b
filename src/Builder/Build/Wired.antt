-- ===== src/Builder/Build/Wired.antt =====
-- What a build that succeeds has set up.
use sputter_os.Prelude.{
  Option-cases, take_all, length-append, ℕ, zero, suc, ◌+◌, ◌*◌, ◌<◌, ◌≤◌, ◌≡◌, refl, sym, ◌∙◌, ap,
  arith, true, false, List, [], ◌∷◌, ◌++◌, Option, none, some, ltb, ◌==◌, length, take, All,
  Bool-cases, inl, inr, append_assoc, append-nil, ge→ltb, lt→ltb, ==_iff, ltb→lt, length-append,
  take_all, take_ge, take-take_le,
}
use sputter_os.Kernel.State.{Machine, unconfigured, configured, transition_to, is_allowed}
use sputter_os.Builder.Checks.{Pinned, BuildError}
use sputter_os.Builder.Topology.{max_tasks_per_core}
use sputter_os.Builder.Build.{
  TimerSetup, Setup, Static, set_timer, set_timers, task_ids, crunch_ids, push_all, max_monitored,
  create_kernel, set_monitored_tasks, timed_ids, give_monitored, give_clock, give_window, configure,
  conclude, check_and_configure, build,
}
use sputter_os.Builder.Build.Order.{build_cases}

module _ {C : Type 0} (change : TimerSetup C → TimerSetup C) (P : TimerSetup C → Type 0) where
  -- What each change keeps, the loop keeps.
  set_timers-keep :
      ((t : TimerSetup C) → P t → P (change t))
      → (ids : List ℕ) (timers : ℕ → TimerSetup C) (a : ℕ) → P (timers a)
      → P (set_timers change ids timers a)
  unfolding set_timers set_timer
  set_timers-keep kept [] timers a h = h
  set_timers-keep kept (b ∷ ids) timers a h =
      set_timers-keep kept ids (set_timer change b timers) a
        (elim (Bool-cases (a == b)) [ inl e ↦ rw e (kept (timers a) h) | inr e ↦ rw e h ])

  -- What each change brings about holds of all tasks of the loop.
  set_timers-All :
      ((t : TimerSetup C) → P (change t))
      → (ids : List ℕ) (timers : ℕ → TimerSetup C)
      → All (λ a. P (set_timers change ids timers a)) ids
  unfolding set_timers
  set_timers-All makes [] timers = tt
  set_timers-All makes (b ∷ ids) timers = (
    set_timers-keep (λ t h. makes t) ids (set_timer change b timers) b
        (unfold set_timer in rw ((==_iff b b).1 refl) (makes (timers b))),
    set_timers-All makes ids (set_timer change b timers),
  )

All-map : {P Q : ℕ → Type 0} → ((a : ℕ) → P a → Q a) → (xs : List ℕ) → All P xs → All Q xs
All-map f [] h = tt
All-map f (x ∷ xs) (h, hs) = (f x h, All-map f xs hs)

All-both : (P Q : ℕ → Type 0) (xs : List ℕ) → All P xs → All Q xs → All (λ a. P a × Q a) xs
All-both P Q [] h k = tt
All-both P Q (x ∷ xs) (h, hs) (k, ks) = ((h, k), All-both P Q xs hs ks)

push_all_full :
    (limit : ℕ) (held ids : List ℕ) → limit ≤ length held → push_all limit held ids ≡ held
unfolding push_all
push_all_full limit held [] h = refl
push_all_full limit held (id ∷ ids) h =
    rw (ge→ltb (length held) limit h) (push_all_full limit held ids h)

-- `s_allTasks` takes the tasks that it has room for.
push_all-take :
    (room limit : ℕ) (held ids : List ℕ)
    → limit ≡ length held + room
    → push_all limit held ids ≡ held ++ take room ids
unfolding push_all
push_all-take zero limit held ids e =
    push_all_full limit held ids (omega arith) ∙ sym (append-nil held)
push_all-take (suc room) limit held [] e = sym (append-nil held)
push_all-take (suc room) limit held (id ∷ ids) e =
    let fits = lt→ltb (length held) limit (omega arith) in
    let ih =
      push_all-take room limit (held ++ id ∷ []) ids
        (omega (arith, length-append held (id ∷ []))) in
    rw fits (ih ∙ append_assoc held (id ∷ []) (take room ids))

set_monitored_tasks-take : (ids : List ℕ) → set_monitored_tasks ids ≡ take max_monitored ids
unfolding set_monitored_tasks
set_monitored_tasks-take ids = elim (Bool-cases (ltb (length ids) max_monitored)) [
  | inl few ↦ rw few (
      take_all ids
      ∙ sym (take_ge max_monitored ids (omega (arith, ltb→lt (length ids) max_monitored few))))
  | inr many ↦ rw many refl
]

module _ {C : Type 0} (s : Setup C) (source : C) where
  abbrev clocked_timer : TimerSetup C → TimerSetup C
  clocked_timer t = record t { clock = some source }

  abbrev windowed_timer : TimerSetup C → TimerSetup C
  windowed_timer t = record t { window_us = s.metrics_window_us }

  -- Both loops, one after the other.
  both_loops :
      (ids : List ℕ) (timers : ℕ → TimerSetup C)
      → let wired = set_timers windowed_timer ids (set_timers clocked_timer ids timers) in
        All (λ a. ((wired a).clock ≡ some source) × ((wired a).window_us ≡ s.metrics_window_us)) ids
  both_loops ids timers =
      let timers' = set_timers clocked_timer ids timers in
      let wired = set_timers windowed_timer ids timers' in
      let clocks =
        set_timers-All clocked_timer (λ t. t.clock ≡ some source) (λ t. refl) ids timers in
      let kept = λ (a : ℕ) (h : (timers' a).clock ≡ some source).
        set_timers-keep windowed_timer (λ t. t.clock ≡ some source) (λ t k. k) ids timers' a h in
      All-both (λ a. (wired a).clock ≡ some source) (λ a. (wired a).window_us ≡ s.metrics_window_us)
        ids (All-map kept ids clocks)
        (set_timers-All windowed_timer (λ t. t.window_us ≡ s.metrics_window_us) (λ t. refl) ids
          timers')

module _ {F C : Type 0} (s : Setup C) (source : C) where
  -- A system that is ready to start: it is built, each task's timer has the clock source and the window
  -- of the configuration, and so has the system timer the source; `s_allTasks` lists the tasks core by
  -- core, and the diagnostics task watches the first 16 of them; it has the telemetry drain if there
  -- is one, the watchdog function is the builder's, and the kernel is in `CONFIGURED`.
  pub record IsReady (b : Static F C) : Type 0 where
    pub built : b.is_built ≡ true
    pub timed :
        All
          (λ a. ((b.timers a).clock ≡ some source) × ((b.timers a).window_us ≡ s.metrics_window_us))
          (timed_ids b)
    pub system_timed : b.system_clock ≡ some source
    pub listed : b.monitored ≡ take (s.core_count * max_tasks_per_core) (task_ids b.cores)
    pub watches : b.watched ≡ take max_monitored (task_ids b.cores)
    pub drained : b.drain_wired ≡ b.has_drain
    pub kicks : b.kick_fn ≡ s.watchdog_kick
    pub in_configured : b.machine.state ≡ configured

  -- The end of a build, once the list of the monitored tasks is made.
  wired-IsReady :
      (b : Static F C) (m : Machine F)
      → s.clock_source ≡ some source
      → b.monitored ≡ take (s.core_count * max_tasks_per_core) (task_ids b.cores)
      → b.watched ≡ take max_monitored (task_ids b.cores)
      → b.drain_wired ≡ b.has_drain
      → b.kick_fn ≡ s.watchdog_kick
      → m.state ≡ configured
      → IsReady (record (give_window s (give_clock s b)) { is_built = true; machine = m })
  unfolding give_window give_clock timed_ids
  wired-IsReady b m clocked listed watches drained kicks in_configured = rw clocked record {
    built = refl;
    timed = both_loops s source (task_ids b.cores ++ (b.background ++ crunch_ids b.cores)) b.timers;
    system_timed = refl;
    listed = listed;
    watches = watches;
    drained = drained;
    kicks = kicks;
    in_configured = in_configured;
  }

  to_configured :
      (to_float : ℕ → F) (m : Machine F)
      → m.state ≡ unconfigured
      → (transition_to to_float m configured).1.state ≡ configured
  unfolding transition_to is_allowed
  to_configured to_float m new = rw new refl

  wired_state :
      (b : Static F C)
      → b.machine.state ≡ unconfigured
      → (give_window s (give_clock s b)).machine.state ≡ unconfigured
  unfolding give_window give_clock
  wired_state b new = elim (Option-cases s.clock_source) [
    | inl e ↦ rw e new
    | inr (c, e) ↦ rw e new
  ]

  abbrev all_ids : Static F C → List ℕ
  all_ids b = push_all (s.core_count * max_tasks_per_core) [] (task_ids b.cores)

  give_monitored-app :
      (b : Static F C)
      → s.has_app ≡ true
      → give_monitored s b
        ≡ record b { monitored = all_ids b; watched = set_monitored_tasks (all_ids b) }
  unfolding give_monitored
  give_monitored-app b app = simp app

  configure-IsReady :
      (to_float : ℕ → F) (b : Static F C)
      → s.has_app ≡ true
      → 0 < s.core_count
      → s.clock_source ≡ some source
      → b.drain_wired ≡ b.has_drain
      → b.kick_fn ≡ s.watchdog_kick
      → b.machine.state ≡ unconfigured
      → IsReady (configure to_float s b)
  unfolding configure
  configure-IsReady to_float b app some_core clocked drained kicks new =
      let limit = s.core_count * max_tasks_per_core in
      let ids = task_ids b.cores in
      let listed = push_all-take limit limit [] ids (omega arith) in
      let watches : set_monitored_tasks (all_ids b) ≡ take max_monitored ids =
        set_monitored_tasks-take (all_ids b)
        ∙ ap (take max_monitored) listed
        ∙ take-take_le max_monitored limit ids (omega arith) in
      let b' = record b { monitored = all_ids b; watched = set_monitored_tasks (all_ids b) } in
      rw (give_monitored-app b app) (
        wired-IsReady b' _ clocked listed watches drained kicks
          (to_configured to_float _ (wired_state b' new)))

module _ {F C : Type 0} (to_float : ℕ → F) (divide : F → F → F) (dflt : Pinned) (s : Setup C) where
  conclude_passed :
      (error : Option BuildError) (b b' : Static F C)
      → conclude to_float s error b ≡ (none, b')
      → b' ≡ configure to_float s b
  unfolding conclude
  conclude_passed none b b' h = ap (λ x. x.1) (sym h)
  conclude_passed (some e) b b' h = absurd (ground arith)

  passed_configured :
      (b b' : Static F C)
      → check_and_configure to_float divide dflt s b ≡ (none, b')
      → (checked : Static F C) × (b' ≡ configure to_float s checked)
        × (checked.machine.state ≡ b.machine.state)
        × (checked.has_drain ≡ b.has_drain)
        × (checked.drain_wired ≡ b.drain_wired)
        × (checked.kick_fn ≡ b.kick_fn)
  unfolding check_and_configure
  passed_configured b b' h = (_, conclude_passed _ _ b' h, refl, refl, refl, refl)

  -- What the kernel's tasks are given when they are created.
  created_with :
      (b created : Static F C)
      → s.has_app ≡ true
      → create_kernel s b ≡ some created
      → (created.machine.state ≡ b.machine.state)
        × (created.drain_wired ≡ created.has_drain)
        × (created.kick_fn ≡ s.watchdog_kick)
  unfolding create_kernel
  created_with b created app e = elim (Bool-cases (ltb (length b.background) s.max_background)) [
    | inl room ↦ ground (arith, app, room)
    | inr full ↦ absurd (ground (arith, app, full))
  ]

  -- A build that succeeds on a kernel in `UNCONFIGURED`, with an application, a clock source and at least
  -- one core, leaves a system that is built, with the kernel in `CONFIGURED`: each task's timer has the
  -- clock source and the window, and so has the system timer the source; the tasks are listed core by
  -- core, and the diagnostics task watches the first 16 of them and has the drain if
  -- one is set; and the watchdog function is the builder's.
  pub build-IsReady :
      (b b' : Static F C) (source : C)
      → s.has_app ≡ true
      → 0 < s.core_count
      → s.clock_source ≡ some source
      → b.is_built ≡ false
      → b.machine.state ≡ unconfigured
      → build to_float divide dflt s b ≡ some (none, b')
      → IsReady s source b'
  build-IsReady b b' source app some_core clocked new fresh e =
      let (created, k, done) = build_cases to_float divide dflt s b b' none new e in
      let (checked, is, state, has, wired, kick) = passed_configured created b' done in
      let (state', wired', kick') = created_with b created app k in
      rw is (
        configure-IsReady s source to_float checked app some_core clocked
          (wired ∙ (wired' ∙ sym has)) (kick ∙ kick') (state ∙ (state' ∙ fresh)))
