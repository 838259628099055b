-- ===== src/Builder/Checks/Sound.antt =====
-- What a topology that passes the validations is known to be.
use sputter_os.Prelude.{
  ℕ, ◌+◌, ◌≤◌, ◌≡◌, ◌≢◌, ◌⊎◌, ◌==◌, if◌then◌else◌, ◌∙◌, ◌++◌, Bool, ap, map, refl, arith, true,
  false, List, [], ◌∷◌, Option, none, some, All, Option-cases, inl, inr,
}
use sputter_os.Logging.Errors.{ErrorLogger}
use sputter_os.Builder.Checks.{
  crunch_on_core_0, Pinned, CrunchTask, CoreInfo, is_active_core, any_active, all_tasks, is_below,
  has_low_period, occurs, has_duplicate, check_crunch, check_rules, check_late, check_crunches,
  dependencies_hold, validate,
}

-- A scheduled task runs every tick or at no less than the minimum period.
abbrev pub HasPeriod : ℕ → Pinned → Type 0
HasPeriod minimum t =
    t.info.is_scheduled ≡ true → (t.info.period_us ≡ 0) ⊎ (minimum ≤ t.info.period_us)

-- No task is registered twice.
unfoldable pub IsDistinct : List Pinned → Type 0
IsDistinct [] = Unit
IsDistinct (t ∷ ts) = All (λ u. u.info.id ≢ t.info.id) ts × IsDistinct ts

-- A core in crunch mode, at position `c`, is not the first one and has its crunch task for itself.
abbrev pub FitsCrunch : ℕ → ℕ → CoreInfo → Type 0
FitsCrunch minimum c core =
    core.is_crunch ≡ true
    → (c ≢ 0)
      × (core.tasks ≡ [])
      × ((task : CrunchTask) × (core.crunch_task ≡ some task)
          × ((task.crunch_period_us ≡ 0) ⊎ (minimum ≤ task.crunch_period_us)))

unfoldable pub AllFitCrunch : ℕ → ℕ → List CoreInfo → Type 0
AllFitCrunch minimum c [] = Unit
AllFitCrunch minimum c (core ∷ cores) =
    FitsCrunch minimum c core × AllFitCrunch minimum (c + 1) cores

has_low_period-All :
    (minimum : ℕ) (ts : List Pinned)
    → has_low_period minimum ts ≡ false
    → All (HasPeriod minimum) ts
unfolding has_low_period is_below
has_low_period-All minimum [] h = tt
has_low_period-All minimum (t ∷ ts) h =
    ((λ s. ground arith), has_low_period-All minimum ts (ground arith))

occurs-All : (id : ℕ) (ts : List Pinned) → occurs id ts ≡ false → All (λ u. u.info.id ≢ id) ts
unfolding occurs
occurs-All id [] h = tt
occurs-All id (t ∷ ts) h = (ground arith, occurs-All id ts (ground arith))

has_duplicate-IsDistinct : (ts : List Pinned) → has_duplicate ts ≡ false → IsDistinct ts
unfolding has_duplicate IsDistinct
has_duplicate-IsDistinct [] h = tt
has_duplicate-IsDistinct (t ∷ ts) h =
    (occurs-All t.info.id ts (ground arith), has_duplicate-IsDistinct ts (ground arith))

check_rules-none :
    (minimum core_count : ℕ) (p : Option CrunchTask) (ts : List Pinned)
    → check_rules minimum core_count p ts ≡ none
    → (ts ≡ [])
      × ((task : CrunchTask) × (p ≡ some task)
          × ((task.crunch_period_us ≡ 0) ⊎ (minimum ≤ task.crunch_period_us)))
unfolding check_rules is_below
check_rules-none minimum core_count none ts h = absurd (ground arith)
check_rules-none minimum core_count (some task) (t ∷ ts) h = absurd (ground arith)
check_rules-none minimum core_count (some task) [] h = (refl, (task, refl, ground arith))

check_crunch-FitsCrunch :
    (minimum core_count c : ℕ) (core : CoreInfo)
    → check_crunch minimum core_count c core ≡ none
    → FitsCrunch minimum c core
unfolding check_crunch
check_crunch-FitsCrunch minimum core_count c core h crunch =
    let away : c ≢ 0 = ground arith in
    let rules : check_rules minimum core_count core.crunch_task core.tasks ≡ none = ground arith in
    let r = check_rules-none minimum core_count core.crunch_task core.tasks rules in
    (away, r.0, r.1)

check_crunches-AllFitCrunch :
    (minimum core_count c : ℕ) (cores : List CoreInfo)
    → check_crunches minimum core_count c cores ≡ none
    → AllFitCrunch minimum c cores
unfolding check_crunches AllFitCrunch
check_crunches-AllFitCrunch minimum core_count c [] h = tt
check_crunches-AllFitCrunch minimum core_count c (core ∷ cores) h =
    elim (Option-cases (check_crunch minimum core_count c core)) [
      | inl e ↦ (
        check_crunch-FitsCrunch minimum core_count c core e,
        check_crunches-AllFitCrunch minimum core_count (c + 1) cores (ground arith),
      )
      | inr (error, e) ↦ absurd (ground arith)
    ]

dependencies_hold-All :
    (ts : List Pinned) → dependencies_hold ts ≡ true → All (λ t. t.has_dependencies ≡ true) ts
unfolding dependencies_hold
dependencies_hold-All [] h = tt
dependencies_hold-All (t ∷ ts) h = (ground arith, dependencies_hold-All ts (ground arith))

check_late-none :
    (minimum core_count : ℕ) (cores : List CoreInfo)
    → check_late minimum core_count cores ≡ none
    → (check_crunches minimum core_count 0 cores ≡ none)
      × (dependencies_hold (all_tasks cores) ≡ true)
unfolding check_late
check_late-none minimum core_count cores h = ground arith

-- Another crunch task of the same period.
abbrev pub other_task : (ℕ → ℕ) → Option CrunchTask → Option CrunchTask
other_task f none = none
other_task f (some t) = some (record t { crunch_id = f t.crunch_id })

abbrev pub with_other : (ℕ → ℕ) → CoreInfo → CoreInfo
with_other f c = record c { crunch_task = other_task f c.crunch_task }

module _ (f : ℕ → ℕ) where
  is_active_core-other :
      (ts : List Pinned) (crunch : Bool) (p : Option CrunchTask)
      → is_active_core (record { tasks = ts; is_crunch = crunch; crunch_task = other_task f p })
        ≡ is_active_core (record { tasks = ts; is_crunch = crunch; crunch_task = p })
  unfolding is_active_core
  is_active_core-other [] crunch none = refl
  is_active_core-other [] crunch (some t) = refl
  is_active_core-other (t ∷ ts) crunch p = refl

  any_active-other :
      (cores : List CoreInfo) → any_active (map (with_other f) cores) ≡ any_active cores
  unfolding any_active
  any_active-other [] = refl
  any_active-other (c ∷ cs) =
      rw (is_active_core-other c.tasks c.is_crunch c.crunch_task, any_active-other cs) refl

  all_tasks-other : (cores : List CoreInfo) → all_tasks (map (with_other f) cores) ≡ all_tasks cores
  unfolding all_tasks
  all_tasks-other [] = refl
  all_tasks-other (c ∷ cs) = ap (λ l. c.tasks ++ l) (all_tasks-other cs)

  check_rules-other :
      (minimum n : ℕ) (p : Option CrunchTask) (ts : List Pinned)
      → check_rules minimum n (other_task f p) ts ≡ check_rules minimum n p ts
  unfolding check_rules
  check_rules-other minimum n none ts = refl
  check_rules-other minimum n (some t) [] = refl
  check_rules-other minimum n (some t) (u ∷ us) = refl

  check_crunch-other :
      (minimum n c : ℕ) (core : CoreInfo)
      → check_crunch minimum n c (with_other f core) ≡ check_crunch minimum n c core
  unfolding check_crunch
  check_crunch-other minimum n c core =
      ap (λ o. if core.is_crunch then (if c == 0 then some crunch_on_core_0 else o) else none)
        (check_rules-other minimum n core.crunch_task core.tasks)

  check_crunches-other :
      (minimum n c : ℕ) (cores : List CoreInfo)
      → check_crunches minimum n c (map (with_other f) cores) ≡ check_crunches minimum n c cores
  unfolding check_crunches
  check_crunches-other minimum n c [] = refl
  check_crunches-other minimum n c (core ∷ cores) =
      ap
        (λ o. elim o [
          | none ↦ check_crunches minimum n (c + 1) (map (with_other f) cores)
          | some e ↦ some e
        ])
        (check_crunch-other minimum n c core)
      ∙ ap (λ rest. elim (check_crunch minimum n c core) [ none ↦ rest | some e ↦ some e ])
          (check_crunches-other minimum n (c + 1) cores)

  check_late-other :
      (minimum n : ℕ) (cores : List CoreInfo)
      → check_late minimum n (map (with_other f) cores) ≡ check_late minimum n cores
  unfolding check_late
  check_late-other minimum n cores =
      ground (arith, check_crunches-other minimum n 0 cores, all_tasks-other cores)

module _ {F : Type 0} (to_float : ℕ → F) (divide : F → F → F) where
  validate-other :
      (f : ℕ → ℕ) (minimum core_count : ℕ) (cores : List CoreInfo) (l : ErrorLogger F)
      → (validate to_float divide minimum core_count (map (with_other f) cores) l).0
        ≡ (validate to_float divide minimum core_count cores l).0
  unfolding validate
  validate-other f minimum core_count cores l = ground (
    arith,
    any_active-other f cores,
    all_tasks-other f cores,
    check_late-other f minimum core_count cores,
  )

  -- A topology that passes the validations has an active core. Of the tasks in the cores' task lists,
  -- each scheduled one runs every tick or at no less than the minimum period, none stands there twice,
  -- and the dependencies of all hold. A core in crunch mode is not the first, and has one crunch task,
  -- its period 0 or no less than the minimum, and an empty task list. Which tasks the crunch tasks are
  -- is not looked at, so that a crunch task on two cores passes too.
  pub validate_sound :
      (minimum core_count : ℕ) (cores : List CoreInfo) (l : ErrorLogger F)
      → (validate to_float divide minimum core_count cores l).0 ≡ none
      → (any_active cores ≡ true)
        × All (HasPeriod minimum) (all_tasks cores)
        × IsDistinct (all_tasks cores)
        × AllFitCrunch minimum 0 cores
        × All (λ t. t.has_dependencies ≡ true) (all_tasks cores)
        × ((f : ℕ → ℕ)
            → (validate to_float divide minimum core_count (map (with_other f) cores) l).0 ≡ none)
  unfolding validate
  validate_sound minimum core_count cores l h =
      let active : any_active cores ≡ true = ground arith in
      let floor : has_low_period minimum (all_tasks cores) ≡ false = ground arith in
      let once : has_duplicate (all_tasks cores) ≡ false = ground arith in
      let late : check_late minimum core_count cores ≡ none = ground arith in
      let (crunch, deps) = check_late-none minimum core_count cores late in
      (
        active,
        has_low_period-All minimum (all_tasks cores) floor,
        has_duplicate-IsDistinct (all_tasks cores) once,
        check_crunches-AllFitCrunch minimum core_count 0 cores crunch,
        dependencies_hold-All (all_tasks cores) deps,
        λ f. validate-other f minimum core_count cores l ∙ h,
      )
