-- ===== src/Builder/Checks.antt =====
-- The validations of `SystemBuilder::build`, in its order, on the sorted topology. A task is known by
-- its `id`, which stands for its address.
pub mod Sound
use sputter_os.Prelude.{
  ℕ, zero, suc, ◌+◌, ◌*◌, ◌/◌, Bool, true, false, List, [], ◌∷◌, ◌++◌, Option, none, some,
  if◌then◌else◌, ltb, leb, ◌==◌, not,
}
use sputter_os.Kernel.Metrics.Deadline.{wrap64}
use sputter_os.Logging.Errors.{ErrorLogger, log, sensor_error}
use sputter_os.Builder.Sort.{TaskInfo}

pub record Pinned : Type 0 where
  pub info : TaskInfo
  pub declared_wcet_us : ℕ
  pub has_dependencies : Bool

pub record CrunchTask : Type 0 where
  pub crunch_id : ℕ
  pub crunch_period_us : ℕ

-- `System::CoreData`; `tasks` are the used entries of its array.
pub record CoreInfo : Type 0 where
  pub tasks : List Pinned
  pub is_crunch : Bool
  pub crunch_task : Option CrunchTask

pub data BuildError : Type 0 where
  already_built no_tasks period_below_minimum duplicate_task crunch_on_core_0 crunch_missing
        crunch_with_tasks :
      BuildError
  crunch_needs_cores crunch_period_low dependencies_failed : BuildError

-- `CoreData::isActive`
unfoldable pub is_active_core : CoreInfo → Bool
is_active_core c = elim c.tasks [
  | [] ↦ elim c.crunch_task [ none ↦ false | some _ ↦ true ]
  | _ ∷ _ ↦ true
]

unfoldable pub any_active : List CoreInfo → Bool
any_active [] = false
any_active (c ∷ cs) = let rest = any_active cs in if is_active_core c then true else rest

-- The tasks core by core, as all the loops over them go.
unfoldable pub all_tasks : List CoreInfo → List Pinned
all_tasks [] = []
all_tasks (c ∷ cs) = c.tasks ++ all_tasks cs

unfoldable pub is_below : ℕ → ℕ → Bool
is_below minimum period = if ltb 0 period then ltb period minimum else false

unfoldable pub has_low_period : ℕ → List Pinned → Bool
has_low_period minimum [] = false
has_low_period minimum (t ∷ ts) =
    let rest = has_low_period minimum ts in
    if t.info.is_scheduled then (if is_below minimum t.info.period_us then true else rest) else rest

-- The two inner loops: whether a task stands behind another one.
unfoldable pub occurs : ℕ → List Pinned → Bool
occurs id [] = false
occurs id (t ∷ ts) = let rest = occurs id ts in if t.info.id == id then true else rest

unfoldable pub has_duplicate : List Pinned → Bool
has_duplicate [] = false
has_duplicate (t ∷ ts) = let rest = has_duplicate ts in if occurs t.info.id ts then true else rest

-- The utilisation of a core's tasks in thousandths, with the number of tasks counted.
unfoldable pub utilization : List Pinned → ℕ × ℕ
utilization [] = (0, 0)
utilization (t ∷ ts) =
    let (numerator, counted) = utilization ts in
    let share = wrap64 (t.declared_wcet_us * 1000) / t.info.period_us in
    if t.info.is_scheduled
    then (if ltb 0 t.declared_wcet_us
        then (if ltb 0 t.info.period_us
            then (wrap64 (share + numerator), suc counted)
            else (numerator, counted))
        else (numerator, counted))
    else (numerator, counted)

-- The rules 2 to 4 for a core in crunch mode; `none` if it may stay.
unfoldable pub check_rules : ℕ → ℕ → Option CrunchTask → List Pinned → Option BuildError
check_rules minimum core_count none tasks = some crunch_missing
check_rules minimum core_count (some task) (_ ∷ _) = some crunch_with_tasks
check_rules minimum core_count (some task) [] =
    if ltb core_count 2
    then some crunch_needs_cores
    else if is_below minimum task.crunch_period_us
    then some crunch_period_low
    else none

-- The core at position `c`.
unfoldable pub check_crunch : ℕ → ℕ → ℕ → CoreInfo → Option BuildError
check_crunch minimum core_count c core =
    if core.is_crunch
    then (if c == 0
        then some crunch_on_core_0
        else check_rules minimum core_count core.crunch_task core.tasks)
    else none

unfoldable pub check_crunches : ℕ → ℕ → ℕ → List CoreInfo → Option BuildError
check_crunches minimum core_count c [] = none
check_crunches minimum core_count c (core ∷ cores) =
    let rest = check_crunches minimum core_count (c + 1) cores in
    elim (check_crunch minimum core_count c core) [ none ↦ rest | some e ↦ some e ]

unfoldable pub dependencies_hold : List Pinned → Bool
dependencies_hold [] = true
dependencies_hold (t ∷ ts) =
    let rest = dependencies_hold ts in if t.has_dependencies then rest else false

-- The crunch rules, then the dependencies.
unfoldable pub check_late : ℕ → ℕ → List CoreInfo → Option BuildError
check_late minimum core_count cores = elim (check_crunches minimum core_count 0 cores) [
  | some e ↦ some e
  | none ↦ if dependencies_hold (all_tasks cores) then none else some dependencies_failed
]

module _ {F : Type 0} (to_float : ℕ → F) (divide : F → F → F) where
  -- The warning loop of `validateSchedulingConstraints`.
  unfoldable pub warn : List CoreInfo → ErrorLogger F → ErrorLogger F
  warn [] l = l
  warn (c ∷ cs) l =
      let (numerator, counted) = utilization c.tasks in
      let l' = log l sensor_error 0 (divide (to_float numerator) (to_float 1000)) in
      warn cs (if ltb 0 counted then (if ltb 800 numerator then l' else l) else l)

  -- From the test for an active core to the last validation; `none` if the build goes on.
  unfoldable pub validate :
      ℕ → ℕ → List CoreInfo → ErrorLogger F → Option BuildError × ErrorLogger F
  validate minimum core_count cores l =
      let tasks = all_tasks cores in
      let late = check_late minimum core_count cores in
      if not (any_active cores)
      then (some no_tasks, l)
      else if has_low_period minimum tasks
      then (some period_below_minimum, l)
      else if has_duplicate tasks
      then (some duplicate_task, l)
      else (late, warn cores l)
