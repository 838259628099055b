-- ===== src/Builder/Sort.antt =====
-- `SystemBuilder::effectivePriority` and the insertion sort of `sortTasksByPriority`, on one core's
-- `tasks[0 .. taskCount)`.
pub mod Insertion
pub mod Stable
use sputter_os.Prelude.{
  ℕ, zero, suc, ◌+◌, ◌-◌, Bool, List, [], ◌∷◌, if◌then◌else◌, ltb, leb, ◌==◌, not, get_or, set,
  length,
}

-- What the builder asks of a task. `schedule_priority` is a byte, 0xFF for none.
pub record TaskInfo : Type 0 where
  pub id : ℕ
  pub is_scheduled : Bool
  pub schedule_priority : ℕ
  pub period_us : ℕ

-- The band of a task's period.
unfoldable pub period_band : ℕ → ℕ
period_band period =
    if period == 0
    then 0xFE
    else if leb period 100
    then 2
    else if leb period 1000
    then 10
    else if leb period 10000
    then 20
    else if leb period 100000
    then 40
    else if leb period 1000000
    then 80
    else 0xA0

unfoldable pub effective_priority : TaskInfo → ℕ
effective_priority t =
    if not t.is_scheduled
    then 0xFE
    else if not (t.schedule_priority == 0xFF)
    then t.schedule_priority
    else period_band t.period_us

module _ {T : Type 0} (priority : T → ℕ) where
  -- The inner loop from `j` on, with the store of `key` behind it.
  unfoldable pub sift : ℕ → T → List T → List T
  sift zero key tasks = set tasks 0 key
  sift (suc j) key tasks =
      let before = get_or tasks j key in
      let rest = sift j key (set tasks (suc j) before) in
      if ltb (priority key) (priority before) then rest else set tasks (suc j) key

  -- The outer loop, for the rounds that are left. `dflt` is what a read out of range would give.
  unfoldable pub sort_loop : T → ℕ → ℕ → List T → List T
  sort_loop dflt zero i tasks = tasks
  sort_loop dflt (suc left) i tasks =
      sort_loop dflt left (i + 1) (sift i (get_or tasks i dflt) tasks)

  unfoldable pub sort_tasks : T → List T → List T
  sort_tasks dflt tasks = sort_loop dflt (length tasks - 1) 1 tasks
