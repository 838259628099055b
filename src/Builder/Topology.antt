-- ===== src/Builder/Topology.antt =====
-- The registration part of include/sputteros/builder/SystemBuilder.h, with `System::CoreData` of kernel/System.h. A task is
-- known by its `id`, which stands for its address and is never that of the null pointer.
use sputter_os.Prelude.{
  ℕ, zero, suc, Bool, true, false, List, [], ◌∷◌, ◌++◌, some, if◌then◌else◌, ltb, length, map,
}
use sputter_os.Builder.Sort.{effective_priority, sort_tasks}
use sputter_os.Builder.Checks.{Pinned, CrunchTask, CoreInfo, is_active_core}

-- `kMaxTasksPerCore`
abbrev pub max_tasks_per_core : ℕ
max_tasks_per_core = 256

-- `CoreData::addTask`: a task that finds no room is dropped.
unfoldable pub add_task : Pinned → CoreInfo → CoreInfo
add_task t c =
    if ltb (length c.tasks) max_tasks_per_core then record c { tasks = c.tasks ++ t ∷ [] } else c

-- `CoreData::prependTask`
unfoldable pub prepend_task : Pinned → CoreInfo → CoreInfo
prepend_task t c =
    if ltb (length c.tasks) max_tasks_per_core then record c { tasks = t ∷ c.tasks } else c

-- `CoreBuilder::setCrunchTask`
unfoldable pub set_crunch_task : CrunchTask → CoreInfo → CoreInfo
set_crunch_task t c = record c { is_crunch = true; crunch_task = some t }

-- `m_cores[i]` is changed in place; there is no core past the last.
unfoldable pub on_core : ℕ → (CoreInfo → CoreInfo) → List CoreInfo → List CoreInfo
on_core i change [] = []
on_core zero change (c ∷ cs) = change c ∷ cs
on_core (suc i) change (c ∷ cs) = c ∷ on_core i change cs

-- Whether the core at a position has a property.
unfoldable pub core_has : (CoreInfo → Bool) → ℕ → List CoreInfo → Bool
core_has test i [] = false
core_has test zero (c ∷ cs) = test c
core_has test (suc i) (c ∷ cs) = core_has test i cs

-- `addBackgroundTask` on the ring of the tasks' addresses.
unfoldable pub add_background_task : ℕ → ℕ → List ℕ → List ℕ
add_background_task max_background id ring =
    if ltb (length ring) max_background then ring ++ id ∷ [] else ring

-- `kMaxStopConditions`
abbrev pub max_stop_conditions : ℕ
max_stop_conditions = 8

-- `addStopCondition`
unfoldable pub add_stop_condition {ℓ} : {A : Type ℓ} → A → List A → List A
add_stop_condition fn conditions =
    if ltb (length conditions) max_stop_conditions then conditions ++ fn ∷ [] else conditions

-- `sortTasksByPriority`. `dflt` is what a read out of range would give.
unfoldable pub sort_core : Pinned → CoreInfo → CoreInfo
sort_core dflt c = record c { tasks = sort_tasks (λ p. effective_priority p.info) dflt c.tasks }

unfoldable pub sort_cores : Pinned → List CoreInfo → List CoreInfo
sort_cores dflt cores = map (sort_core dflt) cores

-- The loop that looks for the last active core, for the cores below `n`; 0 if none is.
unfoldable pub background_core : ℕ → List CoreInfo → ℕ
background_core zero cores = 0
background_core (suc c) cores =
    let rest = background_core c cores in if core_has is_active_core c cores then c else rest
