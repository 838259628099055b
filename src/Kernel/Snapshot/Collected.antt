-- ===== src/Kernel/Snapshot/Collected.antt =====
-- Which tasks a snapshot has.
use sputter_os.Prelude.{
  length-take_le, take-append, take-append_left, ℕ, zero, suc, ◌+◌, ◌-◌, ◌≤◌, List, [], ◌∷◌, ◌++◌,
  ◌≡◌, refl, ◌∙◌, ap, sym, arith, length, take, replicate, length-append, length-replicate,
}
use sputter_os.Protocol.Responses.{TaskSnapshot, PerformanceSnapshot}
use sputter_os.Kernel.Metrics.Timer.{TaskTimer}
use sputter_os.Kernel.Snapshot.{task_snapshot, collect_core, collect_cores, fill_tasks}

module _ {F : Type 0} (zero_float : F) (to_float : ℕ → F) (divide : F → F → F) where
  -- The entries of all tasks, core by core and in the order of a core's slots.
  abbrev pub core_entries : ℕ → ℕ → List (TaskTimer F) → List (TaskSnapshot F)
  core_entries core_id i [] = []
  core_entries core_id i (t ∷ timers) =
      task_snapshot zero_float to_float divide core_id i t ∷ core_entries core_id (i + 1) timers

  abbrev pub all_entries : ℕ → List (List (TaskTimer F)) → List (TaskSnapshot F)
  all_entries c [] = []
  all_entries c (timers ∷ cores) = core_entries c 0 timers ++ all_entries (c + 1) cores

  collect_core-take :
      (room core_id i : ℕ) (timers : List (TaskTimer F))
      → collect_core zero_float to_float divide room core_id i timers
        ≡ take room (core_entries core_id i timers)
  unfolding collect_core
  collect_core-take zero core_id i timers = refl
  collect_core-take (suc room) core_id i [] = refl
  collect_core-take (suc room) core_id i (t ∷ timers) =
      ap (λ l. task_snapshot zero_float to_float divide core_id i t ∷ l)
        (collect_core-take room core_id (i + 1) timers)

  collect_cores-take :
      (room c : ℕ) (cores : List (List (TaskTimer F)))
      → collect_cores zero_float to_float divide room c cores ≡ take room (all_entries c cores)
  unfolding collect_cores
  collect_cores-take zero c [] = refl
  collect_cores-take (suc room) c [] = refl
  collect_cores-take room c (timers ∷ cores) = rw (collect_core-take room c 0 timers) (
      ap (λ l. take room (core_entries c 0 timers) ++ l)
        (collect_cores-take (room - length (take room (core_entries c 0 timers))) (c + 1) cores)
      ∙ sym (take-append room (core_entries c 0 timers) (all_entries (c + 1) cores)))

  -- A snapshot has the first 16 of all tasks, core by core in the order of their slots, at the front
  -- of its array of 16 places, and counts them.
  pub fill_tasks-take :
      (blank : TaskSnapshot F) (cores : List (List (TaskTimer F))) (snap : PerformanceSnapshot F)
      → let snap' = fill_tasks zero_float to_float divide blank cores snap in
        (take snap'.task_count snap'.tasks ≡ take 16 (all_entries 0 cores))
        × ((length snap'.tasks ≡ 16) × (snap'.task_count ≤ 16))
  unfolding fill_tasks
  fill_tasks-take blank cores snap =
      let entries = collect_cores zero_float to_float divide 16 0 cores in
      let e = collect_cores-take 16 0 cores in
      let small : length entries ≤ 16 = rw e (length-take_le 16 (all_entries 0 cores)) in
      let free = replicate (16 - length entries) blank in
      (
        take-append_left entries free ∙ e,
        (
          omega (
            arith,
            length-append entries free,
            length-replicate (16 - length entries) blank,
            small,
          ),
          small,
        ),
      )
