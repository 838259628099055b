-- ===== src/Builder/Build/Order.antt =====
-- Where the kernel's control task stands after a build.
use sputter_os.Prelude.{
  Option-cases, suc, ℕ, ◌+◌, ◌<◌, ◌≤◌, ◌≡◌, refl, sym, ◌∙◌, ap, arith, true, false, List, [], ◌∷◌,
  Option, none, some, ltb, leb, ◌==◌, length, All, Bool-cases, inl, inr, lt→ltb,
}
use sputter_os.Builder.Sort.{effective_priority, sort_tasks}
use sputter_os.Builder.Sort.Stable.{Ascending, of_priority, sort_tasks_stable}
use sputter_os.Builder.Checks.{Pinned, CoreInfo, BuildError}
use sputter_os.Builder.Topology.{
  max_tasks_per_core, prepend_task, on_core, core_has, sort_core, sort_cores,
}
use sputter_os.Builder.Build.{
  Setup, Static, place_tasks, create_kernel, give_monitored, give_clock, give_window, configure,
  conclude, check_and_configure, build,
}

abbrev pub rank : Pinned → ℕ
rank t = effective_priority t.info

module _ {T : Type 0} (priority : T → ℕ) where
  of_priority-none :
      (y : T) (ys : List T)
      → 0 < priority y
      → All (λ z. priority y ≤ priority z) ys
      → of_priority priority 0 ys ≡ []
  unfolding of_priority
  of_priority-none y [] h q = refl
  of_priority-none y (z ∷ zs) h (q, qs) =
      let e : (priority z == 0) ≡ false = ground arith in rw e (of_priority-none y zs h qs)

  -- The first task of priority 0 heads a list in order.
  sorted_head :
      (x : T) (ys rest : List T)
      → Ascending priority ys
      → of_priority priority 0 ys ≡ x ∷ rest
      → (tail : List T) × (ys ≡ x ∷ tail)
  unfolding of_priority Ascending
  sorted_head x [] rest a e = absurd (ground arith)
  sorted_head x (y ∷ ys) rest (q, a) e = elim (Bool-cases (priority y == 0)) [
    | inl z ↦ (ys, ground arith)
    | inr z ↦
        let none_left = of_priority-none y ys (ground arith) q in absurd (ground (arith, none_left))
  ]

  of_priority-hit :
      (x : T) (xs : List T)
      → priority x ≡ 0
      → of_priority priority 0 (x ∷ xs) ≡ x ∷ of_priority priority 0 xs
  unfolding of_priority
  of_priority-hit x xs e = ground (arith, e)

  of_priority-miss :
      (x : T) (xs : List T)
      → priority x ≡ 1
      → of_priority priority 0 (x ∷ xs) ≡ of_priority priority 0 xs
  unfolding of_priority
  of_priority-miss x xs e = ground (arith, e)

prepend_task-room :
    (t : Pinned) (c : CoreInfo)
    → length c.tasks < max_tasks_per_core
    → (prepend_task t c).tasks ≡ t ∷ c.tasks
unfolding prepend_task
prepend_task-room t c h = rw (lt→ltb (length c.tasks) 256 h)

-- The tasks of priority 0 on Core 0, in their order.
abbrev pub AtZero : List Pinned → List CoreInfo → Type 0
AtZero ts [] = ⊥
AtZero ts (c ∷ cs) = of_priority rank 0 c.tasks ≡ ts

-- Core 0 has the task in front.
abbrev pub StartsWith : Pinned → List CoreInfo → Type 0
StartsWith t [] = ⊥
StartsWith t (c ∷ cs) = (ts : List Pinned) × (c.tasks ≡ t ∷ ts)

module _ {C : Type 0} (s : Setup C) (kernel : rank s.control ≡ 0) (second : rank s.comms ≡ 1)
    (c : CoreInfo) (cs : List CoreInfo) (room : length c.tasks + 1 < max_tasks_per_core) where
  control_placed :
      (of_priority rank 0 (prepend_task s.control c).tasks) ≡ s.control ∷ of_priority rank 0 c.tasks
  control_placed =
      rw (prepend_task-room s.control c (omega arith))
        (of_priority-hit rank s.control c.tasks kernel)

  control_behind :
      of_priority rank 0 (prepend_task s.comms (prepend_task s.control c)).tasks
      ≡ s.control ∷ of_priority rank 0 c.tasks
  control_behind =
      let first = prepend_task-room s.control c (omega arith) in
      let c' = prepend_task s.control c in
      let n : length c'.tasks ≡ suc (length c.tasks) = ap length first in
      rw (prepend_task-room s.comms c' (omega arith))
        (of_priority-miss rank s.comms c'.tasks second ∙ control_placed)

  control_before :
      of_priority rank 0 (prepend_task s.control (prepend_task s.comms c)).tasks
      ≡ s.control ∷ of_priority rank 0 c.tasks
  control_before =
      let first = prepend_task-room s.comms c (omega arith) in
      let c' = prepend_task s.comms c in
      let n : length c'.tasks ≡ suc (length c.tasks) = ap length first in
      rw (prepend_task-room s.control c' (omega arith)) (
        of_priority-hit rank s.control c'.tasks kernel
        ∙ ap (λ l. s.control ∷ of_priority rank 0 l) first
        ∙ ap (λ l. s.control ∷ l) (of_priority-miss rank s.comms c.tasks second))

  -- The control task comes to stand before what Core 0 has of priority 0.
  pub place_tasks-AtZero : AtZero (s.control ∷ of_priority rank 0 c.tasks) (place_tasks s (c ∷ cs))
  unfolding place_tasks on_core
  place_tasks-AtZero = elim (Bool-cases (leb 2 s.core_count)) [
    | inl multi ↦ elim (Bool-cases (core_has (λ c. c.is_crunch) 1 (c ∷ cs))) [
      | inl crunch ↦ rw (multi, crunch) control_behind
      | inr flat ↦ rw (multi, flat) control_placed
    ]
    | inr single ↦ rw single control_before
  ]

pub sort_cores-AtZero :
    (dflt : Pinned) (ts : List Pinned) (cores : List CoreInfo)
    → AtZero ts cores
    → AtZero ts (sort_cores dflt cores)
unfolding sort_cores sort_core
sort_cores-AtZero dflt ts [] h = h
sort_cores-AtZero dflt ts (c ∷ cs) h = (sort_tasks_stable rank dflt c.tasks).1 0 ∙ h

sort_cores-StartsWith :
    (dflt t : Pinned) (ts : List Pinned) (cores : List CoreInfo)
    → AtZero (t ∷ ts) cores
    → StartsWith t (sort_cores dflt cores)
unfolding sort_cores sort_core
sort_cores-StartsWith dflt t ts [] h = h
sort_cores-StartsWith dflt t ts (c ∷ cs) h =
    let (ascends, same) = sort_tasks_stable rank dflt c.tasks in
    sorted_head rank t (sort_tasks rank dflt c.tasks) ts ascends (same 0 ∙ h)

module _ {F C : Type 0} (to_float : ℕ → F) (divide : F → F → F) (dflt : Pinned) (s : Setup C) where
  configure-cores : (b : Static F C) → (configure to_float s b).cores ≡ b.cores
  unfolding configure give_window give_clock give_monitored
  configure-cores b = ground arith

  conclude-cores :
      (error : Option BuildError) (b : Static F C) → (conclude to_float s error b).1.cores ≡ b.cores
  unfolding conclude
  conclude-cores none b = configure-cores b
  conclude-cores (some e) b = refl

  -- The validations and the wiring leave the sorted cores as they are.
  pub check_and_configure-cores :
      (b : Static F C)
      → (check_and_configure to_float divide dflt s b).1.cores ≡ sort_cores dflt b.cores
  unfolding check_and_configure
  check_and_configure-cores b = conclude-cores _ _

  pub create_kernel-cores :
      (b created : Static F C)
      → s.has_app ≡ true
      → create_kernel s b ≡ some created
      → created.cores ≡ place_tasks s b.cores
  unfolding create_kernel
  create_kernel-cores b created app e =
      elim (Bool-cases (ltb (length b.background) s.max_background)) [
        | inl room ↦ ground (arith, app, room)
        | inr full ↦ absurd (ground (arith, app, full))
      ]

  -- What a build that was not refused at once has done.
  pub build_cases :
      (b b' : Static F C) (r : Option BuildError)
      → b.is_built ≡ false
      → build to_float divide dflt s b ≡ some (r, b')
      → (created : Static F C) × (create_kernel s b ≡ some created)
        × (check_and_configure to_float divide dflt s created ≡ (r, b'))
  unfolding build
  build_cases b b' r new e = elim (Option-cases (create_kernel s b)) [
    | inl k ↦ absurd (ground (arith, new, k))
    | inr (created, k) ↦ (created, k, ground (arith, new, k))
  ]

  pub build-cores :
      (b b' created : Static F C) (r : Option BuildError)
      → check_and_configure to_float divide dflt s created ≡ (r, b')
      → b'.cores ≡ sort_cores dflt created.cores
  build-cores b b' created r done =
      ap (λ x. x.1.cores) (sym done) ∙ check_and_configure-cores created

  -- When an application is given, Core 0 has room for two more tasks, and the control task has priority
  -- 0 and the communication task 1, then after the build Core 0 has the control task in front of all
  -- others, also of user tasks of priority 0.
  pub control_task_first :
      (b b' : Static F C) (r : Option BuildError) (c : CoreInfo) (cs : List CoreInfo)
      → s.has_app ≡ true
      → rank s.control ≡ 0
      → rank s.comms ≡ 1
      → b.cores ≡ c ∷ cs
      → length c.tasks + 1 < max_tasks_per_core
      → b.is_built ≡ false
      → build to_float divide dflt s b ≡ some (r, b')
      → StartsWith s.control b'.cores
  control_task_first b b' r c cs app kernel second here room new e =
      let (created, k, done) = build_cases b b' r new e in
      let placed = create_kernel-cores b created app k in
      rw (build-cores b b' created r done, placed, here)
        (sort_cores-StartsWith dflt s.control (of_priority rank 0 c.tasks) (place_tasks s (c ∷ cs))
          (place_tasks-AtZero s kernel second c cs room))
