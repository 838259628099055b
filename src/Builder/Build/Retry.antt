-- ===== src/Builder/Build/Retry.antt =====
-- A second build on the state that a failed one leaves.
use sputter_os.Prelude.{
  subst, ℕ, ◌+◌, ◌≤◌, ◌≡◌, ◌≢◌, refl, sym, ◌∙◌, ap, arith, true, false, List, [], ◌∷◌, ◌++◌, Option,
  none, some, leb, ◌==◌, length, All, Bool-cases, inl, inr,
}
use sputter_os.Builder.Sort.Insertion.{length-sort_tasks}
use sputter_os.Builder.Sort.Stable.{of_priority}
use sputter_os.Builder.Checks.{Pinned, CoreInfo, BuildError, all_tasks}
use sputter_os.Builder.Checks.Sound.{IsDistinct, validate_sound}
use sputter_os.Builder.Topology.{
  max_tasks_per_core, prepend_task, on_core, core_has, sort_core, sort_cores,
}
use sputter_os.Builder.Build.{
  Setup, Static, place_tasks, create_kernel, conclude, check_and_configure, build,
}
use sputter_os.Builder.Build.Order.{
  rank, AtZero, place_tasks-AtZero, sort_cores-AtZero, build_cases, build-cores,
  create_kernel-cores,
}

module _ (p : ℕ) where
  All-of_priority :
      (P : Pinned → Type 0) (xs : List Pinned) → All P xs → All P (of_priority rank p xs)
  unfolding of_priority
  All-of_priority P [] h = tt
  All-of_priority P (x ∷ xs) (h, hs) = elim (Bool-cases (rank x == p)) [
    | inl e ↦ rw e (h, All-of_priority P xs hs)
    | inr e ↦ rw e (All-of_priority P xs hs)
  ]

  of_priority-IsDistinct : (xs : List Pinned) → IsDistinct xs → IsDistinct (of_priority rank p xs)
  unfolding of_priority IsDistinct
  of_priority-IsDistinct [] h = tt
  of_priority-IsDistinct (x ∷ xs) (h, hs) = elim (Bool-cases (rank x == p)) [
    | inl e ↦ rw e (All-of_priority (λ u. u.info.id ≢ x.info.id) xs h, of_priority-IsDistinct xs hs)
    | inr e ↦ rw e (of_priority-IsDistinct xs hs)
  ]

All-left : (P : Pinned → Type 0) (xs ys : List Pinned) → All P (xs ++ ys) → All P xs
All-left P [] ys h = tt
All-left P (x ∷ xs) ys (h, hs) = (h, All-left P xs ys hs)

IsDistinct-left : (xs ys : List Pinned) → IsDistinct (xs ++ ys) → IsDistinct xs
unfolding IsDistinct
IsDistinct-left [] ys h = tt
IsDistinct-left (x ∷ xs) ys (h, hs) =
    (All-left (λ u. u.info.id ≢ x.info.id) xs ys h, IsDistinct-left xs ys hs)

-- No two tasks of Core 0 are one.
not_twice :
    (t : Pinned) (ts : List Pinned) (cores : List CoreInfo)
    → AtZero (t ∷ t ∷ ts) cores
    → ¬ IsDistinct (all_tasks cores)
unfolding all_tasks IsDistinct
not_twice t ts [] h d = h
not_twice t ts (c ∷ cs) h d =
    let here = of_priority-IsDistinct 0 c.tasks (IsDistinct-left c.tasks (all_tasks cs) d) in
    let twice : IsDistinct (t ∷ t ∷ ts) = subst (λ l. IsDistinct l) h here in twice.0.0 refl

-- Core 0 has `n` tasks at most.
abbrev Holds : ℕ → List CoreInfo → Type 0
Holds n [] = ⊥
Holds n (c ∷ cs) = length c.tasks ≤ n

Holds-weaken : (m n : ℕ) (cores : List CoreInfo) → m ≤ n → Holds m cores → Holds n cores
Holds-weaken m n [] h k = k
Holds-weaken m n (c ∷ cs) h k = omega arith

length-prepend_task :
    (t : Pinned) (c : CoreInfo) → length (prepend_task t c).tasks ≤ length c.tasks + 1
unfolding prepend_task
length-prepend_task t c = ground arith

place_tasks-Holds :
    {C : Type 0} (s : Setup C) (c : CoreInfo) (cs : List CoreInfo)
    → Holds (length c.tasks + 2) (place_tasks s (c ∷ cs))
unfolding place_tasks on_core
place_tasks-Holds s c cs =
    let one = length-prepend_task s.control c in
    elim (Bool-cases (leb 2 s.core_count)) [
      | inl multi ↦ elim (Bool-cases (core_has (λ c. c.is_crunch) 1 (c ∷ cs))) [
        | inl crunch ↦
            rw (multi, crunch)
              (omega (arith, length-prepend_task s.comms (prepend_task s.control c)))
        | inr flat ↦ rw (multi, flat) (omega arith)
      ]
      | inr single ↦
          let other = length-prepend_task s.comms c in
          rw single (omega (arith, length-prepend_task s.control (prepend_task s.comms c)))
    ]

sort_cores-Holds :
    (dflt : Pinned) (n : ℕ) (cores : List CoreInfo)
    → Holds n cores
    → Holds n (sort_cores dflt cores)
unfolding sort_cores sort_core
sort_cores-Holds dflt n [] h = h
sort_cores-Holds dflt n (c ∷ cs) h = omega (arith, length-sort_tasks rank dflt c.tasks)

module _ {F C : Type 0} (to_float : ℕ → F) (divide : F → F → F) (dflt : Pinned) (s : Setup C) where
  conclude-none :
      (error : Option BuildError) (b b' : Static F C)
      → conclude to_float s error b ≡ (none, b')
      → error ≡ none
  unfolding conclude
  conclude-none none b b' h = refl
  conclude-none (some e) b b' h = cc

  passed-IsDistinct :
      (b b' : Static F C)
      → check_and_configure to_float divide dflt s b ≡ (none, b')
      → IsDistinct (all_tasks (sort_cores dflt b.cores))
  unfolding check_and_configure
  passed-IsDistinct b b' h =
      let cores = sort_cores dflt b.cores in
      let passed = conclude-none _ _ b' h in
      (validate_sound to_float divide s.min_period_us s.core_count cores b.machine.errors passed).2

  second_copy :
      (cores created : List CoreInfo) (ts : List Pinned)
      → rank s.control ≡ 0
      → rank s.comms ≡ 1
      → AtZero (s.control ∷ ts) cores
      → Holds 254 cores
      → created ≡ place_tasks s cores
      → ¬ IsDistinct (all_tasks (sort_cores dflt created))
  second_copy [] created ts kernel second at room placed = absurd at
  second_copy (c ∷ cs) created ts kernel second at room placed =
      let once = place_tasks-AtZero s kernel second c cs (omega arith) in
      let twice : AtZero (s.control ∷ s.control ∷ ts) (place_tasks s (c ∷ cs)) =
        subst (λ l. AtZero (s.control ∷ l) (place_tasks s (c ∷ cs))) at once in
      rw placed (
        not_twice s.control ts (sort_cores dflt (place_tasks s (c ∷ cs)))
          (sort_cores-AtZero dflt (s.control ∷ s.control ∷ ts) (place_tasks s (c ∷ cs)) twice))

  -- A state with the control task on Core 0 and room for two more: no build succeeds.
  placed_twice :
      (b b' : Static F C) (ts : List Pinned) (r : Option BuildError)
      → s.has_app ≡ true
      → rank s.control ≡ 0
      → rank s.comms ≡ 1
      → AtZero (s.control ∷ ts) b.cores
      → Holds 254 b.cores
      → b.is_built ≡ false
      → build to_float divide dflt s b ≡ some (r, b')
      → r ≢ none
  placed_twice b b' ts r app kernel second at room new e ok =
      let (created, k, done) = build_cases to_float divide dflt s b b' r new e in
      let placed = create_kernel-cores to_float divide dflt s b created app k in
      let distinct = passed-IsDistinct created b' (done ∙ ap (λ x. (x, b')) ok) in
      second_copy b.cores created.cores ts kernel second at room placed distinct

  conclude-some :
      (error : Option BuildError) (b b' : Static F C) (e : BuildError)
      → conclude to_float s error b ≡ (some e, b')
      → b'.is_built ≡ b.is_built
  unfolding conclude
  conclude-some none b b' e h = absurd (ground arith)
  conclude-some (some e') b b' e h = ground arith

  create_kernel-is_built :
      (b created : Static F C) → create_kernel s b ≡ some created → created.is_built ≡ b.is_built
  unfolding create_kernel
  create_kernel-is_built b created e = ground arith

  failed-is_built :
      (b b' : Static F C) (e : BuildError)
      → check_and_configure to_float divide dflt s b ≡ (some e, b')
      → b'.is_built ≡ b.is_built
  unfolding check_and_configure
  failed-is_built b b' e h = conclude-some _ _ b' e h

  built_again :
      (b b' : Static F C) (r : Option BuildError)
      → b.is_built ≡ true
      → build to_float divide dflt s b ≡ some (r, b')
      → (r ≢ none) × (b' ≡ b)
  unfolding build
  built_again b b' r built e = ((λ ok. ground (arith, built)), ground (arith, built))

  -- With an application, the kernel's priorities 0 and 1, and room on Core 0 for four more tasks: when a
  -- build fails, the next one on the state it leaves fails too, whatever the first error was, since the
  -- control task is then registered a second time.
  pub failed_build_sticks :
      (b b1 b2 : Static F C) (e : BuildError) (r : Option BuildError) (c : CoreInfo)
      (cs : List CoreInfo)
      → s.has_app ≡ true
      → rank s.control ≡ 0
      → rank s.comms ≡ 1
      → b.cores ≡ c ∷ cs
      → length c.tasks + 4 ≤ max_tasks_per_core
      → build to_float divide dflt s b ≡ some (some e, b1)
      → build to_float divide dflt s b1 ≡ some (r, b2)
      → r ≢ none
  failed_build_sticks b b1 b2 e r c cs app kernel second here room first next =
      elim (Bool-cases b.is_built) [
        | inl built ↦
            let same = (built_again b b1 (some e) built first).1 in
            (built_again b1 b2 r (ap (λ x. x.is_built) same ∙ built) next).0
        | inr new ↦
            let (created, k, done) = build_cases to_float divide dflt s b b1 (some e) new first in
            let placed =
              create_kernel-cores to_float divide dflt s b created app k
              ∙ ap (place_tasks s) here in
            let sorted =
              build-cores to_float divide dflt s b b1 created (some e) done
              ∙ ap (sort_cores dflt) placed in
            let still =
              failed-is_built created b1 e done ∙ create_kernel-is_built b created k ∙ new in
            let tasks = of_priority rank 0 c.tasks in
            let at =
              sort_cores-AtZero dflt (s.control ∷ tasks) (place_tasks s (c ∷ cs))
                (place_tasks-AtZero s kernel second c cs (omega arith)) in
            let few =
              sort_cores-Holds dflt (length c.tasks + 2) (place_tasks s (c ∷ cs))
                (place_tasks-Holds s c cs) in
            placed_twice b1 b2 tasks r app kernel second
              (subst (AtZero (s.control ∷ tasks)) (sym sorted) at)
              (Holds-weaken (length c.tasks + 2) 254 b1.cores (omega arith)
                (subst (Holds (length c.tasks + 2)) (sym sorted) few))
              still next
      ]
