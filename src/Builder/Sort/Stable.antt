-- ===== src/Builder/Sort/Stable.antt =====
-- The sort orders the tasks by priority and keeps the order among equals.
use sputter_os.Prelude.{
  ℕ, ◌≤◌, ◌<◌, ◌≡◌, refl, ◌∙◌, arith, true, List, [], ◌∷◌, if◌then◌else◌, ltb, ◌==◌, Bool-cases,
  inl, inr, All, ltb→lt,
}
use sputter_os.Builder.Sort.{TaskInfo, period_band, effective_priority, sort_tasks}
use sputter_os.Builder.Sort.Insertion.{back_onto, insert_back, insert_all, sort_tasks-insert_all}

-- Among tasks that leave their priority to the kernel, a shorter period never ranks below a longer one,
-- and all of them rank behind the kernel's own tasks, which have 0 and 1.
pub effective_priority_monotone :
    (s t : TaskInfo)
    → s.is_scheduled ≡ true
    → t.is_scheduled ≡ true
    → s.schedule_priority ≡ 255
    → t.schedule_priority ≡ 255
    → 0 < s.period_us
    → s.period_us ≤ t.period_us
    → (2 ≤ effective_priority s)
      × (effective_priority s ≤ effective_priority t)
      × (effective_priority t ≤ 160)
unfolding effective_priority period_band
effective_priority_monotone s t a b c d h k = rw (a, b, c, d) (ground arith)

module _ {T : Type 0} (priority : T → ℕ) where
  -- Each task has no lower a number than those behind it in the list.
  unfoldable pub Descending : List T → Type 0
  Descending [] = Unit
  Descending (x ∷ xs) = All (λ y. priority y ≤ priority x) xs × Descending xs

  unfoldable pub Ascending : List T → Type 0
  Ascending [] = Unit
  Ascending (x ∷ xs) = All (λ y. priority x ≤ priority y) xs × Ascending xs

  -- The tasks of one priority, in their order.
  unfoldable pub of_priority : ℕ → List T → List T
  of_priority p [] = []
  of_priority p (x ∷ xs) = let rest = of_priority p xs in if priority x == p then x ∷ rest else rest

  All-weaken :
      (a b : ℕ) (xs : List T) → a ≤ b → All (λ y. priority y ≤ a) xs → All (λ y. priority y ≤ b) xs
  All-weaken a b [] h q = tt
  All-weaken a b (x ∷ xs) h (q, qs) = (omega arith, All-weaken a b xs h qs)

  All-insert_back :
      (b : ℕ) (key : T) (rs : List T)
      → priority key ≤ b
      → All (λ y. priority y ≤ b) rs
      → All (λ y. priority y ≤ b) (insert_back priority key rs)
  unfolding insert_back
  All-insert_back b key [] h q = (h, tt)
  All-insert_back b key (z ∷ rs) h (q, qs) = elim (Bool-cases (ltb (priority key) (priority z))) [
    | inl e ↦ rw (insert_back, e) (q, All-insert_back b key rs h qs)
    | inr e ↦ rw (insert_back, e) (h, (q, qs))
  ]

  insert_back-Descending :
      (key : T) (rs : List T) → Descending rs → Descending (insert_back priority key rs)
  unfolding insert_back Descending
  insert_back-Descending key [] d = (tt, tt)
  insert_back-Descending key (z ∷ rs) (q, d) = elim (Bool-cases (ltb (priority key) (priority z))) [
    | inl e ↦
        let lt = ltb→lt (priority key) (priority z) e in
        rw (insert_back, e)
          (All-insert_back (priority z) key rs (omega arith) q, insert_back-Descending key rs d)
    | inr e ↦
        let le : priority z ≤ priority key = ground arith in
        rw (insert_back, e) ((le, All-weaken (priority z) (priority key) rs le q), (q, d))
  ]

  insert_all-Descending : (rs xs : List T) → Descending rs → Descending (insert_all priority rs xs)
  unfolding insert_all
  insert_all-Descending rs [] d = d
  insert_all-Descending rs (x ∷ xs) d =
      insert_all-Descending (insert_back priority x rs) xs (insert_back-Descending x rs d)

  back_onto-Ascending :
      (rs xs : List T)
      → Descending rs
      → Ascending xs
      → All (λ x. All (λ y. priority y ≤ priority x) rs) xs
      → Ascending (back_onto rs xs)
  unfolding back_onto Descending Ascending
  back_onto-Ascending [] xs d a q = a
  back_onto-Ascending (r ∷ rs) xs (h, d) a q =
      back_onto-Ascending rs (r ∷ xs) d (heads r rs xs q, a) (h, tails r rs xs q)
    where
      heads :
          (r : T) (rs xs : List T)
          → All (λ x. All (λ y. priority y ≤ priority x) (r ∷ rs)) xs
          → All (λ y. priority r ≤ priority y) xs
      heads r rs [] q = tt
      heads r rs (x ∷ xs) (q, qs) = (q.0, heads r rs xs qs)

      tails :
          (r : T) (rs xs : List T)
          → All (λ x. All (λ y. priority y ≤ priority x) (r ∷ rs)) xs
          → All (λ x. All (λ y. priority y ≤ priority x) rs) xs
      tails r rs [] q = tt
      tails r rs (x ∷ xs) (q, qs) = (q.1, tails r rs xs qs)

  of_priority-insert_back :
      (p : ℕ) (key : T) (rs : List T)
      → of_priority p (insert_back priority key rs) ≡ of_priority p (key ∷ rs)
  unfolding insert_back of_priority
  of_priority-insert_back p key [] = refl
  of_priority-insert_back p key (z ∷ rs) =
      let ih = of_priority-insert_back p key rs in
      elim (Bool-cases (ltb (priority key) (priority z))) [
        | inl e ↦ rw (insert_back, e, ih) (ground arith)
        | inr e ↦ rw (insert_back, e) refl
      ]

  of_priority-back_onto :
      (p : ℕ) (rs xs : List T)
      → of_priority p (back_onto rs xs) ≡ back_onto (of_priority p rs) (of_priority p xs)
  unfolding back_onto of_priority
  of_priority-back_onto p [] xs = refl
  of_priority-back_onto p (r ∷ rs) xs =
      let ih = of_priority-back_onto p rs (r ∷ xs) in
      elim (Bool-cases (priority r == p)) [ inl e ↦ rw (ih, e) refl | inr e ↦ rw (ih, e) refl ]

  of_priority-insert_all :
      (p : ℕ) (rs xs : List T)
      → back_onto (of_priority p (insert_all priority rs xs)) []
        ≡ back_onto (of_priority p rs) (of_priority p xs)
  unfolding insert_all of_priority back_onto
  of_priority-insert_all p rs [] = refl
  of_priority-insert_all p rs (x ∷ xs) =
      let ih = of_priority-insert_all p (insert_back priority x rs) xs in
      let one = of_priority-insert_back p x rs in
      elim (Bool-cases (priority x == p)) [
        | inl e ↦ rw (ih, one, e) refl
        | inr e ↦ rw (ih, one, e) refl
      ]

  -- The sort puts the tasks in the order of their priorities, and of each priority it has the same
  -- tasks as before in the same order: it loses, adds and swaps none.
  pub sort_tasks_stable :
      (dflt : T) (xs : List T)
      → Ascending (sort_tasks priority dflt xs)
        × ((p : ℕ) → of_priority p (sort_tasks priority dflt xs) ≡ of_priority p xs)
  unfolding Descending Ascending of_priority back_onto
  sort_tasks_stable dflt xs = rw (sort_tasks-insert_all priority dflt xs) (
    back_onto-Ascending (insert_all priority [] xs) [] (insert_all-Descending [] xs tt) tt tt,
    λ p. of_priority-back_onto p (insert_all priority [] xs) [] ∙ of_priority-insert_all p [] xs,
  )
