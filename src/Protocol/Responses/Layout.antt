-- ===== src/Protocol/Responses/Layout.antt =====
-- Where the fields of a metrics response stand.
use sputter_os.Prelude.{
  lt→ltb, ℕ, zero, suc, ◌+◌, ◌*◌, ◌≤◌, ◌<◌, List, [], ◌∷◌, ◌++◌, ◌≡◌, refl, ◌∙◌, ap, sym, arith,
  length, length-append, take, drop, get_or, ge→ltb, lt→ltb, take-append_left,
}
use sputter_os.Protocol.Responses.{
  Floats, TaskSnapshot, PerformanceSnapshot, write_floats, write_header, write_task, write_tasks,
  serialize_metrics,
}

take-append_at : (n : ℕ) (xs ys : List ℕ) → length xs ≡ n → take n (xs ++ ys) ≡ xs
take-append_at n xs ys h = rw (sym h) (take-append_left xs ys)

drop-append_at : (n k : ℕ) (xs ys : List ℕ) → length xs ≡ n → drop (n + k) (xs ++ ys) ≡ drop k ys
drop-append_at n k [] ys h = ap (λ m. drop m ys) (omega arith)
drop-append_at zero k (x ∷ xs) ys h = absurd (omega arith)
drop-append_at (suc n) k (x ∷ xs) ys h =
    let e : suc n + k ≡ suc (n + k) = omega arith in rw e (drop-append_at n k xs ys (omega arith))

-- A `float` has four bytes.
module _ {F : Type 0} (floats : Floats F) (width : (v : F) → length (floats.to_bytes v) ≡ 4) where
  length-write_floats : (vs : List F) → length (write_floats floats vs) ≡ length vs * 4
  length-write_floats [] = refl
  length-write_floats (v ∷ vs) = omega (
    arith,
    length-append (floats.to_bytes v) (write_floats floats vs),
    width v,
    length-write_floats vs,
  )

  length-write_task : (ts : TaskSnapshot F) → length (write_task floats ts) ≡ 26
  unfolding write_task
  length-write_task ts = simp (length-append, width)

  length-write_header :
      (snap : PerformanceSnapshot F)
      → length (take 4 snap.core_utilization) ≡ 4
      → length (write_header floats snap) ≡ 66
  unfolding write_header
  length-write_header snap four = simp (length-append, width, length-write_floats, four)

  length-write_tasks :
      (n : ℕ) (tasks : List (TaskSnapshot F))
      → n ≤ length tasks
      → length (write_tasks floats n tasks) ≡ n * 26
  unfolding write_tasks
  length-write_tasks zero tasks h = refl
  length-write_tasks (suc n) [] h = absurd (omega arith)
  length-write_tasks (suc n) (ts ∷ tasks) h = omega (
    arith,
    length-append (write_task floats ts) (write_tasks floats n tasks),
    length-write_task ts,
    length-write_tasks n tasks (omega arith),
  )

  write_tasks_entry :
      (n t : ℕ) (tasks : List (TaskSnapshot F)) (dflt : TaskSnapshot F)
      → n ≤ length tasks
      → t < n
      → take 26 (drop (t * 26) (write_tasks floats n tasks))
        ≡ write_task floats (get_or tasks t dflt)
  unfolding write_tasks
  write_tasks_entry zero t tasks dflt h l = absurd (omega arith)
  write_tasks_entry (suc n) t [] dflt h l = absurd (omega arith)
  write_tasks_entry (suc n) zero (ts ∷ tasks) dflt h l =
      take-append_at 26 (write_task floats ts) (write_tasks floats n tasks) (length-write_task ts)
  write_tasks_entry (suc n) (suc t) (ts ∷ tasks) dflt h l =
      ap (λ l. take 26 l)
        (ap (λ k. drop k (write_task floats ts ++ write_tasks floats n tasks)) (omega arith)
          ∙ drop-append_at 26 (t * 26) (write_task floats ts) (write_tasks floats n tasks)
              (length-write_task ts))
      ∙ write_tasks_entry n t tasks dflt (omega arith) (omega arith)

  -- In a buffer that holds it, the response has the size its layout says, and task `t`'s entry is
  -- the 26 bytes from offset `66 + 26 * t`, for each task counted; in a smaller buffer nothing is
  -- written. The snapshot's arrays have their four cores and at least the tasks counted.
  pub serialize_metrics_layout :
      (snap : PerformanceSnapshot F) (out_cap : ℕ) (dflt : TaskSnapshot F)
      → length (take 4 snap.core_utilization) ≡ 4
      → snap.task_count ≤ length snap.tasks
      → (66 + snap.task_count * 26 ≤ out_cap
          → (length (serialize_metrics floats snap out_cap) ≡ 66 + snap.task_count * 26)
            × ((t : ℕ)
                → t < snap.task_count
                → take 26 (drop (66 + t * 26) (serialize_metrics floats snap out_cap))
                  ≡ write_task floats (get_or snap.tasks t dflt)))
        × (out_cap < 66 + snap.task_count * 26 → serialize_metrics floats snap out_cap ≡ [])
  unfolding serialize_metrics
  serialize_metrics_layout snap out_cap dflt four enough =
      let head = length-write_header snap four in
      let n = snap.task_count in
      (
        λ fits. rw (ge→ltb out_cap (66 + n * 26) fits) (
          omega (
            arith,
            length-append (write_header floats snap) (write_tasks floats n snap.tasks),
            head,
            length-write_tasks n snap.tasks enough,
          ),
          λ t l.
              ap (λ b. take 26 b)
                (drop-append_at 66 (t * 26) (write_header floats snap)
                  (write_tasks floats n snap.tasks) head)
              ∙ write_tasks_entry n t snap.tasks dflt enough l,
        ),
        λ short. rw (lt→ltb out_cap (66 + n * 26) short),
      )
