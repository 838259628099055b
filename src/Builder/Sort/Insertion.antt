-- ===== src/Builder/Sort/Insertion.antt =====
-- The loops of the sort over the array, as insertions into a sorted list held backwards.
use sputter_os.Prelude.{
  ℕ, suc, ◌+◌, ◌-◌, ◌≡◌, refl, ap, arith, List, [], ◌∷◌, if◌then◌else◌, ltb, Bool-cases, inl, inr,
  get_or, set, length, All,
}
use sputter_os.Builder.Sort.{sift, sort_loop, sort_tasks}

module _ {A : Type 0} where
  -- `rs` backwards, in front of `xs`.
  unfoldable pub back_onto : List A → List A → List A
  back_onto [] xs = xs
  back_onto (r ∷ rs) xs = back_onto rs (r ∷ xs)

  pub get_or-back_onto :
      (rs xs : List A) (i k : ℕ) (d : A)
      → k ≡ length rs + i
      → get_or (back_onto rs xs) k d ≡ get_or xs i d
  unfolding back_onto
  get_or-back_onto [] xs i k d e = ap (λ n. get_or xs n d) (omega arith)
  get_or-back_onto (r ∷ rs) xs i k d e = get_or-back_onto rs (r ∷ xs) (suc i) k d (omega arith)

  pub set-back_onto :
      (rs xs : List A) (i k : ℕ) (v : A)
      → k ≡ length rs + i
      → set (back_onto rs xs) k v ≡ back_onto rs (set xs i v)
  unfolding back_onto
  set-back_onto [] xs i k v e = ap (λ n. set xs n v) (omega arith)
  set-back_onto (r ∷ rs) xs i k v e = set-back_onto rs (r ∷ xs) (suc i) k v (omega arith)

  pub All-back_onto :
      (P : A → Type 0) (rs xs : List A) → All P rs → All P xs → All P (back_onto rs xs)
  unfolding back_onto
  All-back_onto P [] xs hr hx = hx
  All-back_onto P (r ∷ rs) xs (h, hr) hx = All-back_onto P rs (r ∷ xs) hr (h, hx)

module _ {T : Type 0} (priority : T → ℕ) where
  -- Into a list that is sorted from its end.
  unfoldable pub insert_back : T → List T → List T
  insert_back key [] = key ∷ []
  insert_back key (z ∷ rs) =
      let rest = insert_back key rs in
      if ltb (priority key) (priority z) then z ∷ rest else key ∷ z ∷ rs

  unfoldable pub insert_all : List T → List T → List T
  insert_all rs [] = rs
  insert_all rs (x ∷ xs) = insert_all (insert_back x rs) xs

  pub length-insert_back : (key : T) (rs : List T) → length (insert_back key rs) ≡ suc (length rs)
  unfolding insert_back
  length-insert_back key [] = refl
  length-insert_back key (z ∷ rs) = elim (Bool-cases (ltb (priority key) (priority z))) [
    | inl e ↦ rw e (ap suc (length-insert_back key rs))
    | inr e ↦ rw e refl
  ]

  pub sift-back_onto :
      (rs xs : List T) (x key : T)
      → sift priority (length rs) key (back_onto rs (x ∷ xs)) ≡ back_onto (insert_back key rs) xs
  unfolding sift insert_back back_onto
  sift-back_onto [] xs x key = refl
  sift-back_onto (z ∷ rs) xs x key =
      let before = get_or-back_onto rs (z ∷ x ∷ xs) 0 (length rs) key (omega arith) in
      let moved = set-back_onto rs (z ∷ x ∷ xs) 1 (suc (length rs)) z (omega arith) in
      let stored = set-back_onto rs (z ∷ x ∷ xs) 1 (suc (length rs)) key (omega arith) in
      elim (Bool-cases (ltb (priority key) (priority z))) [
        | inl e ↦ rw (sift, before, e, moved) (sift-back_onto rs (z ∷ xs) z key)
        | inr e ↦ rw (sift, before, e) stored
      ]

  pub sort_loop-back_onto :
      (dflt : T) (rs xs : List T)
      → sort_loop priority dflt (length xs) (length rs) (back_onto rs xs)
        ≡ back_onto (insert_all rs xs) []
  unfolding sort_loop insert_all
  sort_loop-back_onto dflt rs [] = refl
  sort_loop-back_onto dflt rs (x ∷ xs) =
      let next = get_or-back_onto rs (x ∷ xs) 0 (length rs) dflt (omega arith) in
      let step = sift-back_onto rs xs x x in
      let longer : length rs + 1 ≡ length (insert_back x rs) =
        rw (length-insert_back x rs) (omega arith) in
      rw (sort_loop, next, step, longer) (sort_loop-back_onto dflt (insert_back x rs) xs)

  pub sort_tasks-insert_all :
      (dflt : T) (xs : List T) → sort_tasks priority dflt xs ≡ back_onto (insert_all [] xs) []
  unfolding sort_tasks sort_loop insert_all insert_back back_onto
  sort_tasks-insert_all dflt [] = refl
  sort_tasks-insert_all dflt (x ∷ xs) =
      let count : suc (length xs) - 1 ≡ length xs = omega arith in
      rw (sort_tasks, count) (sort_loop-back_onto dflt (x ∷ []) xs)

  length-back_onto : (rs xs : List T) → length (back_onto rs xs) ≡ length rs + length xs
  unfolding back_onto
  length-back_onto [] xs = omega arith
  length-back_onto (r ∷ rs) xs = omega (arith, length-back_onto rs (r ∷ xs))

  length-insert_all : (rs xs : List T) → length (insert_all rs xs) ≡ length rs + length xs
  unfolding insert_all
  length-insert_all rs [] = omega arith
  length-insert_all rs (x ∷ xs) =
      omega (arith, length-insert_all (insert_back x rs) xs, length-insert_back x rs)

  pub length-sort_tasks :
      (dflt : T) (xs : List T) → length (sort_tasks priority dflt xs) ≡ length xs
  length-sort_tasks dflt xs =
      rw (sort_tasks-insert_all dflt xs)
        (omega (arith, length-back_onto (insert_all [] xs) [], length-insert_all [] xs))
