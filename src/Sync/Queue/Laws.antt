-- ===== src/Sync/Queue/Laws.antt =====
-- The lock-free queue holds a list of at most `Capacity` items and treats it first in, first out.
use sputter_os.Prelude.{
  ℕ, suc, ◌+◌, ◌≤◌, ◌<◌, ◌≡◌, refl, ap, sym, ◌∙◌, arith, true, List, [], length, length-set, ◌==◌,
  Bool-cases, inl, inr, ge→ltb, lt→ltb,
}
use sputter_os.Sync.Fifo.{offer, poll}
use sputter_os.Sync.Ring.{
  used, next, window, length-window, next-lt, used-lt, used_self, used_push, used_full, used_pop,
  used-Leads, window-set,
}
use sputter_os.Sync.Queue.{Queue, try_push, try_pop, size, clear}

module _ {ℓ} {A : Type ℓ} (dflt : A) (capacity : ℕ) where
  pub record IsValid (q : Queue A) : Type 0 where
    pub storage : length q.buf ≡ capacity + 1
    pub head_in : q.head < capacity + 1
    pub tail_in : q.tail < capacity + 1

  abbrev pub contents : Queue A → List A
  contents q = window dflt (capacity + 1) q.buf q.tail (used (capacity + 1) q.head q.tail)

  -- `size` is the number of items held, and is within the capacity.
  pub size-length :
      (q : Queue A)
      → IsValid q
      → (size dflt capacity q ≡ length (contents q)) × (size dflt capacity q ≤ capacity)
  unfolding size
  size-length q v = (
    sym (length-window dflt (capacity + 1) q.buf q.tail _),
    omega (arith, used-lt (capacity + 1) q.head q.tail),
  )

  -- On a valid queue `try_push` adds the item behind the others if there is room, and otherwise reports
  -- so and changes nothing; the queue stays valid.
  pub try_push_refines :
      (q : Queue A) (x : A)
      → IsValid q
      → let (done, q') = try_push dflt capacity q x in
        ((done, contents q') ≡ offer capacity (contents q) x) × IsValid q'
  unfolding try_push offer
  try_push_refines q x v =
      let slots = capacity + 1 in
      let n = used slots q.head q.tail in
      let count = length-window dflt slots q.buf q.tail n in
      elim (Bool-cases (next slots q.head == q.tail)) [
        | inl full ↦
            let e = used_full slots q.head q.tail v.head_in v.tail_in (ground arith) in
            rw (full, ge→ltb (length (contents q)) capacity (omega (arith, count))) (refl, v)
        | inr free ↦
            let (grown, room) = used_push slots q.head q.tail v.head_in v.tail_in (ground arith) in
            let grown' : used slots (next slots q.head) q.tail ≡ suc n = omega arith in
            rw (free, lt→ltb (length (contents q)) capacity (omega (arith, count)), grown')
              (
                ap (λ w. (true, w))
                    (window-set dflt slots q.buf x n q.tail q.head v.storage v.tail_in v.head_in
                      (omega arith) (used-Leads slots q.head q.tail v.head_in v.tail_in)),
                record {
                  storage = length-set q.buf q.head x ∙ v.storage;
                  head_in = next-lt slots q.head (omega arith);
                  tail_in = v.tail_in;
                },
              )
      ]

  -- On a valid queue `try_pop` takes the oldest item, and fails on the empty queue only; the queue stays
  -- valid.
  pub try_pop_refines :
      (q : Queue A)
      → IsValid q
      → let (got, q') = try_pop dflt capacity q in
        ((got, contents q') ≡ poll (contents q)) × IsValid q'
  unfolding try_pop poll window
  try_pop_refines q v =
      let slots = capacity + 1 in
      elim (Bool-cases (q.tail == q.head)) [
        | inl none_left ↦
            let e : q.tail ≡ q.head = ground arith in
            let zeroed : used slots q.head q.tail ≡ 0 = rw e (used_self slots q.head) in
            rw (none_left, zeroed) (refl, v)
        | inr some_left ↦
            let shrunk : used slots q.head q.tail ≡ suc (used slots q.head (next slots q.tail)) =
              omega (arith, used_pop slots q.head q.tail v.head_in v.tail_in (ground arith)) in
            rw (some_left, shrunk)
              (
                refl,
                record {
                  storage = v.storage;
                  head_in = v.head_in;
                  tail_in = next-lt slots q.tail (omega arith);
                },
              )
      ]

  pub clear_refines :
      (q : Queue A)
      → IsValid q
      → (contents (clear dflt capacity q) ≡ []) × IsValid (clear dflt capacity q)
  unfolding clear window
  clear_refines q v =
      rw (used_self (capacity + 1) q.head)
        (refl, record { storage = v.storage; head_in = v.head_in; tail_in = v.head_in })
