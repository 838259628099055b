-- ===== src/Sync/Queue.antt =====
-- include/sputteros/osal/sync/LockFreeQueue.h, each operation as one step. `Sync.Spsc` takes them
-- apart into their loads and stores.
pub mod Laws
use sputter_os.Prelude.{
  ℕ, ◌+◌, Bool, true, false, List, [], Option, none, some, ◌==◌, if◌then◌else◌, get_or, set,
}
use sputter_os.Sync.Ring.{used, next}

-- `m_buf` has `kSlots` places.
pub record Queue {ℓ} (A : Type ℓ) : Type ℓ where
  pub buf : List A
  pub head : ℕ
  pub tail : ℕ

-- `Capacity` is the parameter; an out-of-range read, which the invariant rules out, gives `dflt`.
module _ {ℓ} {A : Type ℓ} (dflt : A) (capacity : ℕ) where
  abbrev pub slots : ℕ
  slots = capacity + 1

  unfoldable pub try_push : Queue A → A → Bool × Queue A
  try_push q cmd =
      let after = next slots q.head in
      if after == q.tail
      then (false, q)
      else (true, record q { buf = set q.buf q.head cmd; head = after })

  -- The timeout is ignored.
  unfoldable pub push : Queue A → A → ℕ → Bool × Queue A
  push q cmd timeout_ms = try_push q cmd

  unfoldable pub try_pop : Queue A → Option A × Queue A
  try_pop q =
      if q.tail == q.head
      then (none, q)
      else (some (get_or q.buf q.tail dflt), record q { tail = next slots q.tail })

  unfoldable pub pop : Queue A → ℕ → Option A × Queue A
  pop q timeout_ms = try_pop q

  unfoldable pub size : Queue A → ℕ
  size q = used slots q.head q.tail

  unfoldable pub clear : Queue A → Queue A
  clear q = record q { tail = q.head }
