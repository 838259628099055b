-- ===== src/Sync/Fifo.antt =====
-- A first-in first-out list of at most `cap` items, oldest first: what the queues promise.
use sputter_os.Prelude.{
  ℕ, Bool, true, false, List, [], ◌∷◌, ◌++◌, Option, none, some, length, ltb, if◌then◌else◌,
}

module _ {ℓ} {A : Type ℓ} where
  -- A full list refuses the newcomer.
  unfoldable pub offer : ℕ → List A → A → Bool × List A
  offer cap q x = if ltb (length q) cap then (true, q ++ x ∷ []) else (false, q)

  unfoldable pub drop_oldest : List A → List A
  drop_oldest [] = []
  drop_oldest (x ∷ q) = q

  -- A full list gives up its oldest item for the newcomer.
  unfoldable pub displace : ℕ → List A → A → List A
  displace cap q x = (if ltb (length q) cap then q else drop_oldest q) ++ x ∷ []

  unfoldable pub poll : List A → Option A × List A
  poll [] = (none, [])
  poll (x ∷ q) = (some x, q)
