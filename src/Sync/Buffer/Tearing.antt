-- ===== src/Sync/Buffer/Tearing.antt =====
-- When a reader of the double buffer gets a whole value.
use sputter_os.Prelude.{subst, ◌≤◌, true, false, ◌≡◌, refl}
use sputter_os.Sync.Buffer.{slot, store, Writer, Reader, Shared, Move, Moves}
use sputter_os.Sync.Buffer.Invariant.{Fits, WriterFits, ReaderFits, Moves-Fits}

module _ {A : Type 0} where
  -- The value is `T{}` in both slots.
  unfoldable pub fresh : A × A → Shared A
  fresh v = record {
    buffer = record { slot_0 = v; slot_1 = v; write_index = false };
    writer = Writer.idle;
    reader = Reader.idle;
    published = v;
    at_load = v;
    begun = 0;
  }

  -- Two writes that overtake a reader between its two words give it a word of each of two values,
  -- whatever the values are.
  pub torn_read :
      (zero_value a b c : A × A)
      → (s : Shared A) × Moves (fresh zero_value) s × (s.reader ≡ Reader.returned (a.0, c.1))
  unfolding fresh slot store
  torn_read zero_value a b c =
      let a1 = Moves.after Moves.here (Move.write_begin a refl) in
      let a2 = Moves.after a1 (Move.write_first a true refl) in
      let a3 = Moves.after a2 (Move.write_second a true refl) in
      let a4 = Moves.after a3 (Move.write_publish a true refl) in
      let r1 = Moves.after a4 (Move.read_begin refl) in
      let r2 = Moves.after r1 (Move.read_first true refl) in
      let b1 = Moves.after r2 (Move.write_begin b refl) in
      let b2 = Moves.after b1 (Move.write_first b false refl) in
      let b3 = Moves.after b2 (Move.write_second b false refl) in
      let b4 = Moves.after b3 (Move.write_publish b false refl) in
      let c1 = Moves.after b4 (Move.write_begin c refl) in
      let c2 = Moves.after c1 (Move.write_first c true refl) in
      let c3 = Moves.after c2 (Move.write_second c true refl) in
      let r3 = Moves.after c3 (Move.read_second true a.0 refl) in (_, r3, refl)

  -- A read during which at most one write is under way or begins, in any interleaving, returns the
  -- value that was published when it loaded the index, whole.
  pub read_whole :
      (zero_value : A × A) (s : Shared A) (v : A × A)
      → Moves (fresh zero_value) s
      → s.reader ≡ Reader.returned v
      → s.begun ≤ 1
      → v ≡ s.at_load
  unfolding fresh Fits WriterFits ReaderFits slot
  read_whole zero_value s v ms e q =
      let f = Moves-Fits (fresh zero_value) s (refl, tt) ms in subst (ReaderFits s) e f.1 q
