-- ===== src/Sync/Buffer/Invariant.antt =====
-- What holds in the double buffer between any two accesses.
use sputter_os.Prelude.{
  subst, sym, ap, ◌∙◌, ◌+◌, ◌≤◌, Bool, true, false, not, ◌≡◌, ◌⊎◌, inl, inr, refl, arith,
}
use sputter_os.Sync.Buffer.{Buffer, slot, store, Writer, Reader, Shared, under_way, Move, Moves}

module _ {A : Type 0} where
  slot-store_self : (b : Buffer A) (i : Bool) (v : A × A) → slot (store b i v) i ≡ v
  unfolding slot store
  slot-store_self b false v = refl
  slot-store_self b true v = refl

  slot-store_other :
      (b : Buffer A) (i r : Bool) (v : A × A) → i ≡ not r → slot (store b i v) r ≡ slot b r
  unfolding slot store
  slot-store_other b false false v e = absurd (ground arith)
  slot-store_other b false true v e = refl
  slot-store_other b true false v e = refl
  slot-store_other b true true v e = absurd (ground arith)

  write_index-store :
      (b : Buffer A) (i : Bool) (v : A × A) → (store b i v).write_index ≡ b.write_index
  unfolding store
  write_index-store b false v = refl
  write_index-store b true v = refl

  -- Where the writer stands: the published value is in the published slot, and it works on the other.
  unfoldable pub WriterFits : Buffer A → A × A → Writer A → Type 0
  WriterFits b p Writer.idle = slot b b.write_index ≡ p
  WriterFits b p (Writer.chosen v i) = (i ≡ not b.write_index) × (slot b b.write_index ≡ p)
  WriterFits b p (Writer.halfway v i) =
      (i ≡ not b.write_index) × (slot b b.write_index ≡ p) × ((slot b i).0 ≡ v.0)
  WriterFits b p (Writer.stored v i) =
      (i ≡ not b.write_index) × (slot b b.write_index ≡ p) × (slot b i ≡ v)

  published-slot :
      (b : Buffer A) (p : A × A) (w : Writer A) → WriterFits b p w → slot b b.write_index ≡ p
  unfolding WriterFits
  published-slot b p Writer.idle f = f
  published-slot b p (Writer.chosen v i) f = f.1
  published-slot b p (Writer.halfway v i) f = f.1
  published-slot b p (Writer.stored v i) f = f.1

  -- Until a second write begins, the slot that the reader chose keeps the value that it had.
  unfoldable pub Safe : Shared A → Bool → Type 0
  Safe s r =
      s.begun ≤ 1
      → (slot s.buffer r ≡ s.at_load)
        × (((s.begun ≡ under_way s.writer) × (s.buffer.write_index ≡ r))
            ⊎ ((s.begun ≡ 1) × (under_way s.writer ≡ 0) × (s.buffer.write_index ≡ not r)))

  unfoldable pub ReaderFits : Shared A → Reader A → Type 0
  ReaderFits s Reader.idle = Unit
  ReaderFits s (Reader.loaded r) = Safe s r
  ReaderFits s (Reader.halfway r first) = Safe s r × (s.begun ≤ 1 → first ≡ s.at_load.0)
  ReaderFits s (Reader.returned v) = s.begun ≤ 1 → v ≡ s.at_load

  unfoldable pub Fits : Shared A → Type 0
  Fits s = WriterFits s.buffer s.published s.writer × ReaderFits s s.reader

  ReaderFits-transfer :
      (s t : Shared A)
      → t.at_load ≡ s.at_load
      → s.begun ≤ t.begun
      → ((r : Bool) → Safe s r → Safe t r)
      → (rd : Reader A) → ReaderFits s rd
      → ReaderFits t rd
  unfolding ReaderFits
  ReaderFits-transfer s t e h safe Reader.idle f = tt
  ReaderFits-transfer s t e h safe (Reader.loaded r) f = safe r f
  ReaderFits-transfer s t e h safe (Reader.halfway r first) (f, g) =
      (safe r f, λ q. g (omega arith) ∙ ap (λ v. v.0) (sym e))
  ReaderFits-transfer s t e h safe (Reader.returned v) f = λ q. f (omega arith) ∙ sym e

  store-Safe :
      (s : Shared A) (i : Bool) (x : A × A) (w : Writer A)
      → under_way s.writer ≡ 1
      → under_way w ≡ 1
      → i ≡ not s.buffer.write_index
      → (r : Bool) → Safe s r
      → Safe (record s { buffer = store s.buffer i x; writer = w }) r
  unfolding Safe
  store-Safe s i x w u u' ni r f q =
      let (same, stage) = f q in
      elim stage [
        | inl (a, c) ↦ (
          slot-store_other s.buffer i r x (ni ∙ ap not c) ∙ same,
          inl (a ∙ u ∙ sym u', write_index-store s.buffer i x ∙ c),
        )
        | inr (a, z, c) ↦ absurd (omega arith)
      ]

  store-WriterFits :
      (b : Buffer A) (p : A × A) (i : Bool) (x : A × A)
      → i ≡ not b.write_index
      → slot b b.write_index ≡ p
      → (i ≡ not (store b i x).write_index) × (slot (store b i x) (store b i x).write_index ≡ p)
  store-WriterFits b p i x ni pub_slot = (
    ni ∙ ap not (sym (write_index-store b i x)),
    ap (slot (store b i x)) (write_index-store b i x)
        ∙ slot-store_other b i b.write_index x ni
        ∙ pub_slot,
  )

  slot-write_index : (b : Buffer A) (j i : Bool) → slot (record b { write_index = j }) i ≡ slot b i
  unfolding slot
  slot-write_index b j false = refl
  slot-write_index b j true = refl

  publish-Safe :
      (s : Shared A) (i : Bool) (v : A × A)
      → under_way s.writer ≡ 1
      → i ≡ not s.buffer.write_index
      → (r : Bool) → Safe s r
      → Safe
          (record s {
            buffer = record s.buffer { write_index = i };
            writer = Writer.idle;
            published = v;
          })
          r
  unfolding Safe
  publish-Safe s i v u ni r f q =
      let (same, stage) = f q in
      elim stage [
        | inl (a, c) ↦ (slot-write_index s.buffer i r ∙ same, inr (a ∙ u, refl, ni ∙ ap not c))
        | inr (a, z, c) ↦ absurd (omega arith)
      ]

  begin-Safe :
      (s : Shared A) (w : Writer A)
      → under_way s.writer ≡ 0
      → under_way w ≡ 1
      → (r : Bool) → Safe s r
      → Safe (record s { writer = w; begun = s.begun + 1 }) r
  unfolding Safe
  begin-Safe s w u u' r f q =
      let (same, stage) = f (omega arith) in
      elim stage [
        | inl (a, c) ↦ (same, inl (omega arith, c))
        | inr (a, z, c) ↦ absurd (omega arith)
      ]

  Move-Fits : (s t : Shared A) → Fits s → Move s t → Fits t
  unfolding Fits WriterFits ReaderFits Safe
  Move-Fits s t (w, r) (Move.write_begin v e) =
      let u : under_way s.writer ≡ 0 = ap under_way e in
      (
        (refl, published-slot s.buffer s.published s.writer w),
        ReaderFits-transfer s t refl (omega arith)
            (begin-Safe s (Writer.chosen v (not s.buffer.write_index)) u refl) s.reader r,
      )
  Move-Fits s t (w, r) (Move.write_first v i e) =
      let (ni, here) = subst (WriterFits s.buffer s.published) e w in
      let x : A × A = (v.0, (slot s.buffer i).1) in
      let (a, b) = store-WriterFits s.buffer s.published i x ni here in
      (
        (a, b, ap (λ y. y.0) (slot-store_self s.buffer i x)),
        ReaderFits-transfer s t refl (omega arith)
            (store-Safe s i x (Writer.halfway v i) (ap under_way e) refl ni) s.reader r,
      )
  Move-Fits s t (w, r) (Move.write_second v i e) =
      let (ni, here, first) = subst (WriterFits s.buffer s.published) e w in
      let x : A × A = ((slot s.buffer i).0, v.1) in
      let (a, b) = store-WriterFits s.buffer s.published i x ni here in
      (
        (a, b, slot-store_self s.buffer i x ∙ ap (λ y. (y, v.1)) first),
        ReaderFits-transfer s t refl (omega arith)
            (store-Safe s i x (Writer.stored v i) (ap under_way e) refl ni) s.reader r,
      )
  Move-Fits s t (w, r) (Move.write_publish v i e) =
      let (ni, here, whole) = subst (WriterFits s.buffer s.published) e w in
      (
        slot-write_index s.buffer i i ∙ whole,
        ReaderFits-transfer s t refl (omega arith) (publish-Safe s i v (ap under_way e) ni) s.reader
            r,
      )
  Move-Fits s t (w, r) (Move.read_begin e) =
      (w, λ q. (published-slot s.buffer s.published s.writer w, inl (refl, refl)))
  Move-Fits s t (w, r) (Move.read_first i e) =
      let safe = subst (ReaderFits s) e r in (w, (safe, λ q. ap (λ y. y.0) (safe q).0))
  Move-Fits s t (w, r) (Move.read_second i first e) =
      let (safe, g) = subst (ReaderFits s) e r in
      (w, λ q. ap (λ a. (a, (slot s.buffer i).1)) (g q) ∙ ap (λ y. (s.at_load.0, y.1)) (safe q).0)
  Move-Fits s t (w, r) (Move.read_end v e) = (w, tt)

  pub Moves-Fits : (s t : Shared A) → Fits s → Moves s t → Fits t
  Moves-Fits s t f Moves.here = f
  Moves-Fits s t f (Moves.after {u} ms m) = Move-Fits u t (Moves-Fits s u f ms) m
