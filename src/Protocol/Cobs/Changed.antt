-- ===== src/Protocol/Cobs/Changed.antt =====
-- A byte that is not zero stands as it is in the stuffed bytes: to change it there is to stuff the
-- changed bytes.
use sputter_os.Prelude.{
  false, ℕ, ◌+◌, List, [], ◌∷◌, ◌++◌, ◌≡◌, refl, ◌∙◌, ap, arith, ◌==◌, length, length-append,
  append_assoc, Bool-cases, inl, inr,
}
use sputter_os.Protocol.Cobs.Stuffing.{stuff_from, stuff}

module _ (x y : ℕ) where
  -- The two lists differ in one place, where one has `x` and the other `y`.
  abbrev pub Changed : List ℕ → List ℕ → Type 0
  Changed l l' = (pre : List ℕ) × (post : List ℕ) × (l ≡ pre ++ x ∷ post) × (l' ≡ pre ++ y ∷ post)

  Changed-cons : (b : ℕ) (l l' : List ℕ) → Changed l l' → Changed (b ∷ l) (b ∷ l')
  Changed-cons b l l' (pre, post, h, k) = (b ∷ pre, post, ap (λ l. b ∷ l) h, ap (λ l. b ∷ l) k)

  Changed-before : (front l l' : List ℕ) → Changed l l' → Changed (front ++ l) (front ++ l')
  Changed-before [] l l' h = h
  Changed-before (b ∷ front) l l' h =
      Changed-cons b (front ++ l) (front ++ l') (Changed-before front l l' h)

  Changed-behind : (l l' back : List ℕ) → Changed l l' → Changed (l ++ back) (l' ++ back)
  Changed-behind l l' back (pre, post, h, k) = (
    pre,
    post ++ back,
    ap (λ l. l ++ back) h ∙ append_assoc pre (x ∷ post) back,
    ap (λ l. l ++ back) k ∙ append_assoc pre (y ∷ post) back,
  )

  pub Changed-length : (l l' : List ℕ) → Changed l l' → length l ≡ length l'
  Changed-length l l' (pre, post, h, k) =
      rw (h, k) (omega (arith, length-append pre (x ∷ post), length-append pre (y ∷ post)))

  -- The change lies in what has come since the last code byte.
  stuff_from-run :
      (xs run run' : List ℕ) → Changed run run' → Changed (stuff_from run xs) (stuff_from run' xs)
  unfolding stuff_from
  stuff_from-run [] run run' h =
      rw (Changed-length run run' h) (Changed-cons (length run' + 1) run run' h)
  stuff_from-run (b ∷ xs) run run' h =
      let fresh = stuff_from [] xs in
      let more = Changed-behind run run' (b ∷ []) h in
      let same = Changed-length run run' h in
      elim (Bool-cases (b == 0)) [
        | inl e ↦
            rw (e, same)
              (Changed-cons (length run' + 1) (run ++ fresh) (run' ++ fresh)
                (Changed-behind run run' fresh h))
        | inr e ↦ elim (Bool-cases (length run' == 253)) [
          | inl f ↦
              rw (e, same, f)
                (Changed-cons 0xFF ((run ++ b ∷ []) ++ fresh) ((run' ++ b ∷ []) ++ fresh)
                  (Changed-behind (run ++ b ∷ []) (run' ++ b ∷ []) fresh more))
          | inr f ↦ rw (e, same, f) (stuff_from-run xs (run ++ b ∷ []) (run' ++ b ∷ []) more)
        ]
      ]

  module _ (hx : (x == 0) ≡ false) (hy : (y == 0) ≡ false) where
    stuff_from-Changed :
        (front back run : List ℕ)
        → Changed (stuff_from run (front ++ x ∷ back)) (stuff_from run (front ++ y ∷ back))
    unfolding stuff_from
    stuff_from-Changed [] back run =
        let fresh = stuff_from [] back in
        let here : Changed (run ++ x ∷ []) (run ++ y ∷ []) = (run, [], refl, refl) in
        elim (Bool-cases (length run == 253)) [
          | inl f ↦
              rw (hx, hy, f)
                (Changed-cons 0xFF ((run ++ x ∷ []) ++ fresh) ((run ++ y ∷ []) ++ fresh)
                  (Changed-behind (run ++ x ∷ []) (run ++ y ∷ []) fresh here))
          | inr f ↦ rw (hx, hy, f) (stuff_from-run back (run ++ x ∷ []) (run ++ y ∷ []) here)
        ]
    stuff_from-Changed (b ∷ front) back run =
        let l = stuff_from [] (front ++ x ∷ back) in
        let l' = stuff_from [] (front ++ y ∷ back) in
        let fresh = stuff_from-Changed front back [] in
        elim (Bool-cases (b == 0)) [
          | inl e ↦
              rw e (
                Changed-cons (length run + 1) (run ++ l) (run ++ l')
                  (Changed-before run l l' fresh))
          | inr e ↦ elim (Bool-cases (length run == 253)) [
            | inl f ↦
                rw (e, f)
                  (Changed-cons 0xFF ((run ++ b ∷ []) ++ l) ((run ++ b ∷ []) ++ l')
                    (Changed-before (run ++ b ∷ []) l l' fresh))
            | inr f ↦ rw (e, f) (stuff_from-Changed front back (run ++ b ∷ []))
          ]
        ]

    pub stuff-Changed :
        (front back : List ℕ) → Changed (stuff (front ++ x ∷ back)) (stuff (front ++ y ∷ back))
    unfolding stuff
    stuff-Changed front back = stuff_from-Changed front back []
