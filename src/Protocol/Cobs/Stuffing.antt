-- ===== src/Protocol/Cobs/Stuffing.antt =====
-- Byte stuffing as a function on lists: what the encoder of CobsCodec.h is to compute.
use sputter_os.Prelude.{
  ℕ, ◌+◌, ◌/◌, ◌≤◌, ◌<◌, List, [], ◌∷◌, ◌++◌, ◌≡◌, ◌≢◌, arith, ◌==◌, if◌then◌else◌, length,
  length-append, All, All-append, Bool-cases, inl, inr,
}

-- `run` is what has come since the last code byte. A block closes at a zero and at 254 bytes.
unfoldable pub stuff_from : List ℕ → List ℕ → List ℕ
stuff_from run [] = (length run + 1) ∷ run
stuff_from run (x ∷ xs) =
    let fresh = stuff_from [] xs in
    let longer = stuff_from (run ++ x ∷ []) xs in
    if x == 0
    then (length run + 1) ∷ (run ++ fresh)
    else if length run == 253
    then 0xFF ∷ ((run ++ x ∷ []) ++ fresh)
    else longer

unfoldable pub stuff : List ℕ → List ℕ
stuff xs = stuff_from [] xs

-- The three ways on from a byte. A property of the result may look at which one was taken.
pub stuff_from_cases :
    (P : List ℕ → Type 0) (run : List ℕ) (x : ℕ) (xs : List ℕ)
    → (x ≡ 0 → P ((length run + 1) ∷ (run ++ stuff_from [] xs)))
    → (x ≢ 0 → length run ≡ 253 → P (0xFF ∷ ((run ++ x ∷ []) ++ stuff_from [] xs)))
    → (x ≢ 0 → length run ≢ 253 → P (stuff_from (run ++ x ∷ []) xs))
    → P (stuff_from run (x ∷ xs))
unfolding stuff_from
stuff_from_cases P run x xs zeroed full longer = elim (Bool-cases (x == 0)) [
  | inl e ↦ rw e (zeroed (ground arith))
  | inr e ↦ elim (Bool-cases (length run == 253)) [
    | inl f ↦ rw (e, f) (full (ground arith) (ground arith))
    | inr f ↦ rw (e, f) (longer (ground arith) (ground arith))
  ]
]

pub length-stuff_from :
    (xs run : List ℕ)
    → length run ≤ 253
    → (length (stuff_from run xs) ≤ length run + length xs + (length run + length xs) / 254 + 1)
      × (length run + length xs + 1 ≤ length (stuff_from run xs))
unfolding stuff_from
length-stuff_from [] run h = omega arith
length-stuff_from (x ∷ xs) run h = ground (
  arith,
  length-stuff_from xs [] (omega arith),
  length-append run (x ∷ []),
  length-append run (stuff_from [] xs),
  length-append (run ++ x ∷ []) (stuff_from [] xs),
  length-stuff_from xs (run ++ x ∷ []),
)

abbrev pub IsStuffed : ℕ → Type 0
IsStuffed b = (b ≢ 0) × (b < 256)

pub stuff_from-IsStuffed :
    (xs run : List ℕ)
    → length run ≤ 253
    → All IsStuffed run
    → All (λ b. b < 256) xs
    → All IsStuffed (stuff_from run xs)
stuff_from-IsStuffed [] run h hr hx = unfold stuff_from in ((omega arith, omega arith), hr)
stuff_from-IsStuffed (x ∷ xs) run h hr (hx, hxs) =
    let fresh : All IsStuffed (stuff_from [] xs) =
      stuff_from-IsStuffed xs [] (omega arith) tt hxs in
    stuff_from_cases (All IsStuffed) run x xs
      (λ e. ((omega arith, omega arith), All-append IsStuffed run _ hr fresh))
      (λ ne e. ((omega arith, omega arith), All-append IsStuffed _ _ (longer ne) fresh))
      (λ ne e.
        stuff_from-IsStuffed xs (run ++ x ∷ []) (omega (arith, length-append run (x ∷ [])))
          (longer ne) hxs)
  where
    longer : x ≢ 0 → All IsStuffed (run ++ x ∷ [])
    longer ne = All-append IsStuffed run (x ∷ []) hr ((ne, hx), tt)
