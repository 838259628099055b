-- ===== src/Protocol/Router/Handshake.antt =====
-- The handshake of `ProtocolRouter` byte by byte.
use sputter_os.Prelude.{
  ==_iff, ℕ, ◌+◌, ◌*◌, true, false, List, ◌∷◌, ◌≡◌, ap, arith, inl, inr, ◌==◌, Bool-cases, ==_iff,
}
use sputter_os.Prelude.Bits.{bit_or_fields}
use sputter_os.Protocol.Frame.Wire.{IsByte}
use sputter_os.Protocol.Responses.{Floats, handshake_magic}
use sputter_os.Protocol.Router.{Handler, read_magic, dispatch_handshake}

-- The four magic bytes in the order of the wire, "SOPS".
abbrev pub IsMagic : ℕ → ℕ → ℕ → ℕ → Type 0
IsMagic a b c d = (a ≡ 0x53) × ((b ≡ 0x4F) × ((c ≡ 0x50) × (d ≡ 0x53)))

module _ (v w a b c d : ℕ) (rest : List ℕ) where
  read_magic_sum :
      IsByte a × (IsByte b × IsByte c)
      → read_magic (v ∷ w ∷ a ∷ b ∷ c ∷ d ∷ rest) ≡ a + b * 256 + c * 65536 + d * 16777216
  read_magic_sum (ha, (hb, hc)) = rw (
    bit_or_fields 8 b a ha,
    bit_or_fields 16 c (a + b * 256) (omega arith),
    bit_or_fields 24 d (a + b * 256 + c * 65536) (omega arith),
  )

  read_magic_good :
      IsByte a × (IsByte b × IsByte c)
      → IsMagic a b c d
      → (read_magic (v ∷ w ∷ a ∷ b ∷ c ∷ d ∷ rest) == handshake_magic) ≡ true
  read_magic_good bytes m = rw (read_magic_sum bytes) (ground arith)

  read_magic_bad :
      IsByte a × (IsByte b × (IsByte c × IsByte d))
      → ¬ IsMagic a b c d
      → (read_magic (v ∷ w ∷ a ∷ b ∷ c ∷ d ∷ rest) == handshake_magic) ≡ false
  read_magic_bad (ha, (hb, (hc, hd))) n =
      elim (Bool-cases (read_magic (v ∷ w ∷ a ∷ b ∷ c ∷ d ∷ rest) == handshake_magic)) [
        | inl e ↦
            let sum = read_magic_sum (ha, (hb, hc)) in
            let same = ((==_iff _ _).0 e) in
            absurd (
              n (
                omega (arith, sum, same),
                (omega (arith, sum, same), (omega (arith, sum, same), omega (arith, sum, same))),
              ))
        | inr e ↦ e
      ]

  -- A handshake request of any length and any bytes: the handler is told the version that the first
  -- two bytes say, low byte first, exactly when the payload has six bytes and the last four are the
  -- magic bytes; otherwise the request is refused and nothing is done.
  pub dispatch_handshake_iff :
      {F T : Type 0} (floats : Floats F) (handler : Handler F T) (seq_num payload_len : ℕ) (t : T)
      → IsByte v × IsByte w
      → IsByte a × (IsByte b × (IsByte c × IsByte d))
      → let run =
          dispatch_handshake floats handler seq_num (v ∷ w ∷ a ∷ b ∷ c ∷ d ∷ rest) payload_len t in
        ((payload_len ≡ 6) × IsMagic a b c d
          → run ≡ (true, handler.on_handshake_request (v + w * 256) seq_num t))
        × (¬ ((payload_len ≡ 6) × IsMagic a b c d) → run ≡ (false, t))
  unfolding dispatch_handshake
  dispatch_handshake_iff floats handler seq_num payload_len t (hv, hw) bytes = (
    λ h.
        rw (h.0, read_magic_good (bytes.0, (bytes.1.0, bytes.1.1.0)) h.1)
          (ap (λ ver. (true, handler.on_handshake_request ver seq_num t)) (bit_or_fields 8 w v hv)),
    λ n. elim (Bool-cases (payload_len == 6)) [
      | inl e ↦ rw (e, read_magic_bad bytes (λ m. n ((==_iff payload_len 6).0 e, m)))
      | inr e ↦ rw e
    ],
  )
