-- ===== src/Logic/Pid/Clamp.antt =====
-- The output of `PIDController` stays within its limits.
use sputter_os.Prelude.{ℕ, true, false, ◌≡◌, refl, Bool-cases, inl, inr, ◌==◌}
use sputter_os.Logic.Pid.{FloatField, Pid, float_min, float_max, pid_step, pid_compute}

-- `less` is the order of `float`, of which two numbers stand one way at most; NaN stands no way.
module _ {F : Type 0} (fl : FloatField F)
    (asymmetric : (a b : F) → fl.less a b ≡ true → fl.less b a ≡ false) where
  less_self : (a : F) → fl.less a a ≡ false
  less_self a = elim (Bool-cases (fl.less a a)) [ inl e ↦ asymmetric a a e | inr e ↦ e ]

  abbrev pub IsWithin : F → F → F → Type 0
  IsWithin lo hi x = (fl.less x lo ≡ false) × (fl.less hi x ≡ false)

  clamp-IsWithin :
      (lo hi x : F) → fl.less hi lo ≡ false → IsWithin lo hi (float_max fl lo (float_min fl hi x))
  clamp-IsWithin lo hi x order = elim (Bool-cases (fl.less x hi)) [
    | inl e ↦ elim (Bool-cases (fl.less lo x)) [
      | inl f ↦ rw (e, f) (asymmetric lo x f, asymmetric x hi e)
      | inr f ↦ rw (e, f) (less_self lo, order)
    ]
    | inr e ↦ elim (Bool-cases (fl.less lo hi)) [
      | inl f ↦ rw (e, f) (order, less_self hi)
      | inr f ↦ rw (e, f) (less_self lo, order)
    ]
  ]

  -- One call of `compute`, for any arithmetic of `float`, NaN included, and limits in order. The first
  -- call gives 0; a call at the time of the one before repeats its output and changes nothing; any
  -- other gives an output within the limits and remembers it.
  pub pid_compute_clamped :
      (c : Pid F) (setpoint measured : F) (timestamp : ℕ)
      → fl.less c.output_max c.output_min ≡ false
      → let (output, c') = pid_compute fl c setpoint measured timestamp in
        (c.first_sample ≡ true → output ≡ fl.zero_float)
        × ((c.first_sample ≡ false
              → (timestamp == c.last_timestamp) ≡ true
              → (output ≡ c.last_output) × (c' ≡ c))
            × (c.first_sample ≡ false
                → (timestamp == c.last_timestamp) ≡ false
                → IsWithin c.output_min c.output_max output × (c'.last_output ≡ output)))
  unfolding pid_compute pid_step
  pid_compute_clamped c setpoint measured timestamp order = (
    λ first. rw first,
    (
      λ later same. rw (later, same) (refl, refl),
      λ later new. rw (later, new) (clamp-IsWithin c.output_min c.output_max _ order, refl),
    ),
  )
