-- ===== src/Logic/Interlock/Latch.antt =====
-- What the interlocks promise: the poll, the bounded registry, and the latch.
use mathlib.Core.List.{Memᴰ}
use mathlib.Core.List.Memᴰ
use sputter_os.Prelude.{
  sym, ◌≤◌, ◌≡◌, ◌↔◌, refl, arith, Bool, true, false, List, [], ◌∷◌, none, some, length,
  length-append, All, Bool-cases, Option-cases, inl, inr, leb,
}
use sputter_os.Logic.Interlock.{
  Interlocks, register_condition, set_fault_response, check_all, check_all_interlocks,
  trigger_soft_abort, trigger_hard_fault, clear_fault, Call, call, call_all, max_conditions,
}

module _ {C W : Type 0} (is_safe : C → W → Bool) where
  check_all_unsafe :
      (cs : List C) (w : W) (c : C)
      → Memᴰ c cs
      → is_safe c w ≡ false
      → check_all is_safe cs w ≡ false
  unfolding check_all
  check_all_unsafe [] w c i e = elim i [ ]
  check_all_unsafe (d ∷ cs) w c (Memᴰ.head q) e = rw (sym q) (rw e refl)
  check_all_unsafe (d ∷ cs) w c (Memᴰ.tail i) e = rw (check_all_unsafe cs w c i e) (ground arith)

  -- `checkAllInterlocks` answers true exactly when every registered condition is nominal.
  pub check_all_iff :
      (cs : List C) (w : W) → (check_all is_safe cs w ≡ true) ↔ All (λ c. is_safe c w ≡ true) cs
  unfolding check_all
  check_all_iff [] w = grind arith
  check_all_iff (c ∷ cs) w =
      let rest = check_all_iff cs w in
      elim (Bool-cases (is_safe c w)) [ inl e ↦ rw e (grind arith) | inr e ↦ rw e (grind arith) ]

module _ {C R W : Type 0} (is_safe : C → W → Bool) (execute : R → W → W) where
  -- Every attempt to clear the fault is made while `c` is violated.
  unfoldable pub Violated : C → List (Call C R W) → Interlocks C R × W → Type 0
  Violated c [] s = Unit
  Violated c (x ∷ cs) s =
      (x ≡ Call.clear → is_safe c s.1 ≡ false) × Violated c cs (call is_safe execute x s)

  Memᴰ-call :
      (c : C) (x : Call C R W) (s : Interlocks C R × W)
      → Memᴰ c s.0.conditions
      → Memᴰ c (call is_safe execute x s).0.conditions
  unfolding call register_condition set_fault_response trigger_soft_abort trigger_hard_fault
      clear_fault
  Memᴰ-call c (Call.register none) (m, w) i = i
  Memᴰ-call c (Call.register (some d)) (m, w) i =
      elim (Bool-cases (leb max_conditions (length m.conditions))) [
        | inl e ↦ rw e i
        | inr e ↦ rw e (Memᴰ.append_left (d ∷ []) i)
      ]
  Memᴰ-call c (Call.respond r) (m, w) i = i
  Memᴰ-call c Call.abort (m, w) i = i
  Memᴰ-call c Call.fault (m, w) i = elim (Option-cases m.fault_response) [
    | inl e ↦ rw e i
    | inr (r, e) ↦ rw e i
  ]
  Memᴰ-call c Call.clear (m, w) i = elim (Bool-cases (check_all_interlocks is_safe m w)) [
    | inl e ↦ rw e i
    | inr e ↦ rw e i
  ]
  Memᴰ-call c (Call.change w') (m, w) i = i

  hard_fault-call :
      (c : C) (x : Call C R W) (s : Interlocks C R × W)
      → Memᴰ c s.0.conditions
      → s.0.hard_fault ≡ true
      → (x ≡ Call.clear → is_safe c s.1 ≡ false)
      → (call is_safe execute x s).0.hard_fault ≡ true
  unfolding call register_condition set_fault_response trigger_soft_abort trigger_hard_fault
      clear_fault check_all_interlocks
  hard_fault-call c (Call.register none) (m, w) i e v = e
  hard_fault-call c (Call.register (some d)) (m, w) i e v = ground arith
  hard_fault-call c (Call.respond r) (m, w) i e v = e
  hard_fault-call c Call.abort (m, w) i e v = e
  hard_fault-call c Call.fault (m, w) i e v = elim (Option-cases m.fault_response) [
    | inl q ↦ rw q refl
    | inr (r, q) ↦ rw q refl
  ]
  hard_fault-call c Call.clear (m, w) i e v =
      rw (check_all_unsafe is_safe m.conditions w c i (v refl)) e
  hard_fault-call c (Call.change w') (m, w) i e v = e

  -- While a registered condition is violated at each attempt to clear, the hard fault stays latched,
  -- whatever else is called and however the world changes.
  pub hard_fault_latched :
      (c : C) (calls : List (Call C R W)) (s : Interlocks C R × W)
      → Memᴰ c s.0.conditions
      → s.0.hard_fault ≡ true
      → Violated c calls s
      → (call_all is_safe execute calls s).0.hard_fault ≡ true
  unfolding call_all Violated
  hard_fault_latched c [] s i e v = e
  hard_fault_latched c (x ∷ cs) s i e (v, vs) =
      hard_fault_latched c cs (call is_safe execute x s) (Memᴰ-call c x s i)
        (hard_fault-call c x s i e v) vs

  conditions-call :
      (x : Call C R W) (s : Interlocks C R × W)
      → length s.0.conditions ≤ max_conditions
      → length (call is_safe execute x s).0.conditions ≤ max_conditions
  unfolding call register_condition set_fault_response trigger_soft_abort trigger_hard_fault
      clear_fault
  conditions-call (Call.register none) (m, w) h = h
  conditions-call (Call.register (some d)) (m, w) h =
      elim (Bool-cases (leb max_conditions (length m.conditions))) [
        | inl e ↦ rw e h
        | inr e ↦ rw e (rw (length-append m.conditions (d ∷ [])) (ground arith))
      ]
  conditions-call (Call.respond r) (m, w) h = h
  conditions-call Call.abort (m, w) h = h
  conditions-call Call.fault (m, w) h = elim (Option-cases m.fault_response) [
    | inl e ↦ rw e h
    | inr (r, e) ↦ rw e h
  ]
  conditions-call Call.clear (m, w) h = elim (Bool-cases (check_all_interlocks is_safe m w)) [
    | inl e ↦ rw e h
    | inr e ↦ rw e h
  ]
  conditions-call (Call.change w') (m, w) h = h

  -- Any run of calls keeps a registry of at most eight conditions within its eight places.
  pub conditions-call_all :
      (calls : List (Call C R W)) (s : Interlocks C R × W)
      → length s.0.conditions ≤ max_conditions
      → length (call_all is_safe execute calls s).0.conditions ≤ max_conditions
  unfolding call_all
  conditions-call_all [] s h = h
  conditions-call_all (x ∷ cs) s h =
      conditions-call_all cs (call is_safe execute x s) (conditions-call x s h)
