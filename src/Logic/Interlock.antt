-- ===== src/Logic/Interlock.antt =====
-- include/sputteros/logic/InterlockManager.h, src/logic/InterlockManager.cpp and OpResult.h. A condition
-- is polled in the state `W` of the outside world, and a fault response acts on it; both are the
-- user's code. A pointer is an option, `none` the null pointer.
pub mod Latch
use sputter_os.Prelude.{
  ℕ, ◌+◌, Bool, true, false, List, [], ◌∷◌, ◌++◌, Option, none, some, if◌then◌else◌, ltb, leb,
  length, ◌&&◌,
}

pub data OpResult : Type 0 where
  ok full null_arg : OpResult

abbrev pub max_conditions : ℕ
max_conditions = 8

-- `conditions` is `m_conditions[0 .. m_conditionCount)`.
pub record Interlocks (C R : Type 0) : Type 0 where
  pub conditions : List C
  pub fault_response : Option R
  pub soft_abort : Bool
  pub hard_fault : Bool

-- A call of the manager, or a change of the world between calls.
pub data Call (C R W : Type 0) : Type 0 where
  register : Option C → Call C R W
  respond : Option R → Call C R W
  abort : Call C R W
  fault : Call C R W
  clear : Call C R W
  change : W → Call C R W

module _ {C R : Type 0} where
  -- The constructor.
  unfoldable pub make_interlocks : Interlocks C R
  make_interlocks = record {
    conditions = [];
    fault_response = none;
    soft_abort = false;
    hard_fault = false;
  }

  unfoldable pub register_condition : Interlocks C R → Option C → OpResult × Interlocks C R
  register_condition m none = (null_arg, m)
  register_condition m (some c) =
      if leb max_conditions (length m.conditions)
      then (full, m)
      else (ok, record m { conditions = m.conditions ++ c ∷ [] })

  unfoldable pub set_fault_response : Interlocks C R → Option R → Interlocks C R
  set_fault_response m response = record m { fault_response = response }

  unfoldable pub trigger_soft_abort : Interlocks C R → Interlocks C R
  trigger_soft_abort m = record m { soft_abort = true }

  unfoldable pub validate_dependencies : Interlocks C R → Bool
  validate_dependencies m = elim m.fault_response [
    | none ↦ false
    | some _ ↦ ltb 0 (length m.conditions)
  ]

module _ {C W : Type 0} (is_safe : C → W → Bool) where
  -- The loop of `checkAllInterlocks`, which stops at the first condition that is violated.
  unfoldable pub check_all : List C → W → Bool
  check_all [] w = true
  check_all (c ∷ cs) w = let rest = check_all cs w in if is_safe c w then rest else false

module _ {C R W : Type 0} (is_safe : C → W → Bool) where
  unfoldable pub check_all_interlocks : Interlocks C R → W → Bool
  check_all_interlocks m w = check_all is_safe m.conditions w

  unfoldable pub clear_fault : Interlocks C R → W → Bool × Interlocks C R
  clear_fault m w =
      if check_all_interlocks m w
      then (true, record m { soft_abort = false; hard_fault = false })
      else (false, m)

module _ {C R W : Type 0} (execute : R → W → W) where
  unfoldable pub trigger_hard_fault : Interlocks C R → W → Interlocks C R × W
  trigger_hard_fault m w =
      let m' = record m { hard_fault = true } in
      elim m.fault_response [ none ↦ (m', w) | some response ↦ (m', execute response w) ]

module _ {C R W : Type 0} (is_safe : C → W → Bool) (execute : R → W → W) where
  unfoldable pub call : Call C R W → Interlocks C R × W → Interlocks C R × W
  call (Call.register c) (m, w) = ((register_condition m c).1, w)
  call (Call.respond r) (m, w) = (set_fault_response m r, w)
  call Call.abort (m, w) = (trigger_soft_abort m, w)
  call Call.fault (m, w) = trigger_hard_fault execute m w
  call Call.clear (m, w) = ((clear_fault is_safe m w).1, w)
  call (Call.change w') (m, w) = (m, w')

  unfoldable pub call_all : List (Call C R W) → Interlocks C R × W → Interlocks C R × W
  call_all [] s = s
  call_all (c ∷ cs) s = call_all cs (call c s)
