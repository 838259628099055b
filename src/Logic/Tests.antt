-- ===== src/Logic/Tests.antt =====
-- The interlocks' theorems at concrete inputs: conditions are bounds on one sensor value.
use mathlib.Core.List.{Memᴰ}
use sputter_os.Prelude.{ℕ, ◌+◌, ◌≡◌, refl, Bool, true, false, List, [], ◌∷◌, some, ltb}
use sputter_os.Logic.Interlock.{
  Interlocks, trigger_hard_fault, trigger_soft_abort, Call, call, call_all,
}
use sputter_os.Logic.Interlock.Latch.{Violated, hard_fault_latched}

abbrev below : ℕ → ℕ → Bool
below bound sensor = ltb sensor bound

abbrev faulted : Interlocks ℕ ℕ
faulted = record {
  conditions = 50 ∷ 10 ∷ [];
  fault_response = some 1;
  soft_abort = false;
  hard_fault = true;
}

abbrev operator : List (Call ℕ ℕ ℕ)
operator =
    Call.clear
    ∷ Call.register (some 90)
    ∷ Call.change 30
    ∷ Call.abort
    ∷ Call.clear
    ∷ Call.fault
    ∷ []

-- The response adds its number to the sensor value.
abbrev respond_by : ℕ → ℕ → ℕ
respond_by amount sensor = sensor + amount

operator-Violated : Violated below respond_by 10 operator (faulted, 20)
unfolding Violated call trigger_hard_fault trigger_soft_abort
operator-Violated = (λ q. refl, (λ q. refl, (λ q. refl, (λ q. refl, (λ q. refl, (λ q. refl, tt))))))

hard_fault_latched_example : (call_all below respond_by operator (faulted, 20)).0.hard_fault ≡ true
hard_fault_latched_example =
    hard_fault_latched below respond_by 10 operator (faulted, 20) (Memᴰ.tail (Memᴰ.head refl)) refl
      operator-Violated
