-- ===== src/Kernel/Control/Tests.antt =====
-- The control task at a concrete input: the world is a list of what the application was asked.
use sputter_os.Prelude.{
  ℕ, Bool, true, false, List, [], ◌∷◌, ◌++◌, ◌≡◌, refl, arith, Option, none, some, ltb, length,
  take, drop, All,
}
use sputter_os.Sync.Queue.Laws.{contents}
use sputter_os.Kernel.Control.{Application, Plant, control_tick}
use sputter_os.Kernel.Control.Gate.{handle_all, IsSafe, control_tick_gate}

abbrev recorder : Application ℕ (List ℕ)
recorder = record {
  start_app = λ w. w;
  tick_app = λ now w. now ∷ w;
  handle_command = λ cmd w. cmd ∷ w;
  force_safe_abort = λ w. 99 ∷ w;
}

-- Three commands in a ring of four places.
abbrev three : Plant ℕ (List ℕ)
three = record {
  queue = record { buf = 5 ∷ 6 ∷ 7 ∷ 0 ∷ []; head = 3; tail = 0 };
  safety_abort = false;
  plant_world = [];
}

abbrev shorter : ℕ → List ℕ → Bool
shorter n w = ltb (length w) n

control_tick_gate_example :
    let s' = control_tick 0 3 shorter (some recorder) (some 4 ∷ none ∷ []) 2 50 three in
    let held = contents 0 3 three.queue in
    (All (IsSafe shorter []) (some 4 ∷ none ∷ [])
      → (s'.plant_world ≡ recorder.tick_app 50 (handle_all recorder (take 2 held) []))
        × ((contents 0 3 s'.queue ≡ drop 2 held) × (s'.safety_abort ≡ false)))
    × ((before after : List (Option ℕ)) (m : ℕ)
        → some 4 ∷ none ∷ [] ≡ before ++ some m ∷ after
        → shorter m [] ≡ false
        → s' ≡ record three { plant_world = 99 ∷ []; safety_abort = true })
control_tick_gate_example =
    control_tick_gate 0 3 shorter recorder (some 4 ∷ none ∷ []) 2 50 three
      (record { storage = refl; head_in = omega arith; tail_in = omega arith })
