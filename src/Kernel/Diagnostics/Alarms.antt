-- ===== src/Kernel/Diagnostics/Alarms.antt =====
-- What the diagnostics task writes to the error log.
use sputter_os.Prelude.{
  ℕ, ◌+◌, ◌%◌, ◌≡◌, refl, sym, ◌∙◌, ap, arith, true, false, List, [], ◌∷◌, ◌++◌, Option,
  if◌then◌else◌, ltb, leb, ◌==◌, map, Bool-cases, inl, inr, append-nil,
}
use sputter_os.Logging.Errors.{ErrorCode, ErrorLogger, log, sensor_error, watchdog_kick}
use sputter_os.Kernel.Metrics.Timer.{TaskTimer, wrap32}
use sputter_os.Kernel.Snapshot.{is_over_budget}
use sputter_os.Kernel.Diagnostics.{
  MemoryProfiler, get_free_heap_bytes, update_profiler, reset_profiler, Diagnostics,
  mem_check_interval, scan_budgets, tick_diagnostics,
}

-- Entries with no time stamp, one after the other.
unfoldable pub log_all : {F : Type 0} → ErrorLogger F → List (ErrorCode × F) → ErrorLogger F
log_all l [] = l
log_all l ((c, v) ∷ es) = log_all (log l c 0 v) es

-- The last durations above the budget.
unfoldable pub over_budget : {F : Type 0} → ℕ → List (TaskTimer F) → List ℕ
over_budget budget [] = []
over_budget budget (t ∷ ts) =
    let rest = over_budget budget ts in
    if ltb budget t.last_duration then t.last_duration ∷ rest else rest

log_all-append :
    {F : Type 0} (l : ErrorLogger F) (xs ys : List (ErrorCode × F))
    → log_all l (xs ++ ys) ≡ log_all (log_all l xs) ys
unfolding log_all
log_all-append l [] ys = refl
log_all-append l ((c, v) ∷ xs) ys = log_all-append (log l c 0 v) xs ys

module _ {F W : Type 0} (to_float : ℕ → F) (watchdog_kick_fn : Option (W → W)) where
  -- The entries that a violation and a memory check leave.
  abbrev pub alarm : ℕ → ErrorCode × F
  alarm duration = (sensor_error, to_float duration)

  abbrev pub check_entry : List (ErrorCode × F)
  check_entry = (watchdog_kick, to_float 0) ∷ []

  scan_budgets-log_all :
      (budget : ℕ) (ts : List (TaskTimer F)) (l : ErrorLogger F)
      → scan_budgets to_float budget ts l ≡ log_all l (map alarm (over_budget budget ts))
  unfolding scan_budgets log_all over_budget is_over_budget
  scan_budgets-log_all budget [] l = refl
  scan_budgets-log_all budget (t ∷ ts) l = elim (Bool-cases (ltb budget t.last_duration)) [
    | inl over ↦ rw over (scan_budgets-log_all budget ts _)
    | inr within ↦ rw within (scan_budgets-log_all budget ts l)
  ]

  update_profiler_idle : update_profiler reset_profiler ≡ reset_profiler
  unfolding update_profiler reset_profiler get_free_heap_bytes
  update_profiler_idle = refl

  abbrev next_tick : Diagnostics F W → Diagnostics F W
  next_tick d = tick_diagnostics to_float watchdog_kick_fn d

  -- The entries of the tick with number `k`.
  unfoldable pub entries : ℕ → List ℕ → List (ErrorCode × F)
  entries k durations =
      map alarm durations ++ (if (k + 1) % mem_check_interval == 0 then check_entry else [])

  -- The tick with number `k`, counted from 0 at the construction of the task, logs the durations of the
  -- monitored tasks that were above the budget, in the order of the tasks, and behind them, if it is
  -- the last one of a hundred, the memory check; and it hands the next tick the same conditions. The
  -- peak of the heap in that entry is always 0, since the portable library cannot read the heap.
  pub tick_diagnostics-entries :
      (d : Diagnostics F W) (k : ℕ)
      → d.profiler ≡ reset_profiler
      → d.tick_count ≡ k % mem_check_interval
      → let d' = next_tick d in
        (d'.errors ≡ log_all d.errors (entries k (over_budget d.control_budget d.timers)))
        × (d'.tick_count ≡ (k + 1) % mem_check_interval)
        × (d'.profiler ≡ reset_profiler)
  unfolding tick_diagnostics entries log_all reset_profiler
  tick_diagnostics-entries d k fresh counted =
      let scanned = scan_budgets-log_all d.control_budget d.timers d.errors in
      let still = ap update_profiler fresh ∙ update_profiler_idle in
      let alarms = map alarm (over_budget d.control_budget d.timers) in
      elim (Bool-cases (leb mem_check_interval (wrap32 (d.tick_count + 1)))) [
        | inl check ↦
            let full : (k + 1) % mem_check_interval ≡ 0 = ground arith in
            let hit : ((k + 1) % mem_check_interval == 0) ≡ true = ground arith in
            let kicked = λ (l : ErrorLogger F) (p : MemoryProfiler).
              log l watchdog_kick 0 (to_float p.peak_used_bytes) in
            rw (check, hit)
              (
                ap (kicked (scan_budgets to_float d.control_budget d.timers d.errors)) still
                    ∙ ap (λ l. kicked l reset_profiler) scanned
                    ∙ sym (log_all-append d.errors alarms check_entry),
                sym full,
                still,
              )
        | inr later ↦
            let more : d.tick_count + 1 ≡ (k + 1) % mem_check_interval = ground arith in
            let miss : ((k + 1) % mem_check_interval == 0) ≡ false = ground arith in
            let exact : wrap32 (d.tick_count + 1) ≡ (k + 1) % mem_check_interval = omega arith in
            rw (later, miss)
              (scanned ∙ ap (log_all d.errors) (sym (append-nil alarms)), exact, still)
      ]
