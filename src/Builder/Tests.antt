-- ===== src/Builder/Tests.antt =====
-- The builder's theorems at concrete inputs.
use sputter_os.Prelude.{
  map, ℕ, ◌≡◌, ◌/◌, refl, true, false, List, [], ◌∷◌, none, some, All, replicate,
}
use sputter_os.Logging.Errors.{ErrorLogger, soft_abort}
use sputter_os.Builder.Sort.{TaskInfo, effective_priority, period_band, sort_tasks, sort_loop, sift}
use sputter_os.Builder.Sort.Stable.{Ascending, of_priority, sort_tasks_stable}
use sputter_os.Builder.Checks.{
  is_active_core, has_low_period, is_below, has_duplicate, occurs, check_late, check_crunches,
  check_crunch, check_rules, dependencies_hold, CoreInfo, any_active, all_tasks, validate,
}
use sputter_os.Builder.Checks.Sound.{
  HasPeriod, IsDistinct, AllFitCrunch, with_other, validate_sound,
}

abbrev sampler : TaskInfo
sampler = record { id = 1; is_scheduled = true; schedule_priority = 255; period_us = 5000 }

abbrev reporter : TaskInfo
reporter = record { id = 2; is_scheduled = true; schedule_priority = 255; period_us = 250000 }

abbrev control : TaskInfo
control = record { id = 3; is_scheduled = true; schedule_priority = 0; period_us = 0 }

abbrev registered : List TaskInfo
registered = reporter ∷ sampler ∷ control ∷ []

sort_run : sort_tasks effective_priority sampler registered ≡ control ∷ sampler ∷ reporter ∷ []
unfolding sort_tasks sort_loop sift effective_priority period_band
sort_run = refl

sort_tasks_stable_example :
    Ascending effective_priority (sort_tasks effective_priority sampler registered)
    × ((p : ℕ)
        → of_priority effective_priority p (sort_tasks effective_priority sampler registered)
          ≡ of_priority effective_priority p registered)
sort_tasks_stable_example = sort_tasks_stable effective_priority sampler registered

abbrev topology : List CoreInfo
topology =
    record {
      tasks =
          record { info = control; declared_wcet_us = 40; has_dependencies = true }
          ∷ record { info = sampler; declared_wcet_us = 200; has_dependencies = true }
          ∷ [];
      is_crunch = false;
      crunch_task = none;
    }
    ∷ record {
      tasks = [];
      is_crunch = true;
      crunch_task = some (record { crunch_id = 9; crunch_period_us = 100 });
    }
    ∷ []

abbrev empty_log : ErrorLogger ℕ
empty_log = record {
  buf = replicate 33 (record { code = soft_abort; timestamp = 0; value = 0 });
  head = 0;
  tail = 0;
}

abbrev same : ℕ → ℕ
same n = n

abbrev divide : ℕ → ℕ → ℕ
divide a b = a / b

topology_passes : (validate same divide 50 2 topology empty_log).0 ≡ none
unfolding validate any_active is_active_core all_tasks has_low_period is_below has_duplicate occurs
    check_late check_crunches check_crunch check_rules dependencies_hold
topology_passes = refl

validate_sound_example :
    (any_active topology ≡ true)
    × All (HasPeriod 50) (all_tasks topology)
    × IsDistinct (all_tasks topology)
    × AllFitCrunch 50 0 topology
    × All (λ t. t.has_dependencies ≡ true) (all_tasks topology)
    × ((f : ℕ → ℕ) → (validate same divide 50 2 (map (with_other f) topology) empty_log).0 ≡ none)
validate_sound_example = validate_sound same divide 50 2 topology empty_log topology_passes
