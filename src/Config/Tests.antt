-- ===== src/Config/Tests.antt =====
-- The defaults of the settings, which the components take as they stand here.
use sputter_os.Prelude.{◌≡◌, ◌≤◌, refl, arith, true, none}
use sputter_os.Config.{
  UserConfig, is_valid_config, error_log_capacity, telemetry_log_capacity, max_interlock_conditions,
  max_slots_per_core,
}
use sputter_os.Logging.Errors.{log_capacity}
use sputter_os.Logging.Telemetry.{telemetry_capacity}
use sputter_os.Logic.Interlock.{max_conditions}
use sputter_os.Builder.Topology.{max_tasks_per_core}

-- A struct with none of the optional members.
abbrev plain : UserConfig
plain = record {
  core_count = 2;
  queue_capacity = 16;
  k_max_commands_per_tick = none;
  k_max_valid_command_id = none;
  k_control_budget_us = none;
  k_error_log_capacity = none;
  k_telemetry_log_capacity = none;
  k_max_interlock_conditions = none;
  k_max_line_len = none;
  k_max_frame_payload = none;
  k_max_slots_per_core = none;
  k_max_background_tasks = none;
  k_comms_budget_us = none;
  k_diags_budget_us = none;
  k_min_gap_slice_us = none;
  k_min_schedule_period_us = none;
  k_metrics_window_us = none;
  k_crunch_max_overruns = none;
  k_strict_wcet = none;
  k_isr_context_budget_us = none;
}

plain_valid : is_valid_config plain ≡ true
unfolding is_valid_config
plain_valid = refl

-- The capacities that the loggers and the interlocks have are the defaults of the settings.
capacities :
    (error_log_capacity plain ≡ log_capacity)
    × ((telemetry_log_capacity plain ≡ telemetry_capacity)
        × (max_interlock_conditions plain ≡ max_conditions))
unfolding error_log_capacity telemetry_log_capacity max_interlock_conditions
capacities = (refl, (refl, refl))

slots_fit : max_slots_per_core plain ≤ max_tasks_per_core
unfolding max_slots_per_core
slots_fit = omega arith
