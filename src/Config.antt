-- ===== src/Config.antt =====
-- include/sputteros/ConfigTraits.h: the settings of a configuration struct, with the defaults where a member is missing
-- (`none`). The types of the struct are checked by the compiler.
mod Tests
use sputter_os.Prelude.{ℕ, Bool, true, false, Option, none, some, if◌then◌else◌, ltb, leb}

-- A configuration struct: the two required numbers, and the optional members.
pub record UserConfig : Type 0 where
  pub core_count : ℕ
  pub queue_capacity : ℕ
  pub k_max_commands_per_tick : Option ℕ
  pub k_max_valid_command_id : Option ℕ
  pub k_control_budget_us : Option ℕ
  pub k_error_log_capacity : Option ℕ
  pub k_telemetry_log_capacity : Option ℕ
  pub k_max_interlock_conditions : Option ℕ
  pub k_max_line_len : Option ℕ
  pub k_max_frame_payload : Option ℕ
  pub k_max_slots_per_core : Option ℕ
  pub k_max_background_tasks : Option ℕ
  pub k_comms_budget_us : Option ℕ
  pub k_diags_budget_us : Option ℕ
  pub k_min_gap_slice_us : Option ℕ
  pub k_min_schedule_period_us : Option ℕ
  pub k_metrics_window_us : Option ℕ
  pub k_crunch_max_overruns : Option ℕ
  pub k_strict_wcet : Option Bool
  pub k_isr_context_budget_us : Option (ℕ × ℕ)

-- The two numbers that `ConfigValidator` asserts.
unfoldable pub is_valid_config : UserConfig → Bool
is_valid_config cfg = if leb 1 cfg.core_count then ltb 0 cfg.queue_capacity else false

-- A member if the struct has it, and else the default.
abbrev member_or {ℓ} : {A : Type ℓ} → A → Option A → A
member_or dflt none = dflt
member_or dflt (some v) = v

unfoldable pub max_commands_per_tick : UserConfig → ℕ
max_commands_per_tick cfg = member_or 8 cfg.k_max_commands_per_tick

unfoldable pub max_valid_command_id : UserConfig → ℕ
max_valid_command_id cfg = member_or 255 cfg.k_max_valid_command_id

unfoldable pub control_budget_us : UserConfig → ℕ
control_budget_us cfg = member_or 10000 cfg.k_control_budget_us

unfoldable pub error_log_capacity : UserConfig → ℕ
error_log_capacity cfg = member_or 32 cfg.k_error_log_capacity

unfoldable pub telemetry_log_capacity : UserConfig → ℕ
telemetry_log_capacity cfg = member_or 32 cfg.k_telemetry_log_capacity

unfoldable pub max_interlock_conditions : UserConfig → ℕ
max_interlock_conditions cfg = member_or 8 cfg.k_max_interlock_conditions

unfoldable pub max_line_len : UserConfig → ℕ
max_line_len cfg = member_or 64 cfg.k_max_line_len

unfoldable pub max_frame_payload : UserConfig → ℕ
max_frame_payload cfg = member_or 256 cfg.k_max_frame_payload

unfoldable pub max_slots_per_core : UserConfig → ℕ
max_slots_per_core cfg = member_or 32 cfg.k_max_slots_per_core

unfoldable pub max_background_tasks : UserConfig → ℕ
max_background_tasks cfg = member_or 16 cfg.k_max_background_tasks

unfoldable pub comms_budget_us : UserConfig → ℕ
comms_budget_us cfg = member_or 1000 cfg.k_comms_budget_us

unfoldable pub diags_budget_us : UserConfig → ℕ
diags_budget_us cfg = member_or 10000 cfg.k_diags_budget_us

unfoldable pub min_gap_slice_us : UserConfig → ℕ
min_gap_slice_us cfg = member_or 10 cfg.k_min_gap_slice_us

unfoldable pub min_schedule_period_us : UserConfig → ℕ
min_schedule_period_us cfg = member_or 10 cfg.k_min_schedule_period_us

unfoldable pub metrics_window_us : UserConfig → ℕ
metrics_window_us cfg = member_or 60000000 cfg.k_metrics_window_us

unfoldable pub crunch_max_overruns : UserConfig → ℕ
crunch_max_overruns cfg = member_or 10 cfg.k_crunch_max_overruns

unfoldable pub strict_wcet : UserConfig → Bool
strict_wcet cfg = member_or false cfg.k_strict_wcet

-- One budget for each of two cores.
unfoldable pub isr_context_budget_us : UserConfig → ℕ × ℕ
isr_context_budget_us cfg = member_or (0, 0) cfg.k_isr_context_budget_us
