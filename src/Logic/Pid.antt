-- ===== src/Logic/Pid.antt =====
-- include/sputteros/utils/PIDController.h, src/utils/PIDController.cpp and include/sputteros/utils/MinMax.h. The arithmetic and the order of
-- `float` are parameters.
pub mod Clamp
use sputter_os.Prelude.{ℕ, ◌+◌, ◌-◌, ◌%◌, Bool, true, false, not, ◌||◌, if◌then◌else◌, ◌==◌}

pub record FloatField (F : Type 0) : Type 0 where
  pub plus : F → F → F
  pub minus : F → F → F
  pub times : F → F → F
  pub over : F → F → F
  pub less : F → F → Bool
  pub less_equal : F → F → Bool
  pub of_micros : ℕ → F
  pub zero_float : F
  pub millionth : F

pub record Pid (F : Type 0) : Type 0 where
  pub kp : F
  pub ki : F
  pub kd : F
  pub output_min : F
  pub output_max : F
  pub integral : F
  pub prev_error : F
  pub last_output : F
  pub last_timestamp : ℕ
  pub first_sample : Bool

module _ {F : Type 0} (fl : FloatField F) where
  unfoldable pub make_pid : F → F → F → F → F → Pid F
  make_pid kp ki kd output_min output_max = record {
    kp = kp;
    ki = ki;
    kd = kd;
    output_min = output_min;
    output_max = output_max;
    integral = fl.zero_float;
    prev_error = fl.zero_float;
    last_output = fl.zero_float;
    last_timestamp = 0;
    first_sample = true;
  }

  abbrev pub float_min : F → F → F
  float_min a b = if fl.less b a then b else a

  abbrev pub float_max : F → F → F
  float_max a b = if fl.less a b then b else a

  -- `kp * error + ki * integral + kd * derivative`
  abbrev pub pid_sum : Pid F → F → F → F → F
  pid_sum c error integral derivative =
      fl.plus (fl.plus (fl.times c.kp error) (fl.times c.ki integral)) (fl.times c.kd derivative)

  -- The part of `compute` behind its early returns.
  unfoldable pub pid_step : Pid F → F → F → ℕ → F × Pid F
  pid_step c setpoint measured timestamp =
      let dt_us =
        (timestamp + (18446744073709551616 - c.last_timestamp % 18446744073709551616))
        % 18446744073709551616 in
      let dt = fl.times (fl.of_micros dt_us) fl.millionth in
      let error = fl.minus setpoint measured in
      let derivative = fl.over (fl.minus error c.prev_error) dt in
      let raw_integral = fl.plus c.integral (fl.times error dt) in
      let raw_output = pid_sum c error raw_integral derivative in
      let saturated =
        fl.less_equal c.output_max raw_output || fl.less_equal raw_output c.output_min in
      let same_sign = fl.less fl.zero_float (fl.times error c.integral) in
      let integral = if not saturated || not same_sign then raw_integral else c.integral in
      let output =
        float_max c.output_min (float_min c.output_max (pid_sum c error integral derivative)) in
      (
        output,
        record c {
          integral = integral;
          prev_error = error;
          last_output = output;
          last_timestamp = timestamp;
        },
      )

  unfoldable pub pid_compute : Pid F → F → F → ℕ → F × Pid F
  pid_compute c setpoint measured timestamp =
      let next = pid_step c setpoint measured timestamp in
      if c.first_sample
      then (fl.zero_float, record c { last_timestamp = timestamp; first_sample = false })
      else if timestamp == c.last_timestamp
      then (c.last_output, c)
      else next

  unfoldable pub set_gains : Pid F → F → F → F → Pid F
  set_gains c kp ki kd = record c { kp = kp; ki = ki; kd = kd }

  unfoldable pub set_output_limits : Pid F → F → F → Pid F
  set_output_limits c output_min output_max = record c {
    output_min = output_min;
    output_max = output_max;
  }

  unfoldable pub reset_pid : Pid F → Pid F
  reset_pid c = record c {
    integral = fl.zero_float;
    prev_error = fl.zero_float;
    last_output = fl.zero_float;
    last_timestamp = 0;
    first_sample = true;
  }
