-- ===== src/Mcu/MotorController.antt =====
-- mcu/motor_controller.cpp. `duty` is the value last given to the drive by `set_duty`.
use agentic_engineering_trai.Base.{ℕ, Bool, ◌||◌, pos, ltb, ◌==◌, if◌then◌else◌}
use agentic_engineering_trai.Common.Floats.{Floats, of_nat}
use agentic_engineering_trai.Protocol.Wire.{ramp_gentle, ramp_normal, ramp_fast}
use agentic_engineering_trai.Mcu.Limits.{max_rpm}
pub mod Bounds
pub mod Driven

pub record MotorController (Float : Type 0) : Type 0 where
  pub duty : Float
  pub commanded_rpm : Float
  pub target_rpm : ℕ
  pub ramp_rpm_per_s : Float

module _ (fl : Floats) where
  open fl use {Float, lt, add, sub, mul, div, ratio}

  abbrev pub new_motor : MotorController Float
  new_motor = record {
    duty = of_nat fl 0;
    commanded_rpm = of_nat fl 0;
    target_rpm = 0;
    ramp_rpm_per_s = of_nat fl 500;
  }

  unfoldable pub ramp_rate_for : ℕ → Float
  ramp_rate_for profile =
      if profile == ramp_gentle
      then of_nat fl 500
      else if profile == ramp_normal
      then of_nat fl 1500
      else if profile == ramp_fast
      then of_nat fl 2500
      else of_nat fl 1500

  unfoldable pub set_target : MotorController Float → ℕ → ℕ → MotorController Float
  set_target m rpm ramp_profile = record m {
    target_rpm = if ltb max_rpm rpm then max_rpm else rpm;
    ramp_rpm_per_s = ramp_rate_for ramp_profile;
  }

  unfoldable pub burst : MotorController Float → ℕ → MotorController Float
  burst m rpm =
      let bounded = if ltb max_rpm rpm then max_rpm else rpm in
      record m { target_rpm = bounded; commanded_rpm = of_nat fl bounded }

  unfoldable pub stop : MotorController Float → MotorController Float
  stop m = record m { target_rpm = 0; commanded_rpm = of_nat fl 0; duty = of_nat fl 0 }

  unfoldable pub enforce_cap : MotorController Float → ℕ → MotorController Float
  enforce_cap m cap = record m {
    target_rpm = if ltb cap m.target_rpm then cap else m.target_rpm;
    commanded_rpm = if lt (of_nat fl cap) m.commanded_rpm then of_nat fl cap else m.commanded_rpm;
  }

  -- The speed that the ramp commands next.
  unfoldable pub ramp_step : MotorController Float → Float
  ramp_step m =
      let target = of_nat fl m.target_rpm in
      let max_step = mul m.ramp_rpm_per_s (ratio (pos 1) 1000) in
      let faster = add m.commanded_rpm max_step in
      let slower = sub m.commanded_rpm (mul max_step (of_nat fl 4)) in
      if lt m.commanded_rpm target
      then (if lt target faster then target else faster)
      else if lt target m.commanded_rpm
      then (if lt slower target then target else slower)
      else m.commanded_rpm

  unfoldable pub tick_1ms : MotorController Float → MotorController Float
  tick_1ms m =
      let commanded = ramp_step m in
      record m { commanded_rpm = commanded; duty = div commanded (of_nat fl max_rpm) }

  unfoldable pub active : MotorController Float → Bool
  active m = ltb 0 m.target_rpm || lt (of_nat fl 0) m.commanded_rpm
