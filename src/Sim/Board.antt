-- ===== src/Sim/Board.antt =====
-- sim/sim_board.h, sim/sim_board.cpp: the simulated machine, in lockstep with its clock.
pub mod Bounds
use agentic_engineering_trai.Base.{
  ℕ, zero, suc, ◌+◌, ◌/◌, ◌%◌, ◌^◌, Bool, false, if◌then◌else◌, ℤ, pos, u32,
}
use agentic_engineering_trai.Common.Status.{Result, ok, hardware_fault}
use agentic_engineering_trai.Common.Floats.{Floats, of_nat, from_celsius}
use agentic_engineering_trai.Sim.Lid.{LidModel, user_open, user_close, set_lock}
use agentic_engineering_trai.Sim.Watchdog.{Watchdog, new_watchdog, feed_watchdog, check_watchdog}
use agentic_engineering_trai.Sim.Plant.{
  MotorModel, ThermalModel, ScaleModel, new_motor_model, new_thermal, new_scale, clamp, set_duty,
  step_motor, shown_rpm, step_thermal, step_scale,
}

pub record SimBoard (Float : Type 0) : Type 0 where
  pub now_us : ℕ
  pub thermal : ThermalModel Float
  pub motor : MotorModel Float
  pub scale : ScaleModel Float
  pub lid : LidModel
  pub heater_w : Float
  pub sensor_failed : Bool
  pub watchdog : Watchdog

module _ (fl : Floats) where
  open fl use {Float, add, ratio}

  abbrev pub new_board : LidModel → SimBoard Float
  new_board lid = record {
    now_us = 0;
    thermal = new_thermal fl;
    motor = new_motor_model fl;
    scale = new_scale fl;
    lid = lid;
    heater_w = of_nat fl 0;
    sensor_failed = false;
    watchdog = new_watchdog;
  }

  unfoldable pub set_power_w : SimBoard Float → Float → SimBoard Float
  set_power_w b watts = record b { heater_w = clamp fl (of_nat fl 0) (of_nat fl 1200) watts }

  unfoldable pub command_duty : SimBoard Float → Float → SimBoard Float
  command_duty b duty = record b { motor = set_duty fl b.motor duty }

  unfoldable pub add_mass : SimBoard Float → Float → SimBoard Float
  add_mass b grams = record b {
    scale = record b.scale { true_mass_g = add b.scale.true_mass_g grams };
  }

  unfoldable pub clear_mass : SimBoard Float → SimBoard Float
  clear_mass b = record b { scale = record b.scale { true_mass_g = of_nat fl 0 } }

  unfoldable pub set_reverse : SimBoard Float → Bool → SimBoard Float
  set_reverse b reverse = record b { motor = record b.motor { reverse = reverse } }

  unfoldable pub set_ambient_c : SimBoard Float → Float → SimBoard Float
  set_ambient_c b celsius = record b { thermal = record b.thermal { ambient_c = celsius } }

  unfoldable pub set_temperature_c : SimBoard Float → Float → SimBoard Float
  set_temperature_c b celsius = record b { thermal = record b.thermal { temperature_c = celsius } }

  unfoldable pub set_sensor_failed : SimBoard Float → Bool → SimBoard Float
  set_sensor_failed b failed = record b { sensor_failed = failed }

  unfoldable pub set_viscosity : SimBoard Float → Float → SimBoard Float
  set_viscosity b factor = record b { motor = record b.motor { viscosity = factor } }

  unfoldable pub open_lid : SimBoard Float → SimBoard Float
  open_lid b = record b { lid = user_open b.lid }

  -- `LidHal::set_lock`
  unfoldable pub command_lock : SimBoard Float → Bool → SimBoard Float
  command_lock b locked = record b { lid = set_lock b.lid locked }

  -- `feed` of the watchdog, with its clock
  unfoldable pub feed_board : SimBoard Float → SimBoard Float
  feed_board b = record b { watchdog = feed_watchdog b.watchdog (u32 (b.now_us / 1000)) }

  unfoldable pub close_lid : SimBoard Float → SimBoard Float
  close_lid b = record b { lid = user_close b.lid }

  -- `noise` is the next value of the sensor's noise.
  unfoldable pub read_deci_celsius : SimBoard Float → Float → Result ℤ
  read_deci_celsius b noise =
      if b.sensor_failed
      then record { status = hardware_fault; value = pos 0 }
      else record { status = ok; value = from_celsius fl (add b.thermal.temperature_c noise) }

  -- `now_ms` of hal/i_clock.h
  abbrev pub now_ms : SimBoard Float → ℕ
  now_ms b = u32 (b.now_us / 1000)

  -- One millisecond.
  unfoldable pub step_board : SimBoard Float → SimBoard Float
  step_board b =
      let dt = ratio (pos 1) 1000 in
      let now_us = (b.now_us + 1000) % 2 ^ 64 in
      let motor = step_motor fl b.motor dt b.scale.true_mass_g in
      record b {
        now_us = now_us;
        motor = motor;
        scale = step_scale fl b.scale dt (of_nat fl (shown_rpm fl motor));
        thermal = step_thermal fl b.thermal dt b.heater_w b.scale.true_mass_g;
        watchdog = check_watchdog b.watchdog (u32 (now_us / 1000));
      }

  unfoldable pub step_ms : SimBoard Float → ℕ → SimBoard Float
  step_ms b zero = b
  step_ms b (suc ms) = step_ms (step_board b) ms
