-- ===== src/Sim/Plant.antt =====
-- sim/motor_model.cpp, sim/thermal_model.cpp, sim/scale_model.cpp: the models of the machine's parts.
-- The values of the random noise are arguments.
use agentic_engineering_trai.Base.{
  ℕ, Bool, true, false, ◌&&◌, if◌then◌else◌, ℤ, pos, of_int16, to_int32, of_int32,
}
use agentic_engineering_trai.Common.Floats.{Floats, of_nat}

-- Duty, speed and viscosity, the direction, the stall, and the current.
pub record MotorModel (Float : Type 0) : Type 0 where
  pub duty : Float
  pub rpm : Float
  pub viscosity : Float
  pub reverse : Bool
  pub stalled : Bool
  pub current_ma : ℕ

pub record ThermalModel (Float : Type 0) : Type 0 where
  pub temperature_c : Float
  pub ambient_c : Float

pub record ScaleModel (Float : Type 0) : Type 0 where
  pub true_mass_g : Float
  pub drift_g : Float
  pub vibration_rpm : Float

module _ (fl : Floats) where
  open fl use {Float, lt, le, add, sub, mul, div, ratio, trunc}

  -- Equality of floats, which is false for a NaN.
  abbrev pub float_eq : Float → Float → Bool
  float_eq x y = le x y && le y x

  abbrev pub new_motor_model : MotorModel Float
  new_motor_model = record {
    duty = of_nat fl 0;
    rpm = of_nat fl 0;
    viscosity = of_nat fl 1;
    reverse = false;
    stalled = false;
    current_ma = 0;
  }

  abbrev pub new_thermal : ThermalModel Float
  new_thermal = record { temperature_c = of_nat fl 20; ambient_c = of_nat fl 20 }

  abbrev pub new_scale : ScaleModel Float
  new_scale = record {
    true_mass_g = of_nat fl 0;
    drift_g = of_nat fl 0;
    vibration_rpm = of_nat fl 0;
  }

  -- Between `low` and `high`, as two tests in a row.
  abbrev pub clamp : Float → Float → Float → Float
  clamp low high x = let x' = if lt x low then low else x in if lt high x' then high else x'

  unfoldable pub set_duty : MotorModel Float → Float → MotorModel Float
  set_duty m duty =
      let bounded = clamp (of_nat fl 0) (of_nat fl 1) duty in
      record m {
        duty = bounded;
        stalled = if float_eq bounded (of_nat fl 0) then false else m.stalled;
      }

  abbrev collapse : MotorModel Float → MotorModel Float
  collapse m = record m { rpm = of_nat fl 0; current_ma = 2500 }

  unfoldable pub step_motor : MotorModel Float → Float → Float → MotorModel Float
  step_motor m dt_seconds contents_grams =
      let target = mul m.duty (of_nat fl 10700) in
      let rpm = add m.rpm (div (mul (sub target m.rpm) dt_seconds) (ratio (pos 4) 10)) in
      let load =
        mul (mul (div rpm (of_nat fl 10700)) m.viscosity) (add (of_nat fl 500) contents_grams) in
      let idle = add (of_nat fl 150) (mul (ratio (pos 5) 100) rpm) in
      if m.stalled
      then collapse m
      else if lt (of_nat fl 9000) load
      then collapse (record m { stalled = true })
      else record m {
        rpm = rpm;
        current_ma = of_int16 (
            trunc (
              if lt (of_nat fl 0) m.duty
              then add idle (mul load (ratio (pos 1) 10))
              else of_nat fl 0));
      }

  -- `MotorModel::rpm`
  unfoldable pub shown_rpm : MotorModel Float → ℕ
  shown_rpm m = of_int16 (trunc (if lt m.rpm (of_nat fl 0) then of_nat fl 0 else m.rpm))

  unfoldable pub step_thermal : ThermalModel Float → Float → Float → Float → ThermalModel Float
  step_thermal t dt_seconds heater_watts contents_grams =
      let capacity = add (of_nat fl 500) (mul (ratio (pos 418) 100) contents_grams) in
      let loss_watts = mul (of_nat fl 5) (sub t.temperature_c t.ambient_c) in
      let next =
        add t.temperature_c (div (mul (sub heater_watts loss_watts) dt_seconds) capacity) in
      let floor = sub t.ambient_c (of_nat fl 40) in
      record t { temperature_c = if lt next floor then floor else next }

  unfoldable pub step_scale : ScaleModel Float → Float → Float → ScaleModel Float
  step_scale s dt_seconds motor_rpm = record s {
    drift_g = add s.drift_g (div (mul (ratio (pos 5) 100) dt_seconds) (of_nat fl 60));
    vibration_rpm = motor_rpm;
  }

  -- The two values of the noise are those of the vibration and of the reading.
  unfoldable pub read_raw_counts : ScaleModel Float → Float → Float → ℤ
  read_raw_counts s shake gauss =
      let speed_ratio = div s.vibration_rpm (of_nat fl 10700) in
      let vibration = mul (mul (mul (of_nat fl 90) speed_ratio) speed_ratio) shake in
      let grams = add (add (add s.true_mass_g s.drift_g) gauss) vibration in
      to_int32 (of_int32 (trunc (mul grams (of_nat fl 10))))
