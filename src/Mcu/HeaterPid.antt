-- ===== src/Mcu/HeaterPid.antt =====
-- mcu/heater_pid.cpp.
use agentic_engineering_trai.Base.{Bool, true, false, not, ◌||◌, ℤ, pos, ltb_ℤ, if◌then◌else◌}
use agentic_engineering_trai.Common.Floats.{Floats, of_nat}

pub record HeaterPid (Float : Type 0) : Type 0 where
  pub enabled : Bool
  pub target_deci : ℤ
  pub integral : Float

-- `a != b`
abbrev ne_ℤ : ℤ → ℤ → Bool
ne_ℤ a b = ltb_ℤ a b || ltb_ℤ b a

module _ (fl : Floats) where
  open fl use {Float, lt, add, sub, mul, div, abs, ratio}

  -- common/units.h
  abbrev pub to_celsius : ℤ → Float
  to_celsius deci = div (ratio deci 1) (of_nat fl 10)

  abbrev pub new_pid : HeaterPid Float
  new_pid = record { enabled = false; target_deci = pos 0; integral = of_nat fl 0 }

  unfoldable pub set_target : HeaterPid Float → ℤ → HeaterPid Float
  set_target p target = record {
    enabled = true;
    target_deci = target;
    integral = if not p.enabled || ne_ℤ target p.target_deci then of_nat fl 0 else p.integral;
  }

  unfoldable pub disable : HeaterPid Float → HeaterPid Float
  disable p = record { enabled = false; target_deci = pos 0; integral = of_nat fl 0 }

  -- The new controller and the commanded power in watts.
  unfoldable pub update : HeaterPid Float → Float → Float → HeaterPid Float × Float
  update p measured_c dt_seconds =
      if not p.enabled
      then (p, of_nat fl 0)
      else (let error = sub (to_celsius p.target_deci) measured_c in
          let integral =
            if lt (abs error) (of_nat fl 5)
            then add p.integral (mul error dt_seconds)
            else p.integral in
          let watts = add (mul (of_nat fl 130) error) (mul (of_nat fl 2) integral) in
          let not_negative = if lt watts (of_nat fl 0) then of_nat fl 0 else watts in
          (
            record p { integral = integral },
            if lt (of_nat fl 1200) not_negative then of_nat fl 1200 else not_negative,
          ))
