-- ===== src/Mcu/Interlocks.antt =====
-- mcu/interlocks.cpp: the speed limits of the lid and the bowl temperature, and the trips.
use agentic_engineering_trai.Base.{
  ℕ, ◌≤◌, ◌≡◌, Bool, true, false, not, ◌&&◌, min, arith, ltb, if◌then◌else◌,
}
use agentic_engineering_trai.Common.Floats.{Floats, of_nat}
use agentic_engineering_trai.Protocol.Wire.{FaultCode, no_fault, overtemp, motor_stall}
use agentic_engineering_trai.Mcu.Limits.{
  max_rpm, lid_open_max_rpm, unlocked_max_rpm, spill_guard_temp_c, spill_guard_max_rpm,
  overtemp_cutoff_c,
}

pub record Inputs (Float : Type 0) : Type 0 where
  pub temp_c : Float
  pub rpm : ℕ
  pub lid_closed : Bool
  pub lid_locked : Bool
  pub motor_stalled : Bool

module _ (fl : Floats) where
  open fl use {Float, lt, le}

  -- The inputs before the first sample.
  abbrev pub new_inputs : Inputs Float
  new_inputs = record {
    temp_c = of_nat fl 20;
    rpm = 0;
    lid_closed = true;
    lid_locked = false;
    motor_stalled = false;
  }

  -- `in.temp_c > limits::kSpillGuardTempC`
  abbrev pub is_hot : Inputs Float → Bool
  is_hot i = lt (of_nat fl spill_guard_temp_c) i.temp_c

  unfoldable pub clamp_speed_request : ℕ → Inputs Float → ℕ
  clamp_speed_request requested i =
      let open_lid =
        if not i.lid_closed && ltb lid_open_max_rpm requested
        then lid_open_max_rpm
        else requested in
      let unlocked =
        if (i.lid_closed && not i.lid_locked) && ltb unlocked_max_rpm open_lid
        then unlocked_max_rpm
        else open_lid in
      if is_hot i && ltb spill_guard_max_rpm unlocked then spill_guard_max_rpm else unlocked

  unfoldable pub continuous_cap : Inputs Float → ℕ
  continuous_cap i =
      let cap : ℕ = if is_hot i then spill_guard_max_rpm else max_rpm in
      if not i.lid_closed && ltb lid_open_max_rpm cap
      then lid_open_max_rpm
      else if not i.lid_locked && ltb unlocked_max_rpm cap
      then unlocked_max_rpm
      else cap

  unfoldable pub evaluate : Inputs Float → FaultCode
  evaluate i =
      if le (of_nat fl overtemp_cutoff_c) i.temp_c
      then overtemp
      else if i.motor_stalled
      then motor_stall
      else no_fault

  -- The continuous cap is the smallest of the limits that apply: 500 for an open lid, 6400 for a lid
  -- that is not locked or a bowl above 60 degrees, and 10700 (SR-001, SR-002).
  pub continuous_cap_lem :
      (i : Inputs Float)
      → continuous_cap i ≡ (
          if not i.lid_closed
          then lid_open_max_rpm
          else if is_hot i
          then spill_guard_max_rpm
          else if i.lid_locked
          then max_rpm
          else unlocked_max_rpm)
  unfolding continuous_cap
  continuous_cap_lem i = ground arith

  -- The speed granted to a request of at most 10700 rpm is the smaller of the request and the cap
  -- that every tick enforces, for the same inputs.
  pub clamp_speed_request_lem :
      (requested : ℕ) (i : Inputs Float)
      → requested ≤ max_rpm
      → clamp_speed_request requested i ≡ min requested (continuous_cap i)
  unfolding clamp_speed_request continuous_cap
  clamp_speed_request_lem requested i h = ground arith
