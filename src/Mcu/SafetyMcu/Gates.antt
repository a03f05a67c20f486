-- ===== src/Mcu/SafetyMcu/Gates.antt =====
-- The second half of the control tick: the interlocks and the link check, then the cap, the heater
-- and the motor.
use agentic_engineering_trai.Base.{
  ◌≡◌, ◌≢◌, refl, true, false, not, ◌&&◌, ◌||◌, inl, inr, arith, leb, Bool-cases, sub_u32,
}
use agentic_engineering_trai.Common.Floats.{Floats, FloatLaws}
use agentic_engineering_trai.Protocol.Wire.{
  overtemp, motor_stall, FaultCode, no_fault, sensor_failure, link_lost, is_no_fault,
}
use agentic_engineering_trai.Mcu.Limits.{link_timeout_ms}
use agentic_engineering_trai.Mcu.Interlocks.{evaluate}
use agentic_engineering_trai.Mcu.MotorController
use agentic_engineering_trai.Mcu.Device.{Mcu}
use agentic_engineering_trai.Mcu.Telemetry.{publish_fault}
use agentic_engineering_trai.Mcu.SafetyMcu.{enter_fault, check_interlocks, check_link}
use agentic_engineering_trai.Mcu.SafetyMcu.Control.{IsSafe, enter_fault-IsSafe}

pub no_fault_only : (c : FaultCode) → is_no_fault c ≡ true → c ≡ no_fault
no_fault_only no_fault h = refl
no_fault_only sensor_failure h = cc
no_fault_only overtemp h = cc
no_fault_only motor_stall h = cc
no_fault_only link_lost h = cc

module _ (fl : Floats) (laws : FloatLaws fl) where
  open fl use {Float}

  -- Without a fault the interlocks have not tripped.
  abbrev pub HasNotTripped : Mcu Float → Type 0
  HasNotTripped m = m.fault ≡ no_fault → evaluate fl m.inputs ≡ no_fault

  -- Without a fault, what is on has heard from the application processor within the timeout.
  abbrev pub HasHeard : Mcu Float → Type 0
  HasHeard m =
      m.fault ≡ no_fault
      → leb link_timeout_ms (sub_u32 m.hw.now_ms m.last_valid_frame_ms) ≡ true
      → (MotorController.active fl m.motor ≡ false) × (m.pid.enabled ≡ false)

  enter_fault-fault : (m : Mcu Float) (code : FaultCode) → (enter_fault fl m code).fault ≡ code
  unfolding enter_fault publish_fault
  enter_fault-fault m code = refl

  fault_entered :
      (m : Mcu Float) (code : FaultCode)
      → is_no_fault code ≡ false
      → (enter_fault fl m code).fault ≢ no_fault
  fault_entered m code h e = cc (enter_fault-fault m code)

  -- Without a fault the sensor is being read.
  sensor_read :
      (m : Mcu Float) (code : FaultCode)
      → IsSafe fl laws m
      → is_no_fault m.fault ≡ true
      → m.temp_sensor_ok ≡ false
      → code ≡ sensor_failure
  sensor_read m code v h e = absurd (cc (v.sensor e))

  -- The interlocks switch the outputs off when they trip.
  pub check_interlocks_lem :
      (m : Mcu Float)
      → IsSafe fl laws m
      → IsSafe fl laws (check_interlocks fl m) × HasNotTripped (check_interlocks fl m)
  unfolding check_interlocks
  check_interlocks_lem m v =
      let code = evaluate fl m.inputs in
      elim (Bool-cases (is_no_fault m.fault && not (is_no_fault code))) [
        | inl e ↦ rw e (
          enter_fault-IsSafe fl laws m code v.bounded (sensor_read m code v (ground arith)),
          λ h. absurd (fault_entered m code (ground arith) h),
        )
        | inr e ↦ rw e (
          v,
          λ h. no_fault_only code (let h' : is_no_fault m.fault ≡ true = rw h refl in ground arith),
        )
      ]

  -- The link check switches the outputs off when the link is lost.
  pub check_link_lem :
      (m : Mcu Float)
      → IsSafe fl laws m
      → HasNotTripped m
      → IsSafe fl laws (check_link fl m)
        × HasNotTripped (check_link fl m)
        × HasHeard (check_link fl m)
  unfolding check_link
  check_link_lem m v n =
      let late = leb link_timeout_ms (sub_u32 m.hw.now_ms m.last_valid_frame_ms) in
      elim (Bool-cases
        ((is_no_fault m.fault && (MotorController.active fl m.motor || m.pid.enabled)) && late)) [
          | inl e ↦ rw e (
            enter_fault-IsSafe fl laws m link_lost v.bounded
                (sensor_read m link_lost v (ground arith)),
            λ h. absurd (fault_entered m link_lost refl h),
            λ h. absurd (fault_entered m link_lost refl h),
          )
          | inr e ↦ rw e (
            v,
            n,
            λ h t. let h' : is_no_fault m.fault ≡ true = rw h refl in (ground arith, ground arith),
          )
        ]
