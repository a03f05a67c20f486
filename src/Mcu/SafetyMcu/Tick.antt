-- ===== src/Mcu/SafetyMcu/Tick.antt =====
-- The whole control tick, `SafetyMcu::tick_1ms`: it ends on every input and leaves the outputs in a
-- state that the safety requirements allow.
use agentic_engineering_trai.Base.{
  suc, ◌+◌, ◌≡◌, refl, ap, ◌∙◌, true, false, ◌&&◌, inl, inr, arith, leb, Bool-cases, u32, sub_u32,
  some, length,
}
use agentic_engineering_trai.Common.Floats.{Floats, FloatLaws, of_nat}
use agentic_engineering_trai.Protocol.Wire.{sensor_failure, is_no_fault}
use agentic_engineering_trai.Mcu.Limits.{max_rpm, link_timeout_ms}
use agentic_engineering_trai.Mcu.Interlocks.{Inputs, continuous_cap}
use agentic_engineering_trai.Mcu.MotorController
use agentic_engineering_trai.Mcu.MotorController.Bounds.{IsUnder, le-of_nat}
use agentic_engineering_trai.Mcu.MotorController.Driven.{
  IsStopped, Driven, driven-Driven, active-IsUnder,
}
use agentic_engineering_trai.Common.Status.{is_ok}
use agentic_engineering_trai.Mcu.HeaterPid.{to_celsius}
use agentic_engineering_trai.Mcu.Telemetry.{publish_fault}
use agentic_engineering_trai.Mcu.Device.{Mcu}
use agentic_engineering_trai.Mcu.SafetyMcu.{
  sample_inputs, enter_fault, check_sensor, check_interlocks, check_link, enforce_cap, drive_heater,
  drive_motor, report, control, tick_1ms,
}
use agentic_engineering_trai.Mcu.SafetyMcu.Control.{
  IsSafe, SameSample, same_control-IsSafe, serve_loop-IsSafe, check_sensor-IsSafe,
}
use agentic_engineering_trai.Mcu.SafetyMcu.Gates.{
  no_fault_only, HasNotTripped, HasHeard, check_interlocks_lem, check_link_lem,
}
use agentic_engineering_trai.Mcu.SafetyMcu.Outputs.{
  cap-max, report-SameControl, drive_heater-Heated,
}

module _ (fl : Floats) (laws : FloatLaws fl) where
  open fl use {Float, div}

  -- The state between two ticks, with what the safety requirements say of the outputs.
  pub record IsControlled (m : Mcu Float) : Type 0 where
    pub safe : IsSafe fl laws m
    -- SR-003, SR-004: a trip of the interlocks is a fault.
    pub not_tripped : HasNotTripped fl laws m
    -- SR-001, SR-002: the speed commanded to the drive is under the cap for the sampled inputs.
    pub under : IsUnder fl laws (continuous_cap fl m.inputs) m.motor
    pub duty : m.motor.duty ≡ div m.motor.commanded_rpm (of_nat fl max_rpm)
    -- SR-007: in a fault the motor is stopped and the heater has no power.
    pub fault_off :
        is_no_fault m.fault ≡ false → IsStopped fl laws m.motor × (m.hw.power_w ≡ of_nat fl 0)
    -- No heating with an open lid.
    pub open_off : m.inputs.lid_closed ≡ false → m.hw.power_w ≡ of_nat fl 0
    -- SR-005: without a request for the timeout, nothing is driven.
    pub silent_off :
        leb link_timeout_ms (sub_u32 m.hw.now_ms m.last_valid_frame_ms) ≡ true
        → IsUnder fl laws 0 m.motor × (m.hw.power_w ≡ of_nat fl 0)

  stopped-IsUnder :
      {m : MotorController.MotorController Float} → IsStopped fl laws m → IsUnder fl laws 0 m
  stopped-IsUnder s = record {
    commanded_cap = rw s.commanded_zero (le-of_nat fl laws 0 0 (omega arith) (omega arith));
    target_cap = omega (arith, s.target_zero);
  }

  -- The state that the outputs leave, part by part.
  module _ (m : Mcu Float) where
    abbrev pub capped : Mcu Float
    capped = enforce_cap fl m

    abbrev pub heated : Mcu Float
    heated = (drive_heater fl capped).0

    abbrev pub reported : Mcu Float
    reported = report fl (drive_motor fl heated) (drive_heater fl capped).1

    -- The outputs move the motor by one step under the cap, set the power, and keep the rest of the
    -- state that the requirements speak of.
    record Output (m' : Mcu Float) : Type 0 where
      motor : Driven fl laws m.motor (continuous_cap fl m.inputs) m'.motor
      enabled : m'.pid.enabled ≡ m.pid.enabled
      target : m'.pid.target_deci ≡ m.pid.target_deci
      fault : m'.fault ≡ m.fault
      temp_sensor_ok : m'.temp_sensor_ok ≡ m.temp_sensor_ok
      inputs : m'.inputs ≡ m.inputs
      now_ms : m'.hw.now_ms ≡ m.hw.now_ms
      last_valid : m'.last_valid_frame_ms ≡ m.last_valid_frame_ms
      off :
          ((is_no_fault m.fault && m.pid.enabled) && m.inputs.lid_closed) ≡ false
          → m'.hw.power_w ≡ of_nat fl 0

    reported-Output : IsSafe fl laws m → Output reported
    unfolding enforce_cap drive_motor
    reported-Output v =
        let s = report-SameControl fl (drive_motor fl heated) (drive_heater fl capped).1 in
        let h = drive_heater-Heated fl capped in
        record {
          motor =
              rw (s.motor, h.motor)
                (driven-Driven fl laws (continuous_cap fl m.inputs) (cap-max fl m.inputs)
                  v.bounded);
          enabled = ap (λ p. p.enabled) s.pid ∙ h.enabled;
          target = ap (λ p. p.target_deci) s.pid ∙ h.target;
          fault = s.fault ∙ h.fault;
          temp_sensor_ok = s.temp_sensor_ok ∙ h.temp_sensor_ok;
          inputs = s.inputs ∙ h.inputs;
          now_ms = s.now_ms ∙ h.now_ms;
          last_valid = s.last_valid ∙ h.last_valid;
          off = λ e. s.power_w ∙ h.off e;
        }

    Output-IsControlled :
        (m' : Mcu Float)
        → IsSafe fl laws m
        → HasNotTripped fl laws m
        → HasHeard fl laws m
        → Output m'
        → IsControlled m'
    Output-IsControlled m' v n t o = record {
      safe = record {
        quiet = λ e.
            let q = stopped e in
            record {
              target_zero = q.target_zero;
              commanded_zero = q.commanded_zero;
              heater_disabled = o.enabled ∙ (v.quiet (faulted e)).heater_disabled;
            };
        bounded = o.motor.bounded;
        legal = rw (o.enabled, o.target) v.legal;
        sensor = rw (o.temp_sensor_ok, o.fault) v.sensor;
      };
      not_tripped = rw (o.fault, o.inputs) n;
      under = rw o.inputs o.motor.under;
      duty = o.motor.duty;
      fault_off = λ e. (stopped e, let e' = faulted e in o.off (ground arith));
      open_off =
          λ e. let e' : m.inputs.lid_closed ≡ false = rw o.inputs at e in o.off (ground arith);
      silent_off = λ e.
          let late = rw (o.now_ms, o.last_valid) at e in
          elim (Bool-cases (is_no_fault m.fault)) [
            | inl h ↦
                let (idle, disabled) = t (no_fault_only m.fault h) late in
                (o.motor.still (active-IsUnder fl laws v.bounded idle), o.off (ground arith))
            | inr h ↦ (stopped-IsUnder (stopped (rw o.fault h)), o.off (ground arith))
          ];
    }
      where
        faulted : is_no_fault m'.fault ≡ false → is_no_fault m.fault ≡ false
        faulted e = rw o.fault at e

        stopped : is_no_fault m'.fault ≡ false → IsStopped fl laws m'.motor
        stopped e =
            let q = v.quiet (faulted e) in
            o.motor.stopped
              (record { target_zero = q.target_zero; commanded_zero = q.commanded_zero })

  -- The part behind the receive loop.
  pub control-IsControlled : (m : Mcu Float) → IsSafe fl laws m → IsControlled (control fl m)
  unfolding control
  control-IsControlled m v =
      let (a, b) = check_interlocks_lem fl laws m v in
      let (c, d, e) = check_link_lem fl laws (check_interlocks fl m) a b in
      let gated = check_link fl (check_interlocks fl m) in
      Output-IsControlled gated (reported gated) c d e (reported-Output gated c)

  gates-SameSample : (m : Mcu Float) → SameSample fl laws m (check_link fl (check_interlocks fl m))
  unfolding check_link check_interlocks enter_fault publish_fault
  gates-SameSample m = ground arith

  control-SameSample : (m : Mcu Float) → IsSafe fl laws m → SameSample fl laws m (control fl m)
  unfolding control
  control-SameSample m v =
      let (a, b) = check_interlocks_lem fl laws m v in
      let (c, d, e) = check_link_lem fl laws (check_interlocks fl m) a b in
      let g = gates-SameSample m in
      let o = reported-Output (check_link fl (check_interlocks fl m)) c in
      record {
        inputs = o.inputs ∙ g.inputs;
        now_ms = o.now_ms ∙ g.now_ms;
        temp_sensor_ok = o.temp_sensor_ok ∙ g.temp_sensor_ok;
      }

  -- What the sensors show in this tick.
  abbrev pub sampled : Mcu Float → Inputs Float
  sampled m = record {
    temp_c = to_celsius fl m.hw.temperature.value;
    rpm = m.hw.rpm;
    lid_closed = m.hw.lid.closed;
    lid_locked = m.hw.lid.locked;
    motor_stalled = m.hw.stalled;
  }

  -- The tick acts on what the sensors show, and a temperature that cannot be read is a fault.
  pub record IsSampled (m m' : Mcu Float) : Type 0 where
    pub now_ms : m'.hw.now_ms ≡ m.hw.now_ms
    pub read : is_ok m.hw.temperature.status ≡ true → m'.inputs ≡ sampled m
    pub failed : is_ok m.hw.temperature.status ≡ false → m'.fault ≡ sensor_failure

  check_sensor_sample :
      (m : Mcu Float)
      → ((check_sensor fl m).temp_sensor_ok ≡ is_ok m.hw.temperature.status)
        × ((check_sensor fl m).hw.now_ms ≡ m.hw.now_ms)
        × (is_ok m.hw.temperature.status ≡ true → (check_sensor fl m).inputs ≡ sampled m)
  unfolding check_sensor sample_inputs enter_fault publish_fault
  check_sensor_sample m = ground arith

  -- The control tick ends on every input. From any state that satisfies the invariant it leaves one
  -- in which the outputs obey the safety requirements for what the sensors show now.
  pub tick_1ms-IsControlled :
      (m : Mcu Float)
      → IsSafe fl laws m
      → (m' : Mcu Float) × (tick_1ms fl m ≡ some m') × IsControlled m' × IsSampled m m'
  unfolding tick_1ms
  tick_1ms-IsControlled m v =
      let start : Mcu Float = record m { tick_count = u32 (m.tick_count + 1) } in
      let (w, rx) =
        check_sensor-IsSafe fl laws start
          (same_control-IsSafe fl laws start refl refl refl refl v) in
      let (ok, now, inputs) = check_sensor_sample start in
      let (m', e, safe, same) =
        serve_loop-IsSafe fl laws (suc (length m.hw.uart.rx)) (check_sensor fl start)
          (omega (arith, ap (λ k. length k) rx)) w in
      let last = control-SameSample m' safe in
      let controlled = control-IsControlled m' safe in
      (
        control fl m',
        rw e refl,
        controlled,
        record {
          now_ms = last.now_ms ∙ same.now_ms ∙ now;
          read = λ h. last.inputs ∙ same.inputs ∙ inputs h;
          failed = λ h. controlled.safe.sensor (last.temp_sensor_ok ∙ same.temp_sensor_ok ∙ ok ∙ h);
        },
      )
