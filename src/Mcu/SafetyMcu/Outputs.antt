-- ===== src/Mcu/SafetyMcu/Outputs.antt =====
-- The last part of the control tick: the cap, the heater, the motor and the telemetry.
use agentic_engineering_trai.Base.{
  ℕ, List, [], ◌∷◌, Option, some, inl, inr, refl, ◌∙◌, sub_u32, ltb, Bool-cases, ◌≡◌, ◌≤◌, false,
  ◌&&◌, arith,
}
use agentic_engineering_trai.Common.Floats.{Floats, of_nat}
use agentic_engineering_trai.Common.Status.{is_ok}
use agentic_engineering_trai.Protocol.Wire.{
  FrameType, MsgId, telemetry, telemetry_msg, fault_msg, fault_code, telemetry_payload_size,
  encode_telemetry, is_no_fault, TelemetryData,
}
use agentic_engineering_trai.Mcu.Limits.{max_rpm}
use agentic_engineering_trai.Mcu.Interlocks.{Inputs, continuous_cap}
use agentic_engineering_trai.Mcu.HeaterPid
use agentic_engineering_trai.Mcu.Device.{Mcu, TelemetryPublisher, send_frame}
use agentic_engineering_trai.Mcu.CommandHandler.{current_grams}
use agentic_engineering_trai.Mcu.Telemetry.{period_ms, publish_sample, maybe_publish}
use agentic_engineering_trai.Mcu.SafetyMcu.{drive_heater, report}

pub cap-max : (fl : Floats) (i : Inputs fl.Float) → continuous_cap fl i ≤ max_rpm
unfolding continuous_cap
cap-max fl i = ground arith

module _ (fl : Floats) where
  open fl use {Float}

  -- The state, but for what telemetry changes: the link, the UART, the scale readings and the
  -- publisher.
  pub record SameControl (m m' : Mcu Float) : Type 0 where
    pub motor : m'.motor ≡ m.motor
    pub pid : m'.pid ≡ m.pid
    pub fault : m'.fault ≡ m.fault
    pub temp_sensor_ok : m'.temp_sensor_ok ≡ m.temp_sensor_ok
    pub inputs : m'.inputs ≡ m.inputs
    pub power_w : m'.hw.power_w ≡ m.hw.power_w
    pub now_ms : m'.hw.now_ms ≡ m.hw.now_ms
    pub last_valid : m'.last_valid_frame_ms ≡ m.last_valid_frame_ms

  SameControl-refl : (m : Mcu Float) → SameControl m m
  SameControl-refl m = record {
    motor = refl;
    pid = refl;
    fault = refl;
    temp_sensor_ok = refl;
    inputs = refl;
    power_w = refl;
    now_ms = refl;
    last_valid = refl;
  }

  send_frame-SameControl :
      (m : Mcu Float) (type : FrameType) (seq : ℕ) (msg_id : MsgId) (payload : Option (List ℕ))
      (n : ℕ)
      → SameControl m (send_frame m type seq msg_id payload n).0
  unfolding send_frame
  send_frame-SameControl m type seq msg_id payload n = record {
    motor = refl;
    pid = refl;
    fault = refl;
    temp_sensor_ok = refl;
    inputs = refl;
    power_w = refl;
    now_ms = refl;
    last_valid = refl;
  }

  published :
      {m m' : Mcu Float} (t : TelemetryPublisher)
      → SameControl m m'
      → SameControl m (record m' { telemetry = t })
  published t s = record {
    motor = s.motor;
    pid = s.pid;
    fault = s.fault;
    temp_sensor_ok = s.temp_sensor_ok;
    inputs = s.inputs;
    power_w = s.power_w;
    now_ms = s.now_ms;
    last_valid = s.last_valid;
  }

  SameControl-trans :
      {m m' m'' : Mcu Float} → SameControl m m' → SameControl m' m'' → SameControl m m''
  SameControl-trans s t = record {
    motor = t.motor ∙ s.motor;
    pid = t.pid ∙ s.pid;
    fault = t.fault ∙ s.fault;
    temp_sensor_ok = t.temp_sensor_ok ∙ s.temp_sensor_ok;
    inputs = t.inputs ∙ s.inputs;
    power_w = t.power_w ∙ s.power_w;
    now_ms = t.now_ms ∙ s.now_ms;
    last_valid = t.last_valid ∙ s.last_valid;
  }

  sample-SameControl : (m : Mcu Float) (t : TelemetryData) → SameControl m (publish_sample m t)
  unfolding publish_sample
  sample-SameControl m t =
      let s =
        send_frame-SameControl m telemetry m.telemetry.seq telemetry_msg (some (encode_telemetry t))
          telemetry_payload_size in
      elim (Bool-cases (ltb (sub_u32 m.hw.now_ms m.telemetry.last_publish_ms) period_ms)) [
        | inl e ↦ rw e (SameControl-refl m)
        | inr e ↦
            elim (Bool-cases (
              is_ok
                (send_frame m telemetry m.telemetry.seq telemetry_msg (some (encode_telemetry t))
                  telemetry_payload_size).1)) [
                    | inl f ↦ rw (e, f) (published _ s)
                    | inr f ↦ rw (e, f) s
                  ]
      ]

  -- Telemetry leaves the control state alone.
  pub maybe_publish-SameControl :
      (m : Mcu Float) (t : TelemetryData) → SameControl m (maybe_publish m t)
  unfolding maybe_publish
  maybe_publish-SameControl m t =
      let code = some (fault_code m.telemetry.pending_fault ∷ []) in
      let s = send_frame-SameControl m telemetry m.telemetry.seq fault_msg code 1 in
      elim (Bool-cases (is_no_fault m.telemetry.pending_fault)) [
        | inl e ↦ rw e (sample-SameControl m t)
        | inr e ↦
            elim (Bool-cases (is_ok (send_frame m telemetry m.telemetry.seq fault_msg code 1).1)) [
              | inl f ↦ rw (e, f) (SameControl-trans (published _ s) (sample-SameControl _ t))
              | inr f ↦ rw (e, f) s
            ]
      ]

  pub report-SameControl : (m : Mcu Float) (w : Float) → SameControl m (report fl m w)
  unfolding report current_grams
  report-SameControl m w =
      let s = maybe_publish-SameControl (current_grams fl m).0 _ in
      record {
        motor = s.motor;
        pid = s.pid;
        fault = s.fault;
        temp_sensor_ok = s.temp_sensor_ok;
        inputs = s.inputs;
        power_w = s.power_w;
        now_ms = s.now_ms;
        last_valid = s.last_valid;
      }

  -- What the heater stage does to the state: the power is that of the controller, and nothing unless
  -- the controller is on, the lid closed and no fault present.
  pub record Heated (m m' : Mcu Float) : Type 0 where
    pub enabled : m'.pid.enabled ≡ m.pid.enabled
    pub target : m'.pid.target_deci ≡ m.pid.target_deci
    pub motor : m'.motor ≡ m.motor
    pub fault : m'.fault ≡ m.fault
    pub temp_sensor_ok : m'.temp_sensor_ok ≡ m.temp_sensor_ok
    pub inputs : m'.inputs ≡ m.inputs
    pub now_ms : m'.hw.now_ms ≡ m.hw.now_ms
    pub last_valid : m'.last_valid_frame_ms ≡ m.last_valid_frame_ms
    pub off :
        ((is_no_fault m.fault && m.pid.enabled) && m.inputs.lid_closed) ≡ false
        → m'.hw.power_w ≡ of_nat fl 0

  pub drive_heater-Heated : (m : Mcu Float) → Heated m (drive_heater fl m).0
  unfolding drive_heater HeaterPid.update
  drive_heater-Heated m = ground arith
