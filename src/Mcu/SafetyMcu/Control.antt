-- ===== src/Mcu/SafetyMcu/Control.antt =====
-- The first half of the control tick: the sensor check and the receive loop, and the invariant of the
-- safety MCU that they keep.
use agentic_engineering_trai.Base.{
  ℕ, ◌==◌, ◌≡◌, refl, ◌∙◌, true, false, not, ◌&&◌, inl, inr, arith, Bool-cases, some, length, ◌<◌,
}
use agentic_engineering_trai.Common.Status.{is_ok}
use agentic_engineering_trai.Common.Floats.{Floats, FloatLaws}
use agentic_engineering_trai.Protocol.Wire.{
  Frame, overtemp, motor_stall, is_request, motor_stop, FaultCode, no_fault, sensor_failure,
  link_lost, is_no_fault,
}
use agentic_engineering_trai.Mcu.Interlocks.{Inputs}
use agentic_engineering_trai.Mcu.MotorController
use agentic_engineering_trai.Mcu.MotorController.Bounds.{IsBounded, stop-IsBounded}
use agentic_engineering_trai.Mcu.HeaterPid
use agentic_engineering_trai.Mcu.Device.{Mcu}
use agentic_engineering_trai.Mcu.CommandHandler.{handle}
use agentic_engineering_trai.Mcu.Telemetry.{publish_fault}
use agentic_engineering_trai.Mcu.SafetyMcu.{
  is_sensor_failure, sample_inputs, enter_fault, can_clear_fault, serve, serve_loop, check_sensor,
}
use agentic_engineering_trai.Mcu.SafetyMcu.Serving.{
  Quiet, IsLegalTarget, handle-Kept, handle-Quiet, handle-IsLegalTarget, handle-IsBounded,
}
use agentic_engineering_trai.Mcu.SafetyMcu.Loop.{
  noted, serve-Serves, serve_loop_total, serve_loop_inv,
}

sensor_failure_only : (c : FaultCode) → is_sensor_failure c ≡ true → c ≡ sensor_failure
sensor_failure_only sensor_failure h = refl
sensor_failure_only no_fault h = cc
sensor_failure_only overtemp h = cc
sensor_failure_only motor_stall h = cc
sensor_failure_only link_lost h = cc

module _ (fl : Floats) (laws : FloatLaws fl) where
  open fl use {Float}

  -- The invariant of the safety MCU. During a fault the outputs are off; the speeds and the heater
  -- target are in range; and while the temperature cannot be read the fault is that of the sensor.
  pub record IsSafe (m : Mcu Float) : Type 0 where
    pub quiet : is_no_fault m.fault ≡ false → Quiet fl m
    pub bounded : IsBounded fl laws m.motor
    pub legal : IsLegalTarget m.pid
    pub sensor : m.temp_sensor_ok ≡ false → m.fault ≡ sensor_failure

  pub enter_fault-IsSafe :
      (m : Mcu Float) (code : FaultCode)
      → IsBounded fl laws m.motor
      → (m.temp_sensor_ok ≡ false → code ≡ sensor_failure)
      → IsSafe (enter_fault fl m code)
  unfolding enter_fault publish_fault MotorController.stop HeaterPid.disable
  enter_fault-IsSafe m code v h = record {
    quiet = λ e. record { target_zero = refl; commanded_zero = refl; heater_disabled = refl };
    bounded = stop-IsBounded fl laws v;
    legal = λ e. cc;
    sensor = h;
  }

  pub same_control-IsSafe :
      {m : Mcu Float} (m' : Mcu Float)
      → m'.motor ≡ m.motor
      → m'.pid ≡ m.pid
      → m'.fault ≡ m.fault
      → m'.temp_sensor_ok ≡ m.temp_sensor_ok
      → IsSafe m
      → IsSafe m'
  same_control-IsSafe m' a b c d v = record {
    quiet = λ e.
        let q = v.quiet (rw (← c) e) in
        record {
          target_zero = rw a q.target_zero;
          commanded_zero = rw a q.commanded_zero;
          heater_disabled = rw b q.heater_disabled;
        };
    bounded = rw a v.bounded;
    legal = rw b v.legal;
    sensor = rw (c, d) v.sensor;
  }

  handle-IsSafe :
      (f : Frame) (s : Inputs Float) (m : Mcu Float)
      → IsSafe m
      → IsSafe (handle fl f s (not (is_no_fault m.fault)) m)
  handle-IsSafe f s m v =
      let faulted = not (is_no_fault m.fault) in
      let kept = handle-Kept fl f s m faulted in
      record {
        quiet = λ e.
            let e' : is_no_fault m.fault ≡ false = rw kept.fault at e in
            rw e' (handle-Quiet fl f s m (v.quiet e'));
        bounded = handle-IsBounded fl f s m laws faulted v.bounded;
        legal = handle-IsLegalTarget fl f s m faulted v.legal;
        sensor = rw (kept.fault, kept.temp_sensor_ok) v.sensor;
      }

  cleared-IsSafe :
      (m : Mcu Float)
      → can_clear_fault fl m ≡ true
      → IsSafe m
      → IsSafe (record m { fault = no_fault })
  unfolding can_clear_fault
  cleared-IsSafe m h v = record {
    quiet = λ e. cc;
    bounded = v.bounded;
    legal = v.legal;
    sensor = λ e. absurd (ground (arith, v.sensor e));
  }

  -- A request that is served keeps the invariant, whatever it asks for.
  pub serve-IsSafe : (m : Mcu Float) (f : Frame) → IsSafe m → IsSafe (serve fl m f)
  unfolding serve
  serve-IsSafe m f v =
      let start =
        same_control-IsSafe (noted fl m f) (ground arith) (ground arith) (ground arith)
          (ground arith) v in
      let served = handle-IsSafe f (noted fl m f).inputs (noted fl m f) start in
      let h =
        handle fl f (noted fl m f).inputs (not (is_no_fault (noted fl m f).fault)) (noted fl m f) in
      elim (Bool-cases (
        ((is_request f.type && f.msg_id == motor_stop) && f.payload_len == 0)
        && can_clear_fault fl h)) [
          | inl e ↦ rw e (cleared-IsSafe h (ground arith) served)
          | inr e ↦ rw e served
        ]

  -- What one tick keeps of the sampled state: the inputs, the clock and whether the sensor is read.
  pub record SameSample (m m' : Mcu Float) : Type 0 where
    pub inputs : m'.inputs ≡ m.inputs
    pub now_ms : m'.hw.now_ms ≡ m.hw.now_ms
    pub temp_sensor_ok : m'.temp_sensor_ok ≡ m.temp_sensor_ok

  -- The receive loop ends, and keeps the invariant and the sample.
  pub serve_loop-IsSafe :
      (fuel : ℕ) (m : Mcu Float)
      → length m.hw.uart.rx < fuel
      → IsSafe m
      → (m' : Mcu Float) × (serve_loop fl fuel m ≡ some m') × IsSafe m' × SameSample m m'
  serve_loop-IsSafe fuel m h v =
      let (m', e) = serve_loop_total fl fuel m h in
      (
        m',
        e,
        serve_loop_inv fl IsSafe (λ p l u w. same_control-IsSafe _ refl refl refl refl w)
            serve-IsSafe _ m m' v e,
        serve_loop_inv fl (SameSample m)
            (λ p l u w. record {
              inputs = w.inputs;
              now_ms = w.now_ms;
              temp_sensor_ok = w.temp_sensor_ok;
            })
            (λ p f w.
              let s = serve-Serves fl p f in
              record {
                inputs = s.same_inputs ∙ w.inputs;
                now_ms = s.same_now ∙ w.now_ms;
                temp_sensor_ok = s.same_sensor ∙ w.temp_sensor_ok;
              })
            _ m m' (record { inputs = refl; now_ms = refl; temp_sensor_ok = refl }) e,
      )

  enter_fault-rx : (m : Mcu Float) (c : FaultCode) → (enter_fault fl m c).hw.uart.rx ≡ m.hw.uart.rx
  unfolding enter_fault publish_fault
  enter_fault-rx m c = refl

  -- The sensor check leaves a state in which the invariant holds, and the received bytes as they are.
  pub check_sensor-IsSafe :
      (m : Mcu Float)
      → IsSafe m
      → IsSafe (check_sensor fl m) × ((check_sensor fl m).hw.uart.rx ≡ m.hw.uart.rx)
  unfolding check_sensor sample_inputs
  check_sensor-IsSafe m v = elim (Bool-cases (is_ok m.hw.temperature.status)) [
    | inl e ↦ rw e (
      record {
        quiet = λ e.
            let q = v.quiet e in
            record {
              target_zero = q.target_zero;
              commanded_zero = q.commanded_zero;
              heater_disabled = q.heater_disabled;
            };
        bounded = v.bounded;
        legal = v.legal;
        sensor = λ e. cc;
      },
      refl,
    )
    | inr e ↦ elim (Bool-cases (is_sensor_failure m.fault)) [
      | inl f ↦
          rw (e, f)
            (
              record {
                quiet = λ e.
                    let q = v.quiet e in
                    record {
                      target_zero = q.target_zero;
                      commanded_zero = q.commanded_zero;
                      heater_disabled = q.heater_disabled;
                    };
                bounded = v.bounded;
                legal = v.legal;
                sensor = λ e. sensor_failure_only m.fault f;
              },
              refl,
            )
      | inr f ↦
          rw (e, f)
            (
              enter_fault-IsSafe _ sensor_failure v.bounded (λ e. refl),
              enter_fault-rx _ sensor_failure,
            )
    ]
  ]
