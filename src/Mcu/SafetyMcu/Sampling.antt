-- ===== src/Mcu/SafetyMcu/Sampling.antt =====
-- What the sampling of a tick decides for the receive loop behind it: whether a fault can end.
use agentic_engineering_trai.Base.{
  ◌≡◌, refl, sym, ap, ◌∙◌, Bool, true, false, not, ◌&&◌, inl, inr, arith, ◌==◌, if◌then◌else◌,
  Bool-cases,
}
use agentic_engineering_trai.Common.Floats.{Floats, of_nat}
use agentic_engineering_trai.Protocol.Wire.{
  Frame, FaultCode, no_fault, overtemp, motor_stall, sensor_failure, link_lost, is_no_fault,
  is_request, motor_stop,
}
use agentic_engineering_trai.Mcu.Limits.{overtemp_cutoff_c}
use agentic_engineering_trai.Mcu.Interlocks.{Inputs}
use agentic_engineering_trai.Mcu.Device.{Hardware, Mcu}
use agentic_engineering_trai.Mcu.CommandHandler.{handle}
use agentic_engineering_trai.Mcu.HeaterPid.{to_celsius}
use agentic_engineering_trai.Common.Status.{is_ok}
use agentic_engineering_trai.Hal.Uart.{Uart}
use agentic_engineering_trai.Mcu.Telemetry.{publish_fault}
use agentic_engineering_trai.Protocol.Link.{Link}
use agentic_engineering_trai.Mcu.SafetyMcu.{
  is_sensor_failure, clears, can_clear_fault, check_sensor, sample_inputs, enter_fault, serve,
}
use agentic_engineering_trai.Mcu.SafetyMcu.Handlers.{Kept}
use agentic_engineering_trai.Mcu.SafetyMcu.Serving.{handle-Kept}
use agentic_engineering_trai.Mcu.SafetyMcu.Loop.{noted, serve-Serves}

is_sensor_failure-eq : (c : FaultCode) → is_sensor_failure c ≡ true → c ≡ sensor_failure
is_sensor_failure-eq c h = ground arith

module _ (fl : Floats) where
  open fl use {Float, lt}

  clears-same :
      (c : FaultCode) (m m' : Mcu Float)
      → m'.temp_sensor_ok ≡ m.temp_sensor_ok
      → m'.inputs ≡ m.inputs
      → clears fl c m' ≡ clears fl c m
  clears-same no_fault m m' e f = refl
  clears-same link_lost m m' e f = refl
  clears-same motor_stall m m' e f = refl
  clears-same sensor_failure m m' e f = e
  clears-same overtemp m m' e f = ap (λ i. lt i.temp_c (of_nat fl overtemp_cutoff_c)) f

  can_clear-Kept :
      (r : Frame) (s : Inputs Float) (m m' : Mcu Float)
      → Kept fl r s m m'
      → can_clear_fault fl m' ≡ can_clear_fault fl m
  unfolding can_clear_fault
  can_clear-Kept r s m m' k =
      ap (λ c. clears fl c m') k.fault ∙ clears-same m.fault m m' k.temp_sensor_ok k.inputs

  noted-same :
      (m : Mcu Float) (f : Frame)
      → (can_clear_fault fl (noted fl m f) ≡ can_clear_fault fl m)
        × ((noted fl m f).fault ≡ m.fault)
  unfolding can_clear_fault
  noted-same m f = elim (Bool-cases (is_request f.type)) [
    | inl e ↦ rw e (clears-same m.fault m _ refl refl, refl)
    | inr e ↦ rw e (refl, refl)
  ]

  -- The same by the test of the source.
  pub serve_fault :
      (m : Mcu Float) (f : Frame)
      → (serve fl m f).fault ≡ (
          if ((is_request f.type && f.msg_id == motor_stop) && f.payload_len == 0)
            && can_clear_fault fl m
          then no_fault
          else m.fault)
  unfolding serve
  serve_fault m f =
      let p = noted fl m f in
      let q = handle fl f p.inputs (not (is_no_fault p.fault)) p in
      let k = handle-Kept fl f p.inputs p (not (is_no_fault p.fault)) in
      let (same, kept) = noted-same m f in
      let same' = can_clear-Kept f p.inputs p q k in
      let guard = (is_request f.type && f.msg_id == motor_stop) && f.payload_len == 0 in
      elim (Bool-cases (guard && can_clear_fault fl m)) [
        | inl e ↦ rw (same', same, e) refl
        | inr e ↦ rw (same', same, e) (k.fault ∙ kept)
      ]

  -- Whether the cause of a fault is gone, by what the temperature sensor of this tick shows: a reading
  -- below 165 degrees, or any reading.
  abbrev pub is_gone : FaultCode → Hardware Float → Bool
  is_gone overtemp hw = lt (to_celsius fl hw.temperature.value) (of_nat fl 165)
  is_gone sensor_failure hw = is_ok hw.temperature.status
  is_gone _ hw = true

  -- The states in the receive loop of a tick: it starts behind the sampling of the sensors, takes bytes from
  -- the UART, and serves frames.
  pub data InTick (m : Mcu Float) : Mcu Float → Type 0 where
    sampled : InTick m (check_sensor fl m)
    polled :
        {p : Mcu Float} (link : Link) (uart : Uart)
        → InTick m p
        → InTick m (record p { link = link; hw = record p.hw { uart = uart } })
    served : {p : Mcu Float} (f : Frame) → InTick m p → InTick m (serve fl p f)

  pub record Sampled (hw : Hardware Float) (p : Mcu Float) : Type 0 where
    status : p.temp_sensor_ok ≡ is_ok hw.temperature.status
    reading :
        is_ok hw.temperature.status ≡ true → p.inputs.temp_c ≡ to_celsius fl hw.temperature.value
    blind : is_ok hw.temperature.status ≡ false → p.fault ≡ sensor_failure

  check_sensor-Sampled : (m : Mcu Float) → Sampled m.hw (check_sensor fl m)
  unfolding check_sensor sample_inputs enter_fault publish_fault
  check_sensor-Sampled m = elim (Bool-cases (is_ok m.hw.temperature.status)) [
    | inl e ↦ rw e (record { status = sym e; reading = λ h. refl; blind = λ h. cc (e, h) })
    | inr e ↦ elim (Bool-cases (is_sensor_failure m.fault)) [
      | inl f ↦
          rw (e, f)
            (record {
              status = sym e;
              reading = λ h. cc (e, h);
              blind = λ h. is_sensor_failure-eq m.fault f;
            })
      | inr f ↦ rw (e, f) (record { status = sym e; reading = λ h. cc (e, h); blind = λ h. refl })
    ]
  ]

  clears-is_gone :
      (hw : Hardware Float) (p : Mcu Float) (c : FaultCode)
      → Sampled hw p
      → p.fault ≡ c
      → clears fl c p ≡ is_gone c hw
  clears-is_gone hw p no_fault s e = refl
  clears-is_gone hw p link_lost s e = refl
  clears-is_gone hw p motor_stall s e = refl
  clears-is_gone hw p sensor_failure s e = s.status
  clears-is_gone hw p overtemp s e = elim (Bool-cases (is_ok hw.temperature.status)) [
    | inl h ↦ ap (λ t. lt t (of_nat fl 165)) (s.reading h)
    | inr h ↦ absurd (cc (e, s.blind h))
  ]

  pub can_clear_fault-is_gone :
      (hw : Hardware Float) (p : Mcu Float)
      → Sampled hw p
      → can_clear_fault fl p ≡ is_gone p.fault hw
  unfolding can_clear_fault
  can_clear_fault-is_gone hw p s = clears-is_gone hw p p.fault s refl

  blind_stays :
      (hw : Hardware Float) (p : Mcu Float) (f : Frame)
      → Sampled hw p
      → is_ok hw.temperature.status ≡ false
      → (serve fl p f).fault ≡ sensor_failure
  unfolding can_clear_fault
  blind_stays hw p f s h =
      let fault = s.blind h in
      let stuck : can_clear_fault fl p ≡ false = rw fault (s.status ∙ h) in
      ground (arith, serve_fault p f, stuck, fault)

  serve-Sampled :
      (hw : Hardware Float) (p : Mcu Float) (f : Frame) → Sampled hw p → Sampled hw (serve fl p f)
  serve-Sampled hw p f s =
      let k = serve-Serves fl p f in
      record {
        status = k.same_sensor ∙ s.status;
        reading = λ h. ap (λ i. i.temp_c) k.same_inputs ∙ s.reading h;
        blind = blind_stays hw p f s;
      }

  pub InTick-Sampled : (m : Mcu Float) {p : Mcu Float} → InTick m p → Sampled m.hw p
  InTick-Sampled m sampled = check_sensor-Sampled m
  InTick-Sampled m (polled link uart h) =
      let s = InTick-Sampled m h in
      record { status = s.status; reading = s.reading; blind = s.blind }
  InTick-Sampled m (served {p} f h) = serve-Sampled m.hw p f (InTick-Sampled m h)
