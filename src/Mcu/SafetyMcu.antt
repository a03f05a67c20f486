-- ===== src/Mcu/SafetyMcu.antt =====
-- mcu/safety_mcu.cpp: the control tick. The hardware of the tick stands in the state; `now_ms`,
-- the readings and the received bytes are those of this tick.
pub mod Handlers
pub mod Serving
pub mod Loop
pub mod Control
pub mod Gates
pub mod Outputs
pub mod Tick
pub mod Sampling
pub mod Requests
pub mod Reach
use agentic_engineering_trai.Base.{
  ℕ, zero, suc, ◌+◌, Bool, true, false, not, ◌&&◌, ◌||◌, Option, none, some, pos, leb, ◌==◌,
  if◌then◌else◌, bit_or, u32, sub_u32, length,
}
use agentic_engineering_trai.Common.Status.{is_ok}
use agentic_engineering_trai.Common.Floats.{Floats, of_nat, from_celsius}
use agentic_engineering_trai.Protocol.Wire.{
  Frame, FaultCode, no_fault, overtemp, motor_stall, sensor_failure, link_lost, is_no_fault,
  is_request, motor_stop, flag_lid_closed, flag_lid_locked, flag_heater_on, flag_motor_stalled,
}
use agentic_engineering_trai.Protocol.Link.{new_link, poll}
use agentic_engineering_trai.Mcu.Limits.{overtemp_cutoff_c, link_timeout_ms}
use agentic_engineering_trai.Mcu.Interlocks.{Inputs, new_inputs, evaluate, continuous_cap}
use agentic_engineering_trai.Mcu.MotorController
use agentic_engineering_trai.Mcu.HeaterPid
use agentic_engineering_trai.Mcu.HeaterPid.{to_celsius}
use agentic_engineering_trai.Mcu.Device.{Hardware, Mcu, new_publisher}
use agentic_engineering_trai.Mcu.CommandHandler.{handle, current_grams}
use agentic_engineering_trai.Mcu.Telemetry.{maybe_publish, publish_fault}

abbrev pub is_sensor_failure : FaultCode → Bool
is_sensor_failure sensor_failure = true
is_sensor_failure _ = false

module _ (fl : Floats) where
  open fl use {Float, lt, mul, ratio, trunc}

  -- The constructor, on hardware in the state `hw`.
  abbrev pub new_mcu : Hardware Float → Mcu Float
  new_mcu hw = record {
    hw = hw;
    link = new_link;
    motor = MotorController.new_motor fl;
    pid = HeaterPid.new_pid fl;
    tare_offset_counts = pos 0;
    telemetry = new_publisher;
    inputs = new_inputs fl;
    fault = no_fault;
    tick_count = 0;
    last_valid_frame_ms = hw.now_ms;
    temp_sensor_ok = true;
  }

  unfoldable pub sample_inputs : Mcu Float → Mcu Float × Bool
  sample_inputs m =
      let m' : Mcu Float = record m { temp_sensor_ok = is_ok m.hw.temperature.status } in
      if not (is_ok m.hw.temperature.status) then (m', false) else (
        record m' {
          inputs = record {
            temp_c = to_celsius fl m.hw.temperature.value;
            rpm = m.hw.rpm;
            lid_closed = m.hw.lid.closed;
            lid_locked = m.hw.lid.locked;
            motor_stalled = m.hw.stalled;
          };
        },
        true,
      )

  unfoldable pub enter_fault : Mcu Float → FaultCode → Mcu Float
  enter_fault m code =
      publish_fault
        (record m {
          fault = code;
          motor = MotorController.stop fl m.motor;
          pid = HeaterPid.disable fl m.pid;
          hw = record m.hw { power_w = of_nat fl 0 };
        })
        code

  abbrev pub clears : FaultCode → Mcu Float → Bool
  clears no_fault m = true
  clears link_lost m = true
  clears motor_stall m = true
  clears sensor_failure m = m.temp_sensor_ok
  clears overtemp m = lt m.inputs.temp_c (of_nat fl overtemp_cutoff_c)

  unfoldable pub can_clear_fault : Mcu Float → Bool
  can_clear_fault m = clears m.fault m

  -- One round of the receive loop, with the frame that `poll` gave.
  unfoldable pub serve : Mcu Float → Frame → Mcu Float
  serve m frame =
      let m₁ : Mcu Float =
        if is_request frame.type then record m { last_valid_frame_ms = m.hw.now_ms } else m in
      let m₂ = handle fl frame m₁.inputs (not (is_no_fault m₁.fault)) m₁ in
      if ((is_request frame.type && frame.msg_id == motor_stop) && frame.payload_len == 0)
        && can_clear_fault m₂
      then record m₂ { fault = no_fault }
      else m₂

  -- The receive loop, with fuel; none means that the fuel ran out.
  unfoldable pub serve_loop : ℕ → Mcu Float → Option (Mcu Float)
  serve_loop zero m = none
  serve_loop (suc fuel) m =
      let (link, uart, out) = poll m.link m.hw.uart m.hw.now_ms in
      let m' : Mcu Float = record m { link = link; hw = record m.hw { uart = uart } } in
      elim out [ none ↦ some m' | some frame ↦ serve_loop fuel (serve m' frame) ]

  unfoldable pub check_sensor : Mcu Float → Mcu Float
  check_sensor m =
      let (m', sampled) = sample_inputs m in
      if not sampled && not (is_sensor_failure m'.fault) then enter_fault m' sensor_failure else m'

  unfoldable pub check_interlocks : Mcu Float → Mcu Float
  check_interlocks m =
      let tripped = evaluate fl m.inputs in
      if is_no_fault m.fault && not (is_no_fault tripped) then enter_fault m tripped else m

  unfoldable pub check_link : Mcu Float → Mcu Float
  check_link m =
      if (is_no_fault m.fault && (MotorController.active fl m.motor || m.pid.enabled))
        && leb link_timeout_ms (sub_u32 m.hw.now_ms m.last_valid_frame_ms)
      then enter_fault m link_lost
      else m

  unfoldable pub enforce_cap : Mcu Float → Mcu Float
  enforce_cap m = record m {
    motor = MotorController.enforce_cap fl m.motor (continuous_cap fl m.inputs);
  }

  -- The heater, and the watts that it is given.
  unfoldable pub drive_heater : Mcu Float → Mcu Float × Float
  drive_heater m =
      let (pid, watts) =
        if (is_no_fault m.fault && m.pid.enabled) && m.inputs.lid_closed
        then HeaterPid.update fl m.pid m.inputs.temp_c (ratio (pos 1) 1000)
        else (m.pid, of_nat fl 0) in
      (record m { pid = pid; hw = record m.hw { power_w = watts } }, watts)

  unfoldable pub drive_motor : Mcu Float → Mcu Float
  drive_motor m = record m { motor = MotorController.tick_1ms fl m.motor }

  unfoldable pub flags_of : Inputs Float → Float → ℕ
  flags_of i watts =
      bit_or
        (bit_or
          (bit_or (if i.lid_closed then flag_lid_closed else 0)
            (if i.lid_locked then flag_lid_locked else 0))
          (if lt (of_nat fl 0) watts then flag_heater_on else 0))
        (if i.motor_stalled then flag_motor_stalled else 0)

  unfoldable pub report : Mcu Float → Float → Mcu Float
  report m watts =
      let (m', grams) = current_grams fl m in
      maybe_publish m' (record {
        tick = m.tick_count;
        deci_celsius = from_celsius fl m.inputs.temp_c;
        rpm = m.inputs.rpm;
        grams = grams;
        flags = flags_of m.inputs watts;
      })

  -- The part of the tick behind the receive loop.
  unfoldable pub control : Mcu Float → Mcu Float
  control m =
      let m' = enforce_cap (check_link (check_interlocks m)) in
      let (m'', watts) = drive_heater m' in report (drive_motor m'') watts

  abbrev pub map_mcu : (Mcu Float → Mcu Float) → Option (Mcu Float) → Option (Mcu Float)
  map_mcu f none = none
  map_mcu f (some m) = some (f m)

  unfoldable pub tick_1ms : Mcu Float → Option (Mcu Float)
  tick_1ms m =
      let m' = check_sensor (record m { tick_count = u32 (m.tick_count + 1) }) in
      map_mcu control (serve_loop (suc (length m.hw.uart.rx)) m')
