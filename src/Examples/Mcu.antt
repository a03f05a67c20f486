-- ===== src/Examples/Mcu.antt =====
-- The safety MCU on a concrete bench, with tenths for the floating-point numbers.
use agentic_engineering_trai.Base.{
  ℕ, ◌<◌, ◌≡◌, refl, [], ◌∷◌, ◌&&◌, true, false, min, some, pos, arith, ◌==◌, if◌then◌else◌,
}
use agentic_engineering_trai.Common.Status.{ok}
use agentic_engineering_trai.Common.Floats.{tenths, tenths-FloatLaws}
use agentic_engineering_trai.Sim.Lid.{set_lock}
use agentic_engineering_trai.Protocol.Wire.{
  Frame, no_fault, overtemp, request, motor_stop, motor_set_target, heater_set_target, lid_unlock,
  is_request, empty_frame,
}
use agentic_engineering_trai.Protocol.FrameWriter.{frame_bytes, length-frame_bytes}
use agentic_engineering_trai.Mcu.Limits.{unlock_max_rpm}
use agentic_engineering_trai.Mcu.Interlocks.{
  new_inputs, clamp_speed_request, continuous_cap, clamp_speed_request_lem,
}
use agentic_engineering_trai.Mcu.MotorController.{new_motor, burst}
use agentic_engineering_trai.Mcu.MotorController.Bounds.{new_motor-IsBounded, burst-IsBounded}
use agentic_engineering_trai.Mcu.MotorController.Driven.{Driven, driven, driven-Driven}
use agentic_engineering_trai.Mcu.Device.{Hardware, Mcu, send_frame}
use agentic_engineering_trai.Mcu.CommandHandler.{handle, run_entry, handle_lid_unlock, respond}
use agentic_engineering_trai.Mcu.SafetyMcu.{new_mcu, serve, check_sensor, serve_loop}
use agentic_engineering_trai.Mcu.SafetyMcu.Loop.{serve_loop_total}
use agentic_engineering_trai.Mcu.SafetyMcu.Serving.{IsLegalTarget, handle-IsLegalTarget}
use agentic_engineering_trai.Mcu.SafetyMcu.Tick.{IsControlled, IsSampled}
use agentic_engineering_trai.Mcu.SafetyMcu.Sampling.{is_gone, sampled}
use agentic_engineering_trai.Mcu.SafetyMcu.Requests.{serve-fault, handle-lid_locked}
use agentic_engineering_trai.Mcu.SafetyMcu.Reach.{starts, tick_on, reachable-IsControlled}

-- A closed and locked lid at 21.5 degrees, and a request for 700 rpm on the UART.
abbrev bench : Hardware ℕ
bench = record {
  now_ms = 40;
  temperature = record { status = ok; value = pos 215 };
  rpm = 0;
  stalled = false;
  scale = record { status = ok; value = pos 1200 } ∷ [];
  lid = record { closed = true; locked = true };
  uart = record {
    rx = frame_bytes request 1 motor_set_target (0xBC ∷ 0x02 ∷ 0x02 ∷ []) 3;
    accepts = 100 ∷ 100 ∷ [];
    wire = [];
  };
  power_w = 0;
}

abbrev pub started : Mcu ℕ
started = new_mcu tenths bench

reachable-IsControlled_example :
    (m' : Mcu ℕ) × (tick_on tenths started bench ≡ some m')
    × IsControlled tenths tenths-FloatLaws m'
    × IsSampled tenths tenths-FloatLaws started m'
reachable-IsControlled_example =
    reachable-IsControlled tenths tenths-FloatLaws started bench (starts bench)

serve_loop_total_example : (m' : Mcu ℕ) × (serve_loop tenths 100 started ≡ some m')
serve_loop_total_example = serve_loop_total tenths 100 started (
    omega (
      arith,
      length-frame_bytes request 1 motor_set_target (0xBC ∷ 0x02 ∷ 0x02 ∷ []) 3 (omega arith),
    ))

abbrev stop_request : Frame
stop_request = record empty_frame { msg_id = motor_stop }

abbrev unlock_request : Frame
unlock_request = record empty_frame { msg_id = lid_unlock }

-- A fault of the temperature, which has fallen to 21.5 degrees.
abbrev cooled : Mcu ℕ
cooled = record started { fault = overtemp; inputs = record (new_inputs tenths) { temp_c = 215 } }

serve-fault_example : (serve tenths (check_sensor tenths cooled) stop_request).fault ≡ (
    if ((is_request request && motor_stop == motor_stop) && 0 == 0)
      && is_gone tenths (check_sensor tenths cooled).fault cooled.hw
    then no_fault
    else (check_sensor tenths cooled).fault)
serve-fault_example = serve-fault tenths cooled (check_sensor tenths cooled) stop_request sampled

unlocked : (handle tenths unlock_request (new_inputs tenths) false started).hw.lid.locked ≡ false
unfolding handle run_entry handle_lid_unlock respond send_frame set_lock
unlocked = refl

handle-lid_locked_example :
    (unlock_request.msg_id ≡ lid_unlock)
    × (unlock_request.payload_len ≡ 0)
    × ((new_inputs tenths).rpm < unlock_max_rpm)
    × (false ≡ false)
handle-lid_locked_example =
    handle-lid_locked tenths unlock_request (new_inputs tenths) started false refl unlocked

abbrev heat_request : Frame
heat_request = record empty_frame {
  msg_id = heater_set_target;
  payload_len = 2;
  payload = 0x58 ∷ 0x02 ∷ [];
}

handle-IsLegalTarget_example :
    IsLegalTarget (handle tenths heat_request (new_inputs tenths) false started).pid
handle-IsLegalTarget_example =
    handle-IsLegalTarget tenths heat_request (new_inputs tenths) started false (λ e. cc)

-- A burst to 10700 rpm, cut to the cap of an open lid.
driven-Driven_example :
    Driven tenths tenths-FloatLaws
      (burst tenths (new_motor tenths) 10700)
      500
      (driven tenths tenths-FloatLaws (burst tenths (new_motor tenths) 10700) 500)
driven-Driven_example =
    driven-Driven tenths tenths-FloatLaws 500 (omega arith)
      (burst-IsBounded tenths tenths-FloatLaws 10700 (new_motor-IsBounded tenths tenths-FloatLaws))

clamp_speed_request_lem_example :
    clamp_speed_request tenths 9000 (new_inputs tenths)
    ≡ min 9000 (continuous_cap tenths (new_inputs tenths))
clamp_speed_request_lem_example =
    clamp_speed_request_lem tenths 9000 (new_inputs tenths) (omega arith)
