-- ===== src/Mcu/Device.antt =====
-- The state of the safety MCU and of the devices around it, shared by the command handler, the
-- telemetry publisher and the control tick, as in the source they share pointers.
use agentic_engineering_trai.Base.{ℕ, List, [], ◌∷◌, Bool, ℤ, pos, Option}
use agentic_engineering_trai.Common.Status.{Status, Result, not_ready}
use agentic_engineering_trai.Hal.Uart.{Uart}
use agentic_engineering_trai.Sim.Lid.{LidModel}
use agentic_engineering_trai.Protocol.Wire.{FrameType, FaultCode, no_fault, MsgId}
use agentic_engineering_trai.Protocol.Link.{Link, send}
use agentic_engineering_trai.Mcu.Interlocks.{Inputs}
use agentic_engineering_trai.Mcu.MotorController.{MotorController}
use agentic_engineering_trai.Mcu.HeaterPid.{HeaterPid}

-- What the hardware shows during one tick: the clock in milliseconds, the temperature reading, the
-- measured speed and the stall signal, the readings that the scale will give in order (a failure
-- behind the last), the lid, the UART, and the power last set at the heater.
pub record Hardware (Float : Type 0) : Type 0 where
  pub now_ms : ℕ
  pub temperature : Result ℤ
  pub rpm : ℕ
  pub stalled : Bool
  pub scale : List (Result ℤ)
  pub lid : LidModel
  pub uart : Uart
  pub power_w : Float

abbrev pub next_reading : List (Result ℤ) → Result ℤ
next_reading [] = record { status = not_ready; value = pos 0 }
next_reading (r ∷ rs) = r

abbrev pub later_readings : List (Result ℤ) → List (Result ℤ)
later_readings [] = []
later_readings (r ∷ rs) = rs

-- mcu/telemetry_publisher.h
pub record TelemetryPublisher : Type 0 where
  pub last_publish_ms : ℕ
  pub seq : ℕ
  pub pending_fault : FaultCode

abbrev pub new_publisher : TelemetryPublisher
new_publisher = record { last_publish_ms = 0; seq = 0; pending_fault = no_fault }

-- `SafetyMcu` with the handler's tare offset, and the hardware.
pub record Mcu (Float : Type 0) : Type 0 where
  pub hw : Hardware Float
  pub link : Link
  pub motor : MotorController Float
  pub pid : HeaterPid Float
  pub tare_offset_counts : ℤ
  pub telemetry : TelemetryPublisher
  pub inputs : Inputs Float
  pub fault : FaultCode
  pub tick_count : ℕ
  pub last_valid_frame_ms : ℕ
  pub temp_sensor_ok : Bool

-- `link_->send(...)` on the MCU's own link and UART.
module _ {Float : Type 0} where
  unfoldable pub send_frame :
      Mcu Float → FrameType → ℕ → MsgId → Option (List ℕ) → ℕ → Mcu Float × Status
  send_frame m type seq msg_id payload payload_len =
      let (link, uart, status) = send m.link m.hw.uart type seq msg_id payload payload_len in
      (record m { link = link; hw = record m.hw { uart = uart } }, status)
