-- ===== src/Mcu/Telemetry.antt =====
-- mcu/telemetry_publisher.cpp.
use agentic_engineering_trai.Base.{ℕ, ◌+◌, [], ◌∷◌, not, some, u8, sub_u32, ltb, if◌then◌else◌}
use agentic_engineering_trai.Common.Status.{is_ok}
use agentic_engineering_trai.Protocol.Wire.{
  FaultCode, no_fault, is_no_fault, fault_code, TelemetryData, telemetry, telemetry_msg, fault_msg,
  telemetry_payload_size, encode_telemetry,
}
use agentic_engineering_trai.Mcu.Device.{Mcu, send_frame}

abbrev pub period_ms : ℕ
period_ms = 10

module _ {Float : Type 0} where
  -- The periodic part of `maybe_publish`.
  unfoldable pub publish_sample : Mcu Float → TelemetryData → Mcu Float
  publish_sample m t =
      if ltb (sub_u32 m.hw.now_ms m.telemetry.last_publish_ms) period_ms
      then m
      else (let (m', status) =
            send_frame m telemetry m.telemetry.seq telemetry_msg (some (encode_telemetry t))
              telemetry_payload_size in
          if is_ok status
          then record m' {
            telemetry = record m'.telemetry {
              seq = u8 (m'.telemetry.seq + 1);
              last_publish_ms = m.hw.now_ms;
            };
          }
          else m')

  unfoldable pub maybe_publish : Mcu Float → TelemetryData → Mcu Float
  maybe_publish m t =
      if is_no_fault m.telemetry.pending_fault
      then publish_sample m t
      else (let (m', status) =
            send_frame m telemetry m.telemetry.seq fault_msg
              (some (fault_code m.telemetry.pending_fault ∷ [])) 1 in
          if not (is_ok status)
          then m'
          else publish_sample
              (record m' {
                telemetry = record m'.telemetry {
                  seq = u8 (m'.telemetry.seq + 1);
                  pending_fault = no_fault;
                };
              })
              t)

  unfoldable pub publish_fault : Mcu Float → FaultCode → Mcu Float
  publish_fault m code = record m { telemetry = record m.telemetry { pending_fault = code } }
