-- ===== src/Examples/Protocol.antt =====
-- The protocol on concrete frames, links and readings.
use mathlib.Core.List.{map}
use agentic_engineering_trai.Base.{◌≡◌, refl, [], ◌∷◌, ◌++◌, some, negsuc, arith, length}
use agentic_engineering_trai.Common.Crc16.{crc16_ccitt, crc_seed}
use agentic_engineering_trai.Hal.Uart.{Uart}
use agentic_engineering_trai.Protocol.Wire.{
  TelemetryData, request, response, ping, motor_set_target, encode_telemetry,
  telemetry_payload_size,
}
use agentic_engineering_trai.Protocol.Wire.Fields.{decode_telemetry, decode-encode_telemetry}
use agentic_engineering_trai.Protocol.FrameWriter.{frame_bytes}
use agentic_engineering_trai.Protocol.FrameParser.{new_parser, receive}
use agentic_engineering_trai.Protocol.FrameParser.Stream.{
  IsIdle, Message, message_of, stream_bytes, receive-stream,
}
use agentic_engineering_trai.Protocol.Link.{Link, new_link, send}
use agentic_engineering_trai.Protocol.Link.Transmit
use agentic_engineering_trai.Protocol.Link.Transmit.{new_link-IsValid}
use agentic_engineering_trai.Protocol.Link.Send.{Sends, send_status, sent_bytes, send_lem}

-- The check value of CRC-16/CCITT-FALSE.
crc_check :
    crc16_ccitt (0x31 ∷ 0x32 ∷ 0x33 ∷ 0x34 ∷ 0x35 ∷ 0x36 ∷ 0x37 ∷ 0x38 ∷ 0x39 ∷ []) crc_seed
    ≡ 0x29B1
unfolding crc16_ccitt
crc_check = refl

abbrev idle : IsIdle new_parser
idle = record { idle_state = refl; idle_crc = refl; idle_array = refl }

abbrev hello : Message
hello = record { type = request; seq = 1; msg_id = ping; body = [] }

abbrev speed : Message
speed = record {
  type = request;
  seq = 2;
  msg_id = motor_set_target;
  body = 0x2C ∷ 0x01 ∷ 0x02 ∷ [];
}

receive-stream_example :
    (map message_of (receive new_parser (stream_bytes (hello ∷ speed ∷ []))).1 ≡ hello ∷ speed ∷ [])
    × IsIdle (receive new_parser (stream_bytes (hello ∷ speed ∷ []))).0
receive-stream_example =
    receive-stream (hello ∷ speed ∷ []) new_parser (omega arith, (omega arith, tt)) idle

abbrev reading : TelemetryData
reading = record {
  tick = 70000;
  deci_celsius = negsuc 4;
  rpm = 500;
  grams = negsuc 1199;
  flags = 5;
}

decode-encode_telemetry_example :
    (decode_telemetry (encode_telemetry reading ++ 9 ∷ []) ≡ reading)
    × (length (encode_telemetry reading) ≡ telemetry_payload_size)
decode-encode_telemetry_example = decode-encode_telemetry reading (9 ∷ []) (ground arith)

abbrev uart : Uart
uart = record { rx = frame_bytes request 1 ping [] 0; accepts = 4 ∷ 0 ∷ 100 ∷ []; wire = [] }

-- A link with three bytes queued.
abbrev queued : Link
queued = record new_link { tx_size = 3 }

send_lem_example :
    ((send new_link uart response 1 ping (some (7 ∷ [])) 1).2
      ≡ send_status new_link (some (7 ∷ [])) 1)
    × Sends new_link uart
        (sent_bytes (send_status new_link (some (7 ∷ [])) 1) response 1 ping (7 ∷ []) 1)
        (send new_link uart response 1 ping (some (7 ∷ [])) 1)
send_lem_example =
    send_lem new_link uart response 1 ping (some (7 ∷ [])) 1 new_link-IsValid (λ e. omega arith)
