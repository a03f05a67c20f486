-- ===== src/Protocol/FrameParser.antt =====
-- protocol/frame_parser.cpp: the incremental parser, one byte at a time.
pub mod Invariant
pub mod Header
pub mod Payload
pub mod Stream
use agentic_engineering_trai.Base.{
  ℕ, ◌+◌, ◌*◌, ◌^◌, List, [], ◌∷◌, Bool, true, false, not, ◌||◌, Option, none, some, bit_and,
  bit_or, u16, ltb, ◌==◌, if◌then◌else◌, set,
}
use agentic_engineering_trai.Common.Crc16.{crc16_ccitt, crc_seed}
use agentic_engineering_trai.Protocol.Wire.{
  Frame, type_of_code, sync_0, sync_1, protocol_version, max_payload, empty_frame,
}

pub data State : Type 0 where
  sync0 sync1 version type seq msg_id len_lo len_hi payload crc_lo crc_hi : State

pub record FrameParser : Type 0 where
  pub state : State
  pub frame : Frame
  pub expected_len : ℕ
  pub received : ℕ
  pub crc_low : ℕ
  pub running_crc : ℕ

abbrev pub new_parser : FrameParser
new_parser = record {
  state = sync0;
  frame = empty_frame;
  expected_len = 0;
  received = 0;
  crc_low = 0;
  running_crc = crc_seed;
}

abbrev pub is_sync0 : State → Bool
is_sync0 sync0 = true
is_sync0 _ = false

unfoldable pub in_progress : FrameParser → Bool
in_progress p = not (is_sync0 p.state)

unfoldable pub reset : FrameParser → FrameParser
reset p = record p { state = sync0; expected_len = 0; received = 0; running_crc = crc_seed }

unfoldable pub resync : FrameParser → ℕ → FrameParser
unfolding reset
resync p byte = if byte == sync_0 then record (reset p) { state = sync1 } else reset p

-- The states whose byte is under the CRC.
abbrev pub is_covered : State → Bool
is_covered sync0 = false
is_covered sync1 = false
is_covered crc_lo = false
is_covered crc_hi = false
is_covered _ = true

-- The `switch` of `feed`. `has_out` is `out != nullptr`; the option is what is stored in `*out`
-- when the call returns true.
unfoldable pub dispatch : State → Bool → FrameParser → ℕ → FrameParser × Option Frame
unfolding resync
dispatch sync0 has_out p byte = (if byte == sync_0 then record p { state = sync1 } else p, none)
dispatch sync1 has_out p byte = (
  record p { state = if byte == sync_1 then version else if byte == sync_0 then sync1 else sync0 },
  none,
)
dispatch version has_out p byte = (
  if not (bit_and byte 0xF0 == bit_and protocol_version 0xF0)
      then resync p byte
      else record p { state = type },
  none,
)
dispatch type has_out p byte = (
  if ltb byte 0x01 || ltb 0x04 byte
      then resync p byte
      else record p { frame = record p.frame { type = type_of_code byte }; state = seq },
  none,
)
dispatch seq has_out p byte =
    (record p { frame = record p.frame { seq = byte }; state = msg_id }, none)
dispatch msg_id has_out p byte =
    (record p { frame = record p.frame { msg_id = byte }; state = len_lo }, none)
dispatch len_lo has_out p byte = (record p { expected_len = byte; state = len_hi }, none)
dispatch len_hi has_out p byte =
    let len = u16 (bit_or p.expected_len (u16 (byte * 2 ^ 8))) in
    (
      if ltb max_payload len then resync (record p { expected_len = len }) byte else record p {
        expected_len = len;
        received = 0;
        state = if len == 0 then crc_lo else payload;
      },
      none,
    )
dispatch payload has_out p byte =
    let array =
      if ltb p.received max_payload then set p.frame.payload p.received byte else p.frame.payload in
    let count = u16 (p.received + 1) in
    (
      record p {
        frame = record p.frame { payload = array };
        received = count;
        state = if count == p.expected_len then crc_lo else payload;
      },
      none,
    )
dispatch crc_lo has_out p byte = (record p { crc_low = byte; state = crc_hi }, none)
dispatch crc_hi has_out p byte =
    let done = record p.frame { payload_len = p.expected_len } in
    if not (p.running_crc == u16 (bit_or p.crc_low (u16 (byte * 2 ^ 8))))
    then (resync p byte, none)
    else (reset (record p { frame = done }), if has_out then some done else none)

unfoldable pub feed : Bool → FrameParser → ℕ → FrameParser × Option Frame
unfolding dispatch
feed has_out p byte =
    dispatch p.state has_out
      (if is_covered p.state
        then record p { running_crc = crc16_ccitt (byte ∷ []) p.running_crc }
        else p)
      byte

abbrev pub push_front {ℓ} : {A : Type ℓ} → Option A → List A → List A
push_front none xs = xs
push_front (some x) xs = x ∷ xs

-- A receiver that feeds every byte and keeps the frames that come out, in order.
unfoldable pub receive : FrameParser → List ℕ → FrameParser × List Frame
receive p [] = (p, [])
receive p (byte ∷ bytes) =
    let (q, out) = feed true p byte in
    let (r, frames) = receive q bytes in (r, push_front out frames)
