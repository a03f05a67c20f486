-- ===== src/Protocol/FrameWriter.antt =====
-- protocol/frame_writer.cpp. The result is the list of the bytes written at `out`; its length is
-- the number that the function returns.
use agentic_engineering_trai.Base.{
  ℕ, ◌+◌, ◌≤◌, ◌≡◌, List, [], ◌∷◌, ◌++◌, ◌||◌, arith, ltb, if◌then◌else◌, length, take,
  length-append, length-take,
}
use agentic_engineering_trai.Common.Crc16.{crc16_ccitt, crc_seed}
use agentic_engineering_trai.Protocol.Wire.{
  FrameType, MsgId, type_code, sync_0, sync_1, protocol_version, max_payload, header_size, crc_size,
  put_u16,
}

-- The bytes under the CRC: version to payload.
unfoldable pub covered_bytes : FrameType → ℕ → MsgId → List ℕ → ℕ → List ℕ
covered_bytes type seq msg_id payload payload_len =
    protocol_version ∷ type_code type ∷ seq ∷ msg_id ∷ put_u16 payload_len
    ++ take payload_len payload

unfoldable pub frame_bytes : FrameType → ℕ → MsgId → List ℕ → ℕ → List ℕ
unfolding covered_bytes
frame_bytes type seq msg_id payload payload_len =
    let covered = covered_bytes type seq msg_id payload payload_len in
    sync_0 ∷ sync_1 ∷ (covered ++ put_u16 (crc16_ccitt covered crc_seed))

unfoldable pub write_frame : ℕ → FrameType → ℕ → MsgId → List ℕ → ℕ → List ℕ
unfolding frame_bytes
write_frame out_cap type seq msg_id payload payload_len =
    if ltb max_payload payload_len || ltb out_cap (header_size + payload_len + crc_size)
    then []
    else frame_bytes type seq msg_id payload payload_len

pub length-frame_bytes :
    (type : FrameType) (seq : ℕ) (msg_id : MsgId) (payload : List ℕ) (payload_len : ℕ)
    → payload_len ≤ length payload
    → length (frame_bytes type seq msg_id payload payload_len)
      ≡ header_size + payload_len + crc_size
unfolding frame_bytes put_u16
length-frame_bytes type seq msg_id payload payload_len h = omega (
  arith,
  length-append (take payload_len payload)
      (put_u16 (crc16_ccitt (covered_bytes type seq msg_id payload payload_len) crc_seed)),
  length-take payload_len payload,
)

-- `write_frame` returns the size of the frame exactly when the payload is not oversized and the
-- frame fits the buffer, and 0 otherwise; it never writes past the buffer.
pub write_frame_size :
    (out_cap : ℕ) (type : FrameType) (seq : ℕ) (msg_id : MsgId) (payload : List ℕ) (payload_len : ℕ)
    → payload_len ≤ length payload
    → length (write_frame out_cap type seq msg_id payload payload_len) ≡ (
        if ltb max_payload payload_len || ltb out_cap (header_size + payload_len + crc_size)
        then 0
        else header_size + payload_len + crc_size)
unfolding write_frame
write_frame_size out_cap type seq msg_id payload payload_len h =
    ground (arith, length-frame_bytes type seq msg_id payload payload_len)
