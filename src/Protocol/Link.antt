-- ===== src/Protocol/Link.antt =====
-- protocol/link.cpp: frames over a UART, with a transmit buffer and a receive timeout. The clock
-- is the time in milliseconds at which the operation runs.
pub mod Transmit
pub mod Send
pub mod Receive
use agentic_engineering_trai.Base.{
  ℕ, ◌+◌, ◌-◌, List, [], ◌∷◌, ◌++◌, Bool, true, false, not, ◌&&◌, ◌||◌, Option, none, some, pos,
  ltb, leb, ltb_ℤ, ◌==◌, if◌then◌else◌, u32, sub_u32, to_int32, length, take, drop, replicate,
}
use agentic_engineering_trai.Common.Status.{Status, ok, not_ready, invalid_argument}
use agentic_engineering_trai.Hal.Uart.{Uart}
use agentic_engineering_trai.Hal.Uart
use agentic_engineering_trai.Protocol.Wire.{
  Frame, FrameType, MsgId, max_payload, header_size, crc_size,
}
use agentic_engineering_trai.Protocol.FrameWriter.{write_frame}
use agentic_engineering_trai.Protocol.FrameParser.{
  FrameParser, new_parser, feed, in_progress, reset,
}

abbrev pub frame_timeout_ms : ℕ
frame_timeout_ms = 50

abbrev pub tx_capacity : ℕ
tx_capacity = 1040

pub record Link : Type 0 where
  pub parser : FrameParser
  pub frame_deadline_ms : ℕ
  pub tx_buffer : List ℕ
  pub tx_size : ℕ
  pub tx_offset : ℕ

abbrev pub new_link : Link
new_link = record {
  parser = new_parser;
  frame_deadline_ms = 0;
  tx_buffer = replicate tx_capacity 0;
  tx_size = 0;
  tx_offset = 0;
}

unfoldable pub flush_tx : Link → Uart → Link × Uart
flush_tx l u =
    if leb l.tx_size l.tx_offset
    then (l, u)
    else (let remaining = l.tx_size - l.tx_offset in
        let (u', written) = Uart.write u (take remaining (drop l.tx_offset l.tx_buffer)) in
        let offset = l.tx_offset + (if ltb remaining written then remaining else written) in
        if offset == l.tx_size
        then (record l { tx_offset = 0; tx_size = 0 }, u')
        else (record l { tx_offset = offset }, u'))

-- `memcpy(buffer + at, bytes)`
abbrev pub blit : List ℕ → ℕ → List ℕ → List ℕ
blit buffer at bytes = take at buffer ++ (bytes ++ drop (at + length bytes) buffer)

-- The queued bytes move to the front of the buffer.
unfoldable pub compact : Link → Link
compact l =
    if ltb 0 l.tx_offset
    then (let queued = l.tx_size - l.tx_offset in
        record l {
          tx_buffer = blit l.tx_buffer 0 (take queued (drop l.tx_offset l.tx_buffer));
          tx_size = queued;
          tx_offset = 0;
        })
    else l

-- `payload` is none for a null pointer.
abbrev pub is_null : Option (List ℕ) → Bool
is_null none = true
is_null (some p) = false

abbrev pub pointed : Option (List ℕ) → List ℕ
pointed none = []
pointed (some p) = p

-- The part of `send` behind the compaction.
unfoldable pub enqueue : Link → Uart → FrameType → ℕ → MsgId → List ℕ → ℕ → Link × Uart × Status
enqueue l u type seq msg_id payload payload_len =
    if ltb (tx_capacity - l.tx_size) (header_size + payload_len + crc_size)
    then (l, u, not_ready)
    else (let bytes = write_frame (tx_capacity - l.tx_size) type seq msg_id payload payload_len in
        if length bytes == 0
        then (l, u, invalid_argument)
        else (let (l', u') =
              flush_tx
                (record l {
                  tx_buffer = blit l.tx_buffer l.tx_size bytes;
                  tx_size = l.tx_size + length bytes;
                })
                u in
            (l', u', ok)))

unfoldable pub send :
    Link → Uart → FrameType → ℕ → MsgId → Option (List ℕ) → ℕ → Link × Uart × Status
send l u type seq msg_id payload payload_len =
    if ltb max_payload payload_len || (ltb 0 payload_len && is_null payload)
    then (l, u, invalid_argument)
    else enqueue (compact l) u type seq msg_id (pointed payload) payload_len

unfoldable pub cancel_pending_tx : Link → Link
cancel_pending_tx l = record l { tx_offset = 0; tx_size = 0 }

-- The loop of `poll` over the bytes that the UART holds: the parser, the deadline, the bytes not
-- read, and the frame.
unfoldable pub read_loop : ℕ → FrameParser → ℕ → List ℕ → FrameParser × ℕ × List ℕ × Option Frame
read_loop now p deadline [] = (p, deadline, [], none)
read_loop now p deadline (byte ∷ bytes) =
    let (q, out) = feed true p byte in
    elim out [
      | some frame ↦ (q, deadline, bytes, some frame)
      | none ↦
          read_loop now q
            (if not (in_progress p) && in_progress q
              then u32 (now + frame_timeout_ms)
              else deadline)
            bytes
    ]

-- `static_cast<std::int32_t>(now - deadline) > 0`
abbrev pub has_passed : ℕ → ℕ → Bool
has_passed now deadline = ltb_ℤ (pos 0) (to_int32 (sub_u32 now deadline))

unfoldable pub expire : ℕ → Link → Link
expire now l =
    if in_progress l.parser && has_passed now l.frame_deadline_ms
    then record l { parser = reset l.parser }
    else l

-- The end of `poll`, by what the loop gave.
unfoldable pub after_loop :
    Link → Uart → ℕ → FrameParser → ℕ → List ℕ → Option Frame → Link × Uart × Option Frame
after_loop l u now p deadline rest (some frame) =
    (record l { parser = p; frame_deadline_ms = deadline }, record u { rx = rest }, some frame)
after_loop l u now p deadline rest none = (
  expire now (record l { parser = p; frame_deadline_ms = deadline }),
  record u { rx = rest },
  none,
)

unfoldable pub poll : Link → Uart → ℕ → Link × Uart × Option Frame
poll l u now =
    let (l₁, u₁) = flush_tx l u in
    let (p, deadline, rest, out) = read_loop now l₁.parser l₁.frame_deadline_ms u₁.rx in
    after_loop l₁ u₁ now p deadline rest out

unfoldable pub receiving : Link → Bool
receiving l = in_progress l.parser
