-- ===== src/Protocol/Link/Send.antt =====
-- `send`: the whole frame behind what is queued, or nothing, and the status says which.
use agentic_engineering_trai.Base.{
  ℕ, ◌+◌, ◌-◌, ◌≤◌, ◌≡◌, refl, sym, ap, ap₂, ◌∙◌, inl, inr, List, [], ◌++◌, append_assoc,
  append-nil, false, Option, none, some, arith, ltb, ltb→ge, ne→==, ◌&&◌, ◌||◌, if◌then◌else◌,
  length, take, drop, length-append, length-take, length-drop, take-append, take-append_more,
  Bool-cases,
}
use agentic_engineering_trai.Common.Status.{Status, ok, not_ready, invalid_argument}
use agentic_engineering_trai.Hal.Uart.{Uart}
use agentic_engineering_trai.Protocol.Wire.{FrameType, MsgId, max_payload, header_size, crc_size}
use agentic_engineering_trai.Protocol.FrameWriter.{write_frame, frame_bytes, length-frame_bytes}
use agentic_engineering_trai.Protocol.Link.{
  Link, tx_capacity, blit, compact, enqueue, send, is_null, pointed, cancel_pending_tx,
}
use agentic_engineering_trai.Protocol.Link.Transmit.{
  IsValid, pending, handed, flush_tx-Flushed, rx-flush_tx,
}

pending_front : (l : Link) → l.tx_offset ≡ 0 → pending l ≡ take l.tx_size l.tx_buffer
pending_front l e = ap₂ take {y = l.tx_size} (omega arith) (ap (λ k. drop k l.tx_buffer) e)

record Compacted (l l' : Link) : Type 0 where
  valid : IsValid l'
  front : l'.tx_offset ≡ 0
  same_pending : pending l' ≡ pending l
  same_size : l'.tx_size ≡ l.tx_size - l.tx_offset
  same_parser : l'.parser ≡ l.parser
  same_deadline : l'.frame_deadline_ms ≡ l.frame_deadline_ms

length-queued : (l : Link) → IsValid l → length (pending l) ≡ l.tx_size - l.tx_offset
length-queued l v = omega (
  arith,
  length-take (l.tx_size - l.tx_offset) (drop l.tx_offset l.tx_buffer),
  length-drop l.tx_offset l.tx_buffer,
  v.array,
  v.in_array,
)

length-blit :
    (buffer : List ℕ) (at : ℕ) (bytes : List ℕ)
    → at + length bytes ≤ length buffer
    → length (blit buffer at bytes) ≡ length buffer
length-blit buffer at bytes h = omega (
  arith,
  length-append (take at buffer) (bytes ++ drop (at + length bytes) buffer),
  length-append bytes (drop (at + length bytes) buffer),
  length-take at buffer,
  length-drop (at + length bytes) buffer,
)

compact-Compacted : (l : Link) → IsValid l → Compacted l (compact l)
unfolding compact
compact-Compacted l v = elim (Bool-cases (ltb 0 l.tx_offset)) [
  | inl e ↦ rw e (record {
    valid = ground (arith, length-blit l.tx_buffer 0 (pending l), length-queued l v);
    front = refl;
    same_pending =
        ap (λ k. take k (blit l.tx_buffer 0 (pending l))) {y = l.tx_size - l.tx_offset}
          (omega arith)
        ∙ take-append _ (pending l) _ (length-queued l v);
    same_size = refl;
    same_parser = refl;
    same_deadline = refl;
  })
  | inr e ↦ rw e (record {
    valid = v;
    front = ground arith;
    same_pending = refl;
    same_size = ground arith;
    same_parser = refl;
    same_deadline = refl;
  })
]

-- The status that `send` gives, from the arguments and the room behind the queued bytes.
abbrev pub send_status : Link → Option (List ℕ) → ℕ → Status
send_status l payload payload_len =
    if ltb max_payload payload_len || (ltb 0 payload_len && is_null payload)
    then invalid_argument
    else if ltb (tx_capacity - (l.tx_size - l.tx_offset)) (header_size + payload_len + crc_size)
    then not_ready
    else ok

-- The bytes that a call with status `st` hands over.
abbrev pub sent_bytes : Status → FrameType → ℕ → MsgId → List ℕ → ℕ → List ℕ
sent_bytes ok type seq msg_id payload n = frame_bytes type seq msg_id payload n
sent_bytes _ type seq msg_id payload n = []

pub record Sends (l : Link) (u : Uart) (bytes : List ℕ) (r : Link × Uart × Status) : Type 0 where
  pub stream : handed r.0 r.1 ≡ handed l u ++ bytes
  pub still_valid : IsValid r.0
  pub same_rx : r.1.rx ≡ u.rx
  pub same_parser : r.0.parser ≡ l.parser
  pub same_deadline : r.0.frame_deadline_ms ≡ l.frame_deadline_ms

-- A frame written behind the queue of a link whose queue stands at the front.
module _ (l : Link) (bytes : List ℕ) (v : IsValid l) (e : l.tx_offset ≡ 0)
    (h : l.tx_size + length bytes ≤ tx_capacity) where
  appended : Link
  appended = record l {
    tx_buffer = blit l.tx_buffer l.tx_size bytes;
    tx_size = l.tx_size + length bytes;
  }

  appended-IsValid : IsValid appended
  unfolding appended
  appended-IsValid = ground (arith, length-blit l.tx_buffer l.tx_size bytes)

  pending-appended : pending appended ≡ pending l ++ bytes
  unfolding appended
  pending-appended =
      ap₂ take {y = l.tx_size + length bytes} (omega arith) (ap (λ k. drop k appended.tx_buffer) e)
      ∙ take-append_more l.tx_size (length bytes) (take l.tx_size l.tx_buffer) _
          (omega (arith, length-take l.tx_size l.tx_buffer, v.array, v.in_array))
      ∙ ap (λ k. take l.tx_size l.tx_buffer ++ k) (take-append (length bytes) bytes _ refl)
      ∙ ap (λ k. k ++ bytes) (sym (pending_front l e))

module _ (type : FrameType) (seq : ℕ) (msg_id : MsgId) (payload : List ℕ) (n : ℕ)
    (stored : n ≤ length payload) (legal : n ≤ max_payload) where
  write_frame_fits :
      (room : ℕ)
      → header_size + n + crc_size ≤ room
      → write_frame room type seq msg_id payload n ≡ frame_bytes type seq msg_id payload n
  unfolding write_frame
  write_frame_fits room h = ground arith

  enqueue_lem :
      (l : Link) (u : Uart)
      → IsValid l
      → l.tx_offset ≡ 0
      → let st : Status =
          if ltb (tx_capacity - l.tx_size) (header_size + n + crc_size) then not_ready else ok in
        ((enqueue l u type seq msg_id payload n).2 ≡ st)
        × Sends l u
            (sent_bytes st type seq msg_id payload n)
            (enqueue l u type seq msg_id payload n)
  unfolding enqueue appended
  enqueue_lem l u v e =
      elim (Bool-cases (ltb (tx_capacity - l.tx_size) (header_size + n + crc_size))) [
        | inl f ↦ rw f (
          refl,
          record {
            stream = sym (append-nil (handed l u));
            still_valid = v;
            same_rx = refl;
            same_parser = refl;
            same_deadline = refl;
          },
        )
        | inr f ↦
            let size = length-frame_bytes type seq msg_id payload n stored in
            let bytes : List ℕ = frame_bytes type seq msg_id payload n in
            let fits : l.tx_size + length bytes ≤ tx_capacity =
              omega (arith, size, ltb→ge _ _ f, v.in_array) in
            let done = flush_tx-Flushed u (appended-IsValid l bytes v e fits) in
            rw
              (
                f,
                write_frame_fits (tx_capacity - l.tx_size) (ltb→ge _ _ f),
                ne→== (length bytes) 0 (omega (arith, size)),
              )
              (
                refl,
                record {
                  stream =
                      done.same_bytes
                      ∙ ap (λ k. u.wire ++ k) (pending-appended l bytes v e fits)
                      ∙ sym (append_assoc u.wire (pending l) bytes);
                  still_valid = done.still_valid;
                  same_rx = done.same_rx;
                  same_parser = done.same_parser;
                  same_deadline = done.same_deadline;
                },
              )
      ]

stored_bytes :
    (payload : Option (List ℕ)) (n : ℕ)
    → (is_null payload ≡ false → n ≤ length (pointed payload))
    → (ltb max_payload n || (ltb 0 n && is_null payload)) ≡ false
    → (n ≤ max_payload) × (n ≤ length (pointed payload))
stored_bytes none n h e = ground arith
stored_bytes (some p) n h e = (ground arith, h refl)

-- `send` hands over the whole frame, behind everything handed over before, exactly when the
-- payload is legal and the free part of the transmit buffer holds the frame; otherwise it hands
-- over nothing and says why. The link stays well-formed and its receive side is left alone.
pub send_lem :
    (l : Link) (u : Uart) (type : FrameType) (seq : ℕ) (msg_id : MsgId) (payload : Option (List ℕ))
    (n : ℕ)
    → IsValid l
    → (is_null payload ≡ false → n ≤ length (pointed payload))
    → ((send l u type seq msg_id payload n).2 ≡ send_status l payload n)
      × Sends l u
          (sent_bytes (send_status l payload n) type seq msg_id (pointed payload) n)
          (send l u type seq msg_id payload n)
unfolding send
send_lem l u type seq msg_id payload n v h =
    elim (Bool-cases (ltb max_payload n || (ltb 0 n && is_null payload))) [
      | inl e ↦ rw e (
        refl,
        record {
          stream = sym (append-nil (handed l u));
          still_valid = v;
          same_rx = refl;
          same_parser = refl;
          same_deadline = refl;
        },
      )
      | inr e ↦
          let (legal, stored) = stored_bytes payload n h e in
          let c = compact-Compacted l v in
          let (st, done) =
            enqueue_lem type seq msg_id (pointed payload) n stored legal (compact l) u c.valid
              c.front in
          rw (e, ← c.same_size)
            (
              st,
              record {
                stream =
                    done.stream
                    ∙ ap
                        (λ k.
                          (u.wire ++ k)
                          ++ sent_bytes
                              (if ltb (tx_capacity - (compact l).tx_size)
                                  (header_size + n + crc_size)
                                then not_ready
                                else ok)
                              type seq msg_id (pointed payload) n)
                        c.same_pending;
                still_valid = done.still_valid;
                same_rx = done.same_rx;
                same_parser = done.same_parser ∙ c.same_parser;
                same_deadline = done.same_deadline ∙ c.same_deadline;
              },
            )
    ]

-- Cancelling drops what is queued and nothing else.
pub cancel_pending_tx_lem :
    (l : Link)
    → IsValid l
    → IsValid (cancel_pending_tx l)
      × (pending (cancel_pending_tx l) ≡ [])
      × ((cancel_pending_tx l).parser ≡ l.parser)
unfolding cancel_pending_tx
cancel_pending_tx_lem l v = (ground arith, refl, refl)

pub rx-send :
    (l : Link) (u : Uart) (type : FrameType) (seq : ℕ) (msg_id : MsgId) (payload : Option (List ℕ))
    (n : ℕ)
    → (send l u type seq msg_id payload n).1.rx ≡ u.rx
unfolding send enqueue
rx-send l u type seq msg_id payload n = ground (
  arith,
  rx-flush_tx
      (record (compact l) {
        tx_buffer =
            blit (compact l).tx_buffer (compact l).tx_size
              (write_frame (tx_capacity - (compact l).tx_size) type seq msg_id (pointed payload) n);
        tx_size =
            (compact l).tx_size
            + length (
                write_frame (tx_capacity - (compact l).tx_size) type seq msg_id (pointed payload)
                  n);
      })
      u,
)
