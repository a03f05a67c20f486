-- ===== src/Protocol/FrameParser/Stream.antt =====
-- What the writer writes, the parser reads back: one frame, and any stream of frames.
use agentic_engineering_trai.Base.{
  ℕ, ◌+◌, ◌≤◌, ◌≡◌, refl, sym, ap, ap₂, subst, ◌∙◌, List, [], ◌∷◌, ◌++◌, append-nil, append_assoc,
  arith, length, length-take, All, take, take_all,
}
use mathlib.Core.List.{map}
use agentic_engineering_trai.Common.Crc16.{crc16_ccitt, crc_seed}
use agentic_engineering_trai.Common.Crc16.Laws.{crc16_ccitt-lt, crc16_ccitt-append}
use agentic_engineering_trai.Protocol.Wire.{
  Frame, FrameType, MsgId, max_payload, put_u16, sync_0, sync_1,
}
use agentic_engineering_trai.Protocol.FrameWriter.{frame_bytes}
use agentic_engineering_trai.Protocol.FrameParser.{sync0, crc_lo, FrameParser, receive}
use agentic_engineering_trai.Protocol.FrameParser.Header.{
  header_bytes, after_header, receive_header,
}
use agentic_engineering_trai.Protocol.FrameParser.Payload.{
  fill, length-fill, take-fill, after_payload, receive_payload, done, idle, receive_crc,
}

-- The parser between two frames.
pub record IsIdle (p : FrameParser) : Type 0 where
  pub idle_state : p.state ≡ sync0
  pub idle_crc : p.running_crc ≡ crc_seed
  pub idle_array : length p.frame.payload ≡ max_payload

-- What a frame means, without the array behind it.
pub record Message : Type 0 where
  pub type : FrameType
  pub seq : ℕ
  pub msg_id : MsgId
  pub body : List ℕ

unfoldable pub message_of : Frame → Message
message_of f = record {
  type = f.type;
  seq = f.seq;
  msg_id = f.msg_id;
  body = take f.payload_len f.payload;
}

module _ (p : FrameParser) (t : FrameType) (s : ℕ) (m : MsgId) where
  -- The parser behind a header and a payload `bs`.
  before_crc : List ℕ → FrameParser
  before_crc bs = record p {
    state = crc_lo;
    frame = record p.frame { type = t; seq = s; msg_id = m; payload = fill p.frame.payload 0 bs };
    expected_len = length bs;
    received = length bs;
    running_crc = crc16_ccitt (header_bytes t s m (length bs) ++ bs) crc_seed;
  }

  receive_body :
      (bs rest : List ℕ)
      → length bs ≤ max_payload
      → receive (after_header p t s m (length bs)) (bs ++ rest) ≡ receive (before_crc bs) rest
  unfolding after_header before_crc fill after_payload
  receive_body [] rest h =
      ap (λ k. receive (record (before_crc []) { running_crc = crc16_ccitt k crc_seed }) rest)
        (sym (append-nil (header_bytes t s m 0)))
  receive_body (b ∷ bs) rest h =
      receive_payload b bs (after_header p t s m (length (b ∷ bs))) rest (ground arith) h
        (omega arith)
      ∙ ap (λ k. receive (record (before_crc (b ∷ bs)) { running_crc = k }) rest)
          (sym (crc16_ccitt-append (header_bytes t s m (length (b ∷ bs))) (b ∷ bs) crc_seed))

  receive_whole :
      (bs rest : List ℕ)
      → IsIdle p
      → length bs ≤ max_payload
      → receive p (
          sync_0 ∷ sync_1 ∷ header_bytes t s m (length bs)
          ++ (bs
              ++ (put_u16 (crc16_ccitt (header_bytes t s m (length bs) ++ bs) crc_seed) ++ rest)))
        ≡ (
          (receive (idle (before_crc bs)) rest).0,
          done (before_crc bs) ∷ (receive (idle (before_crc bs)) rest).1,
        )
  unfolding before_crc
  receive_whole bs rest v h =
      receive_header p t s m (length bs) _ v.idle_state v.idle_crc h
      ∙ receive_body bs _ h
      ∙ receive_crc (before_crc bs) rest refl
          (crc16_ccitt-lt (header_bytes t s m (length bs) ++ bs) crc_seed (omega arith))

  before_crc-message :
      (bs : List ℕ)
      → IsIdle p
      → length bs ≤ max_payload
      → message_of (done (before_crc bs)) ≡ record { type = t; seq = s; msg_id = m; body = bs }
  unfolding before_crc message_of done
  before_crc-message bs v h =
      ap (λ k. record { type = t; seq = s; msg_id = m; body = k })
        (ap (λ k. take k (fill p.frame.payload 0 bs)) {y = 0 + length bs} (omega arith)
          ∙ take-fill p.frame.payload 0 bs (omega (arith, v.idle_array)))

  before_crc-IsIdle : (bs : List ℕ) → IsIdle p → IsIdle (idle (before_crc bs))
  unfolding before_crc idle done
  before_crc-IsIdle bs v = ground (arith, length-fill p.frame.payload 0 bs, v.idle_array)

-- The bytes of a frame in the order in which the parser takes them apart.
pub frame_bytes-append :
    (t : FrameType) (s : ℕ) (m : MsgId) (body : List ℕ) (n : ℕ) (rest : List ℕ)
    → frame_bytes t s m body n ++ rest
      ≡ sync_0 ∷ sync_1 ∷ header_bytes t s m n
        ++ (take n body
            ++ (put_u16 (crc16_ccitt (header_bytes t s m n ++ take n body) crc_seed) ++ rest))
unfolding frame_bytes header_bytes put_u16
frame_bytes-append t s m body n rest =
    ap (λ k. sync_0 ∷ sync_1 ∷ header_bytes t s m n ++ k)
      (append_assoc (take n body)
        (put_u16 (crc16_ccitt (header_bytes t s m n ++ take n body) crc_seed)) rest)

-- A parser between two frames that is fed what `write_frame` writes, and anything after it, gives
-- exactly one frame for it, with the type, sequence number, message id and payload that were
-- written, and is between two frames again.
pub receive-frame_bytes :
    (p : FrameParser) (t : FrameType) (s : ℕ) (m : MsgId) (body : List ℕ) (n : ℕ) (rest : List ℕ)
    → IsIdle p
    → n ≤ max_payload
    → n ≤ length body
    → (q : FrameParser) × (f : Frame) × (receive p (frame_bytes t s m body n ++ rest)
        ≡ ((receive q rest).0, f ∷ (receive q rest).1))
      × (message_of f ≡ record { type = t; seq = s; msg_id = m; body = take n body })
      × IsIdle q
receive-frame_bytes p t s m body n rest v h l =
    let bs : List ℕ = take n body in
    let full : length bs ≡ n = omega (arith, length-take n body) in
    let q : FrameParser = before_crc p t s m bs in
    (
      idle q,
      done q,
      ap (receive p) (frame_bytes-append t s m body n rest)
          ∙ subst
              (λ k.
                receive p (
                  sync_0 ∷ sync_1 ∷ header_bytes t s m k
                  ++ (bs ++ (put_u16 (crc16_ccitt (header_bytes t s m k ++ bs) crc_seed) ++ rest)))
                ≡ ((receive (idle q) rest).0, done q ∷ (receive (idle q) rest).1))
              full (receive_whole p t s m bs rest v (omega arith)),
      before_crc-message p t s m bs v (omega arith),
      before_crc-IsIdle p t s m bs v,
    )

abbrev pub message_bytes : Message → List ℕ
message_bytes m = frame_bytes m.type m.seq m.msg_id m.body (length m.body)

abbrev pub stream_bytes : List Message → List ℕ
stream_bytes [] = []
stream_bytes (m ∷ ms) = message_bytes m ++ stream_bytes ms

abbrev pub IsLegal : Message → Type 0
IsLegal m = length m.body ≤ max_payload

-- A receiver between two frames that is fed the frames of any list of messages with legal
-- payloads, one after the other, gets exactly those messages, in order, and is between two
-- frames again.
pub receive-stream :
    (ms : List Message) (p : FrameParser)
    → All IsLegal ms
    → IsIdle p
    → (map message_of (receive p (stream_bytes ms)).1 ≡ ms) × IsIdle (receive p (stream_bytes ms)).0
receive-stream [] p h v = unfold receive in (refl, v)
receive-stream (m ∷ ms) p h v =
    let (q, f, eq, same, idle_q) =
      receive-frame_bytes p m.type m.seq m.msg_id m.body (length m.body) (stream_bytes ms) v h.0
        (omega arith) in
    let (rest, still) = receive-stream ms q h.1 idle_q in
    rw eq (
      ap₂ ◌∷◌
          (same ∙ ap (λ k. record m { body = k }) (take_all (length m.body) m.body (omega arith)))
          rest,
      still,
    )
