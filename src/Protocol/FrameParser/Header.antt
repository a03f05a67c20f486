-- ===== src/Protocol/FrameParser/Header.antt =====
-- The parser on the header of a frame: eight bytes lead from the idle state to the payload.
use agentic_engineering_trai.Base.{
  ℕ, ◌*◌, ◌/◌, ◌%◌, ◌^◌, ◌≤◌, ◌<◌, ◌≡◌, refl, ap, ◌∙◌, List, [], ◌∷◌, ◌++◌, true, none, arith, ◌==◌,
  if◌then◌else◌, u8, u16, bit_or,
}
use agentic_engineering_trai.Common.Crc16.{crc16_ccitt, crc_seed}
use agentic_engineering_trai.Common.Crc16.Laws.{crc16_ccitt-cons, crc16_ccitt-nil}
use agentic_engineering_trai.Protocol.Wire.{
  FrameType, MsgId, request, response, telemetry, nack, type_code, type_of_code, max_payload,
  put_u16, get_u16, sync_0, sync_1, protocol_version,
}
use agentic_engineering_trai.Protocol.Wire.Fields.{get_u16-put_u16}
use agentic_engineering_trai.Protocol.FrameParser.{
  sync0, sync1, type, seq, payload, len_hi, crc_lo, FrameParser, feed, receive,
}

-- Bytes received in two pieces.
pub receive-append :
    (p : FrameParser) (xs ys : List ℕ)
    → let (q, fs) = receive p xs in
      receive p (xs ++ ys) ≡ ((receive q ys).0, fs ++ (receive q ys).1)
unfolding receive
receive-append p [] ys = refl
receive-append p (x ∷ xs) ys = ground (arith, receive-append (feed true p x).0 xs ys)

-- The two length bytes, as the parser puts them together.
pub length_bytes : (n : ℕ) → n < 65536 → u16 (bit_or (n % 256) (u16 (u8 (n / 256) * 2 ^ 8))) ≡ n
unfolding get_u16 put_u16
length_bytes n h = get_u16-put_u16 n [] h

type_round : (t : FrameType) → type_of_code (type_code t) ≡ t
type_round request = refl
type_round response = refl
type_round telemetry = refl
type_round nack = refl

unfoldable pub header_bytes : FrameType → ℕ → MsgId → ℕ → List ℕ
header_bytes t s m n = protocol_version ∷ type_code t ∷ s ∷ m ∷ put_u16 n

-- The parser after the header of a frame with `n` payload bytes.
unfoldable pub after_header : FrameParser → FrameType → ℕ → MsgId → ℕ → FrameParser
after_header p t s m n = record p {
  state = if n == 0 then crc_lo else payload;
  frame = record p.frame { type = t; seq = s; msg_id = m };
  expected_len = n;
  received = 0;
  running_crc = crc16_ccitt (header_bytes t s m n) crc_seed;
}

pub receive_step :
    (p : FrameParser) {q : FrameParser} (byte : ℕ) (bytes : List ℕ)
    → feed true p byte ≡ (q, none)
    → receive p (byte ∷ bytes) ≡ receive q bytes
unfolding receive
receive_step p byte bytes e = rw e

feed_sync0 :
    (p : FrameParser) → p.state ≡ sync0 → feed true p sync_0 ≡ (record p { state = sync1 }, none)
unfolding feed
feed_sync0 p e = ground arith

feed_type :
    (p : FrameParser) (t : FrameType)
    → p.state ≡ type
    → feed true p (type_code t) ≡ (
      record p {
        state = seq;
        frame = record p.frame { type = t };
        running_crc = crc16_ccitt (type_code t ∷ []) p.running_crc;
      },
      none,
    )
unfolding feed
feed_type p request e = ground arith
feed_type p response e = ground arith
feed_type p telemetry e = ground arith
feed_type p nack e = ground arith

feed_len_hi :
    (p : FrameParser) (n : ℕ)
    → p.state ≡ len_hi
    → p.expected_len ≡ n % 256
    → n ≤ max_payload
    → feed true p (u8 (n / 256)) ≡ (
      record p {
        state = if n == 0 then crc_lo else payload;
        expected_len = n;
        received = 0;
        running_crc = crc16_ccitt (u8 (n / 256) ∷ []) p.running_crc;
      },
      none,
    )
unfolding feed
feed_len_hi p n e l h = ground (arith, length_bytes n)

header_crc :
    (t : FrameType) (s : ℕ) (m : MsgId) (n : ℕ)
    → crc16_ccitt (u8 (n / 256) ∷ []) (
        crc16_ccitt (n % 256 ∷ []) (
          crc16_ccitt (m ∷ []) (
            crc16_ccitt
              (s ∷ [])
              (crc16_ccitt (type_code t ∷ []) (crc16_ccitt (protocol_version ∷ []) crc_seed)))))
      ≡ crc16_ccitt (header_bytes t s m n) crc_seed
unfolding header_bytes put_u16
header_crc t s m n = simp (crc16_ccitt-cons, crc16_ccitt-nil)

pub receive_header :
    (p : FrameParser) (t : FrameType) (s : ℕ) (m : MsgId) (n : ℕ) (rest : List ℕ)
    → p.state ≡ sync0
    → p.running_crc ≡ crc_seed
    → n ≤ max_payload
    → receive p (sync_0 ∷ sync_1 ∷ header_bytes t s m n ++ rest)
      ≡ receive (after_header p t s m n) rest
unfolding feed header_bytes put_u16 after_header
receive_header p t s m n rest e c h =
    let before : FrameParser = record p {
      state = len_hi;
      frame = record p.frame { type = t; seq = s; msg_id = m };
      expected_len = n % 256;
      running_crc = crc16_ccitt (n % 256 ∷ []) (
          crc16_ccitt (m ∷ []) (
            crc16_ccitt (s ∷ []) (
              crc16_ccitt (type_code t ∷ []) (crc16_ccitt (protocol_version ∷ []) p.running_crc))));
    } in
    receive_step _ _ _ (feed_sync0 p e)
    ∙ receive_step _ _ _ refl
    ∙ receive_step _ _ _ refl
    ∙ receive_step _ _ _ (feed_type _ t refl)
    ∙ receive_step _ _ _ refl
    ∙ receive_step _ _ _ refl
    ∙ receive_step _ _ _ refl
    ∙ receive_step _ _ _ (feed_len_hi before n refl refl h)
    ∙ ap (λ k. receive (record (after_header p t s m n) { running_crc = k }) rest)
        (rw c (header_crc t s m n))
