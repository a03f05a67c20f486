-- ===== src/Protocol/FrameParser/Payload.antt =====
-- The parser on the payload and the CRC of a frame.
use agentic_engineering_trai.Base.{
  ℕ, suc, ◌+◌, ◌/◌, ◌%◌, ◌≤◌, ◌<◌, ◌≡◌, refl, sym, ap, ◌∙◌, List, [], ◌∷◌, ◌++◌, append-nil,
  append_assoc, true, none, some, arith, length, length-set, take, take-set, set, u8,
}
use agentic_engineering_trai.Common.Crc16.{crc16_ccitt, crc_seed}
use agentic_engineering_trai.Common.Crc16.Laws.{crc16_ccitt-cons, crc16_ccitt-nil}
use agentic_engineering_trai.Protocol.Wire.{Frame, max_payload, put_u16}
use agentic_engineering_trai.Protocol.FrameParser.{
  sync0, payload, crc_lo, crc_hi, FrameParser, feed, receive,
}
use agentic_engineering_trai.Protocol.FrameParser.Header.{receive_step, length_bytes}

-- The array after consecutive writes from index `i` on.
unfoldable pub fill : List ℕ → ℕ → List ℕ → List ℕ
fill array i [] = array
fill array i (b ∷ bs) = fill (set array i b) (i + 1) bs

pub length-fill : (array : List ℕ) (i : ℕ) (bs : List ℕ) → length (fill array i bs) ≡ length array
unfolding fill
length-fill array i [] = refl
length-fill array i (b ∷ bs) = length-fill (set array i b) (i + 1) bs ∙ length-set array i b

pub take-fill :
    (array : List ℕ) (i : ℕ) (bs : List ℕ)
    → i + length bs ≤ length array
    → take (i + length bs) (fill array i bs) ≡ take i array ++ bs
unfolding fill
take-fill array i [] h = ap (λ k. take k array) (omega arith) ∙ sym (append-nil (take i array))
take-fill array i (b ∷ bs) h =
    ap (λ k. take k (fill (set array i b) (i + 1) bs)) (omega arith)
    ∙ take-fill (set array i b) (i + 1) bs (omega (arith, length-set array i b))
    ∙ ap (λ k. take k (set array i b) ++ bs) {y = suc i} (omega arith)
    ∙ ap (λ k. k ++ bs) (take-set i array b (omega arith))
    ∙ append_assoc (take i array) (b ∷ []) bs

-- The parser behind the payload bytes `bs`.
unfoldable pub after_payload : FrameParser → List ℕ → FrameParser
after_payload p bs = record p {
  state = crc_lo;
  frame = record p.frame { payload = fill p.frame.payload p.received bs };
  received = p.expected_len;
  running_crc = crc16_ccitt bs p.running_crc;
}

-- The parser behind one payload byte that is not the last.
next_payload : FrameParser → ℕ → FrameParser
next_payload p b = record p {
  frame = record p.frame { payload = set p.frame.payload p.received b };
  received = p.received + 1;
  running_crc = crc16_ccitt (b ∷ []) p.running_crc;
}

feed_payload_last :
    (p : FrameParser) (b : ℕ)
    → p.state ≡ payload
    → p.expected_len ≤ max_payload
    → p.received + 1 ≡ p.expected_len
    → feed true p b ≡ (after_payload p (b ∷ []), none)
unfolding feed after_payload fill
feed_payload_last p b e h l = ground arith

feed_payload_more :
    (p : FrameParser) (b : ℕ)
    → p.state ≡ payload
    → p.expected_len ≤ max_payload
    → p.received + 1 < p.expected_len
    → feed true p b ≡ (next_payload p b, none)
unfolding feed next_payload
feed_payload_more p b e h l = ground arith

after_payload-cons :
    (p : FrameParser) (b : ℕ) (bs : List ℕ)
    → after_payload (next_payload p b) bs ≡ after_payload p (b ∷ bs)
unfolding after_payload next_payload fill
after_payload-cons p b bs =
    ap (λ k. record (after_payload p (b ∷ bs)) { running_crc = k })
      (simp (crc16_ccitt-cons, crc16_ccitt-nil))

pub receive_payload :
    (b : ℕ) (bs : List ℕ) (p : FrameParser) (rest : List ℕ)
    → p.state ≡ payload
    → p.expected_len ≤ max_payload
    → p.received + length (b ∷ bs) ≡ p.expected_len
    → receive p (b ∷ bs ++ rest) ≡ receive (after_payload p (b ∷ bs)) rest
unfolding next_payload
receive_payload b [] p rest e h l = receive_step p b rest (feed_payload_last p b e h (omega arith))
receive_payload b (c ∷ bs) p rest e h l =
    receive_step p b _ (feed_payload_more p b e h (omega arith))
    ∙ receive_payload c bs (next_payload p b) rest e h (omega arith)
    ∙ ap (λ q. receive q rest) (after_payload-cons p b (c ∷ bs))

unfoldable pub done : FrameParser → Frame
done p = record p.frame { payload_len = p.expected_len }

unfoldable pub idle : FrameParser → FrameParser
unfolding done
idle p = record p {
  state = sync0;
  frame = done p;
  expected_len = 0;
  received = 0;
  crc_low = p.running_crc % 256;
  running_crc = crc_seed;
}

feed_crc_hi :
    (p : FrameParser)
    → p.state ≡ crc_hi
    → p.crc_low ≡ p.running_crc % 256
    → p.running_crc < 65536
    → feed true p (u8 (p.running_crc / 256)) ≡ (idle p, some (done p))
unfolding feed idle
feed_crc_hi p e l h = ground (arith, length_bytes p.running_crc)

feed_crc_lo :
    (p : FrameParser)
    → p.state ≡ crc_lo
    → feed true p (p.running_crc % 256)
      ≡ (record p { state = crc_hi; crc_low = p.running_crc % 256 }, none)
unfolding feed
feed_crc_lo p e = ground arith

receive_frame :
    (p : FrameParser) {q : FrameParser} {f : Frame} (byte : ℕ) (bytes : List ℕ)
    → feed true p byte ≡ (q, some f)
    → receive p (byte ∷ bytes) ≡ ((receive q bytes).0, f ∷ (receive q bytes).1)
unfolding receive
receive_frame p byte bytes e = rw e

pub receive_crc :
    (p : FrameParser) (rest : List ℕ)
    → p.state ≡ crc_lo
    → p.running_crc < 65536
    → receive p (put_u16 p.running_crc ++ rest)
      ≡ ((receive (idle p) rest).0, done p ∷ (receive (idle p) rest).1)
unfolding put_u16 idle
receive_crc p rest e h =
    receive_step p (p.running_crc % 256) _ (feed_crc_lo p e)
    ∙ receive_frame _ _ rest
        (feed_crc_hi (record p { state = crc_hi; crc_low = p.running_crc % 256 }) refl refl h)
