-- ===== src/Tools/C1linkDump/Frames.antt =====
-- A capture of frames that the writer wrote is taken apart into them.
use agentic_engineering_trai.Base.{
  ℕ, zero, suc, ◌+◌, ◌-◌, ◌≤◌, ◌<◌, ◌≡◌, refl, sym, ap, ◌∙◌, List, [], ◌∷◌, ◌++◌, append_assoc,
  append-nil, false, some, arith, length, length-append, All, take, drop, get_or, take-append,
  drop-append, take_all, ==_refl, ge→ltb,
}
use agentic_engineering_trai.Common.Crc16.{crc16_ccitt, crc_seed}
use agentic_engineering_trai.Common.Crc16.Laws.{crc16_ccitt-lt}
use agentic_engineering_trai.Protocol.Wire.{
  FrameType, MsgId, type_code, max_payload, sync_0, sync_1, put_u16, get_u16, header_size, crc_size,
}
use agentic_engineering_trai.Protocol.Wire.Fields.{get_u16-put_u16}
use agentic_engineering_trai.Protocol.FrameParser.Header.{header_bytes}
use agentic_engineering_trai.Protocol.FrameParser.Stream.{
  Message, message_bytes, stream_bytes, IsLegal, frame_bytes-append,
}
use agentic_engineering_trai.Tools.C1linkDump.{
  FrameLine, Scan, type_name, scan_step, scan_loop, scan_bytes, line_at, take_frame, dump_capture,
  dump_bytes, report_scan,
}
use agentic_engineering_trai.Tools.C1linkDump.Capture.{Spells, read_chars-Spells}

abbrev message_crc : Message → ℕ
message_crc m = crc16_ccitt (header_bytes m.type m.seq m.msg_id (length m.body) ++ m.body) crc_seed

abbrev message_size : Message → ℕ
message_size m = header_size + length m.body + crc_size

-- The line of a message at an offset.
abbrev pub line_of : ℕ → Message → FrameLine
line_of i m = record {
  offset = i;
  type_name = type_name (type_code m.type);
  seq = m.seq;
  msg = m.msg_id;
  payload = m.body;
  wire_crc = message_crc m;
  computed = message_crc m;
}

-- The lines of messages that follow each other from an offset on.
abbrev pub lines_of : ℕ → List Message → List FrameLine
lines_of i [] = []
lines_of i (m ∷ ms) = line_of i m ∷ lines_of (i + message_size m) ms

-- The round on a whole frame.
scan_step_frame :
    (i : ℕ) (rest : List ℕ) (ls : List FrameLine) (len : ℕ) (line : FrameLine)
    → get_or rest 0 0 ≡ sync_0
    → get_or rest 1 0 ≡ sync_1
    → get_u16 (drop 6 rest) ≡ len
    → len ≤ max_payload
    → header_size + len + crc_size ≤ length rest
    → line_at i rest len ≡ line
    → line.wire_crc ≡ line.computed
    → scan_step (record { i = i; rest = rest; frames = ls; malformed = false }) ≡ record {
      i = i + (header_size + len + crc_size);
      rest = drop (header_size + len + crc_size) rest;
      frames = ls ++ line ∷ [];
      malformed = false;
    }
unfolding scan_step take_frame
scan_step_frame i rest ls len line s0 s1 field small fits at crc =
    rw
      (
        s0,
        s1,
        field,
        ge→ltb max_payload len small,
        ge→ltb (length rest) (header_size + len + crc_size) fits,
        at,
        crc,
        ==_refl line.computed,
      )
      refl

module _ (i : ℕ) (t : FrameType) (s : ℕ) (m : MsgId) (bs tail : List ℕ) where
  message : Message
  message = record { type = t; seq = s; msg_id = m; body = bs }

  covered : List ℕ
  covered = header_bytes t s m (length bs) ++ bs

  behind : List ℕ
  unfolding covered
  behind = put_u16 (crc16_ccitt covered crc_seed) ++ tail

  bytes : List ℕ
  unfolding behind
  bytes = sync_0 ∷ sync_1 ∷ header_bytes t s m (length bs) ++ (bs ++ behind)

  message_bytes-append : message_bytes message ++ tail ≡ bytes
  unfolding bytes message
  message_bytes-append =
      frame_bytes-append t s m bs (length bs) tail
      ∙ ap
          (λ k.
            sync_0 ∷ sync_1 ∷ header_bytes t s m (length bs)
            ++ (k
                ++ (put_u16 (crc16_ccitt (header_bytes t s m (length bs) ++ k) crc_seed) ++ tail)))
          (take_all (length bs) bs (omega arith))

  length_field : length bs ≤ max_payload → get_u16 (drop 6 bytes) ≡ length bs
  unfolding bytes header_bytes
  length_field h = get_u16-put_u16 (length bs) (bs ++ behind) (omega arith)

  behind_frame : drop (header_size + length bs + crc_size) bytes ≡ tail
  unfolding bytes header_bytes put_u16 covered
  behind_frame =
      let crc = put_u16 (crc16_ccitt covered crc_seed) in
      ap (drop (header_size + length bs + crc_size))
        (sym (append_assoc (sync_0 ∷ sync_1 ∷ covered) crc tail))
      ∙ drop-append (header_size + length bs + crc_size) ((sync_0 ∷ sync_1 ∷ covered) ++ crc) tail
          (omega (arith, length-append (sync_0 ∷ sync_1 ∷ covered) crc))

  line_at_frame : line_at i bytes (length bs) ≡ line_of i message
  unfolding line_at bytes covered header_bytes message put_u16
  line_at_frame =
      let body : take (length bs) (drop header_size bytes) ≡ bs =
        take-append (length bs) bs behind refl in
      let crc : get_u16 (drop (header_size + length bs) bytes) ≡ message_crc message =
        ap get_u16
          (drop-append (header_size + length bs) (sync_0 ∷ sync_1 ∷ covered) behind (omega arith))
        ∙ get_u16-put_u16 (crc16_ccitt covered crc_seed) tail
            (crc16_ccitt-lt covered crc_seed (omega arith)) in
      let same : crc16_ccitt (take (header_size - 2 + length bs) (drop 2 bytes)) crc_seed
          ≡ message_crc message =
        ap (λ k. crc16_ccitt k crc_seed)
          (take-append (header_size - 2 + length bs) covered behind (omega arith)) in
      λ j. record (line_of i message) { payload = body j; wire_crc = crc j; computed = same j }

  length-bytes : length bytes ≡ message_size message + length tail
  unfolding bytes header_bytes put_u16 message
  length-bytes = omega (arith, length-append bs behind)

  syncs : (get_or bytes 0 0 ≡ sync_0) × (get_or bytes 1 0 ≡ sync_1)
  unfolding bytes
  syncs = (refl, refl)

  -- One round takes one frame.
  scan_step-bytes :
      (ls : List FrameLine)
      → length bs ≤ max_payload
      → scan_step (record { i = i; rest = bytes; frames = ls; malformed = false }) ≡ record {
        i = i + message_size message;
        rest = tail;
        frames = ls ++ line_of i message ∷ [];
        malformed = false;
      }
  unfolding message
  scan_step-bytes ls h =
      let (sync, sync') = syncs in
      scan_step_frame i bytes ls (length bs) (line_of i message) sync sync' (length_field h) h
        (omega (arith, length-bytes)) line_at_frame refl
      ∙ ap
          (λ k. record {
            i = i + message_size message;
            rest = k;
            frames = ls ++ line_of i message ∷ [];
            malformed = false;
          })
          behind_frame

pub length-message_bytes :
    (m : Message) (tail : List ℕ) → length (message_bytes m ++ tail) ≡ message_size m + length tail
unfolding message
length-message_bytes m tail =
    ap length (message_bytes-append 0 m.type m.seq m.msg_id m.body tail)
    ∙ length-bytes 0 m.type m.seq m.msg_id m.body tail

step_message :
    (m : Message) (i : ℕ) (tail : List ℕ) (ls : List FrameLine)
    → length m.body ≤ max_payload
    → scan_step (record { i = i; rest = message_bytes m ++ tail; frames = ls; malformed = false })
      ≡ record {
        i = i + message_size m;
        rest = tail;
        frames = ls ++ line_of i m ∷ [];
        malformed = false;
      }
unfolding message
step_message m i tail ls h =
    ap (λ k. scan_step (record { i = i; rest = k; frames = ls; malformed = false }))
      (message_bytes-append i m.type m.seq m.msg_id m.body tail)
    ∙ scan_step-bytes i m.type m.seq m.msg_id m.body tail ls h

pub loop_round :
    (fuel : ℕ) (s : Scan)
    → header_size ≤ length s.rest
    → scan_loop (suc fuel) s ≡ scan_loop fuel (scan_step s)
unfolding scan_loop
loop_round fuel s h = ground arith

-- The loop over the frames of a list of messages.
scan_loop-stream :
    (ms : List Message) (fuel i : ℕ) (ls : List FrameLine)
    → length (stream_bytes ms) ≤ fuel
    → All IsLegal ms
    → (e : ℕ) × (scan_loop fuel
          (record { i = i; rest = stream_bytes ms; frames = ls; malformed = false })
        ≡ record { i = e; rest = []; frames = ls ++ lines_of i ms; malformed = false })
unfolding scan_loop
scan_loop-stream [] zero i ls enough legal = (i, rw (append-nil ls) refl)
scan_loop-stream [] (suc fuel) i ls enough legal = (i, rw (append-nil ls) refl)
scan_loop-stream (m ∷ ms) zero i ls enough legal =
    absurd (omega (arith, length-message_bytes m (stream_bytes ms)))
scan_loop-stream (m ∷ ms) (suc fuel) i ls enough legal =
    let (e, rest) =
      scan_loop-stream ms fuel (i + message_size m) (ls ++ line_of i m ∷ [])
        (omega (arith, length-message_bytes m (stream_bytes ms))) legal.1 in
    (
      e,
      loop_round fuel
            (record { i = i; rest = stream_bytes (m ∷ ms); frames = ls; malformed = false })
            (omega (arith, length-message_bytes m (stream_bytes ms)))
          ∙ ap (scan_loop fuel) (step_message m i (stream_bytes ms) ls legal.0)
          ∙ rest
          ∙ ap (λ k. record { i = e; rest = []; frames = k; malformed = false })
              (append_assoc ls (line_of i m ∷ []) (lines_of (i + message_size m) ms)),
    )

pub dump_some :
    (bytes : List ℕ) → 0 < length bytes → dump_bytes bytes ≡ report_scan (scan_bytes bytes)
dump_some [] h = absurd (omega arith)
dump_some (b ∷ bs) h = refl

-- A capture that spells the frames of some messages with legal payloads, in whatever layout, is
-- dumped with one line for each message, in order, at its offset, with its fields and a CRC that
-- agrees, and the exit status is 0.
pub dump_capture-stream_bytes :
    (m : Message) (ms : List Message) (text : List ℕ)
    → Spells text (stream_bytes (m ∷ ms))
    → All IsLegal (m ∷ ms)
    → dump_capture 2 (some text) ≡ record { exit = 0; lines = lines_of 0 (m ∷ ms) }
unfolding dump_capture
dump_capture-stream_bytes m ms text spelled legal =
    let (e, scanned) =
      scan_loop-stream (m ∷ ms) (length (stream_bytes (m ∷ ms))) 0 [] (omega arith) legal in
    ap dump_bytes (read_chars-Spells spelled)
    ∙ dump_some (stream_bytes (m ∷ ms)) (omega (arith, length-message_bytes m (stream_bytes ms)))
    ∙ ap report_scan scanned
