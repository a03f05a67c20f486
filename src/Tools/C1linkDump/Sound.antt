-- ===== src/Tools/C1linkDump/Sound.antt =====
-- What the dump of any capture says: the loop ends, it reads inside of the capture only, and the frames
-- are sound unless it calls the capture malformed.
use agentic_engineering_trai.Base.{
  ℕ, zero, suc, ◌+◌, ◌≤◌, ◌<◌, ◌≡◌, refl, sym, subst, ap, ◌∙◌, inl, inr, List, [], ◌∷◌, ◌++◌, Bool,
  true, false, not, ◌||◌, arith, length, length-drop, length-take, drop-drop, All, All-append, take,
  drop, get_or, ltb, leb, ==→eq, ◌==◌, Bool-cases, branch,
}
use agentic_engineering_trai.Common.Crc16.{crc16_ccitt, crc_seed}
use agentic_engineering_trai.Protocol.Wire.{
  max_payload, header_size, crc_size, get_u16, sync_0, sync_1,
}
use agentic_engineering_trai.Tools.C1linkDump.{
  FrameLine, Scan, type_name, scan_step, scan_loop, new_scan, scan_bytes, line_at, take_frame,
  skip_byte,
}

-- The fields of a frame at the front of some bytes, as the protocol lays it out: two bytes for the
-- start, the version, the type, the number, the message, the size of the payload, the payload, and the
-- CRC of all of that but the start.
pub record Frames (rest : List ℕ) (l : FrameLine) : Type 0 where
  pub start : get_or rest 0 0 ≡ 0xA5
  pub start_next : get_or rest 1 0 ≡ 0x5A
  pub type_name : l.type_name ≡ type_name (get_or rest 3 0)
  pub seq : l.seq ≡ get_or rest 4 0
  pub msg : l.msg ≡ get_or rest 5 0
  pub size : get_u16 (drop 6 rest) ≡ length l.payload
  pub payload : l.payload ≡ take (length l.payload) (drop 8 rest)
  pub wire_crc : l.wire_crc ≡ get_u16 (drop (8 + length l.payload) rest)
  pub computed : l.computed ≡ crc16_ccitt (take (6 + length l.payload) (drop 2 rest)) 0xFFFF

-- The line is the frame that stands in the capture at its offset, all of it inside of the capture.
pub record IsRead (bytes : List ℕ) (l : FrameLine) : Type 0 where
  pub frame : Frames (drop l.offset bytes) l
  pub inside : l.offset + (header_size + length l.payload + crc_size) ≤ length bytes
  pub small : length l.payload ≤ max_payload

-- The frames lie between two offsets, in order, and none overlaps the next.
unfoldable pub Follows : ℕ → List FrameLine → ℕ → Type 0
Follows from [] to = from ≤ to
Follows from (l ∷ ls) to =
    (from ≤ l.offset) × Follows (l.offset + (header_size + length l.payload + crc_size)) ls to

Follows-append :
    (from : ℕ) (ls : List FrameLine) (l : FrameLine) (to : ℕ)
    → Follows from ls l.offset
    → l.offset + (header_size + length l.payload + crc_size) ≤ to
    → Follows from (ls ++ l ∷ []) to
unfolding Follows
Follows-append from [] l to h k = (h, k)
Follows-append from (m ∷ ls) l to h k =
    (h.0, Follows-append (m.offset + (header_size + length m.payload + crc_size)) ls l to h.1 k)

Follows-le :
    (from : ℕ) (ls : List FrameLine) (i j : ℕ) → i ≤ j → Follows from ls i → Follows from ls j
unfolding Follows
Follows-le from [] i j e h = omega arith
Follows-le from (l ∷ ls) i j e h =
    (h.0, Follows-le (l.offset + (header_size + length l.payload + crc_size)) ls i j e h.1)

abbrev pub Agrees : FrameLine → Type 0
Agrees l = l.wire_crc ≡ l.computed

pub record IsSound (bytes : List ℕ) (s : Scan) : Type 0 where
  pub placed : s.rest ≡ drop s.i bytes
  pub within : s.i ≤ length bytes
  pub read : All (IsRead bytes) s.frames
  pub apart : Follows 0 s.frames s.i
  pub agree : s.malformed ≡ false → All Agrees s.frames

or_calm : (a b : Bool) → (a || not b) ≡ false → (a ≡ false) × (b ≡ true)
or_calm a b h = ground arith

module _ (bytes : List ℕ) where
  length-rest : (s : Scan) → IsSound bytes s → s.i + length s.rest ≡ length bytes
  length-rest s h = omega (arith, ap length h.placed, length-drop s.i bytes, h.within)

  further : (s : Scan) (n : ℕ) → IsSound bytes s → drop n s.rest ≡ drop (s.i + n) bytes
  further s n h = ap (drop n) h.placed ∙ drop-drop n s.i bytes

  skip_byte-IsSound :
      (s : Scan) (m : Bool)
      → (m ≡ false → s.malformed ≡ false)
      → 0 < length s.rest
      → IsSound bytes s
      → IsSound bytes (skip_byte s m)
  unfolding skip_byte
  skip_byte-IsSound s m calm more h = record {
    placed = further s 1 h;
    within = omega (arith, length-rest s h);
    read = h.read;
    apart = Follows-le 0 s.frames s.i (s.i + 1) (omega arith) h.apart;
    agree = λ e. h.agree (calm e);
  }

  line_at-IsRead :
      (s : Scan) (len : ℕ)
      → len ≤ max_payload
      → header_size + len + crc_size ≤ length s.rest
      → get_or s.rest 0 0 ≡ sync_0
      → get_or s.rest 1 0 ≡ sync_1
      → get_u16 (drop 6 s.rest) ≡ len
      → IsSound bytes s
      → IsRead bytes (line_at s.i s.rest len)
  unfolding line_at
  line_at-IsRead s len small fits first next field h =
      let full : length (take len (drop header_size s.rest)) ≡ len =
        omega (arith, length-take len (drop header_size s.rest), length-drop header_size s.rest) in
      record {
        frame =
            subst (λ k. Frames k (line_at s.i s.rest len)) h.placed
              (record {
                start = first;
                start_next = next;
                type_name = refl;
                seq = refl;
                msg = refl;
                size = field ∙ sym full;
                payload = ap (λ k. take k (drop header_size s.rest)) (sym full);
                wire_crc = ap (λ k. get_u16 (drop (header_size + k) s.rest)) (sym full);
                computed = ap (λ k. crc16_ccitt (take (6 + k) (drop 2 s.rest)) crc_seed) (sym full);
              });
        inside = omega (arith, length-rest s h);
        small = omega arith;
      }

  line_at_size :
      (s : Scan) (len : ℕ)
      → header_size + len + crc_size ≤ length s.rest
      → header_size + len + crc_size
        ≡ header_size + length (line_at s.i s.rest len).payload + crc_size
  unfolding line_at
  line_at_size s len fits =
      omega (arith, length-take len (drop header_size s.rest), length-drop header_size s.rest)

  take_frame-IsSound :
      (s : Scan) (l : FrameLine) (n : ℕ)
      → IsRead bytes l
      → l.offset ≡ s.i
      → n ≡ header_size + length l.payload + crc_size
      → n ≤ length s.rest
      → IsSound bytes s
      → IsSound bytes (take_frame s l n)
  unfolding take_frame
  take_frame-IsSound s l n good at all fits h = record {
    placed = further s n h;
    within = omega (arith, length-rest s h);
    read = All-append (IsRead bytes) s.frames (l ∷ []) h.read (good, tt);
    apart =
        Follows-append 0 s.frames l (s.i + n) (subst (Follows 0 s.frames) (sym at) h.apart)
          (omega (arith, at, all));
    agree = λ e.
        All-append Agrees s.frames (l ∷ []) (h.agree (or_calm s.malformed _ e).0)
          (==→eq l.wire_crc l.computed (or_calm s.malformed _ e).1, tt);
  }

  scan_step-IsSound :
      (s : Scan)
      → header_size ≤ length s.rest
      → IsSound bytes s
      → IsSound bytes (scan_step s) × (length (scan_step s).rest < length s.rest)
  unfolding scan_step skip_byte take_frame line_at
  scan_step-IsSound s more h =
      let len = get_u16 (drop 6 s.rest) in
      let Good : Scan → Type 0 = λ t. IsSound bytes t × (length t.rest < length s.rest) in
      let shorter : length (drop 1 s.rest) < length s.rest = omega (arith, length-drop 1 s.rest) in
      branch Good (not (get_or s.rest 0 0 == sync_0) || not (get_or s.rest 1 0 == sync_1))
        (λ e. (skip_byte-IsSound s s.malformed (λ k. k) (omega arith) h, shorter))
        (λ e.
          branch Good (ltb max_payload len || ltb (length s.rest) (header_size + len + crc_size))
            (λ e'.
              (skip_byte-IsSound s true (λ k. absurd (ground (arith, k))) (omega arith) h, shorter))
            (λ e'.
              let small : len ≤ max_payload = ground (arith, e') in
              let fits : header_size + len + crc_size ≤ length s.rest = ground (arith, e') in
              (
                take_frame-IsSound s (line_at s.i s.rest len) (header_size + len + crc_size)
                    (line_at-IsRead s len small fits (ground (arith, e)) (ground (arith, e)) refl h)
                    refl (line_at_size s len fits) fits h,
                omega (arith, length-drop (header_size + len + crc_size) s.rest),
              )))

  scan_loop-IsSound :
      (fuel : ℕ) (s : Scan)
      → length s.rest ≤ fuel
      → IsSound bytes s
      → IsSound bytes (scan_loop fuel s) × (length (scan_loop fuel s).rest < header_size)
  unfolding scan_loop
  scan_loop-IsSound zero s enough h = (h, omega arith)
  scan_loop-IsSound (suc fuel) s enough h = elim (Bool-cases (leb header_size (length s.rest))) [
    | inl more ↦
        let (next, shorter) = scan_step-IsSound s (ground (arith, more)) h in
        rw more (scan_loop-IsSound fuel (scan_step s) (omega arith) next)
    | inr over ↦ rw over (h, ground (arith, over))
  ]

  -- For any bytes, the loop is over when its fuel, one round for each byte, is spent. Each line printed
  -- is a frame that stands in the capture at its offset: it starts with A5 5A, its size field is the
  -- size of the payload, at most 250 bytes, it is inside of the capture, and the line has its fields.
  -- The frames do not overlap; and unless the capture is called malformed the CRC of each one agrees.
  pub scan_bytes-IsSound :
      IsSound bytes (scan_bytes bytes) × (length (scan_bytes bytes).rest < header_size)
  unfolding Follows
  scan_bytes-IsSound = scan_loop-IsSound (length bytes) (new_scan bytes) (omega arith) (record {
    placed = refl;
    within = omega arith;
    read = tt;
    apart = omega arith;
    agree = λ e. tt;
  })
