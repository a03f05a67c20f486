-- ===== src/Tools/C1linkDump.antt =====
-- tools/c1link_dump.cpp: a capture in hexadecimal is read and taken apart into frames. The capture is the
-- list of its characters, none where the file cannot be opened. `rest` is what stands at `bytes[i]`,
-- and the `printf` of a frame is the record of what it prints.
pub mod Capture
pub mod Frames
pub mod Sound
use Prim.Native.String.{String}
use agentic_engineering_trai.Base.{
  ℕ, zero, suc, ◌+◌, ◌-◌, ◌*◌, ◌^◌, List, [], ◌∷◌, ◌++◌, Bool, true, false, not, ◌&&◌, ◌||◌, Option,
  none, some, bit_or, ltb, leb, ◌==◌, if◌then◌else◌, length, take, drop, get_or,
}
use agentic_engineering_trai.Common.Text.{is_white, is_digit}
use agentic_engineering_trai.Common.Crc16.{crc16_ccitt, crc_seed}
use agentic_engineering_trai.Protocol.Wire.{
  sync_0, sync_1, header_size, crc_size, max_payload, get_u16,
}

-- `std::tolower` in the "C" locale.
abbrev tolower : ℕ → ℕ
tolower c = if leb b'A' c && leb c b'Z' then c + 32 else c

-- The value of a character where it is from 0 to 15.
unfoldable pub hex_value : ℕ → Option ℕ
hex_value c =
    if is_digit c
    then some (c - b'0')
    else if ltb (tolower c + 10) b'a'
    then none
    else if ltb 15 (tolower c + 10 - b'a')
    then none
    else some (tolower c + 10 - b'a')

-- The half of a byte that waits for the other one.
abbrev pub Nibble : Type 0
Nibble = Option ℕ

abbrev pub take_value : Nibble → Option ℕ → Nibble × List ℕ
take_value nibble none = (nibble, [])
take_value none (some value) = (some value, [])
take_value (some high) (some value) = (none, bit_or value (high * 2 ^ 4) ∷ [])

abbrev pub still_comment : Bool → ℕ → Bool
still_comment in_comment c = (in_comment || c == b'#') && not (c == b'\n')

abbrev pub read_char : Bool → Nibble → ℕ → Nibble × List ℕ
read_char in_comment nibble c =
    if still_comment in_comment c || is_white c
    then (nibble, [])
    else take_value nibble (hex_value c)

-- The loop of `read_capture`, and the bytes that it pushes.
unfoldable pub read_chars : Bool → Nibble → List ℕ → List ℕ
read_chars in_comment nibble [] = []
read_chars in_comment nibble (c ∷ s) =
    let (next, pushed) = read_char in_comment nibble c in
    pushed ++ read_chars (still_comment in_comment c) next s

abbrev pub read_capture : Option (List ℕ) → List ℕ
read_capture none = []
read_capture (some text) = read_chars false none text

unfoldable pub type_name : ℕ → String
type_name type =
    if type == 0x01
    then "REQ"
    else if type == 0x02
    then "RSP"
    else if type == 0x03
    then "TLM"
    else if type == 0x04
    then "NAK"
    else "???"

-- What is printed for one frame.
pub record FrameLine : Type 0 where
  pub offset : ℕ
  pub type_name : String
  pub seq : ℕ
  pub msg : ℕ
  pub payload : List ℕ
  pub wire_crc : ℕ
  pub computed : ℕ

pub record Scan : Type 0 where
  pub i : ℕ
  pub rest : List ℕ
  pub frames : List FrameLine
  pub malformed : Bool

-- `++i; continue;`
unfoldable pub skip_byte : Scan → Bool → Scan
skip_byte s malformed = record s { i = s.i + 1; rest = drop 1 s.rest; malformed = malformed }

unfoldable pub line_at : ℕ → List ℕ → ℕ → FrameLine
line_at i rest len = record {
  offset = i;
  type_name = type_name (get_or rest 3 0);
  seq = get_or rest 4 0;
  msg = get_or rest 5 0;
  payload = take len (drop header_size rest);
  wire_crc = get_u16 (drop (header_size + len) rest);
  computed = crc16_ccitt (take (header_size - 2 + len) (drop 2 rest)) crc_seed;
}

unfoldable pub take_frame : Scan → FrameLine → ℕ → Scan
take_frame s line frame_size = record {
  i = s.i + frame_size;
  rest = drop frame_size s.rest;
  frames = s.frames ++ line ∷ [];
  malformed = s.malformed || not (line.wire_crc == line.computed);
}

-- One round of the loop.
unfoldable pub scan_step : Scan → Scan
scan_step s =
    let len = get_u16 (drop 6 s.rest) in
    let frame_size = header_size + len + crc_size in
    if not (get_or s.rest 0 0 == sync_0) || not (get_or s.rest 1 0 == sync_1)
    then skip_byte s s.malformed
    else if ltb max_payload len || ltb (length s.rest) frame_size
    then skip_byte s true
    else take_frame s (line_at s.i s.rest len) frame_size

-- The loop, with fuel for its rounds.
unfoldable pub scan_loop : ℕ → Scan → Scan
unfolding scan_step
scan_loop zero s = s
scan_loop (suc fuel) s =
    let after = scan_loop fuel (scan_step s) in if leb header_size (length s.rest) then after else s

abbrev pub new_scan : List ℕ → Scan
new_scan bytes = record { i = 0; rest = bytes; frames = []; malformed = false }

abbrev pub scan_bytes : List ℕ → Scan
scan_bytes bytes = scan_loop (length bytes) (new_scan bytes)

-- The exit status, and the lines of the frames.
pub record Report : Type 0 where
  pub exit : ℕ
  pub lines : List FrameLine

abbrev is_none_left : List FrameLine → Bool
is_none_left [] = true
is_none_left (l ∷ ls) = false

abbrev pub report_scan : Scan → Report
report_scan s =
    let malformed = s.malformed || ltb 0 (length s.rest) in
    record {
      exit = if not (is_none_left s.frames) && not malformed then 0 else 1;
      lines = s.frames;
    }

abbrev pub dump_bytes : List ℕ → Report
dump_bytes [] = record { exit = 1; lines = [] }
dump_bytes (b ∷ bs) = report_scan (scan_bytes (b ∷ bs))

-- `main`, for its number of arguments and for the file that is named.
unfoldable pub dump_capture : ℕ → Option (List ℕ) → Report
dump_capture argc file =
    if not (argc == 2) then record { exit = 2; lines = [] } else dump_bytes (read_capture file)
