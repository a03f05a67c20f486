-- ===== src/Protocol/FrameParser/Invariant.antt =====
-- What holds of the parser after any bytes: no write outside the payload array, and no frame
-- that was not announced with a legal length and confirmed by its CRC.
use agentic_engineering_trai.Base.{
  ℕ, ◌≤◌, ◌<◌, ◌≡◌, refl, ◌≢◌, List, [], ◌∷◌, Bool, true, false, some, arith, length, length-set,
  IsByte, All, Bool-cases, inl, inr, ◌*◌, ◌^◌, u16, bit_or,
}
use agentic_engineering_trai.Common.Crc16.{crc16_ccitt, crc_seed}
use agentic_engineering_trai.Common.Crc16.Laws.{crc16_ccitt-lt}
use agentic_engineering_trai.Protocol.Wire.{Frame, max_payload}
use agentic_engineering_trai.Protocol.FrameParser.{
  State, sync0, sync1, payload, len_hi, crc_hi, FrameParser, new_parser, in_progress, is_covered,
  dispatch, feed, receive,
}

abbrev pub is_hunting : State → Bool
is_hunting sync0 = true
is_hunting sync1 = true
is_hunting _ = false

-- The expected length is one byte until its high byte has come, and legal from there on.
pub record IsValid (p : FrameParser) : Type 0 where
  pub array : length p.frame.payload ≡ max_payload
  pub expected : p.state ≢ len_hi → p.expected_len ≤ max_payload
  pub low : p.expected_len < 256
  pub room : p.state ≡ payload → p.received < p.expected_len
  pub crc_16 : p.running_crc < 65536
  pub seeded : is_hunting p.state ≡ true → p.running_crc ≡ crc_seed

pub new_parser-IsValid : IsValid new_parser
new_parser-IsValid = ground arith

pub dispatch-IsValid :
    (s : State) (has_out : Bool) (p : FrameParser) (byte : ℕ)
    → IsByte byte
    → p.state ≡ s
    → IsValid p
    → IsValid (dispatch s has_out p byte).0
unfolding dispatch
dispatch-IsValid s has_out p byte b e v = ground (arith, length-set p.frame.payload p.received byte)

abbrev covered : FrameParser → ℕ → FrameParser
covered p byte = record p { running_crc = crc16_ccitt (byte ∷ []) p.running_crc }

not_both : {A : Type 0} (s : State) → is_covered s ≡ true → is_hunting s ≡ true → A
not_both sync0 e h = cc
not_both s e h = cc

-- Whatever byte comes in whatever state, the parser stays well-formed: its array keeps its size,
-- and a payload byte is only expected where there is room for it.
pub feed-IsValid :
    (has_out : Bool) {p : FrameParser} (byte : ℕ)
    → IsByte byte
    → IsValid p
    → IsValid (feed has_out p byte).0
unfolding feed
feed-IsValid has_out {p} byte b v = elim (Bool-cases (is_covered p.state)) [
  | inl e ↦ rw e (
      dispatch-IsValid p.state has_out (covered p byte) byte b refl (record {
        array = v.array;
        expected = v.expected;
        low = v.low;
        room = v.room;
        crc_16 = crc16_ccitt-lt (byte ∷ []) p.running_crc v.crc_16;
        seeded = λ h. not_both p.state e h;
      }))
  | inr e ↦ rw e (dispatch-IsValid p.state has_out p byte b refl v)
]

pub receive-IsValid :
    (bytes : List ℕ) {p : FrameParser} → All IsByte bytes → IsValid p → IsValid (receive p bytes).0
unfolding receive
receive-IsValid [] b v = v
receive-IsValid (byte ∷ bytes) b v = receive-IsValid bytes b.1 (feed-IsValid true byte b.0 v)

-- A frame comes out only at the last CRC byte, where the computed CRC equals the one received;
-- it has a legal length, the parser's array, and leaves the parser idle.
pub feed_frame :
    (has_out : Bool) {p q : FrameParser} {f : Frame} (byte : ℕ)
    → IsValid p
    → feed has_out p byte ≡ (q, some f)
    → (p.state ≡ crc_hi)
      × (p.running_crc ≡ u16 (bit_or p.crc_low (u16 (byte * 2 ^ 8))))
      × (f ≡ record p.frame { payload_len = p.expected_len })
      × (f.payload_len ≤ max_payload)
      × (length f.payload ≡ max_payload)
      × (in_progress q ≡ false)
unfolding feed in_progress
feed_frame has_out byte v e = ground arith
