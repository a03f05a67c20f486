-- ===== src/Tools/C1linkDump/Capture.antt =====
-- The captures of a list of bytes, in any layout, are read as those bytes.
use agentic_engineering_trai.Base.{
  ℕ, ◌+◌, ◌*◌, ◌<◌, ◌≡◌, ◌≢◌, refl, ap, ap₂, ◌∙◌, ne→==, ◌^◌, bit_or, List, [], ◌∷◌, ◌++◌, Bool,
  true, false, none, some, All, arith, bit_or_fields,
}
use agentic_engineering_trai.Common.Text.{is_white}
use agentic_engineering_trai.Tools.C1linkDump.{
  hex_value, read_chars, read_char, Nibble, take_value, still_comment,
}

-- A hexadecimal digit and its value.
pub data HexDigit : ℕ → ℕ → Type 0 where
  digit : {v : ℕ} → v < 10 → HexDigit (b'0' + v) v
  lower : {v : ℕ} → v < 6 → HexDigit (b'a' + v) (10 + v)
  upper : {v : ℕ} → v < 6 → HexDigit (b'A' + v) (10 + v)

-- A text that spells bytes: two digits each, with blanks before them and comments that end with their line.
pub data Spells : List ℕ → List ℕ → Type 0 where
  at_end : Spells [] []
  blank :
      {c : ℕ} {text bytes : List ℕ}
      → is_white c ≡ true
      → Spells text bytes
      → Spells (c ∷ text) bytes
  comment :
      {text bytes : List ℕ} (remark : List ℕ)
      → All (λ c. c ≢ b'\n') remark
      → Spells text bytes
      → Spells (b'#' ∷ remark ++ (b'\n' ∷ text)) bytes
  byte :
      {c d high low : ℕ} {text bytes : List ℕ}
      → HexDigit c high
      → HexDigit d low
      → Spells text bytes
      → Spells (c ∷ d ∷ text) ((high * 16 + low) ∷ bytes)

HexDigit-hex_value :
    {c v : ℕ}
    → HexDigit c v
    → (hex_value c ≡ some v) × (v < 16) × (c ≢ b'#') × (c ≢ b'\n') × (is_white c ≡ false)
unfolding hex_value
HexDigit-hex_value (digit {v} h) = ground arith
HexDigit-hex_value (lower {v} h) = ground arith
HexDigit-hex_value (upper {v} h) = ground arith

-- One character, by what it does to the two flags of the loop.
read_one :
    (was now : Bool) (before after : Nibble) (pushed : List ℕ) (c : ℕ) (s : List ℕ)
    → still_comment was c ≡ now
    → read_char was before c ≡ (after, pushed)
    → read_chars was before (c ∷ s) ≡ pushed ++ read_chars now after s
unfolding read_chars
read_one was now before after pushed c s p q = ap₂ (λ k m. m.1 ++ read_chars k m.0 s) p q

read_blank :
    (c : ℕ) (s : List ℕ)
    → is_white c ≡ true
    → read_chars false none (c ∷ s) ≡ read_chars false none s
read_blank c s h = read_one false false none none [] c s (ground arith) (ground arith)

read_remark :
    (remark text : List ℕ)
    → All (λ c. c ≢ b'\n') remark
    → read_chars true none (remark ++ (b'\n' ∷ text)) ≡ read_chars false none text
read_remark [] text h = read_one true false none none [] b'\n' text refl refl
read_remark (c ∷ cs) text h =
    read_one true true none none [] c (cs ++ (b'\n' ∷ text)) (rw (ne→== c b'\n' h.0) refl)
      (rw (ne→== c b'\n' h.0) refl)
    ∙ read_remark cs text h.1

digit_char :
    (c v : ℕ) (nibble : Nibble)
    → HexDigit c v
    → (still_comment false c ≡ false) × (read_char false nibble c ≡ take_value nibble (some v))
digit_char c v nibble h =
    let (value, small, sharp, newline, white) = HexDigit-hex_value h in
    (ground arith, rw (value, white, ne→== c b'#' sharp) refl)

join_nibbles : (high low : ℕ) → low < 16 → bit_or low (high * 2 ^ 4) ≡ high * 16 + low
join_nibbles high low h = bit_or_fields 4 low high h ∙ omega arith

read_byte :
    (c d high low : ℕ) (s : List ℕ)
    → HexDigit c high
    → HexDigit d low
    → read_chars false none (c ∷ d ∷ s) ≡ (high * 16 + low) ∷ read_chars false none s
read_byte c d high low s p q =
    let (calm, first) = digit_char c high none p in
    let (calm', second) = digit_char d low (some high) q in
    read_one false false none (some high) [] c (d ∷ s) calm first
    ∙ read_one false false (some high) none (bit_or low (high * 2 ^ 4) ∷ []) d s calm' second
    ∙ ap (λ k. k ∷ read_chars false none s) (join_nibbles high low (HexDigit-hex_value q).1)

-- A text that spells bytes is read as those bytes.
pub read_chars-Spells :
    {text bytes : List ℕ} → Spells text bytes → read_chars false none text ≡ bytes
unfolding read_chars
read_chars-Spells at_end = refl
read_chars-Spells (blank {c} {text} h s) = read_blank c text h ∙ read_chars-Spells s
read_chars-Spells (comment {text} remark h s) =
    refl {a = read_chars true none (remark ++ (b'\n' ∷ text))}
    ∙ read_remark remark text h
    ∙ read_chars-Spells s
read_chars-Spells (byte {c} {d} {high} {low} {text} p q s) =
    read_byte c d high low text p q ∙ ap (λ k. (high * 16 + low) ∷ k) (read_chars-Spells s)
