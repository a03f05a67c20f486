-- ===== src/Protocol/Wire/Fields.antt =====
-- The little-endian fields come back as they were put, whatever bytes follow.
use agentic_engineering_trai.Base.{
  ℕ, ◌+◌, ◌*◌, ◌/◌, ◌%◌, ◌^◌, ◌<◌, ◌≡◌, refl, ap, ◌∙◌, List, ◌∷◌, ◌++◌, ℤ, bit_or, u8, u16, arith,
  All, IsByte, IsInt16, IsInt32, bit_or_fields, drop, get_or, length, to_int16, to_int32, of_int16,
  of_int32, to_int16-of_int16, to_int32-of_int32, of_int16-lt, of_int32-lt,
}
use agentic_engineering_trai.Protocol.Wire.{
  TelemetryData, put_u16, get_u16, put_i16, get_i16, put_u32, get_u32, put_i32, get_i32,
  encode_telemetry, telemetry_payload_size,
}

pub put_u16-bytes : (v : ℕ) → All IsByte (put_u16 v)
unfolding put_u16
put_u16-bytes v = omega arith

-- Two bytes make up a 16-bit number.
pub get_u16_bytes :
    (lo hi : ℕ) (rest : List ℕ) → lo < 256 → hi < 256 → get_u16 (lo ∷ hi ∷ rest) ≡ lo + hi * 256
unfolding get_u16
get_u16_bytes lo hi rest p q =
    ap (λ t. u16 (bit_or lo t)) (omega arith) ∙ ap u16 (bit_or_fields 8 lo hi p) ∙ omega arith

pub get_u16-put_u16 : (v : ℕ) (rest : List ℕ) → v < 65536 → get_u16 (put_u16 v ++ rest) ≡ v
unfolding put_u16
get_u16-put_u16 v rest h =
    get_u16_bytes (v % 256) (u8 (v / 256)) rest (omega arith) (omega arith) ∙ omega arith

pub get_i16-put_i16 : (v : ℤ) (rest : List ℕ) → IsInt16 v → get_i16 (put_i16 v ++ rest) ≡ v
unfolding get_i16 put_i16
get_i16-put_i16 v rest h =
    ap (λ t. to_int16 t) (get_u16-put_u16 (of_int16 v) rest (of_int16-lt v)) ∙ to_int16-of_int16 v h

or_of_bytes :
    (a b c d : ℕ)
    → a < 256
    → b < 256
    → c < 256
    → bit_or (bit_or (bit_or a (b * 2 ^ 8)) (c * 2 ^ 16)) (d * 2 ^ 24)
      ≡ a + b * 2 ^ 8 + c * 2 ^ 16 + d * 2 ^ 24
or_of_bytes a b c d ha hb hc =
    ap (λ t. bit_or (bit_or t (c * 2 ^ 16)) (d * 2 ^ 24)) (bit_or_fields 8 a b (omega arith))
    ∙ ap (λ t. bit_or t (d * 2 ^ 24)) (bit_or_fields 16 (a + b * 2 ^ 8) c (omega arith))
    ∙ bit_or_fields 24 (a + b * 2 ^ 8 + c * 2 ^ 16) d (omega arith)

pub get_u32-put_u32 : (v : ℕ) (rest : List ℕ) → v < 4294967296 → get_u32 (put_u32 v ++ rest) ≡ v
unfolding get_u32 put_u32
get_u32-put_u32 v rest h =
    or_of_bytes (v % 256) (v / 2 ^ 8 % 256) (v / 2 ^ 16 % 256) (u8 (v / 2 ^ 24)) (omega arith)
      (omega arith) (omega arith)
    ∙ omega arith

pub get_i32-put_i32 : (v : ℤ) (rest : List ℕ) → IsInt32 v → get_i32 (put_i32 v ++ rest) ≡ v
unfolding get_i32 put_i32
get_i32-put_i32 v rest h =
    ap (λ t. to_int32 t) (get_u32-put_u32 (of_int32 v) rest (of_int32-lt v)) ∙ to_int32-of_int32 v h

-- What a receiver reads back at the offsets of the telemetry payload.
abbrev pub decode_telemetry : List ℕ → TelemetryData
decode_telemetry p = record {
  tick = get_u32 p;
  deci_celsius = get_i16 (drop 4 p);
  rpm = get_u16 (drop 6 p);
  grams = get_i32 (drop 8 p);
  flags = get_or p 12 0;
}

-- The values of a telemetry record fit their C types.
pub record IsSized (t : TelemetryData) : Type 0 where
  pub tick_32 : t.tick < 4294967296
  pub deci_16 : IsInt16 t.deci_celsius
  pub rpm_16 : t.rpm < 65536
  pub grams_32 : IsInt32 t.grams

-- Every telemetry field read from an encoded payload at its offset, whatever follows the payload,
-- is the field that was encoded, and the payload has the size that the receiver checks.
pub decode-encode_telemetry :
    (t : TelemetryData) (rest : List ℕ)
    → IsSized t
    → (decode_telemetry (encode_telemetry t ++ rest) ≡ t)
      × (length (encode_telemetry t) ≡ telemetry_payload_size)
unfolding encode_telemetry
decode-encode_telemetry t rest h = (
  λ i. record {
    tick =
        get_u32-put_u32 t.tick
          (put_i16 t.deci_celsius ++ put_u16 t.rpm ++ put_i32 t.grams ++ t.flags ∷ rest) h.tick_32
          i;
    deci_celsius =
        get_i16-put_i16 t.deci_celsius (put_u16 t.rpm ++ put_i32 t.grams ++ t.flags ∷ rest)
          h.deci_16 i;
    rpm = get_u16-put_u16 t.rpm (put_i32 t.grams ++ t.flags ∷ rest) h.rpm_16 i;
    grams = get_i32-put_i32 t.grams (t.flags ∷ rest) h.grams_32 i;
    flags = t.flags;
  },
  refl,
)
