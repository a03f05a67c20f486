-- ===== src/Common/Crc16/Laws.antt =====
-- The CRC of a buffer can be computed in pieces, and is a 16-bit number.
use agentic_engineering_trai.Base.{ℕ, zero, suc, ◌<◌, ◌≡◌, refl, List, [], ◌∷◌, ◌++◌, arith}
use agentic_engineering_trai.Common.Crc16.{crc_bit, crc_bits, crc_byte, crc16_ccitt}

-- Computing the CRC of a buffer is computing it of a first piece, and going on from there.
pub crc16_ccitt-append :
    (xs ys : List ℕ) (seed : ℕ) → crc16_ccitt (xs ++ ys) seed ≡ crc16_ccitt ys (crc16_ccitt xs seed)
unfolding crc16_ccitt
crc16_ccitt-append [] ys seed = refl
crc16_ccitt-append (x ∷ xs) ys seed = crc16_ccitt-append xs ys (crc_byte seed x)

pub crc16_ccitt-cons :
    (x : ℕ) (xs : List ℕ) (seed : ℕ) → crc16_ccitt (x ∷ xs) seed ≡ crc16_ccitt xs (crc_byte seed x)
unfolding crc16_ccitt
crc16_ccitt-cons x xs seed = refl

pub crc16_ccitt-nil : (seed : ℕ) → crc16_ccitt [] seed ≡ seed
unfolding crc16_ccitt
crc16_ccitt-nil seed = refl

crc_bit-lt : (crc : ℕ) → crc_bit crc < 65536
unfolding crc_bit
crc_bit-lt crc = ground arith

crc_bits-lt : (n crc : ℕ) → crc < 65536 → crc_bits n crc < 65536
unfolding crc_bits
crc_bits-lt zero crc h = h
crc_bits-lt (suc n) crc h = crc_bits-lt n (crc_bit crc) (crc_bit-lt crc)

pub crc_byte-lt : (crc byte : ℕ) → crc_byte crc byte < 65536
unfolding crc_byte
crc_byte-lt crc byte = crc_bits-lt 8 _ (omega arith)

-- The CRC fits the two bytes that carry it.
pub crc16_ccitt-lt : (xs : List ℕ) (seed : ℕ) → seed < 65536 → crc16_ccitt xs seed < 65536
unfolding crc16_ccitt
crc16_ccitt-lt [] seed h = h
crc16_ccitt-lt (x ∷ xs) seed h = crc16_ccitt-lt xs (crc_byte seed x) (crc_byte-lt seed x)
