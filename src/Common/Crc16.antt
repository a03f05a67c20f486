-- ===== src/Common/Crc16.antt =====
-- common/crc16.cpp: CRC16-CCITT, bit by bit. The buffer is the list of its `len` bytes.
pub mod Laws
use agentic_engineering_trai.Base.{
  ℕ, zero, suc, ◌*◌, List, [], ◌∷◌, not, bit_and, bit_xor, ◌==◌, if◌then◌else◌, u16,
}

-- The seed that crc16.h gives as a default.
abbrev pub crc_seed : ℕ
crc_seed = 0xFFFF

-- One round of the inner loop.
unfoldable pub crc_bit : ℕ → ℕ
crc_bit crc =
    if not (bit_and crc 0x8000 == 0) then u16 (bit_xor (u16 (crc * 2)) 0x1021) else u16 (crc * 2)

unfoldable pub crc_bits : ℕ → ℕ → ℕ
unfolding crc_bit
crc_bits zero crc = crc
crc_bits (suc n) crc = crc_bits n (crc_bit crc)

-- One round of the outer loop.
unfoldable pub crc_byte : ℕ → ℕ → ℕ
unfolding crc_bits
crc_byte crc byte = crc_bits 8 (u16 (bit_xor crc (byte * 256)))

unfoldable pub crc16_ccitt : List ℕ → ℕ → ℕ
unfolding crc_byte
crc16_ccitt [] seed = seed
crc16_ccitt (byte ∷ rest) seed = crc16_ccitt rest (crc_byte seed byte)
