-- ===== src/Image/Crc.antt =====
-- `binascii.crc_hqx`, the CRC-16 (polynomial 0x1021, high bit first) with which
-- firmware/family/image_metadata.py checks an image, bit by bit.
use Prim.Native.Nat.{bit_xor}
use thermocouple.Prelude.{
  ℕ, zero, suc, ◌*◌, ◌%◌, ◌<◌, ◌≡◌, refl, List, [], ◌∷◌, codes, leb, arith, if◌then◌else◌,
}

shift_bit : ℕ → ℕ
shift_bit crc = (if leb 0x8000 crc then bit_xor (crc * 2 % 0x10000) 0x1021 else crc * 2) % 0x10000

shift_bits : ℕ → ℕ → ℕ
shift_bits zero crc = crc
shift_bits (suc n) crc = shift_bits n (shift_bit crc)

unfoldable pub crc_hqx : List ℕ → ℕ → ℕ
unfolding shift_bit shift_bits
crc_hqx [] crc = crc
crc_hqx (b ∷ bytes) crc = crc_hqx bytes (shift_bits 8 (bit_xor crc (b * 0x100)))

-- A register that starts in 16 bits stays there.
shift_bits-lt : (n crc : ℕ) → crc < 0x10000 → shift_bits n crc < 0x10000
unfolding shift_bits shift_bit
shift_bits-lt zero crc h = h
shift_bits-lt (suc n) crc h = shift_bits-lt n _ (omega arith)

-- The published check value of this CRC from 0xFFFF.
check_value : crc_hqx (codes "123456789") 0xFFFF ≡ 0x29B1
unfolding crc_hqx
check_value = refl
