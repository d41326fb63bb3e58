-- ===== src/Prelude/Crc.antt =====
-- `hash/crc32` with the IEEE polynomial, over a list of bytes.
use Prim.Native.Nat.{ℕ, zero, suc, ◌/◌, ◌%◌, bit_xor}
use mathlib.Core.List.{List, [], ◌∷◌}
use mathlib.Core.Path.{◌≡◌, refl}
use game_gateway.Prelude.Tests.{◌==◌, if◌then◌else◌}

crc_bits : ℕ → ℕ → ℕ
crc_bits zero crc = crc
crc_bits (suc k) crc = crc_bits k (if crc % 2 == 1 then bit_xor (crc / 2) 0xedb88320 else crc / 2)

crc_bytes : ℕ → List ℕ → ℕ
crc_bytes crc [] = crc
crc_bytes crc (b ∷ bs) = crc_bytes (crc_bits 8 (bit_xor crc b)) bs

unfoldable pub checksum_ieee : List ℕ → ℕ
unfolding crc_bits crc_bytes
checksum_ieee bs = bit_xor (crc_bytes 0xffffffff bs) 0xffffffff

-- The check value of the standard: the text "123456789".
check_value :
    checksum_ieee (b'1' ∷ b'2' ∷ b'3' ∷ b'4' ∷ b'5' ∷ b'6' ∷ b'7' ∷ b'8' ∷ b'9' ∷ []) ≡ 0xcbf43926
unfolding checksum_ieee
check_value = refl
