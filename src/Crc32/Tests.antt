-- ===== src/Crc32/Tests.antt =====
-- The theorem on src/CRC32.cpp at a concrete input, and runs of its model.
use bitcoinstats.Common.{◌≡◌, refl, arith, [], ◌∷◌}
use bitcoinstats.Crc32.{crc32}
use bitcoinstats.Crc32.Bitwise.{remainder_of, crc32-remainder_of}

-- The check value of this polynomial, with the complements that the caller takes.
check_value :
    crc32 (b'1' ∷ b'2' ∷ b'3' ∷ b'4' ∷ b'5' ∷ b'6' ∷ b'7' ∷ b'8' ∷ b'9' ∷ []) 0xffffffff
    ≡ 0x340bc6d9
unfolding crc32
check_value = refl

crc32-remainder_of_example :
    crc32 (1 ∷ 200 ∷ []) 0xffffffff ≡ remainder_of (1 ∷ 200 ∷ []) 0xffffffff
crc32-remainder_of_example =
    crc32-remainder_of (1 ∷ 200 ∷ []) 0xffffffff (omega arith, (omega arith, tt))
