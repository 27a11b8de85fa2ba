-- ===== src/Varint/Tests.antt =====
-- The theorem on include/varint.h at a concrete input.
use bitcoinstats.Common.{◌+◌, ◌*◌, ◌%◌, ◌≡◌, [], ◌∷◌, ◌++◌, ltb, if◌then◌else◌, arith}
use bitcoinstats.BlockChain.Format.{compact_size}
use bitcoinstats.Varint.{read_varint, read_varint-compact_size}

read_varint_example :
    read_varint (compact_size 300 ++ 7 ∷ [])
    ≡ (if ltb 300 0xfd then (300, 1) else (0xfd + 256 * (300 % 256), 2))
read_varint_example = read_varint-compact_size 300 (7 ∷ []) (omega arith)
