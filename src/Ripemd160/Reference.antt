-- ===== src/Ripemd160/Reference.antt =====
-- RIPEMD-160 on whole messages: the padding, the blocks as little-endian words, and the hash.
-- Only the compression of one block is shared with the code.
use bitcoinstats.Common.{ℕ, zero, suc, ◌-◌, ◌*◌, ◌/◌, ◌%◌, List, [], ◌∷◌, ◌++◌}
use bitcoinstats.Common.{length, take, drop, replicate, le_bytes, le_value}
use bitcoinstats.Ripemd160.Compress.{Registers, compress}
use bitcoinstats.Ripemd160.{md_init, hashcode}

-- The first `n` little-endian words of some bytes.
abbrev pub word_list : ℕ → List ℕ → List ℕ
word_list zero bytes = []
word_list (suc n) bytes = le_value (take 4 bytes) ∷ word_list n (drop 4 bytes)

unfoldable pub md_blocks : ℕ → Registers → List ℕ → Registers
md_blocks zero md bytes = md
md_blocks (suc n) md bytes = md_blocks n (compress md (word_list 16 bytes)) (drop 64 bytes)

-- One bit 1, zeros up to 56 bytes past a block, and the length in bits, lowest byte first.
abbrev pub padding_of : ℕ → List ℕ
padding_of n = 0x80 ∷ (replicate ((119 - n % 64) % 64) 0 ++ le_bytes 8 (n * 8))

abbrev pub padded : List ℕ → List ℕ
padded msg = msg ++ padding_of (length msg)

unfoldable pub reference_hash : List ℕ → List ℕ
reference_hash msg = hashcode (md_blocks (length (padded msg) / 64) md_init (padded msg))
