-- ===== src/Sha256/Reference.antt =====
-- SHA-256 on whole messages, with the padding of FIPS 180-4. The compression of one block and the
-- first hash are those of the code.
use bitcoinstats.Common.{ℕ, zero, suc, ◌-◌, ◌*◌, ◌/◌, ◌%◌, List, [], ◌∷◌, ◌++◌, reverse}
use bitcoinstats.Common.{length, take, drop, replicate, le_bytes}
use bitcoinstats.Sha256.Compress.{Words8, sha256_guts}
use bitcoinstats.Sha256.{initial_hash, words_of}

-- The hash after `n` blocks of 64 bytes, from the front.
unfoldable pub hash_blocks : ℕ → Words8 → List ℕ → Words8
hash_blocks zero h bytes = h
hash_blocks (suc n) h bytes = hash_blocks n (sha256_guts h (take 64 bytes)) (drop 64 bytes)

-- The `n` low bytes of a number, highest first.
abbrev pub be_bytes : ℕ → ℕ → List ℕ
be_bytes n v = reverse (le_bytes n v)

-- One bit 1, zeros up to 56 bytes past a block, and the length in bits as a 64-bit number.
abbrev pub padding_of : ℕ → List ℕ
padding_of n = 0x80 ∷ (replicate ((119 - n % 64) % 64) 0 ++ be_bytes 8 (n * 8))

abbrev pub padded : List ℕ → List ℕ
padded msg = msg ++ padding_of (length msg)

abbrev pub be_words : List ℕ → List ℕ
be_words [] = []
be_words (w ∷ ws) = be_bytes 4 w ++ be_words ws

unfoldable pub reference_hash : List ℕ → List ℕ
unfolding words_of
reference_hash msg =
    be_words (words_of (hash_blocks (length (padded msg) / 64) initial_hash (padded msg)))
