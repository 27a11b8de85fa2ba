-- ===== src/Ripemd160.antt =====
-- src/RIPEMD160.cpp: `MDinit`, `MDfinish` and `computeRIPEMD160`. `MDbuf` is a record of five words
-- and `X` a list of 16.
pub mod Compress
pub mod Reference
pub mod Blocks
pub mod Finish
pub mod Correct
mod Tests
use bitcoinstats.Common.{ℕ, zero, suc, ◌+◌, ◌-◌, ◌*◌, ◌/◌, ◌%◌, ◌^◌, bit_and, bit_or, bit_xor}
use bitcoinstats.Common.{ltb, if◌then◌else◌, u32, ◌<<<◌, ◌>>>◌, le_bytes}
use bitcoinstats.Common.{List, [], ◌∷◌, ◌++◌, length, take, drop, replicate, get_or, set}
use Compress.{Registers, compress}

-- MDinit
abbrev pub md_init : Registers
md_init = record { a = 0x67452301; b = 0xefcdab89; c = 0x98badcfe; d = 0x10325476; e = 0xc3d2e1f0 }

-- BYTES_TO_DWORD
unfoldable pub bytes_to_dword : List ℕ → ℕ
bytes_to_dword p =
    bit_or (bit_or (bit_or (get_or p 3 0 <<< 24) (get_or p 2 0 <<< 16)) (get_or p 1 0 <<< 8))
      (get_or p 0 0)

-- `X[i] = BYTES_TO_DWORD(message); message += 4` for `n` words.
unfoldable pub load_dwords : ℕ → List ℕ → List ℕ
load_dwords zero message = []
load_dwords (suc n) message = bytes_to_dword message ∷ load_dwords n (drop 4 message)

-- `X[i>>2] ^= (uint32_t) byte << (8 * (i&3))`
unfoldable pub xor_byte : List ℕ → ℕ → ℕ → List ℕ
xor_byte x i byte =
    set x (i >>> 2) (bit_xor (get_or x (i >>> 2) 0) (u32 (byte <<< (8 * bit_and i 3))))

-- The loop of `MDfinish` from index `i` on, over the bytes that are left of the message.
unfoldable pub put_bytes : List ℕ → ℕ → List ℕ → List ℕ
put_bytes x i [] = x
put_bytes x i (b ∷ bs) = put_bytes (xor_byte x i b) (i + 1) bs

-- MDfinish
unfoldable pub md_finish : Registers → List ℕ → ℕ → ℕ → Registers
md_finish md strptr lswlen mswlen =
    let x0 = put_bytes (replicate 16 0) 0 (take (bit_and lswlen 63) strptr) in
    let word = bit_and (lswlen >>> 2) 15 in
    let x1 = set x0 word (bit_xor (get_or x0 word 0) (u32 (1 <<< (8 * bit_and lswlen 3 + 7)))) in
    let next = ltb 55 (bit_and lswlen 63) in
    let md' = if next then compress md x1 else md in
    let x2 = if next then replicate 16 0 else x1 in
    let x3 = set x2 14 (u32 (lswlen <<< 3)) in
    let x4 = set x3 15 (bit_or (lswlen >>> 29) (u32 (mswlen <<< 3))) in compress md' x4

-- The loop of `computeRIPEMD160` for the `n` whole chunks, and the bytes that it leaves.
unfoldable pub md_chunks : ℕ → Registers → List ℕ → Registers × List ℕ
md_chunks zero md message = (md, message)
md_chunks (suc n) md message = md_chunks n (compress md (load_dwords 16 message)) (drop 64 message)

unfoldable pub hashcode : Registers → List ℕ
hashcode md =
    le_bytes 4 md.a
    ++ (le_bytes 4 md.b ++ (le_bytes 4 md.c ++ (le_bytes 4 md.d ++ le_bytes 4 md.e)))

-- computeRIPEMD160
unfoldable pub compute_ripemd160 : List ℕ → List ℕ
compute_ripemd160 message =
    let done = md_chunks (length message / 64) md_init message in
    hashcode (md_finish done.0 done.1 (length message) 0)
