-- ===== src/Sha256.antt =====
-- src/SHA256.cpp: the streaming context, `sha256_init`, `sha256_update`, `sha256_finalize` and
-- `computeSHA256`. `burnStack` only overwrites dead stack memory and has no counterpart.
pub mod Compress
pub mod Byteswap
pub mod Reference
mod Fips
mod Choices
mod Standard
pub mod Streaming
pub mod Update
pub mod Finalize
pub mod Correct
mod Tests
use bitcoinstats.Common.{ℕ, zero, suc, ◌+◌, ◌-◌, ◌*◌, ◌/◌, ◌%◌, ◌^◌, ltb, ◌==◌, if◌then◌else◌, min}
use bitcoinstats.Common.{List, [], ◌∷◌, ◌++◌, length, take, drop, replicate, u32, u64, le_bytes}
use Compress.{Words8, sha256_guts, byteswap, byteswap64}

-- `buffer` is the union's 64 bytes, of which the first `buffer_length` wait for a full block.
pub record Context : Type 0 where
  pub total_length : ℕ
  pub hash : Words8
  pub buffer_length : ℕ
  pub buffer : List ℕ

abbrev pub padding : List ℕ
padding = 0x80 ∷ replicate 63 0

abbrev pub initial_hash : Words8
initial_hash = record {
  a = 0x6a09e667;
  b = 0xbb67ae85;
  c = 0x3c6ef372;
  d = 0xa54ff53a;
  e = 0x510e527f;
  f = 0x9b05688c;
  g = 0x1f83d9ab;
  h = 0x5be0cd19;
}

-- The source leaves the buffer unset; its bytes are the parameter `buffer`.
unfoldable pub sha256_init : List ℕ → Context
sha256_init buffer = record {
  total_length = 0;
  hash = initial_hash;
  buffer_length = 0;
  buffer = buffer;
}

-- memcpy(&buffer[at], bytes, ...)
abbrev pub copy_to : List ℕ → ℕ → List ℕ → List ℕ
copy_to buffer at bytes = take at buffer ++ (bytes ++ drop (at + length bytes) buffer)

-- The first part of `sha256_update`, for a buffer that is not empty: the bytes that top it up, and
-- the compression of a buffer that became full.
unfoldable pub fill_buffer : Context → List ℕ → Context
fill_buffer sc bytes =
    let sc' : Context = record sc {
      buffer = copy_to sc.buffer sc.buffer_length bytes;
      total_length = u64 (sc.total_length + length bytes * 8);
      buffer_length = sc.buffer_length + length bytes;
    } in
    if sc'.buffer_length == 64
    then record sc' { hash = sha256_guts sc'.hash sc'.buffer; buffer_length = 0 }
    else sc'

-- `while (len > 63L)`: one round for each whole block, and the bytes that are left.
unfoldable pub full_blocks : ℕ → Context → List ℕ → Context × List ℕ
full_blocks zero sc bytes = (sc, bytes)
full_blocks (suc n) sc bytes =
    full_blocks n
      (record sc {
        total_length = u64 (sc.total_length + 512);
        hash = sha256_guts sc.hash (take 64 bytes);
      })
      (drop 64 bytes)

-- The last part: what is left goes into the buffer.
unfoldable pub keep_rest : Context → List ℕ → Context
keep_rest sc [] = sc
keep_rest sc (b ∷ bs) = record sc {
  buffer = copy_to sc.buffer sc.buffer_length (b ∷ bs);
  total_length = u64 (sc.total_length + length (b ∷ bs) * 8);
  buffer_length = sc.buffer_length + length (b ∷ bs);
}

-- `bytes` are the `len` bytes at `data`.
unfoldable pub sha256_update : Context → List ℕ → Context
unfolding fill_buffer full_blocks keep_rest
sha256_update sc bytes =
    let to_copy = if sc.buffer_length == 0 then 0 else min (64 - sc.buffer_length) (length bytes) in
    let sc1 = if sc.buffer_length == 0 then sc else fill_buffer sc (take to_copy bytes) in
    let rest = drop to_copy bytes in
    let done = full_blocks (length rest / 64) sc1 rest in keep_rest done.0 done.1

unfoldable pub words_of : Words8 → List ℕ
words_of w = w.a ∷ w.b ∷ w.c ∷ w.d ∷ w.e ∷ w.f ∷ w.g ∷ w.h ∷ []

-- `*((uint32_t *) hash) = BYTESWAP(sc->hash[i])` for each word.
unfoldable pub store_words : List ℕ → List ℕ
unfolding byteswap
store_words [] = []
store_words (w ∷ ws) = le_bytes 4 (byteswap w) ++ store_words ws

unfoldable pub sha256_finalize : Context → List ℕ
unfolding sha256_update words_of store_words byteswap64
sha256_finalize sc =
    let pad = 120 - sc.buffer_length in
    let bytes_to_pad = if ltb 64 pad then pad - 64 else pad in
    let length_pad = byteswap64 sc.total_length in
    let sc1 = sha256_update sc (take bytes_to_pad padding) in
    let sc2 = sha256_update sc1 (le_bytes 8 length_pad) in store_words (words_of sc2.hash)

unfoldable pub compute_sha256 : List ℕ → List ℕ
unfolding sha256_init sha256_update sha256_finalize
compute_sha256 input = sha256_finalize (sha256_update (sha256_init (replicate 64 0)) input)
