-- ===== src/Sha256/Compress.antt =====
-- src/SHA256.cpp: the macros, the constants and `SHA256Guts`, the compression of one block.
-- Pointers that walk an array are indices. `uint32_t` wraps are written out by `u32`.
use bitcoinstats.Common.{ℕ, zero, suc, ◌+◌, ◌-◌, bit_and, bit_or, bit_xor}
use bitcoinstats.Common.{List, [], ◌∷◌, ◌++◌, get_or, take, drop, u32, ◌<<<◌, ◌>>>◌, le_value}

-- ROTL and ROTR on `uint32_t`.
unfoldable pub rotl : ℕ → ℕ → ℕ
rotl x n = bit_or (u32 (x <<< n)) (x >>> (32 - n))

unfoldable pub rotr : ℕ → ℕ → ℕ
rotr x n = bit_or (x >>> n) (u32 (x <<< (32 - n)))

unfoldable pub ch : ℕ → ℕ → ℕ → ℕ
ch x y z = bit_xor z (bit_and x (bit_xor y z))

unfoldable pub maj : ℕ → ℕ → ℕ → ℕ
maj x y z = bit_or (bit_and x (bit_or y z)) (bit_and y z)

-- SIGMA0, SIGMA1, sigma0 and sigma1; the source tells them apart by capitals.
unfoldable pub big_sigma0 : ℕ → ℕ
unfolding rotr
big_sigma0 x = bit_xor (bit_xor (rotr x 2) (rotr x 13)) (rotr x 22)

unfoldable pub big_sigma1 : ℕ → ℕ
unfolding rotr
big_sigma1 x = bit_xor (bit_xor (rotr x 6) (rotr x 11)) (rotr x 25)

unfoldable pub small_sigma0 : ℕ → ℕ
unfolding rotr
small_sigma0 x = bit_xor (bit_xor (rotr x 7) (rotr x 18)) (x >>> 3)

unfoldable pub small_sigma1 : ℕ → ℕ
unfolding rotr
small_sigma1 x = bit_xor (bit_xor (rotr x 17) (rotr x 19)) (x >>> 10)

-- BYTESWAP on a little-endian processor, the configuration that the file is compiled in.
unfoldable pub byteswap : ℕ → ℕ
unfolding rotl rotr
byteswap x = bit_or (bit_and (rotr x 8) 0xff00ff00) (bit_and (rotl x 8) 0x00ff00ff)

-- BYTESWAP64
unfoldable pub byteswap64 : ℕ → ℕ
unfolding byteswap
byteswap64 x = let a = u32 (x >>> 32) in let b = u32 x in bit_or (byteswap b <<< 32) (byteswap a)

abbrev pub round_constants : List ℕ
round_constants =
    0x428a2f98 ∷ 0x71374491 ∷ 0xb5c0fbcf ∷ 0xe9b5dba5 ∷ 0x3956c25b ∷ 0x59f111f1 ∷ 0x923f82a4
    ∷ 0xab1c5ed5 ∷ 0xd807aa98 ∷ 0x12835b01 ∷ 0x243185be ∷ 0x550c7dc3 ∷ 0x72be5d74 ∷ 0x80deb1fe
    ∷ 0x9bdc06a7 ∷ 0xc19bf174 ∷ 0xe49b69c1 ∷ 0xefbe4786 ∷ 0x0fc19dc6 ∷ 0x240ca1cc ∷ 0x2de92c6f
    ∷ 0x4a7484aa ∷ 0x5cb0a9dc ∷ 0x76f988da ∷ 0x983e5152 ∷ 0xa831c66d ∷ 0xb00327c8 ∷ 0xbf597fc7
    ∷ 0xc6e00bf3 ∷ 0xd5a79147 ∷ 0x06ca6351 ∷ 0x14292967 ∷ 0x27b70a85 ∷ 0x2e1b2138 ∷ 0x4d2c6dfc
    ∷ 0x53380d13 ∷ 0x650a7354 ∷ 0x766a0abb ∷ 0x81c2c92e ∷ 0x92722c85 ∷ 0xa2bfe8a1 ∷ 0xa81a664b
    ∷ 0xc24b8b70 ∷ 0xc76c51a3 ∷ 0xd192e819 ∷ 0xd6990624 ∷ 0xf40e3585 ∷ 0x106aa070 ∷ 0x19a4c116
    ∷ 0x1e376c08 ∷ 0x2748774c ∷ 0x34b0bcb5 ∷ 0x391c0cb3 ∷ 0x4ed8aa4a ∷ 0x5b9cca4f ∷ 0x682e6ff3
    ∷ 0x748f82ee ∷ 0x78a5636f ∷ 0x84c87814 ∷ 0x8cc70208 ∷ 0x90befffa ∷ 0xa4506ceb ∷ 0xbef9a3f7
    ∷ 0xc67178f2 ∷ []

-- The local variables `a` to `h`, and `sc->hash`.
pub record Words8 : Type 0 where
  pub a : ℕ
  pub b : ℕ
  pub c : ℕ
  pub d : ℕ
  pub e : ℕ
  pub f : ℕ
  pub g : ℕ
  pub h : ℕ

-- DO_ROUND with `k` for `*Kp` and `w` for `*W`.
unfoldable pub do_round : Words8 → ℕ → ℕ → Words8
unfolding big_sigma0 big_sigma1 ch maj
do_round s k w =
    let t1 = u32 (s.h + big_sigma1 s.e + ch s.e s.f s.g + k + w) in
    let t2 = u32 (big_sigma0 s.a + maj s.a s.b s.c) in
    record {
      a = u32 (t1 + t2);
      b = s.a;
      c = s.b;
      d = s.c;
      e = u32 (s.d + t1);
      f = s.e;
      g = s.f;
      h = s.g;
    }

-- The 64 rounds, written out one after the other in the source.
unfoldable pub do_rounds : Words8 → List ℕ → List ℕ → Words8
unfolding do_round
do_rounds s (k ∷ ks) (w ∷ ws) = do_rounds (do_round s k w) ks ws
do_rounds s _ _ = s

-- `*(W++) = BYTESWAP(*cbuf)` for the 16 words of the block.
unfoldable pub load_words : ℕ → List ℕ → List ℕ
unfolding byteswap
load_words zero cbuf = []
load_words (suc n) cbuf = byteswap (le_value (take 4 cbuf)) ∷ load_words n (drop 4 cbuf)

-- The 48 further words: `W16`, `W15`, `W7` and `W2` are at `t`, `t + 1`, `t + 9` and `t + 14`.
unfoldable pub extend_words : ℕ → ℕ → List ℕ → List ℕ
unfolding small_sigma0 small_sigma1
extend_words zero t buf = buf
extend_words (suc n) t buf = extend_words n (t + 1) (
    buf
    ++ u32 (
        small_sigma1 (get_or buf (t + 14) 0)
        + get_or buf (t + 9) 0
        + small_sigma0 (get_or buf (t + 1) 0)
        + get_or buf t 0)
      ∷ [])

unfoldable pub add_words : Words8 → Words8 → Words8
add_words s t = record {
  a = u32 (s.a + t.a);
  b = u32 (s.b + t.b);
  c = u32 (s.c + t.c);
  d = u32 (s.d + t.d);
  e = u32 (s.e + t.e);
  f = u32 (s.f + t.f);
  g = u32 (s.g + t.g);
  h = u32 (s.h + t.h);
}

-- SHA256Guts: the new `sc->hash` from the old one and the 64 bytes at `cbuf`.
unfoldable pub sha256_guts : Words8 → List ℕ → Words8
sha256_guts hash cbuf =
    let buf = extend_words 48 0 (load_words 16 cbuf) in
    add_words hash (do_rounds hash round_constants buf)
