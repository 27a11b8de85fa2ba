-- ===== src/Sha256/Fips.antt =====
-- SHA-256 as FIPS 180-4 has it, with its own functions, constants, schedule and rounds. Of the
-- development it uses the padding and the byte order of `Reference`, and the record of eight words.
use bitcoinstats.Common.{ℕ, zero, suc, ◌+◌, ◌-◌, ◌*◌, ◌/◌, ◌%◌, ◌^◌, leb, if◌then◌else◌}
use bitcoinstats.Common.{bit_and, bit_or, bit_xor, List, [], ◌∷◌, ◌++◌, map, reverse, get_or}
use bitcoinstats.Common.{length, take, drop, le_value}
use bitcoinstats.Sha256.Compress.{Words8}
use bitcoinstats.Sha256.Reference.{be_words, padded}

-- 3.2: the rotation of a word to the right.
abbrev pub rotated : ℕ → ℕ → ℕ
rotated n x = bit_or (x / 2 ^ n) (x * 2 ^ (32 - n) % 2 ^ 32)

-- 4.1.2: the functions on words.
abbrev pub choose : ℕ → ℕ → ℕ → ℕ
choose x y z = bit_xor (bit_and x y) (bit_and (2 ^ 32 - 1 - x) z)

abbrev pub majority : ℕ → ℕ → ℕ → ℕ
majority x y z = bit_xor (bit_xor (bit_and x y) (bit_and x z)) (bit_and y z)

abbrev pub sum0 : ℕ → ℕ
sum0 x = bit_xor (bit_xor (rotated 2 x) (rotated 13 x)) (rotated 22 x)

abbrev pub sum1 : ℕ → ℕ
sum1 x = bit_xor (bit_xor (rotated 6 x) (rotated 11 x)) (rotated 25 x)

abbrev pub mix0 : ℕ → ℕ
mix0 x = bit_xor (bit_xor (rotated 7 x) (rotated 18 x)) (x / 2 ^ 3)

abbrev pub mix1 : ℕ → ℕ
mix1 x = bit_xor (bit_xor (rotated 17 x) (rotated 19 x)) (x / 2 ^ 10)

-- The root of `n` of degree `d`, rounded down, by its binary digits from the `k`-th down.
abbrev root : ℕ → ℕ → ℕ → ℕ → ℕ
root d n zero r = r
root d n (suc k) r = root d n k (if leb ((r + 2 ^ k) ^ d) n then r + 2 ^ k else r)

-- The first 32 bits of the fraction of a root.
abbrev pub fraction : ℕ → ℕ → ℕ
fraction d n = root d (n * 2 ^ (32 * d)) 40 0 % 2 ^ 32

abbrev pub primes : List ℕ
primes =
    2 ∷ 3 ∷ 5 ∷ 7 ∷ 11 ∷ 13 ∷ 17 ∷ 19 ∷ 23 ∷ 29 ∷ 31 ∷ 37 ∷ 41 ∷ 43 ∷ 47 ∷ 53 ∷ 59 ∷ 61 ∷ 67 ∷ 71
    ∷ 73 ∷ 79 ∷ 83 ∷ 89 ∷ 97 ∷ 101 ∷ 103 ∷ 107 ∷ 109 ∷ 113 ∷ 127 ∷ 131 ∷ 137 ∷ 139 ∷ 149 ∷ 151 ∷ 157
    ∷ 163 ∷ 167 ∷ 173 ∷ 179 ∷ 181 ∷ 191 ∷ 193 ∷ 197 ∷ 199 ∷ 211 ∷ 223 ∷ 227 ∷ 229 ∷ 233 ∷ 239 ∷ 241
    ∷ 251 ∷ 257 ∷ 263 ∷ 269 ∷ 271 ∷ 277 ∷ 281 ∷ 283 ∷ 293 ∷ 307 ∷ 311 ∷ []

-- 4.2.2: the fractions of the cube roots of the first 64 primes.
abbrev pub constants : List ℕ
constants = map (fraction 3) primes

-- 5.3.3: the fractions of the square roots of the first eight primes.
abbrev pub first_hash : Words8
first_hash = record {
  a = fraction 2 2;
  b = fraction 2 3;
  c = fraction 2 5;
  d = fraction 2 7;
  e = fraction 2 11;
  f = fraction 2 13;
  g = fraction 2 17;
  h = fraction 2 19;
}

-- 5.2.1: a block as words, their highest byte first.
abbrev pub words_of_block : ℕ → List ℕ → List ℕ
words_of_block zero bytes = []
words_of_block (suc n) bytes = le_value (reverse (take 4 bytes)) ∷ words_of_block n (drop 4 bytes)

-- 6.2.2, step 1: the message schedule, from the word `t` on.
abbrev pub schedule : ℕ → ℕ → List ℕ → List ℕ
schedule zero t ws = ws
schedule (suc n) t ws = schedule n (t + 1) (
    ws
    ++ (mix1 (get_or ws (t - 2) 0)
          + get_or ws (t - 7) 0
          + mix0 (get_or ws (t - 15) 0)
          + get_or ws (t - 16) 0)
        % 2 ^ 32
      ∷ [])

-- 6.2.2, step 3.
abbrev pub one_round : Words8 → ℕ → ℕ → Words8
one_round s k w =
    let t1 = (s.h + sum1 s.e + choose s.e s.f s.g + k + w) % 2 ^ 32 in
    let t2 = (sum0 s.a + majority s.a s.b s.c) % 2 ^ 32 in
    record {
      a = (t1 + t2) % 2 ^ 32;
      b = s.a;
      c = s.b;
      d = s.c;
      e = (s.d + t1) % 2 ^ 32;
      f = s.e;
      g = s.f;
      h = s.g;
    }

abbrev pub all_rounds : Words8 → List ℕ → List ℕ → Words8
all_rounds s (k ∷ ks) (w ∷ ws) = all_rounds (one_round s k w) ks ws
all_rounds s _ _ = s

-- 6.2.2, step 4.
abbrev pub added : Words8 → Words8 → Words8
added s t = record {
  a = (s.a + t.a) % 2 ^ 32;
  b = (s.b + t.b) % 2 ^ 32;
  c = (s.c + t.c) % 2 ^ 32;
  d = (s.d + t.d) % 2 ^ 32;
  e = (s.e + t.e) % 2 ^ 32;
  f = (s.f + t.f) % 2 ^ 32;
  g = (s.g + t.g) % 2 ^ 32;
  h = (s.h + t.h) % 2 ^ 32;
}

unfoldable pub next_hash : Words8 → List ℕ → Words8
next_hash h block = added h (all_rounds h constants (schedule 48 16 (words_of_block 16 block)))

unfoldable pub blocks_hash : ℕ → Words8 → List ℕ → Words8
blocks_hash zero h bytes = h
blocks_hash (suc n) h bytes = blocks_hash n (next_hash h (take 64 bytes)) (drop 64 bytes)

abbrev pub digest : Words8 → List ℕ
digest w = be_words (w.a ∷ w.b ∷ w.c ∷ w.d ∷ w.e ∷ w.f ∷ w.g ∷ w.h ∷ [])

-- The hash of a message.
unfoldable pub fips_hash : List ℕ → List ℕ
fips_hash msg = digest (blocks_hash (length (padded msg) / 64) first_hash (padded msg))
