-- ===== src/Sha256/Standard.antt =====
-- `computeSHA256` of src/SHA256.cpp is the hash of FIPS 180-4, its functions and constants included.
use bitcoinstats.Common.{ℕ, zero, suc, ◌+◌, ◌-◌, ◌*◌, ◌/◌, ◌%◌, ◌^◌, ◌≤◌, ◌<◌, arith}
use bitcoinstats.Common.{◌≡◌, refl, ap, ap₂, ◌∙◌, le_value}
use bitcoinstats.Common.{List, [], ◌∷◌, ◌++◌, get_or, length, take, drop, replicate}
use bitcoinstats.Common.{IsBytes, IsByte, All-take, All-drop, All-append}
use bitcoinstats.Common.{length-drop, length-take}
use bitcoinstats.Sha256.Compress.{Words8, byteswap, load_words, extend_words, do_round, do_rounds}
use bitcoinstats.Sha256.Compress.{add_words, sha256_guts, round_constants}
use bitcoinstats.Sha256.Compress.{big_sigma0, big_sigma1, small_sigma0, small_sigma1, ch, maj}
use bitcoinstats.Sha256.Byteswap.{byteswap-eq}
use bitcoinstats.Sha256.Reference.{hash_blocks, be_bytes, padding_of, padded, reference_hash}
use bitcoinstats.Sha256.Correct.{compute_sha256-reference}
use bitcoinstats.Sha256.Fips.{words_of_block, schedule, one_round, all_rounds, next_hash}
use bitcoinstats.Sha256.Fips.{constants, first_hash, blocks_hash, fips_hash}
use bitcoinstats.Sha256.Fips.{digest, sum0, sum1, mix0, mix1}
use bitcoinstats.Sha256.Choices.{ch-choose, maj-majority}
use bitcoinstats.Sha256.Finalize.{AreWords, guts-AreWords}
use bitcoinstats.Sha256.{initial_hash, words_of, compute_sha256}

round_constants-fractions : round_constants ≡ constants
round_constants-fractions = refl

initial_hash-fractions : initial_hash ≡ first_hash
initial_hash-fractions = refl

big_sigma0-sum0 : (x : ℕ) → big_sigma0 x ≡ sum0 x
unfolding big_sigma0
big_sigma0-sum0 x = refl

big_sigma1-sum1 : (x : ℕ) → big_sigma1 x ≡ sum1 x
unfolding big_sigma1
big_sigma1-sum1 x = refl

small_sigma0-mix0 : (x : ℕ) → small_sigma0 x ≡ mix0 x
unfolding small_sigma0
small_sigma0-mix0 x = refl

small_sigma1-mix1 : (x : ℕ) → small_sigma1 x ≡ mix1 x
unfolding small_sigma1
small_sigma1-mix1 x = refl

-- A word is loaded with its highest byte first.
load_word :
    (p q r s : ℕ)
    → p < 256
    → q < 256
    → r < 256
    → s < 256
    → byteswap (le_value (p ∷ q ∷ r ∷ s ∷ [])) ≡ le_value (s ∷ r ∷ q ∷ p ∷ [])
load_word p q r s hp hq hr hs =
    byteswap-eq (le_value (p ∷ q ∷ r ∷ s ∷ [])) (omega arith) ∙ omega arith

load_words-block :
    (n : ℕ) (cbuf : List ℕ)
    → IsBytes cbuf
    → 4 * n ≤ length cbuf
    → load_words n cbuf ≡ words_of_block n cbuf
unfolding load_words
load_words-block zero cbuf w h = refl
load_words-block (suc n) [] w h = absurd (omega arith)
load_words-block (suc n) (p ∷ []) w h = absurd (omega arith)
load_words-block (suc n) (p ∷ q ∷ []) w h = absurd (omega arith)
load_words-block (suc n) (p ∷ q ∷ r ∷ []) w h = absurd (omega arith)
load_words-block (suc n) (p ∷ q ∷ r ∷ s ∷ cbuf) (hp, (hq, (hr, (hs, w)))) h =
    ap₂ (λ x xs. x ∷ xs) (load_word p q r s hp hq hr hs) (load_words-block n cbuf w (omega arith))

extend_words-schedule : (n t : ℕ) (buf : List ℕ) → extend_words n t buf ≡ schedule n (16 + t) buf
unfolding extend_words
extend_words-schedule zero t buf = refl
extend_words-schedule (suc n) t buf =
    let e2 : t + 14 ≡ 16 + t - 2 = omega arith in
    let e7 : t + 9 ≡ 16 + t - 7 = omega arith in
    let e15 : t + 1 ≡ 16 + t - 15 = omega arith in
    let e16 : t ≡ 16 + t - 16 = omega arith in
    let next : ℕ → ℕ → ℕ → ℕ → List ℕ = λ i j k l.
      buf
      ++ (mix1 (get_or buf i 0) + get_or buf j 0 + mix0 (get_or buf k 0) + get_or buf l 0) % 2 ^ 32
        ∷ [] in
    extend_words-schedule n (t + 1) (next (t + 14) (t + 9) (t + 1) t)
    ∙ ap (λ (i : ℕ). schedule n i (next (t + 14) (t + 9) (t + 1) t)) (omega arith)
    ∙ ap (schedule n (16 + t + 1)) (
        ap₂ (λ i j. next i j (t + 1) t) e2 e7
        ∙ ap₂ (λ k l. next (16 + t - 2) (16 + t - 7) k l) e15 e16)

-- A round with the values of `Ch` and `Maj`.
abbrev round_with : Words8 → ℕ → ℕ → ℕ → ℕ → Words8
round_with s k w u v =
    let t1 = (s.h + sum1 s.e + u + k + w) % 2 ^ 32 in
    let t2 = (sum0 s.a + v) % 2 ^ 32 in
    record {
      a = (t1 + t2) % 2 ^ 32;
      b = s.a;
      c = s.b;
      d = s.c;
      e = (s.d + t1) % 2 ^ 32;
      f = s.e;
      g = s.f;
      h = s.g;
    }

do_round-one_round : (s : Words8) (k w : ℕ) → AreWords s → do_round s k w ≡ one_round s k w
unfolding do_round ch maj
do_round-one_round s k w h =
    let c = ch-choose s.e s.f s.g (omega (arith, h)) (omega (arith, h)) (omega (arith, h)) in
    let m = maj-majority s.a s.b s.c (omega (arith, h)) (omega (arith, h)) (omega (arith, h)) in
    ap₂ (round_with s k w) c m

one_round-AreWords : (s : Words8) (k w : ℕ) → AreWords s → AreWords (one_round s k w)
one_round-AreWords s k w h = (omega arith, h.0, h.1, h.2, omega arith, h.4, h.5, h.6)

do_rounds-all_rounds :
    (s : Words8) (ks ws : List ℕ) → AreWords s → do_rounds s ks ws ≡ all_rounds s ks ws
unfolding do_rounds
do_rounds-all_rounds s [] ws h = refl
do_rounds-all_rounds s (k ∷ ks) [] h = refl
do_rounds-all_rounds s (k ∷ ks) (w ∷ ws) h =
    ap (λ (t : Words8). do_rounds t ks ws) (do_round-one_round s k w h)
    ∙ do_rounds-all_rounds (one_round s k w) ks ws (one_round-AreWords s k w h)

sha256_guts-next_hash :
    (h : Words8) (block : List ℕ)
    → AreWords h
    → IsBytes block
    → 64 ≤ length block
    → sha256_guts h block ≡ next_hash h block
unfolding sha256_guts add_words next_hash
sha256_guts-next_hash h block words bytes size =
    let loaded = load_words-block 16 block bytes size in
    let extended =
      ap (extend_words 48 0) loaded ∙ extend_words-schedule 48 0 (words_of_block 16 block) in
    ap (λ (buf : List ℕ). add_words h (do_rounds h round_constants buf)) extended
    ∙ ap (add_words h)
        (do_rounds-all_rounds h round_constants (schedule 48 16 (words_of_block 16 block)) words)

hash_blocks-blocks_hash :
    (n : ℕ) (h : Words8) (bytes : List ℕ)
    → AreWords h
    → IsBytes bytes
    → 64 * n ≤ length bytes
    → hash_blocks n h bytes ≡ blocks_hash n h bytes
unfolding hash_blocks blocks_hash
hash_blocks-blocks_hash zero h bytes words w size = refl
hash_blocks-blocks_hash (suc n) h bytes words w size =
    let block = take 64 bytes in
    let one =
      sha256_guts-next_hash h block words (All-take IsByte 64 bytes w)
        (omega (arith, length-take 64 bytes)) in
    hash_blocks-blocks_hash n (sha256_guts h block) (drop 64 bytes) (guts-AreWords h block)
      (All-drop IsByte 64 bytes w) (omega (arith, length-drop 64 bytes))
    ∙ ap (λ (t : Words8). blocks_hash n t (drop 64 bytes)) one

zeros-IsBytes : (n : ℕ) → IsBytes (replicate n 0)
zeros-IsBytes zero = tt
zeros-IsBytes (suc n) = (omega arith, zeros-IsBytes n)

be_bytes-IsBytes : (v : ℕ) → IsBytes (be_bytes 8 v)
be_bytes-IsBytes v = (
  omega arith,
  (
    omega arith,
    (omega arith, (omega arith, (omega arith, (omega arith, (omega arith, (omega arith, tt)))))),
  ),
)

padded-IsBytes : (msg : List ℕ) → IsBytes msg → IsBytes (padded msg)
padded-IsBytes msg w =
    let n = length msg in
    All-append IsByte msg (padding_of n) w (
      omega arith,
      All-append IsByte (replicate ((119 - n % 64) % 64) 0) (be_bytes 8 (n * 8)) (zeros-IsBytes _)
          (be_bytes-IsBytes (n * 8)),
    )

reference_hash-fips_hash : (msg : List ℕ) → IsBytes msg → reference_hash msg ≡ fips_hash msg
unfolding reference_hash words_of fips_hash
reference_hash-fips_hash msg w =
    let bytes = padded msg in
    ap digest (
      hash_blocks-blocks_hash (length bytes / 64) initial_hash bytes (omega arith)
        (padded-IsBytes msg w) (omega arith))

-- For every message of bytes, `computeSHA256` is the hash that FIPS 180-4 defines: with its
-- functions on words, the constants as fractions of roots of primes, the message schedule, the 64
-- rounds of every block, and the padding, whose length is counted modulo 2 ^ 64.
pub compute_sha256-fips_hash : (msg : List ℕ) → IsBytes msg → compute_sha256 msg ≡ fips_hash msg
compute_sha256-fips_hash msg w = compute_sha256-reference msg ∙ reference_hash-fips_hash msg w
