-- ===== src/Sha256/Byteswap.antt =====
-- BYTESWAP of src/SHA256.cpp reverses the four bytes of a word, and BYTESWAP64 the eight.
use bitcoinstats.Common.{ℕ, ◌+◌, ◌*◌, ◌/◌, ◌%◌, ◌^◌, ◌<◌, bit_and, bit_or, ◌≡◌, ap, ap₂, ◌∙◌, arith}
use bitcoinstats.Common.{[], ◌∷◌, reverse, le_bytes, u32, ◌>>>◌}
use bitcoinstats.Common.Bits.{
  bit_or_fields, bit_or_disjoint, bit_and_fields, bit_and_mask, bit_and-zero, zero-bit_or,
  bit_or-zero,
}
use bitcoinstats.Sha256.Compress.{rotl, rotr, byteswap, byteswap64}

-- A byte of a masked word: kept under 0xff, cleared under 0.
keep_byte : (q r m : ℕ) → r < 256 → bit_and (q * 256 + r) (m * 256 + 255) ≡ bit_and q m * 256 + r
keep_byte q r m h =
    bit_and_fields 8 q m r 255 h (omega arith)
    ∙ ap (λ (t : ℕ). bit_and q m * 256 + t) (bit_and_mask 8 r ∙ omega arith)

clear_byte : (q r m : ℕ) → r < 256 → bit_and (q * 256 + r) (m * 256) ≡ bit_and q m * 256
clear_byte q r m h =
    ap (λ (t : ℕ). bit_and (q * 256 + r) t) (let e : m * 256 ≡ m * 256 + 0 = omega arith in e)
    ∙ bit_and_fields 8 q m r 0 h (omega arith)
    ∙ rw (bit_and-zero r) (omega arith)

-- The word with these bytes, highest first.
abbrev word : ℕ → ℕ → ℕ → ℕ → ℕ
word p q r s = ((p * 256 + q) * 256 + r) * 256 + s

high_byte : (p q : ℕ) → p < 256 → q < 256 → bit_and (p * 256 + q) 0xff00 ≡ p * 256
high_byte p q hp hq = clear_byte p q 0xff hq ∙ omega (arith, bit_and_mask 8 p)

low_byte : (p q : ℕ) → q < 256 → bit_and (p * 256 + q) 0xff ≡ q
low_byte p q hq = keep_byte p q 0 hq ∙ omega (arith, bit_and-zero p)

and_odd :
    (p q r s : ℕ)
    → p < 256
    → q < 256
    → r < 256
    → s < 256
    → bit_and (word p q r s) 0xff00ff00 ≡ word p 0 r 0
and_odd p q r s hp hq hr hs =
    clear_byte ((p * 256 + q) * 256 + r) s 0xff00ff hs
    ∙ omega (arith, keep_byte (p * 256 + q) r 0xff00 hr, high_byte p q hp hq)

and_even :
    (p q r s : ℕ)
    → p < 256
    → q < 256
    → r < 256
    → s < 256
    → bit_and (word p q r s) 0x00ff00ff ≡ word 0 q 0 s
and_even p q r s hp hq hr hs =
    keep_byte ((p * 256 + q) * 256 + r) s 0xff00 hs
    ∙ omega (arith, clear_byte (p * 256 + q) r 0xff hr, low_byte p q hq)

-- `|` of a high field and a low one, in either order.
or_low_high : (k q r : ℕ) → 0 < 2 ^ k → r < 2 ^ k → bit_or r (q * 2 ^ k) ≡ q * 2 ^ k + r
or_low_high k q r pos h =
    ap₂ bit_or (let e : r ≡ 0 * 2 ^ k + r = omega arith in e)
      (let e : q * 2 ^ k ≡ q * 2 ^ k + 0 = omega arith in e)
    ∙ bit_or_fields k 0 q r 0 h pos
    ∙ rw (zero-bit_or q, bit_or-zero r)

rotr-word :
    (p q r s : ℕ) → p < 256 → q < 256 → r < 256 → s < 256 → rotr (word p q r s) 8 ≡ word s p q r
unfolding rotr
rotr-word p q r s hp hq hr hs =
    ap₂ bit_or (let e : word p q r s / 2 ^ 8 ≡ word 0 p q r = omega arith in e)
      (let e : u32 (word p q r s * 2 ^ 24) ≡ s * 2 ^ 24 = omega arith in e)
    ∙ or_low_high 24 s (word 0 p q r) (omega arith) (omega arith)
    ∙ omega arith

rotl-word :
    (p q r s : ℕ) → p < 256 → q < 256 → r < 256 → s < 256 → rotl (word p q r s) 8 ≡ word q r s p
unfolding rotl
rotl-word p q r s hp hq hr hs =
    ap₂ bit_or (let e : u32 (word p q r s * 2 ^ 8) ≡ word 0 q r s * 2 ^ 8 = omega arith in e)
      (let e : word p q r s / 2 ^ 24 ≡ p = omega arith in e)
    ∙ bit_or_disjoint 8 (word 0 q r s) p (omega arith)
    ∙ omega arith

or_words :
    (p q r s : ℕ)
    → p < 256
    → q < 256
    → r < 256
    → s < 256
    → bit_or (word p 0 r 0) (word 0 q 0 s) ≡ word p q r s
or_words p q r s hp hq hr hs =
    ap₂ bit_or (let e : word p 0 r 0 ≡ word 0 p 0 r * 2 ^ 8 + 0 = omega arith in e)
      (let e : word 0 q 0 s ≡ word 0 0 q 0 * 2 ^ 8 + s = omega arith in e)
    ∙ bit_or_fields 8 (word 0 p 0 r) (word 0 0 q 0) 0 s (omega arith) hs
    ∙ ap₂ (λ (t u : ℕ). t * 2 ^ 8 + u) upper (zero-bit_or s)
    ∙ omega arith
  where
    top : bit_or p 0 ≡ p
    top = bit_or-zero p

    middle : bit_or (p * 2 ^ 8) q ≡ p * 2 ^ 8 + q
    middle = bit_or_disjoint 8 p q hq

    upper : bit_or (word 0 p 0 r) (word 0 0 q 0) ≡ word 0 p q r
    upper =
        ap₂ bit_or (let e : word 0 p 0 r ≡ (p * 2 ^ 8) * 2 ^ 8 + r = omega arith in e)
          (let e : word 0 0 q 0 ≡ q * 2 ^ 8 + 0 = omega arith in e)
        ∙ bit_or_fields 8 (p * 2 ^ 8) q r 0 hr (omega arith)
        ∙ ap₂ (λ (t u : ℕ). t * 2 ^ 8 + u) middle (bit_or-zero r)
        ∙ omega arith

byteswap-word :
    (p q r s : ℕ) → p < 256 → q < 256 → r < 256 → s < 256 → byteswap (word p q r s) ≡ word s r q p
unfolding byteswap
byteswap-word p q r s hp hq hr hs =
    ap₂ (λ (t u : ℕ). bit_or (bit_and t 0xff00ff00) (bit_and u 0x00ff00ff))
      (rotr-word p q r s hp hq hr hs) (rotl-word p q r s hp hq hr hs)
    ∙ ap₂ bit_or (and_odd s p q r hs hp hq hr) (and_even q r s p hq hr hs hp)
    ∙ or_words s r q p hs hr hq hp

pub byteswap-eq :
    (w : ℕ)
    → w < 2 ^ 32
    → byteswap w ≡ word (w % 256) (w / 256 % 256) (w / 256 / 256 % 256) (w / 256 / 256 / 256)
byteswap-eq w h =
    ap byteswap (
      let e : w ≡ word (w / 256 / 256 / 256) (w / 256 / 256 % 256) (w / 256 % 256) (w % 256) =
        omega arith in
      e)
    ∙ byteswap-word (w / 256 / 256 / 256) (w / 256 / 256 % 256) (w / 256 % 256) (w % 256)
        (omega arith) (omega arith) (omega arith) (omega arith)

pub byteswap-lt : (w : ℕ) → w < 2 ^ 32 → byteswap w < 2 ^ 32
byteswap-lt w h = omega (arith, byteswap-eq w h)

cons4 :
    {a b c d a' b' c' d' : ℕ}
    → a ≡ a'
    → b ≡ b'
    → c ≡ c'
    → d ≡ d'
    → a ∷ b ∷ c ∷ d ∷ [] ≡ a' ∷ b' ∷ c' ∷ d' ∷ []
cons4 p q r s = cc

-- For a word of 32 bits, storing the swapped word writes the word's bytes highest first.
pub le_bytes-byteswap : (w : ℕ) → w < 2 ^ 32 → le_bytes 4 (byteswap w) ≡ reverse (le_bytes 4 w)
le_bytes-byteswap w h =
    let e = byteswap-eq w h in
    cons4 (omega (arith, e)) (omega (arith, e)) (omega (arith, e)) (omega (arith, e))

pub byteswap64-eq :
    (x : ℕ) → x < 2 ^ 64 → byteswap64 x ≡ byteswap (x % 2 ^ 32) * 2 ^ 32 + byteswap (x / 2 ^ 32)
unfolding byteswap64
byteswap64-eq x h =
    let e : u32 (x >>> 32) ≡ x / 2 ^ 32 = omega arith in
    rw e (bit_or_disjoint 32 _ _ (byteswap-lt (x / 2 ^ 32) (omega arith)))
