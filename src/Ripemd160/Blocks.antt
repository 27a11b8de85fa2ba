-- ===== src/Ripemd160/Blocks.antt =====
-- The words that src/RIPEMD160.cpp builds, byte by byte or by BYTES_TO_DWORD, are those of a block.
use bitcoinstats.Common.{ℕ, zero, suc, ◌+◌, ◌*◌, ◌^◌, ◌≤◌, ◌<◌, bit_and, bit_or, bit_xor, arith}
use bitcoinstats.Common.{◌≡◌, refl, sym, ap, ap₂, ◌∙◌, List, [], ◌∷◌, ◌++◌, append_assoc}
use bitcoinstats.Common.{length, take, replicate, get_or, set, length-append, All-append}
use bitcoinstats.Common.{u32, ◌>>>◌, le_value, IsByte, IsBytes}
use bitcoinstats.Common.Bits.{
  bit_or_disjoint, bit_xor_fields, bit_and_mask, bit_xor-zero, zero-bit_xor,
}
use bitcoinstats.Ripemd160.Reference.{word_list}
use bitcoinstats.Ripemd160.{bytes_to_dword, load_dwords, xor_byte, put_bytes}

-- A byte is put at bit `k` of a word that is clear there.
xor_clear :
    (k q r b : ℕ)
    → r < 2 ^ k
    → b < 256
    → bit_xor (q * 256 * 2 ^ k + r) (b * 2 ^ k) ≡ (q * 256 + b) * 2 ^ k + r
xor_clear k q r b hr hb =
    ap (bit_xor (q * 256 * 2 ^ k + r)) (let e : b * 2 ^ k ≡ b * 2 ^ k + 0 = omega arith in e)
    ∙ bit_xor_fields k (q * 256) b r 0 hr (omega arith)
    ∙ ap₂ (λ (t u : ℕ). t * 2 ^ k + u) low (bit_xor-zero r)
  where
    low : bit_xor (q * 256) b ≡ q * 256 + b
    low =
        ap₂ bit_xor (let e : q * 256 ≡ q * 2 ^ 8 + 0 = omega arith in e)
          (let e : b ≡ 0 * 2 ^ 8 + b = omega arith in e)
        ∙ bit_xor_fields 8 q 0 0 b (omega arith) hb
        ∙ rw (bit_xor-zero q, zero-bit_xor b)

-- `X[j] ^= byte << k`
abbrev xor_at : List ℕ → ℕ → ℕ → ℕ → List ℕ
xor_at x j k b = set x j (bit_xor (get_or x j 0) (u32 (b * 2 ^ k)))

xor_at_first :
    (k b w w' : ℕ) (ws : List ℕ)
    → k < 25
    → bit_xor w (u32 (b * 2 ^ k)) ≡ w'
    → xor_at (w ∷ ws) 0 k b ≡ w' ∷ ws
xor_at_first k b w w' ws h e = ap (λ t. t ∷ ws) e

pub xor_byte-word_list :
    (n : ℕ) (front rest : List ℕ) (b : ℕ)
    → length front < 4 * n
    → IsBytes front
    → b < 256
    → xor_byte (word_list n (front ++ (0 ∷ rest))) (length front) b
      ≡ word_list n (front ++ (b ∷ rest))
unfolding xor_byte
xor_byte-word_list zero front rest b room bytes hb = absurd (omega arith)
xor_byte-word_list (suc n) [] rest b room bytes hb =
    let v = le_value (take 3 rest) in
    xor_at_first 0 b _ _ _ (omega arith) (
      ap₂ bit_xor (let e : 0 + 256 * v ≡ v * 256 * 2 ^ 0 + 0 = omega arith in e)
        (let e : u32 (b * 2 ^ 0) ≡ b * 2 ^ 0 = omega arith in e)
      ∙ xor_clear 0 v 0 b (omega arith) hb
      ∙ omega arith)
xor_byte-word_list (suc n) (c ∷ []) rest b room bytes hb =
    let v = le_value (take 2 rest) in
    xor_at_first 8 b _ _ _ (omega arith) (
      ap₂ bit_xor (let e : c + 256 * (0 + 256 * v) ≡ v * 256 * 2 ^ 8 + c = omega arith in e)
        (let e : u32 (b * 2 ^ 8) ≡ b * 2 ^ 8 = omega arith in e)
      ∙ xor_clear 8 v c b (omega (arith, bytes.0)) hb
      ∙ omega arith)
xor_byte-word_list (suc n) (c ∷ d ∷ []) rest b room bytes hb =
    let v = le_value (take 1 rest) in
    xor_at_first 16 b _ _ _ (omega arith) (
      ap₂ bit_xor
        (let e : c + 256 * (d + 256 * (0 + 256 * v)) ≡ v * 256 * 2 ^ 16 + (c + 256 * d) =
            omega arith in
          e)
        (let e : u32 (b * 2 ^ 16) ≡ b * 2 ^ 16 = omega arith in e)
      ∙ xor_clear 16 v (c + 256 * d) b (omega (arith, bytes.0, bytes.1.0)) hb
      ∙ omega arith)
xor_byte-word_list (suc n) (c ∷ d ∷ e ∷ []) rest b room bytes hb =
    let low : ℕ = c + 256 * (d + 256 * e) in
    xor_at_first 24 b _ _ _ (omega arith) (
      ap₂ bit_xor
        (let p : c + 256 * (d + 256 * (e + 256 * (0 + 256 * 0))) ≡ 0 * 256 * 2 ^ 24 + low =
            omega arith in
          p)
        (let p : u32 (b * 2 ^ 24) ≡ b * 2 ^ 24 = omega arith in p)
      ∙ xor_clear 24 0 low b (omega (arith, bytes.0, bytes.1.0, bytes.1.1.0)) hb
      ∙ omega arith)
xor_byte-word_list (suc n) (c ∷ d ∷ e ∷ f ∷ front) rest b room bytes hb =
    let i = length front in
    let word : suc (suc (suc (suc i))) >>> 2 ≡ suc (i >>> 2) = omega arith in
    let shift : 8 * bit_and (suc (suc (suc (suc i)))) 3 ≡ 8 * bit_and i 3 =
      omega (arith, bit_and_mask 2 i, bit_and_mask 2 (suc (suc (suc (suc i))))) in
    let first = le_value (c ∷ d ∷ e ∷ f ∷ []) in
    ap₂ (λ j k. xor_at (first ∷ word_list n (front ++ (0 ∷ rest))) j k b) word shift
    ∙ ap (λ t. first ∷ t) (xor_byte-word_list n front rest b (omega arith) bytes.1.1.1.1 hb)

-- The loop of `MDfinish` fills in the bytes of the message, one after the other.
pub put_bytes-word_list :
    (front bytes : List ℕ) (k : ℕ)
    → length front + length bytes ≤ 64
    → IsBytes front
    → IsBytes bytes
    → put_bytes (word_list 16 (front ++ replicate (length bytes + k) 0)) (length front) bytes
      ≡ word_list 16 (front ++ (bytes ++ replicate k 0))
unfolding put_bytes
put_bytes-word_list front [] k room hf hb =
    ap (λ (m : ℕ). word_list 16 (front ++ replicate m 0)) (let e : 0 + k ≡ k = omega arith in e)
put_bytes-word_list front (b ∷ bs) k room hf hb =
    let zeros : List ℕ = replicate (length bs + k) 0 in
    let count : suc (length bs) + k ≡ suc (length bs + k) = omega arith in
    let index : length front + 1 ≡ length (front ++ (b ∷ [])) =
      omega (arith, length-append front (b ∷ [])) in
    ap
      (λ (m : ℕ).
        put_bytes (xor_byte (word_list 16 (front ++ replicate m 0)) (length front) b)
          (length front + 1) bs)
      count
    ∙ ap (λ x. put_bytes x (length front + 1) bs)
        (xor_byte-word_list 16 front zeros b (omega arith) hf hb.0
          ∙ ap (word_list 16) (sym (append_assoc front (b ∷ []) zeros)))
    ∙ ap (λ (m : ℕ). put_bytes (word_list 16 ((front ++ (b ∷ [])) ++ zeros)) m bs) index
    ∙ put_bytes-word_list (front ++ (b ∷ [])) bs k (omega (arith, length-append front (b ∷ [])))
        (All-append IsByte front (b ∷ []) hf (hb.0, tt)) hb.1
    ∙ ap (word_list 16) (append_assoc front (b ∷ []) (bs ++ replicate k 0))

-- BYTES_TO_DWORD is the little-endian value.
bytes_to_dword-eq :
    (a b c d : ℕ) (rest : List ℕ)
    → a < 256
    → b < 256
    → c < 256
    → d < 256
    → bytes_to_dword (a ∷ b ∷ c ∷ d ∷ rest) ≡ le_value (a ∷ b ∷ c ∷ d ∷ [])
unfolding bytes_to_dword
bytes_to_dword-eq a b c d rest ha hb hc hd =
    ap (λ (t : ℕ). bit_or (bit_or t (b * 2 ^ 8)) a)
      (bit_or_disjoint 24 d (c * 2 ^ 16) (omega arith) ∙ high)
    ∙ ap (λ (t : ℕ). bit_or t a)
        (bit_or_disjoint 16 (d * 256 + c) (b * 2 ^ 8) (omega arith) ∙ upper)
    ∙ bit_or_disjoint 8 ((d * 256 + c) * 256 + b) a (omega arith)
    ∙ omega arith
  where
    high : d * 2 ^ 24 + c * 2 ^ 16 ≡ (d * 256 + c) * 2 ^ 16
    high = omega arith

    upper : (d * 256 + c) * 2 ^ 16 + b * 2 ^ 8 ≡ ((d * 256 + c) * 256 + b) * 2 ^ 8
    upper = omega arith

pub load_dwords-eq :
    (n : ℕ) (message : List ℕ)
    → 4 * n ≤ length message
    → IsBytes message
    → load_dwords n message ≡ word_list n message
unfolding load_dwords
load_dwords-eq zero message len h = refl
load_dwords-eq (suc n) (a ∷ b ∷ c ∷ d ∷ rest) len h =
    ap₂ ◌∷◌ (bytes_to_dword-eq a b c d rest h.0 h.1.0 h.1.1.0 h.1.1.1.0)
      (load_dwords-eq n rest (omega arith) h.1.1.1.1)
load_dwords-eq (suc n) [] len h = absurd (omega arith)
load_dwords-eq (suc n) (a ∷ []) len h = absurd (omega arith)
load_dwords-eq (suc n) (a ∷ b ∷ []) len h = absurd (omega arith)
load_dwords-eq (suc n) (a ∷ b ∷ c ∷ []) len h = absurd (omega arith)
