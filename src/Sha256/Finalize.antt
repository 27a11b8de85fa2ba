-- ===== src/Sha256/Finalize.antt =====
-- src/SHA256.cpp: the bytes that `sha256_finalize` appends and writes.
use bitcoinstats.Common.{ℕ, zero, suc, ◌+◌, ◌-◌, ◌*◌, ◌/◌, ◌%◌, ◌^◌, ◌≤◌, ◌<◌, arith}
use bitcoinstats.Common.{◌≡◌, refl, sym, ap, ap₂, ◌∙◌, ltb, if◌then◌else◌}
use bitcoinstats.Common.{List, [], ◌∷◌, ◌++◌, reverse, All}
use bitcoinstats.Common.{take, replicate}
use bitcoinstats.Common.{le_bytes, le_bytes_halves}
use mathlib.Core.List.{reverse-append}
use bitcoinstats.Sha256.Compress.{Words8, sha256_guts, add_words, byteswap, byteswap64}
use bitcoinstats.Sha256.Byteswap.{byteswap-lt, le_bytes-byteswap, byteswap64-eq}
use bitcoinstats.Sha256.Reference.{hash_blocks, be_bytes, be_words}
use bitcoinstats.Sha256.{padding}
use bitcoinstats.Sha256.{store_words, words_of}

abbrev pub IsWord : ℕ → Type 0
IsWord w = w < 2 ^ 32

abbrev pub AreWords : Words8 → Type 0
AreWords w =
    IsWord w.a
    × IsWord w.b
    × IsWord w.c
    × IsWord w.d
    × IsWord w.e
    × IsWord w.f
    × IsWord w.g
    × IsWord w.h

add_words-AreWords : (s t : Words8) → AreWords (add_words s t)
unfolding add_words
add_words-AreWords s t = omega arith

pub guts-AreWords : (h : Words8) (block : List ℕ) → AreWords (sha256_guts h block)
unfolding sha256_guts
guts-AreWords h block = add_words-AreWords h _

pub hash_blocks-AreWords :
    (n : ℕ) (h : Words8) (bytes : List ℕ) → AreWords h → AreWords (hash_blocks n h bytes)
unfolding hash_blocks
hash_blocks-AreWords zero h bytes p = p
hash_blocks-AreWords (suc n) h bytes p = hash_blocks-AreWords n _ _ (guts-AreWords h _)

pub store_words-eq : (ws : List ℕ) → All IsWord ws → store_words ws ≡ be_words ws
unfolding store_words
store_words-eq [] h = refl
store_words-eq (w ∷ ws) h = ap₂ ◌++◌ (le_bytes-byteswap w h.0) (store_words-eq ws h.1)

pub words_of-All : (w : Words8) → AreWords w → All IsWord (words_of w)
unfolding words_of
words_of-All w h = (h.0, (h.1, (h.2, (h.3, (h.4, (h.5, (h.6, (h.7, tt))))))))

take-replicate : (m n z : ℕ) → m ≤ n → take m (replicate n z) ≡ replicate m z
take-replicate zero n z h = refl
take-replicate (suc m) zero z h = absurd (omega arith)
take-replicate (suc m) (suc n) z h = ap (λ t. z ∷ t) (take-replicate m n z (omega arith))

-- BYTESWAP64 stores the length highest byte first.
pub length_pad_bytes : (t : ℕ) → t < 2 ^ 64 → le_bytes 8 (byteswap64 t) ≡ be_bytes 8 t
length_pad_bytes t h =
    ap (le_bytes 8) (byteswap64-eq t h)
    ∙ le_bytes_halves (byteswap (t / 2 ^ 32)) (byteswap (t % 2 ^ 32))
        (byteswap-lt (t / 2 ^ 32) (omega arith))
    ∙ ap₂ ◌++◌ (le_bytes-byteswap (t / 2 ^ 32) (omega arith))
        (le_bytes-byteswap (t % 2 ^ 32) (omega arith))
    ∙ sym (reverse-append (le_bytes 4 (t % 2 ^ 32)) (le_bytes 4 (t / 2 ^ 32)))
    ∙ ap reverse
        (sym (le_bytes_halves (t % 2 ^ 32) (t / 2 ^ 32) (omega arith)) ∙ ap (le_bytes 8) whole)
  where
    whole : t / 2 ^ 32 * 2 ^ 32 + t % 2 ^ 32 ≡ t
    whole = omega arith

unfoldable pub finalize_bytes : ℕ → List ℕ
finalize_bytes n = take (if ltb 64 (120 - n) then 120 - n - 64 else 120 - n) padding

pub finalize_bytes-eq : (n : ℕ) → n < 64 → finalize_bytes n ≡ 0x80 ∷ replicate ((119 - n) % 64) 0
unfolding finalize_bytes
finalize_bytes-eq n h =
    let k : (if ltb 64 (120 - n) then 120 - n - 64 else 120 - n) ≡ suc ((119 - n) % 64) =
      ground arith in
    rw k (ap (λ t. 0x80 ∷ t) (take-replicate ((119 - n) % 64) 63 0 (omega arith)))
