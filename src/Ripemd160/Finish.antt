-- ===== src/Ripemd160/Finish.antt =====
-- `MDfinish` of src/RIPEMD160.cpp compresses what is left of the message with its padding.
use bitcoinstats.Common.{
  ℕ, zero, suc, ◌+◌, ◌-◌, ◌*◌, ◌/◌, ◌%◌, ◌^◌, ◌≤◌, ◌<◌, bit_and, bit_or, bit_xor, arith,
}
use bitcoinstats.Common.{◌≡◌, refl, sym, ap, ap₂, ◌∙◌, inl, inr, Bool-cases, ltb}
use bitcoinstats.Common.{List, [], ◌∷◌, ◌++◌, append_assoc, ltb→lt}
use bitcoinstats.Common.{
  length, take, drop, replicate, get_or, set, take_all, length-append, length-replicate,
}
use bitcoinstats.Common.{
  drop-append_left, u32, ◌<<<◌, ◌>>>◌, le_value, le_bytes, le_value-le_bytes, le_bytes_halves,
  IsBytes,
}
use bitcoinstats.Common.Bits.{bit_and_mask, bit_or-zero}
use bitcoinstats.Ripemd160.Compress.{Registers, compress}
use bitcoinstats.Ripemd160.Reference.{word_list, md_blocks, padding_of}
use bitcoinstats.Ripemd160.Blocks.{xor_byte-word_list, put_bytes-word_list}
use bitcoinstats.Ripemd160.{xor_byte, put_bytes, md_finish}

pub word_list-append :
    (n : ℕ) (xs ys : List ℕ) → 4 * n ≤ length xs → word_list n (xs ++ ys) ≡ word_list n xs
word_list-append zero xs ys h = refl
word_list-append (suc n) (a ∷ b ∷ c ∷ d ∷ xs) ys h =
    ap (λ t. le_value (a ∷ b ∷ c ∷ d ∷ []) ∷ t) (word_list-append n xs ys (omega arith))
word_list-append (suc n) [] ys h = absurd (omega arith)
word_list-append (suc n) (a ∷ []) ys h = absurd (omega arith)
word_list-append (suc n) (a ∷ b ∷ []) ys h = absurd (omega arith)
word_list-append (suc n) (a ∷ b ∷ c ∷ []) ys h = absurd (omega arith)

-- Two words stored behind `n` others.
set_last_two :
    (n : ℕ) (front : List ℕ) (x y : ℕ)
    → length front ≡ 4 * n
    → x < 2 ^ 32
    → y < 2 ^ 32
    → set (set (word_list (suc (suc n)) (front ++ replicate 8 0)) n x) (suc n) y
      ≡ word_list (suc (suc n)) (front ++ (le_bytes 4 x ++ le_bytes 4 y))
set_last_two zero [] x y e hx hy =
    ap₂ (λ (a b : ℕ). a ∷ b ∷ []) (sym (le_value-le_bytes 4 x hx)) (sym (le_value-le_bytes 4 y hy))
set_last_two (suc n) (a ∷ b ∷ c ∷ d ∷ front) x y e hx hy =
    ap (λ t. le_value (a ∷ b ∷ c ∷ d ∷ []) ∷ t) (set_last_two n front x y (omega arith) hx hy)
set_last_two zero (a ∷ front) x y e hx hy = absurd (omega arith)
set_last_two (suc n) [] x y e hx hy = absurd (omega arith)
set_last_two (suc n) (a ∷ []) x y e hx hy = absurd (omega arith)
set_last_two (suc n) (a ∷ b ∷ []) x y e hx hy = absurd (omega arith)
set_last_two (suc n) (a ∷ b ∷ c ∷ []) x y e hx hy = absurd (omega arith)

replicate-append : (m n z : ℕ) → replicate (m + n) z ≡ replicate m z ++ replicate n z
replicate-append zero n z = ap (λ (k : ℕ). replicate k z) (let e : 0 + n ≡ n = omega arith in e)
replicate-append (suc m) n z =
    ap (λ (k : ℕ). replicate k z) (let e : suc m + n ≡ suc (m + n) = omega arith in e)
    ∙ ap (λ t. z ∷ t) (replicate-append m n z)

-- The single bit of `1 << (8 * j + 7)` is the byte 0x80 at byte `j`.
pow_byte : (j : ℕ) → j < 4 → 1 * 2 ^ (8 * j + 7) ≡ 128 * 2 ^ (8 * j)
pow_byte zero h = refl
pow_byte (suc zero) h = refl
pow_byte (suc (suc zero)) h = refl
pow_byte (suc (suc (suc zero))) h = refl
pow_byte (suc (suc (suc (suc j)))) h = absurd (omega arith)

-- The parameters of `MDfinish`: the rest of the message, and the length of the whole.
module _ (rest : List ℕ) (n : ℕ) (fits : n < 2 ^ 32) (left : length rest ≡ n % 64)
    (bytes : IsBytes rest) where
  abbrev i : ℕ
  i = length rest

  -- `X` after the loop and after the bit is appended.
  abbrev looped : List ℕ
  looped = put_bytes (replicate 16 0) 0 (take (bit_and n 63) rest)

  abbrev marked : List ℕ
  marked =
      set looped (bit_and (n >>> 2) 15)
        (bit_xor (get_or looped (bit_and (n >>> 2) 15) 0) (u32 (1 <<< (8 * bit_and n 3 + 7))))

  looped-eq : looped ≡ word_list 16 (rest ++ replicate (64 - i) 0)
  looped-eq =
      ap (put_bytes (replicate 16 0) 0)
        (take_all (bit_and n 63) rest (omega (arith, bit_and_mask 6 n)))
      ∙ ap (λ (m : ℕ). put_bytes (word_list 16 (replicate m 0)) 0 rest)
          (let e : 64 ≡ i + (64 - i) = omega arith in e)
      ∙ put_bytes-word_list [] rest (64 - i) (omega arith) tt bytes

  marked-eq : marked ≡ word_list 16 (rest ++ (0x80 ∷ replicate (63 - i) 0))
  unfolding xor_byte
  marked-eq =
      let index : bit_and (n >>> 2) 15 ≡ i >>> 2 = omega (arith, bit_and_mask 4 (n >>> 2)) in
      let low : bit_and n 3 ≡ bit_and i 3 = omega (arith, bit_and_mask 2 n, bit_and_mask 2 i) in
      let bit : 1 <<< (8 * bit_and n 3 + 7) ≡ 128 * 2 ^ (8 * bit_and i 3) =
        ap (λ (j : ℕ). 1 * 2 ^ (8 * j + 7)) low
        ∙ pow_byte (bit_and i 3) (omega (arith, bit_and_mask 2 i)) in
      let zeros : 64 - i ≡ suc (63 - i) = omega arith in
      ap₂ (λ (j v : ℕ). set looped j (bit_xor (get_or looped j 0) (u32 v))) index bit
      ∙ ap (λ x. xor_byte x i 128)
          (looped-eq ∙ ap (λ (m : ℕ). word_list 16 (rest ++ replicate m 0)) zeros)
      ∙ xor_byte-word_list 16 rest (replicate (63 - i) 0) 128 (omega arith) bytes (omega arith)

  -- The last two words are the length in bits.
  abbrev with_length : List ℕ → List ℕ
  with_length x = set (set x 14 (u32 (n <<< 3))) 15 (bit_or (n >>> 29) (u32 (0 <<< 3)))

  with_length-eq :
      (front : List ℕ)
      → length front ≡ 56
      → with_length (word_list 16 (front ++ replicate 8 0))
        ≡ word_list 16 (front ++ le_bytes 8 (n * 8))
  with_length-eq front e =
      ap (λ (v : ℕ). set (set (word_list 16 (front ++ replicate 8 0)) 14 (u32 (n <<< 3))) 15 v)
        (bit_or-zero (n >>> 29))
      ∙ set_last_two 14 front (u32 (n <<< 3)) (n >>> 29) e (omega arith) (omega arith)
      ∙ ap (λ t. word_list 16 (front ++ t))
          (sym (le_bytes_halves (u32 (n <<< 3)) (n >>> 29) (omega arith))
            ∙ ap (le_bytes 8)
                (let h : (n >>> 29) * 2 ^ 32 + u32 (n <<< 3) ≡ n * 8 = omega arith in h))

  abbrev final : List ℕ
  final = rest ++ padding_of n

  module _ (md : Registers) where
    -- The padding fits the block.
    one_block : i < 56 → compress md (with_length marked) ≡ md_blocks 1 md final
    unfolding md_blocks
    one_block short =
        let front = rest ++ (0x80 ∷ replicate (55 - i) 0) in
        let len : length front ≡ 56 = omega (
          arith,
          length-append rest (0x80 ∷ replicate (55 - i) 0),
          length-replicate {A = ℕ} (55 - i) 0,
        ) in
        let split : replicate (63 - i) 0 ≡ replicate (55 - i) 0 ++ replicate 8 0 =
          ap (λ (m : ℕ). replicate m 0) (let e : 63 - i ≡ 55 - i + 8 = omega arith in e)
          ∙ replicate-append (55 - i) 8 0 in
        let zeros : 55 - i ≡ (119 - n % 64) % 64 = omega arith in
        ap (λ x. compress md (with_length x))
          (marked-eq
            ∙ ap (word_list 16) (
                ap (λ t. rest ++ (0x80 ∷ t)) split
                ∙ sym (append_assoc rest (0x80 ∷ replicate (55 - i) 0) (replicate 8 0))))
        ∙ ap (compress md) (
            with_length-eq front len
            ∙ ap (word_list 16) (
                append_assoc rest (0x80 ∷ replicate (55 - i) 0) (le_bytes 8 (n * 8))
                ∙ ap (λ (m : ℕ). rest ++ (0x80 ∷ (replicate m 0 ++ le_bytes 8 (n * 8)))) zeros))

    -- The length goes into a block of its own.
    two_blocks :
        56 ≤ i → compress (compress md marked) (with_length (replicate 16 0)) ≡ md_blocks 2 md final
    unfolding md_blocks
    two_blocks long =
        let first = rest ++ (0x80 ∷ replicate (63 - i) 0) in
        let second = replicate 56 0 ++ le_bytes 8 (n * 8) in
        let len : length first ≡ 64 = omega (
          arith,
          length-append rest (0x80 ∷ replicate (63 - i) 0),
          length-replicate {A = ℕ} (63 - i) 0,
        ) in
        let zeros : (119 - n % 64) % 64 ≡ 63 - i + 56 = omega arith in
        let whole : final ≡ first ++ second =
          ap (λ (m : ℕ). rest ++ (0x80 ∷ (replicate m 0 ++ le_bytes 8 (n * 8)))) zeros
          ∙ ap (λ t. rest ++ (0x80 ∷ (t ++ le_bytes 8 (n * 8)))) (replicate-append (63 - i) 56 0)
          ∙ ap (λ t. rest ++ (0x80 ∷ t))
              (append_assoc (replicate (63 - i) 0) (replicate 56 0) (le_bytes 8 (n * 8)))
          ∙ sym (append_assoc rest (0x80 ∷ replicate (63 - i) 0) second) in
        ap₂ (λ u v. compress (compress md u) v)
          (marked-eq
            ∙ sym (word_list-append 16 first second (omega arith))
            ∙ ap (word_list 16) (sym whole))
          (with_length-eq (replicate 56 0) refl
            ∙ ap (word_list 16) (sym (ap₂ drop (sym len) whole ∙ drop-append_left first second)))

    length-final : length final ≡ i + 9 + (119 - n % 64) % 64
    length-final = omega (
      arith,
      length-append rest (padding_of n),
      length-append (replicate ((119 - n % 64) % 64) 0) (le_bytes 8 (n * 8)),
      length-replicate {A = ℕ} ((119 - n % 64) % 64) 0,
    )

    -- `MDfinish` is the compression of the rest of the message with its padding.
    pub md_finish-eq : md_finish md rest n 0 ≡ md_blocks (length final / 64) md final
    unfolding md_finish
    md_finish-eq = elim (Bool-cases (ltb 55 (bit_and n 63))) [
      | inl next ↦
          let long : 56 ≤ i = omega (arith, bit_and_mask 6 n, ltb→lt 55 (bit_and n 63) next) in
          let k : 2 ≡ length final / 64 = omega (arith, length-final) in
          rw next (two_blocks long ∙ ap (λ (m : ℕ). md_blocks m md final) k)
      | inr same ↦
          let short : i < 56 = ground (arith, bit_and_mask 6 n) in
          let k : 1 ≡ length final / 64 = omega (arith, length-final) in
          rw same (one_block short ∙ ap (λ (m : ℕ). md_blocks m md final) k)
    ]
