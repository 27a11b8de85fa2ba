-- ===== src/Crc32/Bitwise.antt =====
-- CRC32 of src/CRC32.cpp against the checksum of the reflected polynomial, bit by bit.
use bitcoinstats.Common.{ℕ, zero, suc, ◌+◌, ◌*◌, ◌/◌, ◌%◌, ◌^◌, ◌<◌, arith}
use bitcoinstats.Common.{◌≡◌, refl, sym, ap, ap₂, ◌∙◌, Bool, true, false, ◌&&◌, Bool-cases}
use bitcoinstats.Common.{inl, inr, ◌==◌, ==→eq, if◌then◌else◌}
use bitcoinstats.Common.{bit_xor, bit_and, ◌>>>◌, IsBytes, List, [], ◌∷◌, length, get_or}
use bitcoinstats.Common.Bits.{bit_and_mask, bit_xor_fields, zero-bit_xor, bit_xor-zero}
use bitcoinstats.Common.Xor.{bit_xor-half, bit_xor-parity, bit_xor-below, bit_xor_swap}
use bitcoinstats.Crc32.{crc32_table, crc32}

-- The polynomial of CRC-32, its highest power in the lowest bit.
abbrev pub polynomial : ℕ
polynomial = 0xedb88320

-- The polynomial where the digit is one.
abbrev pub reduction : ℕ → ℕ
reduction digit = if digit == 1 then polynomial else 0

-- A step of the division: the lowest bit is shifted out, and the polynomial subtracted where the
-- bit is set.
abbrev pub divide_bit : ℕ → ℕ
divide_bit c = bit_xor (c / 2) (reduction (c % 2))

abbrev pub divide_bits : ℕ → ℕ → ℕ
divide_bits zero c = c
divide_bits (suc n) c = divide_bits n (divide_bit c)

-- The remainder of the message: each byte is added, and divided by its eight bits.
abbrev pub remainder_of : List ℕ → ℕ → ℕ
remainder_of [] c = c
remainder_of (b ∷ bs) c = remainder_of bs (divide_bits 8 (bit_xor c b))

reduction_add :
    (x y : ℕ) → x < 2 → y < 2 → reduction ((x + y) % 2) ≡ bit_xor (reduction x) (reduction y)
reduction_add zero zero h g = refl
reduction_add zero (suc zero) h g = refl
reduction_add zero (suc (suc y)) h g = absurd (omega arith)
reduction_add (suc zero) zero h g = refl
reduction_add (suc zero) (suc zero) h g = refl
reduction_add (suc zero) (suc (suc y)) h g = absurd (omega arith)
reduction_add (suc (suc x)) y h g = absurd (omega arith)

divide_bit-bit_xor : (a b : ℕ) → divide_bit (bit_xor a b) ≡ bit_xor (divide_bit a) (divide_bit b)
divide_bit-bit_xor a b =
    ap₂ (λ (p q : ℕ). bit_xor p (reduction q)) (bit_xor-half a b) (bit_xor-parity a b)
    ∙ ap (bit_xor (bit_xor (a / 2) (b / 2)))
        (reduction_add (a % 2) (b % 2) (omega arith) (omega arith))
    ∙ bit_xor_swap (a / 2) (b / 2) (reduction (a % 2)) (reduction (b % 2))

-- The division is linear.
divide_bits-bit_xor :
    (n a b : ℕ) → divide_bits n (bit_xor a b) ≡ bit_xor (divide_bits n a) (divide_bits n b)
divide_bits-bit_xor zero a b = refl
divide_bits-bit_xor (suc n) a b =
    ap (divide_bits n) (divide_bit-bit_xor a b)
    ∙ divide_bits-bit_xor n (divide_bit a) (divide_bit b)

divide_bit-double : (a : ℕ) → divide_bit (a * 2) ≡ a
divide_bit-double a =
    let half : a * 2 / 2 ≡ a = omega arith in
    let even : a * 2 % 2 ≡ 0 = omega arith in
    ap₂ (λ (p q : ℕ). bit_xor p (reduction q)) half even ∙ bit_xor-zero a

-- Zeros are shifted out.
divide_byte-shifted : (a : ℕ) → divide_bits 8 (a * 256) ≡ a
divide_byte-shifted a =
    let e : a * 256 ≡ a * 2 * 2 * 2 * 2 * 2 * 2 * 2 * 2 = omega arith in
    let d2 = a * 2 in
    let d4 = d2 * 2 in
    let d8 = d4 * 2 in
    let d16 = d8 * 2 in
    let d32 = d16 * 2 in
    let d64 = d32 * 2 in
    let d128 = d64 * 2 in
    ap (divide_bits 8) e
    ∙ ap (divide_bits 7) (divide_bit-double d128)
    ∙ ap (divide_bits 6) (divide_bit-double d64)
    ∙ ap (divide_bits 5) (divide_bit-double d32)
    ∙ ap (divide_bits 4) (divide_bit-double d16)
    ∙ ap (divide_bits 3) (divide_bit-double d8)
    ∙ ap (divide_bits 2) (divide_bit-double d4)
    ∙ ap (divide_bits 1) (divide_bit-double d2)
    ∙ divide_bit-double a

-- Whether a table has the remainders of the bytes from `i` on.
abbrev has_remainders : List ℕ → ℕ → Bool
has_remainders [] i = true
has_remainders (t ∷ ts) i = (t == divide_bits 8 i) && has_remainders ts (1 + i)

get_or-has_remainders :
    (ts : List ℕ) (i k : ℕ)
    → has_remainders ts i ≡ true
    → k < length ts
    → get_or ts k 0 ≡ divide_bits 8 (k + i)
get_or-has_remainders [] i k h inside = absurd (omega arith)
get_or-has_remainders (t ∷ ts) i zero h inside = elim (Bool-cases (t == divide_bits 8 i)) [
  | inl e ↦ ==→eq _ _ e ∙ ap (divide_bits 8) (omega arith)
  | inr e ↦
      let no : false ≡ true = sym (ap (λ (b : Bool). b && has_remainders ts (1 + i)) e) ∙ h in cc
]
get_or-has_remainders (t ∷ ts) i (suc k) h inside = elim (Bool-cases (t == divide_bits 8 i)) [
  | inl e ↦
      get_or-has_remainders ts (1 + i) k
        (sym (ap (λ (b : Bool). b && has_remainders ts (1 + i)) e) ∙ h) (omega arith)
      ∙ ap (divide_bits 8) (omega arith)
  | inr e ↦
      let no : false ≡ true = sym (ap (λ (b : Bool). b && has_remainders ts (1 + i)) e) ∙ h in cc
]

crc32_table-remainders : has_remainders crc32_table 0 ≡ true
crc32_table-remainders = refl

-- The table has the remainder of every byte.
crc32_table-byte : (k : ℕ) → k < 256 → get_or crc32_table k 0 ≡ divide_bits 8 k
crc32_table-byte k h =
    get_or-has_remainders crc32_table 0 k crc32_table-remainders (omega arith)
    ∙ ap (divide_bits 8) (omega arith)

-- A number is its high bits joined with its low byte.
split_byte : (x : ℕ) → x ≡ bit_xor (x % 256) (x / 256 * 256)
split_byte x =
    let low : x % 256 ≡ 0 * 2 ^ 8 + x % 256 = omega arith in
    let high : x / 256 * 256 ≡ x / 256 * 2 ^ 8 + 0 = omega arith in
    sym (
      ap₂ bit_xor low high
      ∙ bit_xor_fields 8 0 (x / 256) (x % 256) 0 (omega arith) (omega arith)
      ∙ rw (zero-bit_xor (x / 256), bit_xor-zero (x % 256)) (omega arith))

-- Eight bits are divided off by one look at the table.
divide_byte : (x : ℕ) → bit_xor (get_or crc32_table (x % 256) 0) (x / 256) ≡ divide_bits 8 x
divide_byte x =
    ap₂ bit_xor (crc32_table-byte (x % 256) (omega arith)) (sym (divide_byte-shifted (x / 256)))
    ∙ sym (divide_bits-bit_xor 8 (x % 256) (x / 256 * 256))
    ∙ ap (divide_bits 8) (sym (split_byte x))

-- The byte is added below the high bits.
added_byte : (c b : ℕ) → b < 256 → bit_xor c b / 256 ≡ c / 256
added_byte c b h =
    let e : c ≡ c / 256 * 2 ^ 8 + c % 256 = omega arith in
    let e' : b ≡ 0 * 2 ^ 8 + b = omega arith in
    let small = bit_xor-below (c % 256) b (omega arith) h in
    let joined =
      ap₂ bit_xor e e' ∙ bit_xor_fields 8 (c / 256) 0 (c % 256) b (omega arith) (omega arith) in
    omega (arith, joined, bit_xor-zero (c / 256), small)

-- For bytes, and any seed, the loop over the table computes the checksum of CRC-32 bit by bit: each
-- byte is added to the remainder, and divided by its eight bits by the reflected polynomial
-- 0xEDB88320.
pub crc32-remainder_of :
    (buffer : List ℕ) (seed : ℕ) → IsBytes buffer → crc32 buffer seed ≡ remainder_of buffer seed
unfolding crc32
crc32-remainder_of [] seed w = refl
crc32-remainder_of (b ∷ buffer) seed w =
    let x = bit_xor seed b in
    let step : bit_xor (get_or crc32_table (bit_and x 0xff) 0) (seed >>> 8) ≡ divide_bits 8 x =
      ap₂ (λ (p q : ℕ). bit_xor (get_or crc32_table p 0) q) (bit_and_mask 8 x)
        (sym (added_byte seed b w.0))
      ∙ divide_byte x in
    ap (crc32 buffer) step ∙ crc32-remainder_of buffer (divide_bits 8 x) w.1
