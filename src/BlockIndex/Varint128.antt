-- ===== src/BlockIndex/Varint128.antt =====
-- readVarint128 of include/CBlockIndex.h: the variable length integers of the block index, which
-- are not those of the block files.
use bitcoinstats.Common.{ℕ, zero, suc, ◌+◌, ◌-◌, ◌*◌, ◌/◌, ◌%◌, ◌^◌, ◌<◌, arith}
use bitcoinstats.Common.{◌≡◌, refl, ap, ◌∙◌, Bool-cases, inl, inr}
use bitcoinstats.Common.{bit_or, bit_and, leb, ◌==◌, if◌then◌else◌, le→leb, leb→le}
use bitcoinstats.Common.{leb-false→lt}
use bitcoinstats.Common.{Option, none, some, List, [], ◌∷◌, ◌++◌, u64, ◌<<<◌}
use bitcoinstats.Common.Bits.{bit_or_disjoint, bit_and_mask, bit_and_fields, bit_and-zero}
use native.Mathlib.Nat.{pow-suc}

-- The seven bits of a byte put behind the value so far.
unfoldable pub shift_in : ℕ → ℕ → ℕ
shift_in value byte = bit_or (u64 (value <<< 7)) (bit_and byte 0x7F)

-- The loop, with the value so far: the value, and the bytes behind the last one read. There is no
-- result where the memory ends first.
unfoldable pub read_from : ℕ → List ℕ → Option (ℕ × List ℕ)
read_from value [] = none
read_from value (byte ∷ bytes) =
    let value' = shift_in value byte in
    if bit_and byte 0x80 == 0 then some (value', bytes) else read_from (u64 (value' + 1)) bytes

unfoldable pub read_varint128 : List ℕ → Option (ℕ × List ℕ)
read_varint128 = read_from 0

-- The integers as Bitcoin Core writes them: the bytes of `n` in front of `rest`, each with the bit
-- 0x80, in at most `fuel` bytes.
unfoldable pub marked : ℕ → ℕ → List ℕ → List ℕ
marked zero n rest = rest
marked (suc fuel) n rest =
    let rest' = (n % 128 + 128) ∷ rest in
    let more = marked fuel (n / 128 - 1) rest' in if leb n 127 then rest' else more

-- The ten bytes of fuel are enough for every number of 64 bits.
unfoldable pub write_varint128 : ℕ → List ℕ
write_varint128 n = if leb n 127 then n ∷ [] else marked 10 (n / 128 - 1) (n % 128 ∷ [])

bit_and-unmarked : (b : ℕ) → b < 128 → bit_and b 0x80 ≡ 0
bit_and-unmarked b h =
    let e : b ≡ 0 * 2 ^ 7 + b = omega arith in
    ap (λ (t : ℕ). bit_and t 0x80) e
    ∙ bit_and_fields 7 0 1 b 0 h (omega arith)
    ∙ rw (bit_and-zero b) refl

bit_and-marked : (b : ℕ) → b < 128 → bit_and (b + 128) 0x80 ≡ 0x80
bit_and-marked b h =
    let e : b + 128 ≡ 1 * 2 ^ 7 + b = omega arith in
    ap (λ (t : ℕ). bit_and t 0x80) e
    ∙ bit_and_fields 7 1 1 b 0 h (omega arith)
    ∙ rw (bit_and-zero b) refl

shift_in-lem : (value byte : ℕ) → value < 2 ^ 57 → shift_in value byte ≡ value * 128 + byte % 128
unfolding shift_in
shift_in-lem value byte h =
    let e : u64 (value <<< 7) ≡ value * 2 ^ 7 = omega arith in
    rw (e, bit_and_mask 7 byte) (bit_or_disjoint 7 value (byte % 128) (omega arith))

pub read_from-last :
    (value b : ℕ) (bytes : List ℕ)
    → b < 128
    → value < 2 ^ 57
    → read_from value (b ∷ bytes) ≡ some (value * 128 + b, bytes)
unfolding read_from
read_from-last value b bytes h small =
    let low : b % 128 ≡ b = omega arith in
    rw (bit_and-unmarked b h, shift_in-lem value b small, low) refl

pub read_from-marked :
    (value b : ℕ) (bytes : List ℕ)
    → b < 128
    → value < 2 ^ 57
    → read_from value ((b + 128) ∷ bytes) ≡ read_from (u64 (value * 128 + b + 1)) bytes
unfolding read_from
read_from-marked value b bytes h small =
    let low : (b + 128) % 128 ≡ b = omega arith in
    rw (bit_and-marked b h, shift_in-lem value (b + 128) small, low) refl

pub read_from-marked_bytes :
    (fuel n : ℕ) (rest : List ℕ)
    → n < 128 ^ suc fuel
    → n < 2 ^ 57
    → read_from 0 (marked (suc fuel) n rest) ≡ read_from (n + 1) rest
unfolding marked
read_from-marked_bytes zero n rest bound small =
    let le : n < 128 = omega (arith, pow-suc 128 0) in
    let m : n % 128 ≡ n = omega arith in
    let v : u64 (0 * 128 + n + 1) ≡ n + 1 = omega arith in
    rw (le→leb n 127 (omega arith), m)
      (read_from-marked 0 n rest le (omega arith) ∙ ap (λ (t : ℕ). read_from t rest) v)
read_from-marked_bytes (suc fuel) n rest bound small = elim (Bool-cases (leb n 127)) [
  | inl e ↦
      let le = leb→le n 127 e in
      let m : n % 128 ≡ n = omega arith in
      let v : u64 (0 * 128 + n + 1) ≡ n + 1 = omega arith in
      rw (e, m)
        (read_from-marked 0 n rest (omega arith) (omega arith) ∙ ap (λ (t : ℕ). read_from t rest) v)
  | inr e ↦
      let gt = leb-false→lt n 127 e in
      let k : n / 128 - 1 + 1 ≡ n / 128 = omega (arith, gt) in
      let v : u64 (n / 128 * 128 + n % 128 + 1) ≡ n + 1 = omega arith in
      rw e (
        read_from-marked_bytes fuel (n / 128 - 1) ((n % 128 + 128) ∷ rest)
          (omega (arith, pow-suc 128 (suc fuel))) (omega arith)
        ∙ rw k (read_from-marked (n / 128) (n % 128) rest (omega arith) (omega arith))
        ∙ ap (λ (t : ℕ). read_from t rest) v)
]

pub marked-append :
    (fuel n : ℕ) (xs ys : List ℕ) → marked fuel n xs ++ ys ≡ marked fuel n (xs ++ ys)
unfolding marked
marked-append zero n xs ys = refl
marked-append (suc fuel) n xs ys = elim (Bool-cases (leb n 127)) [
  | inl e ↦ rw e
  | inr e ↦ rw e (marked-append fuel (n / 128 - 1) ((n % 128 + 128) ∷ xs) ys)
]

-- What is written is read back, and the bytes behind it are left.
pub read_varint128-write_varint128 :
    (n : ℕ) (rest : List ℕ)
    → n < 2 ^ 64
    → read_varint128 (write_varint128 n ++ rest) ≡ some (n, rest)
unfolding read_varint128 write_varint128
read_varint128-write_varint128 n rest h = elim (Bool-cases (leb n 127)) [
  | inl e ↦
      let z : 0 * 128 + n ≡ n = omega arith in
      rw e (
        read_from-last 0 n rest (omega (arith, leb→le n 127 e)) (omega arith)
        ∙ ap (λ (t : ℕ). some (t, rest)) z)
  | inr e ↦
      let gt = leb-false→lt n 127 e in
      let k : n / 128 - 1 + 1 ≡ n / 128 = omega (arith, gt) in
      let v : n / 128 * 128 + n % 128 ≡ n = omega arith in
      rw (e, marked-append 10 (n / 128 - 1) (n % 128 ∷ []) rest)
        (read_from-marked_bytes 9 (n / 128 - 1) (n % 128 ∷ rest) (omega arith) (omega arith)
          ∙ rw k (read_from-last (n / 128) (n % 128) rest (omega arith) (omega arith))
          ∙ ap (λ (t : ℕ). some (t, rest)) v)
]
