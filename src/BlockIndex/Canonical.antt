-- ===== src/BlockIndex/Canonical.antt =====
-- The variable length integers of include/CBlockIndex.h have one encoding each.
use bitcoinstats.Common.{ℕ, zero, suc, ◌+◌, ◌-◌, ◌*◌, ◌/◌, ◌%◌, ◌^◌, ◌<◌, ◌≤◌, arith}
use bitcoinstats.Common.{◌≡◌, refl, sym, subst, ap, ◌∙◌, Bool-cases, ◌⊎◌, inl, inr, false}
use bitcoinstats.Common.{ltb, leb, ltb→lt, lt→not_leb, le→leb, leb-false→lt, ltb-false→le}
use bitcoinstats.Common.{bit_and, ◌==◌, some, List, [], ◌∷◌, ◌++◌, length, u64, IsByte, IsBytes}
use bitcoinstats.BlockIndex.Varint128.{shift_in, read_from, read_varint128, marked, write_varint128}
use bitcoinstats.BlockIndex.Varint128.{read_from-last, read_from-marked, marked-append}
use native.Mathlib.Nat.{pow-suc, pow-le-pow_right}

-- More fuel than the number needs changes nothing.
marked-fuel :
    (fuel n : ℕ) (rest : List ℕ)
    → n < 128 ^ suc fuel
    → marked (suc (suc fuel)) n rest ≡ marked (suc fuel) n rest
unfolding marked
marked-fuel zero n rest h = rw (le→leb n 127 (omega (arith, pow-suc 128 0))) refl
marked-fuel (suc fuel) n rest h = elim (Bool-cases (leb n 127)) [
  | inl e ↦ rw e refl
  | inr e ↦ rw e (
      marked-fuel fuel (n / 128 - 1) ((n % 128 + 128) ∷ rest)
        (omega (arith, pow-suc 128 (suc fuel), leb-false→lt n 127 e)))
]

marked-small : (n : ℕ) (rest : List ℕ) → n < 128 → marked 10 n rest ≡ (n + 128) ∷ rest
unfolding marked
marked-small n rest h = let m : n % 128 ≡ n = omega arith in rw (le→leb n 127 (omega arith), m) refl

marked-last :
    (n b : ℕ) (rest : List ℕ)
    → b < 128
    → write_varint128 ((n + 1) * 128 + b) ++ rest ≡ marked 10 n (b ∷ rest)
unfolding write_varint128
marked-last n b rest h =
    let big : leb ((n + 1) * 128 + b) 127 ≡ false = lt→not_leb _ _ (omega arith) in
    let high : ((n + 1) * 128 + b) / 128 - 1 ≡ n = omega arith in
    let low : ((n + 1) * 128 + b) % 128 ≡ b = omega arith in
    rw (big, high, low) (marked-append 10 n (b ∷ []) rest)

marked-more :
    (n b : ℕ) (rest : List ℕ)
    → b < 128
    → n < 128 ^ 9
    → marked 10 ((n + 1) * 128 + b) rest ≡ marked 10 n ((b + 128) ∷ rest)
unfolding marked
marked-more n b rest h small =
    let big : leb ((n + 1) * 128 + b) 127 ≡ false = lt→not_leb _ _ (omega arith) in
    let high : ((n + 1) * 128 + b) / 128 - 1 ≡ n = omega arith in
    let low : ((n + 1) * 128 + b) % 128 ≡ b = omega arith in
    rw (big, high, low) (sym (marked-fuel 8 n ((b + 128) ∷ rest) small))

-- A byte is below 128, or 128 and a number below 128.
byte-cases : (b : ℕ) → IsByte b → (b < 128) ⊎ ((low : ℕ) × (low < 128) × (b ≡ low + 128))
byte-cases b h = elim (Bool-cases (ltb b 128)) [
  | inl e ↦ inl (ltb→lt b 128 e)
  | inr e ↦ inr (b - 128, omega arith, omega (arith, ltb-false→le b 128 e))
]

-- What is read has at least one byte.
read_from-length :
    (value : ℕ) (bytes : List ℕ) (v : ℕ) (rest : List ℕ)
    → read_from value bytes ≡ some (v, rest)
    → length rest < length bytes
unfolding read_from
read_from-length value [] v rest h = cc
read_from-length value (b ∷ bytes) v rest h = elim (Bool-cases (bit_and b 0x80 == 0)) [
  | inl e ↦
      let step : read_from value (b ∷ bytes) ≡ some (shift_in value b, bytes) = rw e refl in
      let q : bytes ≡ rest = cc in omega (arith, ap (λ (t : List ℕ). length t) q)
  | inr e ↦
      let step : read_from value (b ∷ bytes) ≡ read_from (u64 (shift_in value b + 1)) bytes =
        rw e refl in
      omega (arith, read_from-length (u64 (shift_in value b + 1)) bytes v rest (sym step ∙ h))
]

no_wrap :
    (value low : ℕ)
    → low < 128
    → value + 1 < 2 ^ 57
    → u64 (value * 128 + low + 1) ≡ value * 128 + low + 1
no_wrap value low lt fits = omega arith

-- The state after `j` marked bytes: `n` is below the largest number of `j` marked bytes.
canonical :
    (j n : ℕ) (bytes : List ℕ) (v : ℕ) (rest : List ℕ)
    → IsBytes bytes
    → n + 2 < 2 * 128 ^ j
    → length bytes + j ≤ length rest + 9
    → read_from (n + 1) bytes ≡ some (v, rest)
    → write_varint128 v ++ rest ≡ marked 10 n bytes
unfolding read_from
canonical j n [] v rest all small short h = cc
canonical j n (b ∷ bytes) v rest all small short h =
    let fewer = read_from-length (n + 1) (b ∷ bytes) v rest h in
    let few : 128 ^ j ≤ 128 ^ 8 =
      let le : j ≤ 8 = omega (arith, fewer, short) in
      pow-le-pow_right {n = 128} (omega arith) {i = j} {j = 8} le in
    let room : n + 2 < 2 ^ 57 = omega (arith, few, small) in
    let fits : n + 1 < 2 ^ 57 = omega arith in
    elim (byte-cases b all.0) [
      | inl lt ↦
          let step = read_from-last (n + 1) b bytes lt fits in
          let value : (n + 1) * 128 + b ≡ v = cc in
          let behind : bytes ≡ rest = cc in
          subst (λ (w : ℕ). write_varint128 w ++ rest ≡ marked 10 n (b ∷ bytes)) value
            (subst
              (λ (r : List ℕ). write_varint128 ((n + 1) * 128 + b) ++ r ≡ marked 10 n (b ∷ bytes))
              behind (marked-last n b bytes lt))
      | inr (low, lt, e) ↦
          let n' = (n + 1) * 128 + low in
          let next : read_from (n + 1) (b ∷ bytes) ≡ read_from (n' + 1) bytes =
            ap (λ (t : ℕ). read_from (n + 1) (t ∷ bytes)) e
            ∙ read_from-marked (n + 1) low bytes lt fits
            ∙ ap (λ (t : ℕ). read_from t bytes) (no_wrap (n + 1) low lt (omega (arith, room))) in
          let small' : n' + 2 < 2 * 128 ^ suc j = omega (arith, pow-suc 128 j, small, lt) in
          canonical (suc j) n' bytes v rest all.1 small' (omega (arith, short)) (sym next ∙ h)
          ∙ marked-more n low bytes lt (omega (arith, fits))
          ∙ ap (λ (t : ℕ). marked 10 n (t ∷ bytes)) (sym e)
    ]

one_byte : (b : ℕ) (rest : List ℕ) → b < 128 → write_varint128 b ++ rest ≡ b ∷ rest
unfolding write_varint128
one_byte b rest h = rw (le→leb b 127 (omega arith)) refl

-- Read at most nine bytes from `bytes`: when the value is `v` and `rest` stands behind it, then what
-- was read are the bytes that `v` is written as.
pub write_varint128-read_varint128 :
    (bytes : List ℕ) (v : ℕ) (rest : List ℕ)
    → IsBytes bytes
    → length bytes ≤ length rest + 9
    → read_varint128 bytes ≡ some (v, rest)
    → write_varint128 v ++ rest ≡ bytes
unfolding read_varint128 read_from
write_varint128-read_varint128 [] v rest all short h = cc
write_varint128-read_varint128 (b ∷ bytes) v rest all short h = elim (byte-cases b all.0) [
  | inl lt ↦
      let step = read_from-last 0 b bytes lt (omega arith) in
      let value : 0 * 128 + b ≡ v = cc in
      let behind : bytes ≡ rest = cc in
      let value' : b ≡ v = omega arith in
      subst (λ (w : ℕ). write_varint128 w ++ rest ≡ b ∷ bytes) value'
        (subst (λ (r : List ℕ). write_varint128 b ++ r ≡ b ∷ bytes) behind (one_byte b bytes lt))
  | inr (low, lt, e) ↦
      let next : read_from 0 (b ∷ bytes) ≡ read_from (low + 1) bytes =
        ap (λ (t : ℕ). read_from 0 (t ∷ bytes)) e
        ∙ read_from-marked 0 low bytes lt (omega arith)
        ∙ ap (λ (t : ℕ). read_from t bytes) (omega arith) in
      canonical 1 low bytes v rest all.1 (omega arith) (omega (arith, short)) (sym next ∙ h)
      ∙ marked-small low bytes lt
      ∙ ap (λ (t : ℕ). t ∷ bytes) (sym e)
]
