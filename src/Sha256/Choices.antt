-- ===== src/Sha256/Choices.antt =====
-- The macros `Ch` and `Maj` of src/SHA256.cpp against the formulas of FIPS 180-4, digit by digit.
use bitcoinstats.Common.{ℕ, zero, suc, ◌+◌, ◌-◌, ◌/◌, ◌%◌, ◌^◌, ◌<◌, min, max, arith}
use bitcoinstats.Common.{◌≡◌, refl, sym, ap, ap₂, ◌∙◌, bit_and, bit_or, bit_xor}
use bitcoinstats.Common.Bits.{bit_and_step, bit_or_step}
use bitcoinstats.Common.Xor.{bit_xor-half, bit_xor-parity}
use native.Mathlib.Nat.{pow-suc}
use bitcoinstats.Sha256.Compress.{ch, maj}
use bitcoinstats.Sha256.Fips.{choose, majority}

bit_and-half : (a b : ℕ) → bit_and a b / 2 ≡ bit_and (a / 2) (b / 2)
bit_and-half a b = omega (arith, bit_and_step a b)

bit_and-parity : (a b : ℕ) → bit_and a b % 2 ≡ min (a % 2) (b % 2)
bit_and-parity a b = omega (arith, bit_and_step a b)

bit_or-half : (a b : ℕ) → bit_or a b / 2 ≡ bit_or (a / 2) (b / 2)
bit_or-half a b = omega (arith, bit_or_step a b)

bit_or-parity : (a b : ℕ) → bit_or a b % 2 ≡ max (a % 2) (b % 2)
bit_or-parity a b = omega (arith, bit_or_step a b)

-- Numbers with the same half and the same lowest digit.
same_digits : (a b : ℕ) → a / 2 ≡ b / 2 → a % 2 ≡ b % 2 → a ≡ b
same_digits a b h g = omega (arith, h, g)

choose_digit :
    (p q r : ℕ)
    → p < 2
    → q < 2
    → r < 2
    → (r + min p ((q + r) % 2)) % 2 ≡ (min p q + min (1 - p) r) % 2
choose_digit p q r hp hq hr = omega arith

majority_digit :
    (p q r : ℕ)
    → p < 2
    → q < 2
    → r < 2
    → max (min p (max q r)) (min q r) ≡ ((min p q + min p r) % 2 + min q r) % 2
majority_digit p q r hp hq hr = omega arith

choose_up_to :
    (k x y z : ℕ)
    → x < 2 ^ k
    → y < 2 ^ k
    → z < 2 ^ k
    → bit_xor z (bit_and x (bit_xor y z)) ≡ bit_xor (bit_and x y) (bit_and (2 ^ k - 1 - x) z)
choose_up_to zero x y z h f g =
    let e : x ≡ 0 = omega arith in
    let e' : y ≡ 0 = omega arith in let e'' : z ≡ 0 = omega arith in rw (e, e', e'') refl
choose_up_to (suc k) x y z h f g =
    let u = bit_xor y z in
    let n = 2 ^ suc k - 1 - x in
    let n2 : n / 2 ≡ 2 ^ k - 1 - x / 2 = omega (arith, pow-suc 2 k) in
    let n1 : n % 2 ≡ 1 - x % 2 = omega (arith, pow-suc 2 k) in
    let ih =
      choose_up_to k (x / 2) (y / 2) (z / 2) (omega (arith, pow-suc 2 k))
        (omega (arith, pow-suc 2 k)) (omega (arith, pow-suc 2 k)) in
    same_digits _ _
      (bit_xor-half z (bit_and x u)
        ∙ ap (bit_xor (z / 2)) (bit_and-half x u ∙ ap (bit_and (x / 2)) (bit_xor-half y z))
        ∙ ih
        ∙ sym (
            bit_xor-half (bit_and x y) (bit_and n z)
            ∙ ap₂ bit_xor (bit_and-half x y)
                (bit_and-half n z ∙ ap (λ (t : ℕ). bit_and t (z / 2)) n2)))
      (bit_xor-parity z (bit_and x u)
        ∙ ap (λ (t : ℕ). (z % 2 + t) % 2)
            (bit_and-parity x u ∙ ap (λ (t : ℕ). min (x % 2) t) (bit_xor-parity y z))
        ∙ choose_digit (x % 2) (y % 2) (z % 2) (omega arith) (omega arith) (omega arith)
        ∙ sym (
            bit_xor-parity (bit_and x y) (bit_and n z)
            ∙ ap₂ (λ (s t : ℕ). (s + t) % 2) (bit_and-parity x y)
                (bit_and-parity n z ∙ ap (λ (t : ℕ). min t (z % 2)) n1)))

majority_up_to :
    (k x y z : ℕ)
    → x < 2 ^ k
    → y < 2 ^ k
    → z < 2 ^ k
    → bit_or (bit_and x (bit_or y z)) (bit_and y z)
      ≡ bit_xor (bit_xor (bit_and x y) (bit_and x z)) (bit_and y z)
majority_up_to zero x y z h g f =
    let e : x ≡ 0 = omega arith in
    let e' : y ≡ 0 = omega arith in let e'' : z ≡ 0 = omega arith in rw (e, e', e'') refl
majority_up_to (suc k) x y z h g f =
    let ih =
      majority_up_to k (x / 2) (y / 2) (z / 2) (omega (arith, pow-suc 2 k))
        (omega (arith, pow-suc 2 k)) (omega (arith, pow-suc 2 k)) in
    same_digits _ _
      (bit_or-half (bit_and x (bit_or y z)) (bit_and y z)
        ∙ ap₂ bit_or (bit_and-half x (bit_or y z) ∙ ap (bit_and (x / 2)) (bit_or-half y z))
            (bit_and-half y z)
        ∙ ih
        ∙ sym (
            bit_xor-half (bit_xor (bit_and x y) (bit_and x z)) (bit_and y z)
            ∙ ap₂ bit_xor
                (bit_xor-half (bit_and x y) (bit_and x z)
                  ∙ ap₂ bit_xor (bit_and-half x y) (bit_and-half x z))
                (bit_and-half y z)))
      (bit_or-parity (bit_and x (bit_or y z)) (bit_and y z)
        ∙ ap₂ max
            (bit_and-parity x (bit_or y z) ∙ ap (λ (t : ℕ). min (x % 2) t) (bit_or-parity y z))
            (bit_and-parity y z)
        ∙ majority_digit (x % 2) (y % 2) (z % 2) (omega arith) (omega arith) (omega arith)
        ∙ sym (
            bit_xor-parity (bit_xor (bit_and x y) (bit_and x z)) (bit_and y z)
            ∙ ap₂ (λ (s t : ℕ). (s + t) % 2)
                (bit_xor-parity (bit_and x y) (bit_and x z)
                  ∙ ap₂ (λ (s t : ℕ). (s + t) % 2) (bit_and-parity x y) (bit_and-parity x z))
                (bit_and-parity y z)))

pub ch-choose : (x y z : ℕ) → x < 2 ^ 32 → y < 2 ^ 32 → z < 2 ^ 32 → ch x y z ≡ choose x y z
unfolding ch
ch-choose x y z h f g = choose_up_to 32 x y z h f g

pub maj-majority : (x y z : ℕ) → x < 2 ^ 32 → y < 2 ^ 32 → z < 2 ^ 32 → maj x y z ≡ majority x y z
unfolding maj
maj-majority x y z h g f = majority_up_to 32 x y z h g f
