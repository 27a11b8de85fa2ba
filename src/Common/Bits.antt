-- ===== src/Common/Bits.antt =====
-- `&`, `|` and `^` at variables: the law of the lowest digit, and with it the laws of fields.
use Prim.Native.Nat.{ℕ, zero, suc, ◌+◌, ◌-◌, ◌*◌, ◌/◌, ◌%◌, ◌^◌, ◌≤◌, ◌<◌, min, max}
use Prim.Native.Nat.{bit_and, bit_or, bit_xor, digits, bitwise, differ}
use Prim.Native.Nat.{bit_and-bitwise, bit_or-bitwise, bit_xor-bitwise}
use mathlib.Core.Path.{◌≡◌, refl, sym, ap, ◌∙◌}
use native.Mathlib.Omega.{arith}
use native.Mathlib.Nat.{pow-suc, one-le-pow, mod-lt, div-add-mod}
use mathlib.Core.Logic.{inl, inr}
use bitcoinstats.Common.Tests.{leb, leb→le, Bool-cases}

differ_lem : (x y : ℕ) → x < 2 → y < 2 → differ x y ≡ (x + y) % 2
differ_lem zero zero h k = refl
differ_lem zero (suc zero) h k = refl
differ_lem (suc zero) zero h k = refl
differ_lem (suc zero) (suc zero) h k = refl
differ_lem (suc (suc x)) y h k = absurd (omega arith)
differ_lem x (suc (suc y)) h k = absurd (omega arith)

-- The native operations recurse on a count of digits. A count above the number changes nothing.
module _ (z : ℕ → ℕ) (f : ℕ → ℕ → ℕ) where
  one_round_more : (n a b : ℕ) → a ≤ n → digits z f (suc n) a b ≡ digits z f n a b
  one_round_more n zero b h = elim n as (λ k. digits z f (suc k) 0 b ≡ digits z f k 0 b) [
    | zero ↦ refl
    | suc _ ↦ refl
  ]
  one_round_more zero (suc a) b h = absurd (omega arith)
  one_round_more (suc n) (suc a) b h =
      ap (λ (t : ℕ). t * 2 + f (suc a % 2) (b % 2))
        (one_round_more n (suc a / 2) (b / 2) (omega arith))

  enough_rounds : (n a b : ℕ) → a ≤ n → digits z f n a b ≡ bitwise z f a b
  enough_rounds zero a b h = let e : 0 ≡ a = omega arith in ap (λ (k : ℕ). digits z f k a b) e
  enough_rounds (suc n) a b h = elim (Bool-cases (leb a n)) [
    | inl e ↦ one_round_more n a b (leb→le a n e) ∙ enough_rounds n a b (leb→le a n e)
    | inr e ↦ let last : suc n ≡ a = ground arith in ap (λ (k : ℕ). digits z f k a b) last
  ]

  -- The law of the lowest digit, for an operation that is given by digits.
  lowest_digit :
      (op : ℕ → ℕ → ℕ)
      → ((a b : ℕ) → op a b ≡ bitwise z f a b)
      → ((b : ℕ) → z b ≡ z (b / 2) * 2 + f 0 (b % 2))
      → (a b : ℕ) → op a b ≡ op (a / 2) (b / 2) * 2 + f (a % 2) (b % 2)
  lowest_digit op law ends zero b =
      law 0 b ∙ ends b ∙ ap (λ (t : ℕ). t * 2 + f 0 (b % 2)) (sym (law 0 (b / 2)))
  lowest_digit op law ends (suc a) b =
      law (suc a) b
      ∙ ap (λ (t : ℕ). t * 2 + f (suc a % 2) (b % 2))
          (enough_rounds a (suc a / 2) (b / 2) (omega arith) ∙ sym (law (suc a / 2) (b / 2)))

pub bit_or_step : (a b : ℕ) → bit_or a b ≡ bit_or (a / 2) (b / 2) * 2 + max (a % 2) (b % 2)
bit_or_step = lowest_digit (λ y. y) max bit_or bit_or-bitwise (λ b. omega arith)

pub bit_and_step : (a b : ℕ) → bit_and a b ≡ bit_and (a / 2) (b / 2) * 2 + min (a % 2) (b % 2)
bit_and_step = lowest_digit (λ y. 0) min bit_and bit_and-bitwise (λ b. omega arith)

xor_digits : (a b : ℕ) → bit_xor a b ≡ bit_xor (a / 2) (b / 2) * 2 + differ (a % 2) (b % 2)
xor_digits =
    lowest_digit (λ y. y) differ bit_xor bit_xor-bitwise
      (λ b. omega (arith, differ_lem 0 (b % 2) (omega arith) (omega arith)))

pub bit_xor_step : (a b : ℕ) → bit_xor a b ≡ bit_xor (a / 2) (b / 2) * 2 + (a % 2 + b % 2) % 2
bit_xor_step a b =
    omega (arith, xor_digits a b, differ_lem (a % 2) (b % 2) (omega arith) (omega arith))

-- An operation that works digit by digit, as the three do.
record IsDigitwise (op : ℕ → ℕ → ℕ) (f : ℕ → ℕ → ℕ) : Type 0 where
  at_zero : op 0 0 ≡ 0
  step : (a b : ℕ) → op a b ≡ op (a / 2) (b / 2) * 2 + f (a % 2) (b % 2)

or_IsDigitwise : IsDigitwise bit_or max
or_IsDigitwise = record { at_zero = refl; step = bit_or_step }

and_IsDigitwise : IsDigitwise bit_and min
and_IsDigitwise = record { at_zero = refl; step = bit_and_step }

xor-IsDigitwise : IsDigitwise bit_xor (λ x y. (x + y) % 2)
xor-IsDigitwise = record { at_zero = refl; step = bit_xor_step }

two_pow : (k : ℕ) → 2 ^ suc k ≡ 2 * 2 ^ k
two_pow k = omega (arith, pow-suc 2 k)

mul_two_pow : (q k : ℕ) → q * 2 ^ suc k ≡ 2 * (q * 2 ^ k)
mul_two_pow q k = omega (arith, ap (λ (t : ℕ). q * t) (two_pow k))

module _ (op : ℕ → ℕ → ℕ) (f : ℕ → ℕ → ℕ) (d : IsDigitwise op f) where
  -- High and low fields are worked on separately.
  op_fields :
      (k p q r s : ℕ)
      → r < 2 ^ k
      → s < 2 ^ k
      → op (p * 2 ^ k + r) (q * 2 ^ k + s) ≡ op p q * 2 ^ k + op r s
  op_fields zero p q r s h g =
      let r0 : r ≡ 0 = omega arith in
      let s0 : s ≡ 0 = omega arith in
      let e : p * 2 ^ 0 + r ≡ p = omega arith in
      let e' : q * 2 ^ 0 + s ≡ q = omega arith in rw (e, e', r0, s0, d.at_zero) (omega arith)
  op_fields (suc k) p q r s h g =
      let e : (p * 2 ^ suc k + r) / 2 ≡ p * 2 ^ k + r / 2 = omega (arith, mul_two_pow p k) in
      let e' : (q * 2 ^ suc k + s) / 2 ≡ q * 2 ^ k + s / 2 = omega (arith, mul_two_pow q k) in
      let m : (p * 2 ^ suc k + r) % 2 ≡ r % 2 = omega (arith, mul_two_pow p k) in
      let m' : (q * 2 ^ suc k + s) % 2 ≡ s % 2 = omega (arith, mul_two_pow q k) in
      let ih =
        op_fields k p q (r / 2) (s / 2) (omega (arith, two_pow k)) (omega (arith, two_pow k)) in
      d.step (p * 2 ^ suc k + r) (q * 2 ^ suc k + s)
      ∙ rw (e, e', m, m', ih) (omega (arith, d.step r s, mul_two_pow (op p q) k))

pub bit_or_fields :
    (k p q r s : ℕ)
    → r < 2 ^ k
    → s < 2 ^ k
    → bit_or (p * 2 ^ k + r) (q * 2 ^ k + s) ≡ bit_or p q * 2 ^ k + bit_or r s
bit_or_fields = op_fields bit_or max or_IsDigitwise

pub bit_and_fields :
    (k p q r s : ℕ)
    → r < 2 ^ k
    → s < 2 ^ k
    → bit_and (p * 2 ^ k + r) (q * 2 ^ k + s) ≡ bit_and p q * 2 ^ k + bit_and r s
bit_and_fields = op_fields bit_and min and_IsDigitwise

pub bit_xor_fields :
    (k p q r s : ℕ)
    → r < 2 ^ k
    → s < 2 ^ k
    → bit_xor (p * 2 ^ k + r) (q * 2 ^ k + s) ≡ bit_xor p q * 2 ^ k + bit_xor r s
bit_xor_fields = op_fields bit_xor (λ x y. (x + y) % 2) xor-IsDigitwise

pub zero-bit_or : (b : ℕ) → bit_or 0 b ≡ b
zero-bit_or b = bit_or-bitwise 0 b

pub zero-bit_xor : (b : ℕ) → bit_xor 0 b ≡ b
zero-bit_xor b = bit_xor-bitwise 0 b

-- An operation whose digits are kept beside 0 keeps the number, with `n` for a bound on it.
kept_beside_zero :
    (op f : ℕ → ℕ → ℕ)
    → IsDigitwise op f
    → ((a : ℕ) → f (a % 2) 0 ≡ a % 2)
    → (n a : ℕ) → a ≤ n
    → op a 0 ≡ a
kept_beside_zero op f d keeps zero a h = let e : a ≡ 0 = omega arith in rw e d.at_zero
kept_beside_zero op f d keeps (suc n) a h =
    omega (arith, d.step a 0, keeps a, kept_beside_zero op f d keeps n (a / 2) (omega arith))

pub bit_or-zero : (a : ℕ) → bit_or a 0 ≡ a
bit_or-zero a = kept_beside_zero bit_or max or_IsDigitwise (λ b. omega arith) a a (omega arith)

pub bit_xor-zero : (a : ℕ) → bit_xor a 0 ≡ a
bit_xor-zero a =
    kept_beside_zero bit_xor (λ x y. (x + y) % 2) xor-IsDigitwise (λ b. omega arith) a a
      (omega arith)

cleared_beside_zero : (n a : ℕ) → a ≤ n → bit_and a 0 ≡ 0
cleared_beside_zero zero a h = let e : a ≡ 0 = omega arith in rw e
cleared_beside_zero (suc n) a h =
    omega (arith, bit_and_step a 0, cleared_beside_zero n (a / 2) (omega arith))

pub bit_and-zero : (a : ℕ) → bit_and a 0 ≡ 0
bit_and-zero a = cleared_beside_zero a a (omega arith)

-- A value with `k` zero bits at the bottom joined with one below 2 ^ k is their sum.
pub bit_or_disjoint : (k q r : ℕ) → r < 2 ^ k → bit_or (q * 2 ^ k) r ≡ q * 2 ^ k + r
bit_or_disjoint k q r h =
    let e : q * 2 ^ k ≡ q * 2 ^ k + 0 = omega arith in
    let e' : r ≡ 0 * 2 ^ k + r = omega arith in
    ap (λ (t : ℕ). bit_or t r) e
    ∙ ap (λ (t : ℕ). bit_or (q * 2 ^ k + 0) t) e'
    ∙ bit_or_fields k q 0 0 r (one-le-pow k 2 (omega arith)) h
    ∙ rw (bit_or-zero q, zero-bit_or r)

bit_and_self : (k : ℕ) (r : ℕ) → r < 2 ^ k → bit_and r (2 ^ k - 1) ≡ r
bit_and_self zero r h = let r0 : r ≡ 0 = omega arith in rw r0
bit_and_self (suc k) r h =
    let e : (2 ^ suc k - 1) / 2 ≡ 2 ^ k - 1 =
      omega (arith, two_pow k, one-le-pow k 2 (omega arith)) in
    let m : (2 ^ suc k - 1) % 2 ≡ 1 = omega (arith, two_pow k, one-le-pow k 2 (omega arith)) in
    bit_and_step r (2 ^ suc k - 1)
    ∙ rw (e, m, bit_and_self k (r / 2) (omega (arith, two_pow k))) (omega arith)

-- A mask of `k` low bits is the remainder by 2 ^ k.
pub bit_and_mask : (k a : ℕ) → bit_and a (2 ^ k - 1) ≡ a % 2 ^ k
bit_and_mask k a =
    let pos : 0 < 2 ^ k = one-le-pow k 2 (omega arith) in
    let small : a % 2 ^ k < 2 ^ k = mod-lt a pos in
    let e : a ≡ a / 2 ^ k * 2 ^ k + a % 2 ^ k = omega (arith, div-add-mod a (2 ^ k)) in
    let m : 2 ^ k - 1 ≡ 0 * 2 ^ k + (2 ^ k - 1) = omega arith in
    ap (λ (t : ℕ). bit_and t (2 ^ k - 1)) e
    ∙ ap (λ (t : ℕ). bit_and (a / 2 ^ k * 2 ^ k + a % 2 ^ k) t) m
    ∙ bit_and_fields k (a / 2 ^ k) 0 (a % 2 ^ k) (2 ^ k - 1) small (omega arith)
    ∙ rw (bit_and-zero (a / 2 ^ k), bit_and_self k (a % 2 ^ k) small) (omega arith)
