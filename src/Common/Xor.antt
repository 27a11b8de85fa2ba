-- ===== src/Common/Xor.antt =====
-- The laws of `bit_xor`, digit by digit.
use Prim.Native.Nat.{ℕ, zero, suc, ◌+◌, ◌/◌, ◌%◌, ◌^◌, ◌≤◌, ◌<◌, bit_xor}
use mathlib.Core.Path.{◌≡◌, sym, ap, ◌∙◌}
use native.Mathlib.Omega.{arith}
use native.Mathlib.Nat.{pow-suc}
use bitcoinstats.Common.Bits.{bit_xor_step, zero-bit_xor, bit_xor-zero}

pub bit_xor-half : (a b : ℕ) → bit_xor a b / 2 ≡ bit_xor (a / 2) (b / 2)
bit_xor-half a b = omega (arith, bit_xor_step a b)

pub bit_xor-parity : (a b : ℕ) → bit_xor a b % 2 ≡ (a % 2 + b % 2) % 2
bit_xor-parity a b = omega (arith, bit_xor_step a b)

comm_up_to : (n a b : ℕ) → a ≤ n → bit_xor a b ≡ bit_xor b a
comm_up_to zero a b h = let e : a ≡ 0 = omega arith in rw e (zero-bit_xor b ∙ sym (bit_xor-zero b))
comm_up_to (suc n) a b h =
    omega (arith, bit_xor_step a b, bit_xor_step b a, comm_up_to n (a / 2) (b / 2) (omega arith))

pub bit_xor_comm : (a b : ℕ) → bit_xor a b ≡ bit_xor b a
bit_xor_comm a b = comm_up_to a a b (omega arith)

assoc_up_to : (n a b c : ℕ) → a ≤ n → bit_xor (bit_xor a b) c ≡ bit_xor a (bit_xor b c)
assoc_up_to zero a b c h =
    let e : a ≡ 0 = omega arith in
    rw e (ap (λ (t : ℕ). bit_xor t c) (zero-bit_xor b) ∙ sym (zero-bit_xor (bit_xor b c)))
assoc_up_to (suc n) a b c h =
    let ih = assoc_up_to n (a / 2) (b / 2) (c / 2) (omega arith) in
    let left = ap (λ (t : ℕ). bit_xor t (c / 2)) (bit_xor-half a b) in
    let right = ap (λ (t : ℕ). bit_xor (a / 2) t) (bit_xor-half b c) in
    omega (
      arith,
      bit_xor_step (bit_xor a b) c,
      bit_xor_step a (bit_xor b c),
      left ∙ ih ∙ sym right,
      bit_xor-parity a b,
      bit_xor-parity b c,
    )

pub bit_xor_assoc : (a b c : ℕ) → bit_xor (bit_xor a b) c ≡ bit_xor a (bit_xor b c)
bit_xor_assoc a b c = assoc_up_to a a b c (omega arith)

pub bit_xor_swap :
    (a b c d : ℕ) → bit_xor (bit_xor a b) (bit_xor c d) ≡ bit_xor (bit_xor a c) (bit_xor b d)
bit_xor_swap a b c d =
    bit_xor_assoc a b (bit_xor c d)
    ∙ ap (bit_xor a) (
        sym (bit_xor_assoc b c d)
        ∙ ap (λ (t : ℕ). bit_xor t d) (bit_xor_comm b c)
        ∙ bit_xor_assoc c b d)
    ∙ sym (bit_xor_assoc a c (bit_xor b d))

-- Numbers below a power of two stay below it.
below_power : (k a b : ℕ) → a < 2 ^ k → b < 2 ^ k → bit_xor a b < 2 ^ k
below_power zero a b h g =
    let e : a ≡ 0 = omega arith in let e' : b ≡ 0 = omega arith in rw (e, e') (omega arith)
below_power (suc k) a b h g = omega (
  arith,
  pow-suc 2 k,
  bit_xor_step a b,
  below_power k (a / 2) (b / 2) (omega (arith, pow-suc 2 k)) (omega (arith, pow-suc 2 k)),
)

pub bit_xor-below : (a b : ℕ) → a < 256 → b < 256 → bit_xor a b < 256
bit_xor-below a b h g = below_power 8 a b (omega arith) (omega arith)
