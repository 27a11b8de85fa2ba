-- ===== src/Base58/Power.antt =====
-- The powers of src/Base58.cpp, made by its multiplication.
use bitcoinstats.Common.{ℕ, zero, suc, ◌+◌, ◌*◌, ◌^◌, ◌<◌, arith}
use bitcoinstats.Common.{◌≡◌, refl, ap, ◌∙◌}
use bitcoinstats.Common.{set, length-set}
use bitcoinstats.Base58.{BigNumber, power_loop, from_power}
use bitcoinstats.Base58.Value.{value}
use native.Mathlib.Nat.{pow-suc, pow-zero}
use bitcoinstats.Base58.Product.{IsBigNumber, Computes, multiplication-value, extended, set-IsBytes}

power_loop-value :
    (b a : ℕ) (n : BigNumber)
    → IsBigNumber n
    → a < 256
    → n.length + b < 256
    → Computes (power_loop b a n) (value n * a ^ b) (n.length + b)
unfolding power_loop
power_loop-value zero a n h ha room = record {
  result = n;
  returns = refl;
  whole = h;
  exact = omega (arith, ap (λ (t : ℕ). value n * t) (pow-zero a));
  short = omega arith;
}
power_loop-value (suc b) a n h ha room =
    let m = multiplication-value n a h ha (omega arith) in
    let rest = power_loop-value b a m.result m.whole ha (omega (arith, m.short)) in
    record {
      result = rest.result;
      returns = rw (m.returns, power_loop) rest.returns;
      whole = rest.whole;
      exact =
          rest.exact
          ∙ omega
              (arith, ap (λ (t : ℕ). t * a ^ b) m.exact, ap (λ (t : ℕ). value n * t) (pow-suc a b));
      short = omega (arith, rest.short, m.short);
    }

-- The power of a byte `a` with an exponent up to 254 is computed without overflow, whatever number
-- the array of 256 bytes held that is overwritten with it, in at most one byte more than the exponent.
pub from_power-value :
    (n : BigNumber) (a b : ℕ)
    → IsBigNumber n
    → a < 256
    → b < 255
    → Computes (from_power n a b) (a ^ b) (b + 1)
unfolding from_power
from_power-value n a b h ha hb =
    let one : BigNumber = record { data_bytes = set n.data_bytes 0 1; length = 1 } in
    let whole : IsBigNumber one = record {
      bytes = set-IsBytes n.data_bytes 0 1 h.bytes (omega arith);
      full = length-set n.data_bytes 0 1 ∙ h.full;
      some_left = omega arith;
    } in
    let start : value one ≡ 1 = extended 0 1 n.data_bytes (omega (arith, h.full)) in
    let r = power_loop-value b a one whole ha (omega arith) in
    record {
      result = r.result;
      returns = r.returns;
      whole = r.whole;
      exact = r.exact ∙ omega (arith, ap (λ (t : ℕ). t * a ^ b) start);
      short = omega (arith, r.short);
    }
