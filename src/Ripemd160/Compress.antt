-- ===== src/Ripemd160/Compress.antt =====
-- src/RIPEMD160.cpp: the macros and `compress`.
-- Each macro call works on the five registers under rotated names, so the model rotates the
-- registers instead: after 80 steps every register has its own name again.
mod Rounds
use Rounds.{round1, round2, round3, round4, round5}
use Rounds.{parallel1, parallel2, parallel3, parallel4, parallel5}
use bitcoinstats.Common.{ℕ, zero, suc, ◌+◌, ◌-◌, ◌*◌, ◌/◌, ◌%◌, ◌^◌, bit_and, bit_or, bit_xor}
use bitcoinstats.Common.{List, [], ◌∷◌, get_or, u32, ◌<<<◌, ◌>>>◌}

pub record Registers : Type 0 where
  pub a : ℕ
  pub b : ℕ
  pub c : ℕ
  pub d : ℕ
  pub e : ℕ

unfoldable pub rol : ℕ → ℕ → ℕ
rol x n = bit_or (u32 (x <<< n)) (x >>> (32 - n))

-- `~x` on `uint32_t`
abbrev pub complement : ℕ → ℕ
complement x = 0xffffffff - x

-- The macros F, G, H, I and J.
unfoldable pub f_f : ℕ → ℕ → ℕ → ℕ
f_f x y z = bit_xor (bit_xor x y) z

unfoldable pub f_g : ℕ → ℕ → ℕ → ℕ
f_g x y z = bit_or (bit_and x y) (bit_and (complement x) z)

unfoldable pub f_h : ℕ → ℕ → ℕ → ℕ
f_h x y z = bit_xor (bit_or x (complement y)) z

unfoldable pub f_i : ℕ → ℕ → ℕ → ℕ
f_i x y z = bit_or (bit_and x z) (bit_and y (complement z))

unfoldable pub f_j : ℕ → ℕ → ℕ → ℕ
f_j x y z = bit_xor x (bit_or y (complement z))

-- FF to JJJ: the function, the constant, the word and the rotation of one step.
unfoldable pub md_step : (ℕ → ℕ → ℕ → ℕ) → ℕ → ℕ → ℕ → Registers → Registers
unfolding rol
md_step fn k x s r =
    let sum = u32 (r.a + (fn r.b r.c r.d + x + k)) in
    record { a = r.e; b = u32 (rol sum s + r.e); c = r.b; d = rol r.c 10; e = r.d }

unfoldable pub md_round : (ℕ → ℕ → ℕ → ℕ) → ℕ → List (ℕ × ℕ) → List ℕ → Registers → Registers
unfolding md_step
md_round fn k [] words r = r
md_round fn k ((i, s) ∷ steps) words r =
    md_round fn k steps words (md_step fn k (get_or words i 0) s r)

-- The five rounds on `aa` to `ee`.
unfoldable pub left_line : List ℕ → Registers → Registers
left_line x r0 =
    let r1 = md_round f_f 0 round1 x r0 in
    let r2 = md_round f_g 0x5a827999 round2 x r1 in
    let r3 = md_round f_h 0x6ed9eba1 round3 x r2 in
    let r4 = md_round f_i 0x8f1bbcdc round4 x r3 in md_round f_j 0xa953fd4e round5 x r4

-- The five parallel rounds on `aaa` to `eee`.
unfoldable pub right_line : List ℕ → Registers → Registers
right_line x r0 =
    let r1 = md_round f_j 0x50a28be6 parallel1 x r0 in
    let r2 = md_round f_i 0x5c4dd124 parallel2 x r1 in
    let r3 = md_round f_h 0x6d703ef3 parallel3 x r2 in
    let r4 = md_round f_g 0x7a6d76e9 parallel4 x r3 in md_round f_f 0 parallel5 x r4

-- The results are combined into the new MDbuf.
unfoldable pub combine : Registers → Registers → Registers → Registers
combine md l r = record {
  a = u32 (r.d + u32 (l.c + md.b));
  b = u32 (md.c + l.d + r.e);
  c = u32 (md.d + l.e + r.a);
  d = u32 (md.e + l.a + r.b);
  e = u32 (md.a + l.b + r.c);
}

unfoldable pub compress : Registers → List ℕ → Registers
compress md x = combine md (left_line x md) (right_line x md)
