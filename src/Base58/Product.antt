-- ===== src/Base58/Product.antt =====
-- The multiplication of src/Base58.cpp.
use bitcoinstats.Common.{ℕ, zero, suc, ◌+◌, ◌-◌, ◌*◌, ◌/◌, ◌%◌, ◌^◌, ◌≤◌, ◌<◌, arith}
use bitcoinstats.Common.{
  ◌≡◌, refl, sym, ap, ◌∙◌, inl, inr, Bool, Bool-cases, true, false, ◌&&◌, Option, some,
}
use bitcoinstats.Common.{
  ltb, leb, ◌==◌, if◌then◌else◌, ==→eq, List, [], ◌∷◌, ◌++◌, length, take, drop,
}
use bitcoinstats.Common.{get_or, set, le_value, IsByte, IsBytes, u8, u16, ◌>>>◌, length-set, subst}
use bitcoinstats.Base58.{BigNumber, multiply_loop, multiplication}
use bitcoinstats.Base58.Value.{value, zero-value, get_or-lt, get_or-set, le_value-take-suc}
use native.Mathlib.Nat.{pow-suc, mul-le-mul}
use bitcoinstats.Common

-- An array of 256 bytes of which less than all count.
pub record IsBigNumber (a : BigNumber) : Type 0 where
  pub bytes : IsBytes a.data_bytes
  pub full : bitcoinstats.Common.length a.data_bytes ≡ 256
  pub some_left : a.length < 256

-- The value of the `n` bytes from `x` on.
abbrev slice : ℕ → ℕ → List ℕ → ℕ
slice n x a = le_value (take n (drop x a))

slice_empty : (n x : ℕ) → slice n x [] ≡ 0
slice_empty zero zero = refl
slice_empty (suc n) zero = refl
slice_empty zero (suc x) = refl
slice_empty (suc n) (suc x) = refl

slice-suc : (n x : ℕ) (a : List ℕ) → slice (suc n) x a ≡ get_or a x 0 + 256 * slice n (suc x) a
slice-suc n zero [] = omega (arith, slice_empty n 1)
slice-suc n (suc x) [] = omega (arith, slice_empty n (suc (suc x)))
slice-suc n zero (c ∷ a) = refl
slice-suc n (suc x) (c ∷ a) = slice-suc n x a

drop-set : (x v : ℕ) (a : List ℕ) → drop (suc x) (set a x v) ≡ drop (suc x) a
drop-set x v [] = refl
drop-set zero v (c ∷ a) = refl
drop-set (suc x) v (c ∷ a) = drop-set x v a

get_or-set_below : (xs : List ℕ) (i j v : ℕ) → j < i → get_or (set xs i v) j 0 ≡ get_or xs j 0
get_or-set_below [] i j v h = refl
get_or-set_below (x ∷ xs) zero j v h = absurd (omega arith)
get_or-set_below (x ∷ xs) (suc i) zero v h = refl
get_or-set_below (x ∷ xs) (suc i) (suc j) v h = get_or-set_below xs i j v (omega arith)

pub set-IsBytes : (a : List ℕ) (x v : ℕ) → IsBytes a → v < 256 → IsBytes (set a x v)
set-IsBytes [] x v h k = tt
set-IsBytes (c ∷ a) zero v h k = (k, h.1)
set-IsBytes (c ∷ a) (suc x) v h k = (h.0, set-IsBytes a x v h.1 k)

multiply_loop_below :
    (rounds x b : ℕ) (a : List ℕ) (carry j : ℕ)
    → j < x
    → get_or (multiply_loop rounds x b a carry).0 j 0 ≡ get_or a j 0
unfolding multiply_loop
multiply_loop_below zero x b a carry j h = refl
multiply_loop_below (suc rounds) x b a carry j h =
    let c = u16 (carry + get_or a x 0 * b) in
    multiply_loop_below rounds (x + 1) b (set a x (u8 c)) (c >>> 8) j (omega arith)
    ∙ get_or-set_below a x j (u8 c) h

-- A byte times a byte, with a carry below 256, fits into two bytes.
product-lt : (carry d b : ℕ) → carry < 256 → d < 256 → b < 256 → carry + d * b < 2 ^ 16
product-lt carry d b h k l =
    let bound : d * b ≤ 255 * 255 = mul-le-mul {n₂ = 255} {m₂ = 255} (omega arith) (omega arith) in
    omega (arith, bound)

record Multiplied (rounds x b : ℕ) (a : List ℕ) (carry : ℕ) : Type 0 where
  pub digits : IsBytes (multiply_loop rounds x b a carry).0
  pub top : (multiply_loop rounds x b a carry).1 < 256
  pub len : length (multiply_loop rounds x b a carry).0 ≡ length a
  pub equation :
      slice rounds x (multiply_loop rounds x b a carry).0
        + 256 ^ rounds * (multiply_loop rounds x b a carry).1
      ≡ carry + b * slice rounds x a

multiply_loop_lem :
    (rounds x b : ℕ) (a : List ℕ) (carry : ℕ)
    → b < 256
    → carry < 256
    → IsBytes a
    → x + rounds ≤ length a
    → Multiplied rounds x b a carry
unfolding multiply_loop
multiply_loop_lem zero x b a carry hb hc bytes le = record {
  digits = bytes;
  top = hc;
  len = refl;
  equation = omega arith;
}
multiply_loop_lem (suc rounds) x b a carry hb hc bytes le =
    let d = get_or a x 0 in
    let c = u16 (carry + d * b) in
    let small = product-lt carry d b hc (get_or-lt a x bytes) hb in
    let e : c ≡ carry + d * b = omega (arith, small) in
    let a' = set a x (u8 c) in
    let rest =
      multiply_loop_lem rounds (x + 1) b a' (c >>> 8) hb (omega arith)
        (set-IsBytes a x (u8 c) bytes (omega arith)) (omega (arith, length-set a x (u8 c))) in
    let r = multiply_loop rounds (x + 1) b a' (c >>> 8) in
    let first : get_or r.0 x 0 ≡ c % 256 =
      multiply_loop_below rounds (x + 1) b a' (c >>> 8) x (omega arith)
      ∙ get_or-set a x (u8 c) (omega arith) in
    let next : x + 1 ≡ suc x = omega arith in
    let above : slice rounds (suc x) r.0 + 256 ^ rounds * r.1
        ≡ (c >>> 8) + b * slice rounds (suc x) a =
      subst (λ (k : ℕ). slice rounds k r.0 + 256 ^ rounds * r.1 ≡ (c >>> 8) + b * slice rounds k a')
        next rest.equation
      ∙ ap (λ (t : List ℕ). (c >>> 8) + b * le_value (take rounds t)) (drop-set x (u8 c) a) in
    record {
      digits = rest.digits;
      top = rest.top;
      len = rest.len ∙ length-set a x (u8 c);
      equation = omega (
        arith,
        above,
        first,
        e,
        slice-suc rounds x r.0,
        ap (λ (t : ℕ). b * t) (slice-suc rounds x a),
        ap (λ (t : ℕ). t * r.1) (pow-suc 256 rounds),
      );
    }

take-set : (xs : List ℕ) (i v : ℕ) → take i (set xs i v) ≡ take i xs
take-set [] i v = refl
take-set (x ∷ xs) zero v = refl
take-set (x ∷ xs) (suc i) v = ap (λ t. x ∷ t) (take-set xs i v)

-- The value with a new byte at the top.
pub extended :
    (n v : ℕ) (xs : List ℕ)
    → n < length xs
    → le_value (take (n + 1) (set xs n v)) ≡ le_value (take n xs) + 256 ^ n * v
extended n v xs h =
    let e : n + 1 ≡ suc n = omega arith in
    ap (λ (k : ℕ). le_value (take k (set xs n v))) e
    ∙ le_value-take-suc n (set xs n v)
    ∙ ap (λ (t : List ℕ). le_value t + 256 ^ n * get_or (set xs n v) n 0) (take-set xs n v)
    ∙ ap (λ (k : ℕ). le_value (take n xs) + 256 ^ n * k) (get_or-set xs n v h)

-- That `m` returns a big number of value `v` and at most `len` bytes.
pub record Computes (m : Option BigNumber) (v len : ℕ) : Type 0 where
  pub result : BigNumber
  pub returns : m ≡ some result
  pub whole : IsBigNumber result
  pub exact : value result ≡ v
  pub short : result.length ≤ len

if-Computes :
    (t : Bool) (m n : Option BigNumber) (v len : ℕ)
    → (t ≡ true → Computes m v len)
    → (t ≡ false → Computes n v len)
    → Computes (if t then m else n) v len
if-Computes true m n v len f g = f refl
if-Computes false m n v len f g = g refl

-- For an array of 256 bytes of which a number leaves at least two unused, the multiplication by a
-- byte succeeds and gives the product, in one byte more at most.
pub multiplication-value :
    (a : BigNumber) (b : ℕ)
    → IsBigNumber a
    → b < 256
    → a.length + 1 < 256
    → Computes (multiplication a b) (value a * b) (a.length + 1)
unfolding multiplication
multiplication-value a b h hb room =
    if-Computes (b == 0) _ _ _ _
      (λ z. record {
        result = record { data_bytes = set a.data_bytes 0 0; length = 1 };
        returns = refl;
        whole = record {
          bytes = set-IsBytes a.data_bytes 0 0 h.bytes (omega arith);
          full = length-set a.data_bytes 0 0 ∙ h.full;
          some_left = omega arith;
        };
        exact =
            extended 0 0 a.data_bytes (omega (arith, h.full))
            ∙ omega (arith, ap (λ (t : ℕ). value a * t) (==→eq b 0 z));
        short = omega arith;
      })
      λ _.
        if-Computes (a.length == 1 && get_or a.data_bytes 0 0 == 0) _ _ _ _
          (λ z. record {
            result = a;
            returns = refl;
            whole = h;
            exact =
                let e = zero-value a.length a.data_bytes z in
                omega (arith, e, ap (λ (t : ℕ). t * b) e);
            short = omega arith;
          })
          λ _.
            if-Computes (product.1 == 0) _ _ _ _
              (λ z. record {
                result = record { data_bytes = product.0; length = a.length };
                returns = refl;
                whole = record { bytes = r.digits; full = r.len ∙ h.full; some_left = h.some_left };
                exact =
                    omega
                      (arith, r.equation, ap (λ (t : ℕ). 256 ^ a.length * t) (==→eq product.1 0 z));
                short = omega arith;
              })
              λ _.
                if-Computes (ltb (a.length + 1) 256) _ _ _ _
                  (λ z. record {
                    result = record {
                      data_bytes = set product.0 a.length (u8 product.1);
                      length = a.length + 1;
                    };
                    returns = refl;
                    whole = record {
                      bytes = set-IsBytes product.0 a.length (u8 product.1) r.digits (omega arith);
                      full = length-set product.0 a.length (u8 product.1) ∙ r.len ∙ h.full;
                      some_left = room;
                    };
                    exact =
                        extended a.length (u8 product.1) product.0
                          (omega (arith, r.len, h.full, h.some_left))
                        ∙ omega (arith, r.equation, ap (λ (t : ℕ). 256 ^ a.length * t) top);
                    short = omega arith;
                  })
                  (λ z. absurd (ground arith))
  where
    product : List ℕ × ℕ
    product = multiply_loop a.length 0 b a.data_bytes 0

    r : Multiplied a.length 0 b a.data_bytes 0
    r =
        multiply_loop_lem a.length 0 b a.data_bytes 0 hb (omega arith) h.bytes
          (omega (arith, h.full, h.some_left))

    top : u8 product.1 ≡ product.1
    top = omega (arith, r.top)
