-- ===== src/Base58/Value.antt =====
-- What the operations of src/Base58.cpp do to the number that the bytes stand for.
use bitcoinstats.Common.{ℕ, zero, suc, ◌+◌, ◌-◌, ◌*◌, ◌/◌, ◌%◌, ◌^◌, ◌≤◌, ◌<◌, arith}
use bitcoinstats.Common.{◌≡◌, refl, sym, ap, ◌∙◌, Bool, true, false, ◌&&◌}
use bitcoinstats.Common.{
  ◌==◌, if◌then◌else◌, ==→eq, List, [], ◌∷◌, ◌++◌, length, take, drop, get_or, set,
}
use bitcoinstats.Common.{le_value, IsBytes, u8, u16, ◌<<<◌, bit_or}
use bitcoinstats.Common.{length-set, take-append_left, length-take}
use bitcoinstats.Common.Bits.{bit_or_disjoint}
use bitcoinstats.Base58.{BigNumber, modulo_loop, modulo_with_58, divide_loop, division_by_58}
use native.Mathlib.Nat.{pow-suc}

-- The number that a big number stands for.
abbrev pub value : BigNumber → ℕ
value a = le_value (take a.length a.data_bytes)

pub le_value-take-suc :
    (x : ℕ) (xs : List ℕ)
    → le_value (take (suc x) xs) ≡ le_value (take x xs) + 256 ^ x * get_or xs x 0
le_value-take-suc zero [] = refl
le_value-take-suc (suc x) [] = omega arith
le_value-take-suc zero (c ∷ xs) = omega arith
le_value-take-suc (suc x) (c ∷ xs) =
    omega (arith, le_value-take-suc x xs, ap (λ (t : ℕ). t * get_or xs x 0) (pow-suc 256 x))

pub get_or-lt : (xs : List ℕ) (i : ℕ) → IsBytes xs → get_or xs i 0 < 256
get_or-lt [] i h = omega arith
get_or-lt (x ∷ xs) zero h = h.0
get_or-lt (x ∷ xs) (suc i) h = get_or-lt xs i h.1

-- A factor may be reduced before the multiplication.
reduce_first : (t p v : ℕ) → (t % 58 * p + v) % 58 ≡ (t * p + v) % 58
reduce_first t p v =
    let split : t ≡ 58 * (t / 58) + t % 58 = omega arith in
    omega (arith, ap (λ (u : ℕ). u * p) split)

modulo_loop_lem :
    (x : ℕ) (a : List ℕ) (r : ℕ)
    → r < 58
    → modulo_loop x a r ≡ (r * 256 ^ x + le_value (take x a)) % 58
unfolding modulo_loop
modulo_loop_lem zero a r h = omega arith
modulo_loop_lem (suc x) a r h =
    let d = get_or a x 0 in
    let next : (r * (256 % 58) % 58 + d % 58) % 58 ≡ (r * 256 + d) % 58 = omega arith in
    modulo_loop_lem x a ((r * (256 % 58) % 58 + d % 58) % 58) (omega arith)
    ∙ ap (λ (t : ℕ). (t * 256 ^ x + le_value (take x a)) % 58) next
    ∙ reduce_first (r * 256 + d) (256 ^ x) (le_value (take x a))
    ∙ ap (λ (t : ℕ). t % 58)
        (omega (arith, le_value-take-suc x a, ap (λ (t : ℕ). r * t) (pow-suc 256 x)))

-- The remainder that is computed byte by byte is the remainder of the number by 58.
pub modulo_with_58-value : (a : BigNumber) → modulo_with_58 a ≡ value a % 58
unfolding modulo_with_58
modulo_with_58-value a =
    modulo_loop_lem a.length a.data_bytes 0 (omega arith) ∙ ap (λ (t : ℕ). t % 58) (omega arith)

pub get_or-set : (xs : List ℕ) (i v : ℕ) → i < length xs → get_or (set xs i v) i 0 ≡ v
get_or-set [] i v h = absurd (omega arith)
get_or-set (x ∷ xs) zero v h = refl
get_or-set (x ∷ xs) (suc i) v h = get_or-set xs i v (omega arith)

pub get_or-set_other : (xs : List ℕ) (i j v : ℕ) → i < j → get_or (set xs i v) j 0 ≡ get_or xs j 0
get_or-set_other [] i j v h = refl
get_or-set_other (x ∷ xs) i zero v h = absurd (omega arith)
get_or-set_other (x ∷ xs) zero (suc j) v h = refl
get_or-set_other (x ∷ xs) (suc i) (suc j) v h = get_or-set_other xs i j v (omega arith)

-- The part of the quotient above `x` stays.
divide_loop_above :
    (x temp : ℕ) (a ans : List ℕ) (j : ℕ)
    → x ≤ j
    → get_or (divide_loop x temp a ans) j 0 ≡ get_or ans j 0
unfolding divide_loop
divide_loop_above zero temp a ans j h = refl
divide_loop_above (suc x) temp a ans j h =
    let t = bit_or (u16 (temp <<< 8)) (get_or a x 0) in
    divide_loop_above x (t - u8 (t / 58) * 58) a (set ans x (u8 (t / 58))) j (omega arith)
    ∙ get_or-set_other ans x j (u8 (t / 58)) (omega arith)

join_byte : (temp d : ℕ) → temp < 58 → d < 256 → bit_or (u16 (temp <<< 8)) d ≡ temp * 256 + d
join_byte temp d h k =
    let e : u16 (temp <<< 8) ≡ temp * 2 ^ 8 = omega arith in
    ap (λ (n : ℕ). bit_or n d) e ∙ bit_or_disjoint 8 temp d (omega arith)

-- One step of the long division, on the values of the bytes below `p`.
division_step :
    (v va p q t t' d temp rem : ℕ)
    → 58 * v + rem ≡ t' * p + va
    → t ≡ q * 58 + t'
    → t ≡ temp * 256 + d
    → 58 * (v + p * q) + rem ≡ temp * (256 * p) + (va + p * d)
division_step v va p q t t' d temp rem h e e' = omega (arith, h, ap (λ (n : ℕ). n * p) (sym e ∙ e'))

divide_loop_lem :
    (x temp : ℕ) (a ans : List ℕ)
    → IsBytes a
    → temp < 58
    → x ≤ length ans
    → (rem : ℕ) × ((rem < 58)
        × (58 * le_value (take x (divide_loop x temp a ans)) + rem
            ≡ temp * 256 ^ x + le_value (take x a)))
unfolding divide_loop
divide_loop_lem zero temp a ans bytes h le = (temp, (h, omega arith))
divide_loop_lem (suc x) temp a ans bytes h le =
    let d = get_or a x 0 in
    let t = bit_or (u16 (temp <<< 8)) d in
    let small = get_or-lt a x bytes in
    let e : t ≡ temp * 256 + d = join_byte temp d h small in
    let q = u8 (t / 58) in
    let eq : q ≡ t / 58 = omega arith in
    let rest =
      divide_loop_lem x (t - q * 58) a (set ans x q) bytes (omega arith)
        (omega (arith, length-set ans x q)) in
    let top : get_or (divide_loop x (t - q * 58) a (set ans x q)) x 0 ≡ q =
      divide_loop_above x (t - q * 58) a (set ans x q) x (omega arith)
      ∙ get_or-set ans x q (omega arith) in
    let whole : t ≡ q * 58 + (t - q * 58) = omega arith in
    let r = divide_loop x (t - q * 58) a (set ans x q) in
    (
      rest.0,
      (
        rest.1.0,
        ap (λ (n : ℕ). 58 * n + rest.0)
              (le_value-take-suc x r ∙ ap (λ (n : ℕ). le_value (take x r) + 256 ^ x * n) top)
            ∙ division_step (le_value (take x r)) (le_value (take x a)) (256 ^ x) q t (t - q * 58) d
                temp rest.0 rest.1.1 whole e
            ∙ sym (omega (arith, le_value-take-suc x a, ap (λ (n : ℕ). temp * n) (pow-suc 256 x))),
      ),
    )

-- Dropping a zero byte at the top does not change the value.
trimmed :
    (n : ℕ) (q : List ℕ) (b : Bool)
    → (b ≡ true → get_or q (n - 1) 0 ≡ 0)
    → le_value (take (if b then n - 1 else n) q) ≡ le_value (take n q)
trimmed n q false h = refl
trimmed zero q true h = refl
trimmed (suc n) q true h =
    let e : suc n - 1 ≡ n = omega arith in
    ap (λ (k : ℕ). le_value (take k q)) e
    ∙ omega (
      arith,
      le_value-take-suc n q,
      ap (λ (k : ℕ). 256 ^ n * k) (ap (λ (k : ℕ). get_or q k 0) (sym e) ∙ h refl),
    )

length-divide_loop : (x temp : ℕ) (a ans : List ℕ) → length (divide_loop x temp a ans) ≡ length ans
unfolding divide_loop
length-divide_loop zero temp a ans = refl
length-divide_loop (suc x) temp a ans =
    let t = bit_or (u16 (temp <<< 8)) (get_or a x 0) in
    length-divide_loop x (t - u8 (t / 58) * 58) a (set ans x (u8 (t / 58)))
    ∙ length-set ans x (u8 (t / 58))

-- The one byte of a number that the division leaves alone is 0.
pub zero-value :
    (n : ℕ) (a : List ℕ) → (n == 1 && get_or a 0 0 == 0) ≡ true → le_value (take n a) ≡ 0
zero-value n a h =
    let e : n ≡ 1 = ground arith in
    let e' : get_or a 0 0 ≡ 0 = ground arith in
    ap (λ (k : ℕ). le_value (take k a)) e ∙ le_value-take-suc 0 a ∙ omega (arith, e')

if-value :
    (b : Bool) (x y : BigNumber) (v : ℕ)
    → (b ≡ true → value x ≡ v)
    → (b ≡ false → value y ≡ v)
    → value (if b then x else y) ≡ v
if-value true x y v f g = f refl
if-value false x y v f g = g refl

stored : (len : ℕ) (q rest : List ℕ) → len ≤ length q → take len (take len q ++ rest) ≡ take len q
stored len q rest h =
    let e : length (take len q) ≡ len = omega (arith, length-take len q) in
    ap (λ (k : ℕ). take k (take len q ++ rest)) (sym e) ∙ take-append_left (take len q) rest

-- If the array holds bytes and the scratch memory is as long as the number, the division gives the
-- quotient of the number by 58, whatever stood in the scratch memory.
pub division_by_58-value :
    (a : BigNumber) (ans : List ℕ)
    → IsBytes a.data_bytes
    → a.length ≤ length ans
    → value (division_by_58 a ans) ≡ value a / 58
unfolding division_by_58
division_by_58-value a ans bytes room =
    if-value (a.length == 1 && get_or a.data_bytes 0 0 == 0) _ _ (value a / 58)
      (λ z. omega (arith, zero-value a.length a.data_bytes z))
      (λ _.
        ap le_value (
          stored len quotient (drop len a.data_bytes)
            (omega (arith, len-le, room, length-divide_loop a.length 0 a.data_bytes ans)))
        ∙ trimmed a.length quotient (get_or quotient (a.length - 1) 0 == 0)
            (==→eq (get_or quotient (a.length - 1) 0) 0)
        ∙ omega (arith, long.1.0, long.1.1))
  where
    quotient : List ℕ
    quotient = divide_loop a.length 0 a.data_bytes ans

    len : ℕ
    len = if get_or quotient (a.length - 1) 0 == 0 then a.length - 1 else a.length

    len-le : len ≤ a.length
    len-le = ground arith

    long :
        (rem : ℕ) × ((rem < 58)
          × (58 * le_value (take a.length quotient) + rem ≡ 0 * 256 ^ a.length + value a))
    long = divide_loop_lem a.length 0 a.data_bytes ans bytes (omega arith) room
