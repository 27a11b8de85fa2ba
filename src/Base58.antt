-- ===== src/Base58.antt =====
-- The big numbers of src/Base58.cpp, from cbitcoin: the bytes of a number, the smallest first, in an
-- array of 256 bytes, and how many of them count. An assertion that fails is `none`.
-- The loops that count with a uint8_t do not wrap, since the assertions keep `length` below 256.
use bitcoinstats.Common.{
  ℕ, zero, suc, ◌+◌, ◌-◌, ◌*◌, ◌/◌, ◌%◌, ◌^◌, ltb, leb, ◌==◌, if◌then◌else◌, u8, u16,
}
use bitcoinstats.Common.{Bool, true, false, ◌&&◌, ◌||◌, Option, none, some, bit_or, ◌<<<◌, ◌>>>◌}
use bitcoinstats.Common.{List, [], ◌∷◌, ◌++◌, take, drop, get_or, set, replicate}
use bitcoinstats.Common
pub mod Value
pub mod Product
pub mod Power
pub mod Code
mod Tests

abbrev pub max_big_number : ℕ
max_big_number = 256

pub record BigNumber : Type 0 where
  pub data_bytes : List ℕ
  pub length : ℕ

-- The constructor BigNumber(sourceData, len) for a pointer that is not NULL.
unfoldable pub from_bytes : List ℕ → BigNumber
from_bytes source = record {
  data_bytes = source ++ replicate (max_big_number - Common.length source) 0;
  length = Common.length source;
}

-- BigNumber(NULL, len)
unfoldable pub zeros_of : ℕ → BigNumber
zeros_of len = record { data_bytes = replicate max_big_number 0; length = len }

pub data Compare : Type 0 where
  more_than equal less_than : Compare

-- BigNumberCompareTo58
unfoldable pub compare_to_58 : BigNumber → Compare
compare_to_58 a =
    let first = get_or a.data_bytes 0 0 in
    if ltb 1 a.length
    then Compare.more_than
    else if ltb 58 first
    then Compare.more_than
    else if ltb first 58
    then Compare.less_than
    else Compare.equal

-- The loop of BigNumberCompareToBigInt, from the last byte down.
unfoldable pub compare_bytes : ℕ → List ℕ → List ℕ → Compare
compare_bytes zero a b = Compare.equal
compare_bytes (suc x) a b =
    let rest = compare_bytes x a b in
    if ltb (get_or a x 0) (get_or b x 0)
    then Compare.less_than
    else if ltb (get_or b x 0) (get_or a x 0)
    then Compare.more_than
    else rest

-- BigNumberCompareToBigInt
unfoldable pub compare_to_big_int : BigNumber → BigNumber → Compare
unfolding compare_bytes
compare_to_big_int a b =
    if ltb b.length a.length
    then Compare.more_than
    else if ltb a.length b.length
    then Compare.less_than
    else compare_bytes a.length a.data_bytes b.data_bytes

-- One round of the addition: the byte and the new overflow.
unfoldable pub add_byte : ℕ → ℕ → ℕ → ℕ × ℕ
add_byte a b overflow =
    let sum = u8 (a + (b + overflow)) in (sum, if ltb sum (b + overflow) then 1 else 0)

-- `for (; x < b->length; x++)`, with `rounds` for b->length - x.
unfoldable pub add_loop : ℕ → ℕ → List ℕ → List ℕ → ℕ → List ℕ × ℕ
unfolding add_byte
add_loop zero x b a overflow = (a, overflow)
add_loop (suc rounds) x b a overflow =
    let r = add_byte (get_or a x 0) (get_or b x 0) overflow in
    add_loop rounds (x + 1) b (set a x r.0) r.1

-- `while (overflow && x < a->length)`, with `rounds` for a->length - x.
unfoldable pub add_overflow : ℕ → ℕ → List ℕ → ℕ → List ℕ × ℕ
add_overflow zero x a overflow = (a, overflow)
add_overflow (suc rounds) x a overflow =
    let v = u8 (get_or a x 0 + 1) in
    let rest = add_overflow rounds (x + 1) (set a x v) (if v == 0 then 1 else 0) in
    if overflow == 0 then (a, overflow) else rest

-- memset(p + from, 0, count)
unfoldable pub clear : ℕ → ℕ → List ℕ → List ℕ
clear from zero a = a
clear from (suc count) a = clear (from + 1) count (set a from 0)

-- BigNumberEqualsAdditionByBigInt
unfoldable pub addition : BigNumber → BigNumber → Option BigNumber
unfolding add_loop add_overflow clear
addition a b =
    let len = if ltb a.length b.length then b.length else a.length in
    let wide =
      if ltb a.length b.length
      then clear a.length (b.length - a.length) a.data_bytes
      else a.data_bytes in
    let sum = add_loop b.length 0 b.data_bytes wide 0 in
    let all = add_overflow (len - b.length) b.length sum.0 sum.1 in
    if all.1 == 0
    then some (record { data_bytes = all.0; length = len })
    else if ltb (len + 1) max_big_number
    then some (record { data_bytes = set all.0 len 1; length = len + 1 })
    else none

-- The loop of the long division, from the byte below `x` down, with the remainder `temp`.
unfoldable pub divide_loop : ℕ → ℕ → List ℕ → List ℕ → List ℕ
divide_loop zero temp a ans = ans
divide_loop (suc x) temp a ans =
    let t = bit_or (u16 (temp <<< 8)) (get_or a x 0) in
    let q = u8 (t / 58) in divide_loop x (t - q * 58) a (set ans x q)

-- BigNumberEqualsDivisionBy58, with the memory `ans` that the caller gives.
unfoldable pub division_by_58 : BigNumber → List ℕ → BigNumber
unfolding divide_loop
division_by_58 a ans =
    let q = divide_loop a.length 0 a.data_bytes ans in
    let len = if get_or q (a.length - 1) 0 == 0 then a.length - 1 else a.length in
    if a.length == 1 && get_or a.data_bytes 0 0 == 0
    then a
    else record { data_bytes = take len q ++ drop len a.data_bytes; length = len }

-- The loop of the multiplication, with `rounds` for a->length - x: the bytes and the carry.
unfoldable pub multiply_loop : ℕ → ℕ → ℕ → List ℕ → ℕ → List ℕ × ℕ
multiply_loop zero x b a carry = (a, carry)
multiply_loop (suc rounds) x b a carry =
    let c = u16 (carry + get_or a x 0 * b) in
    multiply_loop rounds (x + 1) b (set a x (u8 c)) (c >>> 8)

-- BigNumberEqualsMultiplicationByUInt8
unfoldable pub multiplication : BigNumber → ℕ → Option BigNumber
unfolding multiply_loop
multiplication a b =
    let product = multiply_loop a.length 0 b a.data_bytes 0 in
    if b == 0
    then some (record { data_bytes = set a.data_bytes 0 0; length = 1 })
    else if a.length == 1 && get_or a.data_bytes 0 0 == 0
    then some a
    else if product.1 == 0
    then some (record { data_bytes = product.0; length = a.length })
    else if ltb (a.length + 1) max_big_number
    then some (record { data_bytes = set product.0 a.length (u8 product.1); length = a.length + 1 })
    else none

-- BigNumberNormalise, on the length.
unfoldable pub normal_length : List ℕ → ℕ → ℕ
normal_length a zero = zero
normal_length a (suc n) =
    let shorter = normal_length a n in if ltb 0 n && get_or a n 0 == 0 then shorter else suc n

unfoldable pub normalise : BigNumber → BigNumber
unfolding normal_length
normalise a = record a { length = normal_length a.data_bytes a.length }

-- The loop of BigNumberEqualsSubtractionByBigInt: the bytes and the carry.
unfoldable pub subtract_loop : ℕ → ℕ → List ℕ → List ℕ → ℕ → List ℕ × ℕ
subtract_loop zero x b a carry = (a, carry)
subtract_loop (suc rounds) x b a carry =
    let tmp = carry + get_or b x 0 in
    subtract_loop rounds (x + 1) b (set a x (u8 (get_or a x 0 + 256 - u8 tmp)))
      (if ltb (get_or a x 0) tmp then 1 else 0)

-- BigNumberEqualsSubtractionByBigInt
unfoldable pub subtraction : BigNumber → BigNumber → BigNumber
unfolding subtract_loop normalise
subtraction a b =
    let r = subtract_loop b.length 0 b.data_bytes a.data_bytes 0 in
    normalise (record a {
      data_bytes = if r.1 == 0 then r.0 else set r.0 b.length (u8 (get_or r.0 b.length 0 + 255));
    })

-- `for (; a->data[x] < carry; x++)`. The index is a uint8_t. After 257 rounds it has come back to a
-- byte that the loop has made 255 or 256 - b, so the fuel is enough.
unfoldable pub borrow_loop : ℕ → ℕ → List ℕ → ℕ → List ℕ
borrow_loop zero x a carry = a
borrow_loop (suc fuel) x a carry =
    let v = get_or a x 0 in
    let rest = borrow_loop fuel (u8 (x + 1)) (set a x (u8 (255 - carry + v + 1))) 1 in
    if ltb v carry then rest else set a x (v - carry)

-- BigNumberEqualsSubtractionByUInt8
unfoldable pub subtraction_by_u8 : BigNumber → ℕ → BigNumber
unfolding borrow_loop normalise
subtraction_by_u8 a b = normalise (record a { data_bytes = borrow_loop 257 0 a.data_bytes b })

-- The loop of BigNumberFromPowUInt8.
unfoldable pub power_loop : ℕ → ℕ → BigNumber → Option BigNumber
unfolding multiplication
power_loop zero a n = some n
power_loop (suc b) a n = elim (multiplication n a) [ none ↦ none | some m ↦ power_loop b a m ]

-- BigNumberFromPowUInt8
unfoldable pub from_power : BigNumber → ℕ → ℕ → Option BigNumber
unfolding power_loop
from_power bi a b = power_loop b a (record { data_bytes = set bi.data_bytes 0 1; length = 1 })

-- The loop of BigNumberModuloWith58, from the byte below `x` down.
unfoldable pub modulo_loop : ℕ → List ℕ → ℕ → ℕ
modulo_loop zero a result = result
modulo_loop (suc x) a result = modulo_loop x a ((result * (256 % 58) % 58 + get_or a x 0 % 58) % 58)

-- BigNumberModuloWith58, for a length that is not 0.
unfoldable pub modulo_with_58 : BigNumber → ℕ
unfolding modulo_loop
modulo_with_58 a = modulo_loop a.length a.data_bytes 0
