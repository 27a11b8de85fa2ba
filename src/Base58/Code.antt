-- ===== src/Base58/Code.antt =====
-- The base 58 code of src/Base58.cpp. A string is the list of its characters, without the end mark.
use bitcoinstats.Common.{ℕ, zero, suc, ◌+◌, ◌-◌, ◌*◌, ◌/◌, ltb, leb, ◌==◌, if◌then◌else◌, u8}
use bitcoinstats.Common.{Bool, true, false, ◌&&◌, ◌||◌, Option, none, some}
use bitcoinstats.Common.{List, [], ◌∷◌, ◌++◌, length, take, get_or, set, replicate, reverse}
use bitcoinstats.Base58.{
  BigNumber, Compare, from_bytes, zeros_of, addition, multiplication, from_power,
}
use bitcoinstats.Base58.{compare_to_58, modulo_with_58, subtraction_by_u8, division_by_58, clear}
use bitcoinstats.Base58.{max_big_number}

-- "123456789", "A" to "H", "J" to "N", "P" to "Z", "a" to "k" and "m" to "z".
abbrev pub characters : ℕ → ℕ
characters n =
    if ltb n 9
    then 49 + n
    else if ltb n 17
    then 65 + (n - 9)
    else if ltb n 22
    then 74 + (n - 17)
    else if ltb n 33
    then 80 + (n - 22)
    else if ltb n 44
    then 97 + (n - 33)
    else if ltb n 58
    then 109 + (n - 44)
    else 0

-- The index in the alphabet, from the ranges of characters that `CBDecodeBase58` tests. A char from
-- 128 on is negative.
unfoldable pub alphabet_index : ℕ → ℕ
alphabet_index c =
    let less = λ (n : ℕ). ltb c n || leb 128 c in
    u8 (
      c
      + 256
      - (if less 58
          then 49
          else if less 73
          then 56
          else if less 79
          then 57
          else if less 91
          then 58
          else if less 108
          then 64
          else 65))

-- `for (x = slen - 1;; x--)` from the character below `x` down, which is `slen - x` from the end.
unfoldable pub decode_loop : ℕ → List ℕ → BigNumber → BigNumber → Option BigNumber
decode_loop zero str bi2 bi = some bi
decode_loop (suc x) str bi2 bi =
    let rest = λ (b c : BigNumber). decode_loop x str b c in
    if get_or str x 0 == 49
    then rest bi2 bi
    else elim (from_power bi2 58 (u8 (length str - 1 - x))) [
      | none ↦ none
      | some power ↦ elim (multiplication power (alphabet_index (get_or str x 0))) [
        | none ↦ none
        | some digit ↦ elim (addition bi digit) [ none ↦ none | some sum ↦ rest digit sum ]
      ]
    ]

-- How many `1` the string begins with.
unfoldable pub leading_ones : List ℕ → ℕ
leading_ones [] = 0
leading_ones (c ∷ cs) = let rest = leading_ones cs in if c == 49 then suc rest else 0

-- CBDecodeBase58. The empty string is read from out of its bounds, and on 256 leading `1` the counter
-- of the last loop wraps and the loop does not end: `none`.
unfoldable pub decode_big_number : List ℕ → BigNumber → Option BigNumber
unfolding decode_loop leading_ones clear
decode_big_number [] bi = none
decode_big_number (c ∷ cs) bi =
    let ones = leading_ones (c ∷ cs) in
    elim (decode_loop (length (c ∷ cs)) (c ∷ cs) (zeros_of 1) bi) [
      | none ↦ none
      | some n ↦
          if ones == 0
          then some n
          else if ltb (n.length + ones) max_big_number
          then some
              (record { data_bytes = clear n.length ones n.data_bytes; length = n.length + ones })
          else none
    ]

-- decodeBase58: the output buffer's bytes, none of them for a return value of 0.
unfoldable pub decode_base58 : List ℕ → ℕ → Bool → Option (List ℕ)
unfolding decode_big_number zeros_of
decode_base58 string max_output_length is_big_endian =
    elim (decode_big_number string (zeros_of 0)) [
      | none ↦ none
      | some bn ↦
          let bytes = take bn.length bn.data_bytes in
          if leb bn.length max_output_length
          then some (if is_big_endian then reverse bytes else bytes)
          else some []
    ]

-- `done`: the string was written. `failed`: the function returned false. `fault`: out of bounds.
pub data Coded : Type 0 where
  done : List ℕ → Coded
  failed fault : Coded

-- The loop over the zero bytes at the end, from the byte below `y` down: how many they are.
unfoldable pub zero_bytes : ℕ → List ℕ → ℕ
zero_bytes zero a = 0
zero_bytes (suc y) a = let rest = zero_bytes y a in if get_or a y 0 == 0 then suc rest else 0

abbrev pub at_least_58 : Compare → Bool
at_least_58 Compare.more_than = true
at_least_58 Compare.equal = true
at_least_58 Compare.less_than = false

-- `for (;BigNumberCompareTo58(bi) >= 0;x++)`, where `str` holds x characters.
unfoldable pub encode_loop : ℕ → ℕ → BigNumber → List ℕ → Coded
encode_loop zero max_str_len bi str = Coded.fault
encode_loop (suc fuel) max_str_len bi str =
    let digit = modulo_with_58 bi in
    let rest =
      encode_loop fuel max_str_len
        (division_by_58 (subtraction_by_u8 bi digit) (replicate max_big_number 0))
        (str ++ characters digit ∷ []) in
    if at_least_58 (compare_to_58 bi)
    then if ltb bi.length (length str + 3) && ltb max_str_len (length str + 3)
      then Coded.failed
      else rest
    else Coded.done (str ++ characters (get_or bi.data_bytes (bi.length - 1) 0) ∷ [])

-- The reversal, with `rounds` for (x-zeros) / 2 - y and `x` for the length of the string.
unfoldable pub swap_loop : ℕ → ℕ → ℕ → List ℕ → List ℕ
swap_loop zero y ones str = str
swap_loop (suc rounds) y ones str =
    let x = length str in
    swap_loop rounds (y + 1) ones
      (set (set str (y + ones) (get_or str (x - y - 1) 0)) (x - y - 1) (get_or str (y + ones) 0))

-- CBEncodeBase58. A length of 0 is read from out of its bounds. A round divides the number by 58.
unfoldable pub encode_big_number : BigNumber → ℕ → Coded
unfolding zero_bytes encode_loop swap_loop
encode_big_number bi max_str_len =
    let ones = zero_bytes bi.length bi.data_bytes in
    if ltb max_str_len bi.length
    then Coded.failed
    else if bi.length == 0
    then Coded.fault
    else elim (encode_loop (2 * bi.length + 2) max_str_len bi (replicate ones 49)) [
      | Coded.done str ↦ Coded.done (swap_loop ((length str - ones) / 2) 0 ones str)
      | Coded.failed ↦ Coded.failed
      | Coded.fault ↦ Coded.fault
    ]

-- encodeBase58. The array for the bytes has 25 of them; the loop that reverses the input fills it
-- whatever the length, and reads out of bounds unless that is 25.
unfoldable pub encode_base58 : List ℕ → ℕ → Bool → ℕ → Coded
unfolding encode_big_number from_bytes
encode_base58 big_number len is_big_endian max_str_len =
    let bytes = take len big_number in
    let in_bounds = if is_big_endian then len == 25 else leb len 25 in
    if in_bounds
    then encode_big_number (from_bytes (if is_big_endian then reverse bytes else bytes)) max_str_len
    else Coded.fault
