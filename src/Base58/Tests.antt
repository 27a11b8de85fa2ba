-- ===== src/Base58/Tests.antt =====
-- Runs of the model of src/Base58.cpp on the address of the first block.
use bitcoinstats.Common.{ℕ, ◌≡◌, refl, List, [], ◌∷◌, true, some}
use bitcoinstats.Base58.{addition, multiplication, from_power, division_by_58, subtraction_by_u8}
use bitcoinstats.Base58.{modulo_with_58, compare_to_58}
use bitcoinstats.Base58.{BigNumber}
use bitcoinstats.Base58.Value.{value, modulo_with_58-value, division_by_58-value}
use bitcoinstats.Base58.Product.{IsBigNumber, Computes, multiplication-value}
use bitcoinstats.Base58.Power.{from_power-value}
use bitcoinstats.Common.{◌%◌, ◌/◌, ◌*◌, ◌^◌, arith, replicate}
use bitcoinstats.Base58.Code.{Coded, encode_base58, decode_base58, alphabet_index}

abbrev address : List ℕ
address =
    0 ∷ 98 ∷ 233 ∷ 7 ∷ 177 ∷ 92 ∷ 191 ∷ 39 ∷ 213 ∷ 66 ∷ 83 ∷ 153 ∷ 235 ∷ 246 ∷ 240 ∷ 251 ∷ 80 ∷ 235
    ∷ 184 ∷ 143 ∷ 24 ∷ 194 ∷ 155 ∷ 125 ∷ 147 ∷ []

abbrev ascii : List ℕ
ascii =
    49 ∷ 65 ∷ 49 ∷ 122 ∷ 80 ∷ 49 ∷ 101 ∷ 80 ∷ 53 ∷ 81 ∷ 71 ∷ 101 ∷ 102 ∷ 105 ∷ 50 ∷ 68 ∷ 77 ∷ 80
    ∷ 84 ∷ 102 ∷ 84 ∷ 76 ∷ 53 ∷ 83 ∷ 76 ∷ 109 ∷ 118 ∷ 55 ∷ 68 ∷ 105 ∷ 118 ∷ 102 ∷ 78 ∷ 97 ∷ []

encode_address : encode_base58 address 25 true 64 ≡ Coded.done ascii
unfolding encode_base58 modulo_with_58 compare_to_58 subtraction_by_u8 division_by_58
encode_address = refl

decode_address : decode_base58 ascii 25 true ≡ some address
unfolding decode_base58 from_power addition multiplication alphabet_index
decode_address = refl

-- 0x0201, and 254 bytes that do not count.
abbrev number : BigNumber
number = record { data_bytes = 1 ∷ 2 ∷ replicate 254 9; length = 2 }

number-IsBigNumber : IsBigNumber number
number-IsBigNumber = record { bytes = omega arith; full = refl; some_left = omega arith }

modulo_with_58_example : modulo_with_58 number ≡ value number % 58
modulo_with_58_example = modulo_with_58-value number

division_by_58_example : value (division_by_58 number (replicate 2 5)) ≡ value number / 58
division_by_58_example =
    division_by_58-value number (replicate 2 5) number-IsBigNumber.bytes (omega arith)

multiplication_example : Computes (multiplication number 200) (value number * 200) 3
multiplication_example =
    multiplication-value number 200 number-IsBigNumber (omega arith) (omega arith)

from_power_example : Computes (from_power number 58 33) (58 ^ 33) 34
from_power_example = from_power-value number 58 33 number-IsBigNumber (omega arith) (omega arith)
