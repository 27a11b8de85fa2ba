-- ===== src/BitcoinAddress/Tests.antt =====
-- The theorems on src/BitcoinAddress.cpp at concrete inputs.
use bitcoinstats.Common.{ℕ, ◌≡◌, refl, inl, List, [], ◌∷◌, ◌++◌, replicate, get_or, true, some}
use bitcoinstats.BitcoinAddress.{
  checksum, checksum_matches, ripemd160_to_address, ripemd160_to_script_address,
}
use bitcoinstats.BitcoinAddress.{public_key_to_address, compressed_public_key_to_address}
use bitcoinstats.BitcoinAddress.Base58Check.{
  address_of, hash160, hash_addresses, checksum_matches-first,
}
use bitcoinstats.BitcoinAddress.Base58Check.{public_key_to_address-address_of}
use bitcoinstats.BitcoinAddress.Base58Check.{compressed_public_key_to_address-address_of}

abbrev hash : List ℕ
hash = replicate 20 7

abbrev key : List ℕ
key = 4 ∷ replicate 64 9

abbrev compressed_key : List ℕ
compressed_key = 2 ∷ replicate 32 9

hash_addresses_example :
    (ripemd160_to_address hash ≡ address_of 0 hash)
    × (ripemd160_to_script_address hash ≡ address_of 5 hash)
hash_addresses_example = hash_addresses hash refl

public_key_to_address_example : public_key_to_address key ≡ some (address_of 0 (hash160 key))
public_key_to_address_example = public_key_to_address-address_of key refl refl

compressed_public_key_to_address_example :
    compressed_public_key_to_address compressed_key ≡ some (address_of 0 (hash160 compressed_key))
compressed_public_key_to_address_example =
    compressed_public_key_to_address-address_of compressed_key refl (inl refl)

checksum_matches_example :
    checksum_matches (0 ∷ hash ++ get_or (checksum (0 ∷ hash)) 0 0 ∷ 1 ∷ 2 ∷ 3 ∷ []) ≡ true
checksum_matches_example = checksum_matches-first (0 ∷ hash) 1 2 3 refl
