-- ===== src/BitcoinAddress.antt =====
-- src/BitcoinAddress.cpp: binary addresses from keys and hashes. A function that returns `false`
-- and leaves its output alone gives `none`.
use bitcoinstats.Common.{ℕ, ◌+◌, ◌==◌, Bool, true, ◌&&◌, ◌||◌, if◌then◌else◌, Option, none, some}
use bitcoinstats.Common.{List, [], ◌∷◌, ◌++◌, length, take, get_or}
use bitcoinstats.Sha256.{compute_sha256}
use bitcoinstats.Ripemd160.{compute_ripemd160}
use bitcoinstats.Base58.Code.{Coded, encode_base58, decode_base58}
pub mod Base58Check
mod Tests

-- The two SHA256 calls over the first 21 bytes, and the first four bytes of the second.
unfoldable pub checksum : List ℕ → List ℕ
checksum output = compute_sha256 (compute_sha256 (take 21 output))

abbrev checksum_bytes : List ℕ → List ℕ
checksum_bytes hash1 =
    get_or hash1 0 0 ∷ get_or hash1 1 0 ∷ get_or hash1 2 0 ∷ get_or hash1 3 0 ∷ []

-- output[21] to output[24] are stored behind the 21 bytes that stand there.
unfoldable pub with_checksum : List ℕ → List ℕ
unfolding checksum
with_checksum output = output ++ checksum_bytes (checksum output)

-- bitcoinRIPEMD160ToAddress
unfoldable pub ripemd160_to_address : List ℕ → List ℕ
unfolding with_checksum
ripemd160_to_address ripe_md160 = with_checksum (0 ∷ take 20 ripe_md160)

-- bitcoinRIPEMD160ToScriptAddress
unfoldable pub ripemd160_to_script_address : List ℕ → List ℕ
unfolding with_checksum
ripemd160_to_script_address ripe_md160 = with_checksum (5 ∷ take 20 ripe_md160)

-- bitcoinPublicKeyToAddress
unfoldable pub public_key_to_address : List ℕ → Option (List ℕ)
unfolding with_checksum
public_key_to_address input =
    if get_or input 0 0 == 0x04
    then some (with_checksum (0 ∷ compute_ripemd160 (compute_sha256 (take 65 input))))
    else none

-- bitcoinCompressedPublicKeyToAddress
unfoldable pub compressed_public_key_to_address : List ℕ → Option (List ℕ)
unfolding with_checksum
compressed_public_key_to_address input =
    if get_or input 0 0 == 0x02 || get_or input 0 0 == 0x03
    then some (with_checksum (0 ∷ compute_ripemd160 (compute_sha256 (take 33 input))))
    else none

-- An address function and then encodeBase58. `failed` is a return value of false.
abbrev to_ascii : Option (List ℕ) → ℕ → Coded
to_ascii none max_output_len = Coded.failed
to_ascii (some address) max_output_len = encode_base58 address 25 true max_output_len

-- bitcoinPublicKeyToAscii
unfoldable pub public_key_to_ascii : List ℕ → ℕ → Coded
unfolding public_key_to_address encode_base58
public_key_to_ascii input max_output_len = to_ascii (public_key_to_address input) max_output_len

-- bitcoinCompressedPublicKeyToAscii
unfoldable pub compressed_public_key_to_ascii : List ℕ → ℕ → Coded
unfolding compressed_public_key_to_address encode_base58
compressed_public_key_to_ascii input max_output_len =
    to_ascii (compressed_public_key_to_address input) max_output_len

-- bitcoinAddressToAscii
unfoldable pub address_to_ascii : List ℕ → ℕ → Coded
unfolding encode_base58
address_to_ascii address max_output_len = encode_base58 address 25 true max_output_len

-- The four tests of the checksum, joined by `||`.
unfoldable pub checksum_matches : List ℕ → Bool
checksum_matches output =
    let sum = checksum output in
    get_or output 21 0 == get_or sum 0 0
    || get_or output 22 0 == get_or sum 1 0
    || get_or output 23 0 == get_or sum 2 0
    || get_or output 24 0 == get_or sum 3 0

-- bitcoinAsciiToAddress: the output and the return value. The outer `none` is that of the decoder.
unfoldable pub ascii_to_address : List ℕ → Option (List ℕ × Bool)
unfolding checksum_matches
ascii_to_address input = elim (decode_base58 input 25 true) [
  | none ↦ none
  | some output ↦ some (output, length output == 25 && checksum_matches output)
]
