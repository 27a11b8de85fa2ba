-- ===== src/BitcoinAddress/Base58Check.antt =====
-- The addresses of src/BitcoinAddress.cpp against the layout of Base58Check: a network byte, the 20
-- bytes of a hash, and the first four bytes of the double SHA-256 of these 21.
use bitcoinstats.Common.{ℕ, ◌≤◌, ◌≡◌, refl, sym, ap, ◌∙◌, arith, ◌⊎◌}
use bitcoinstats.Common.{◌==◌, eq→==, ◌||◌, true, some, List, [], ◌∷◌, ◌++◌}
use bitcoinstats.Common.{length, take, get_or, take_all, take-append_left}
use bitcoinstats.Sha256.{compute_sha256}
use bitcoinstats.Sha256.Correct.{compute_sha256-reference, compute_sha256-IsBytes}
use bitcoinstats.Ripemd160.{compute_ripemd160}
use bitcoinstats.Ripemd160.Correct.{compute_ripemd160-reference, compute_ripemd160-IsBytes}
use bitcoinstats.BitcoinAddress.{
  checksum, with_checksum, ripemd160_to_address, ripemd160_to_script_address,
}
use bitcoinstats.BitcoinAddress.{public_key_to_address, compressed_public_key_to_address}
use bitcoinstats.BitcoinAddress.{checksum_matches}
use bitcoinstats.Sha256
use bitcoinstats.Ripemd160

abbrev sha : List ℕ → List ℕ
sha = bitcoinstats.Sha256.Reference.reference_hash

-- The address with a network byte and a hash.
abbrev pub address_of : ℕ → List ℕ → List ℕ
address_of network hash = network ∷ hash ++ take 4 (sha (sha (network ∷ hash)))

-- HASH160
abbrev pub hash160 : List ℕ → List ℕ
hash160 key = bitcoinstats.Ripemd160.Reference.reference_hash (sha key)

first_four :
    (h : List ℕ)
    → 4 ≤ length h
    → get_or h 0 0 ∷ get_or h 1 0 ∷ get_or h 2 0 ∷ get_or h 3 0 ∷ [] ≡ take 4 h
first_four (a ∷ b ∷ c ∷ d ∷ h) le = refl
first_four [] le = absurd (omega arith)
first_four (a ∷ []) le = absurd (omega arith)
first_four (a ∷ b ∷ []) le = absurd (omega arith)
first_four (a ∷ b ∷ c ∷ []) le = absurd (omega arith)

with_checksum-address_of :
    (network : ℕ) (hash : List ℕ)
    → length hash ≡ 20
    → with_checksum (network ∷ hash) ≡ address_of network hash
unfolding with_checksum checksum
with_checksum-address_of network hash e =
    let whole : take 21 (network ∷ hash) ≡ network ∷ hash =
      take_all 21 (network ∷ hash) (omega (arith, e)) in
    let hashed : compute_sha256 (compute_sha256 (take 21 (network ∷ hash)))
        ≡ sha (sha (network ∷ hash)) =
      ap (λ t. compute_sha256 (compute_sha256 t)) whole
      ∙ ap compute_sha256 (compute_sha256-reference (network ∷ hash))
      ∙ compute_sha256-reference (sha (network ∷ hash)) in
    ap (λ t. network ∷ hash ++ t)
      (first_four (compute_sha256 (compute_sha256 (take 21 (network ∷ hash))))
          (omega (arith, (compute_sha256-IsBytes (compute_sha256 (take 21 (network ∷ hash)))).1))
        ∙ ap (take 4) hashed)

-- For a hash of 20 bytes, the address of a public key's hash is that of Base58Check with the
-- network byte 0, and the address of a script's hash that with 5.
pub hash_addresses :
    (hash : List ℕ)
    → length hash ≡ 20
    → (ripemd160_to_address hash ≡ address_of 0 hash)
      × (ripemd160_to_script_address hash ≡ address_of 5 hash)
unfolding ripemd160_to_address ripemd160_to_script_address
hash_addresses hash e =
    let whole : take 20 hash ≡ hash = take_all 20 hash (omega (arith, e)) in
    (
      ap (λ t. with_checksum (0 ∷ t)) whole ∙ with_checksum-address_of 0 hash e,
      ap (λ t. with_checksum (5 ∷ t)) whole ∙ with_checksum-address_of 5 hash e,
    )

-- The two hashes in a row are HASH160.
key_hash : (key : List ℕ) → compute_ripemd160 (compute_sha256 key) ≡ hash160 key
key_hash key =
    let d = compute_sha256-IsBytes key in
    compute_ripemd160-reference (compute_sha256 key) d.0 (omega (arith, d.1))
    ∙ ap bitcoinstats.Ripemd160.Reference.reference_hash (compute_sha256-reference key)

key_address :
    (n : ℕ) (key : List ℕ)
    → length key ≡ n
    → with_checksum (0 ∷ compute_ripemd160 (compute_sha256 (take n key)))
      ≡ address_of 0 (hash160 key)
key_address n key e =
    let whole : take n key ≡ key = take_all n key (omega (arith, e)) in
    ap (λ t. with_checksum (0 ∷ compute_ripemd160 (compute_sha256 t))) whole
    ∙ with_checksum-address_of 0 (compute_ripemd160 (compute_sha256 key))
        (compute_ripemd160-IsBytes (compute_sha256 key)).1
    ∙ ap (address_of 0) (key_hash key)

-- A public key of 65 bytes that begins with 4 has the Base58Check address of its HASH160.
pub public_key_to_address-address_of :
    (key : List ℕ)
    → length key ≡ 65
    → get_or key 0 0 ≡ 4
    → public_key_to_address key ≡ some (address_of 0 (hash160 key))
unfolding public_key_to_address
public_key_to_address-address_of key e first =
    rw (eq→== (get_or key 0 0) 4 first) (ap some (key_address 65 key e))

-- A compressed public key of 33 bytes that begins with 2 or 3 has the Base58Check address of its
-- HASH160.
pub compressed_public_key_to_address-address_of :
    (key : List ℕ)
    → length key ≡ 33
    → (get_or key 0 0 ≡ 2) ⊎ (get_or key 0 0 ≡ 3)
    → compressed_public_key_to_address key ≡ some (address_of 0 (hash160 key))
unfolding compressed_public_key_to_address
compressed_public_key_to_address-address_of key e first =
    let tested : (get_or key 0 0 == 2 || get_or key 0 0 == 3) ≡ true = ground arith in
    rw tested (ap some (key_address 33 key e))

get_or-append_length : (xs ys : List ℕ) (y : ℕ) → get_or (xs ++ y ∷ ys) (length xs) 0 ≡ y
get_or-append_length [] ys y = refl
get_or-append_length (x ∷ xs) ys y = get_or-append_length xs ys y

-- The test of the checksum in `bitcoinAsciiToAddress` accepts 21 bytes followed by the first byte
-- of their checksum and any three others.
pub checksum_matches-first :
    (payload : List ℕ) (b c d : ℕ)
    → length payload ≡ 21
    → checksum_matches (payload ++ get_or (checksum payload) 0 0 ∷ b ∷ c ∷ d ∷ []) ≡ true
unfolding checksum_matches checksum
checksum_matches-first payload b c d e =
    let first = get_or (checksum payload) 0 0 in
    let output = payload ++ first ∷ b ∷ c ∷ d ∷ [] in
    let same : take 21 output ≡ take 21 payload =
      ap (λ (k : ℕ). take k output) (sym e)
      ∙ take-append_left payload (first ∷ b ∷ c ∷ d ∷ [])
      ∙ sym (take_all 21 payload (omega (arith, e))) in
    let stands : get_or output 21 0 ≡ get_or (checksum output) 0 0 =
      ap (λ (k : ℕ). get_or output k 0) (sym e)
      ∙ get_or-append_length payload (b ∷ c ∷ d ∷ []) first
      ∙ ap (λ t. get_or (compute_sha256 (compute_sha256 t)) 0 0) (sym same) in
    rw (eq→== (get_or output 21 0) (get_or (checksum output) 0 0) stands)
