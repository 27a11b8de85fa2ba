-- ===== src/BlockChain/Addresses.antt =====
-- The addresses at the end of `readOutput` of src/BlockChain.cpp read no byte outside the memory.
use bitcoinstats.Common.{ℕ, ◌+◌, ◌^◌, ◌≤◌, ◌≡◌, refl, ap, ◌∙◌, arith, inl, inr}
use bitcoinstats.Common.{Bool, false, le→leb, ◌==◌, if◌then◌else◌, Bool-cases, bit_and}
use bitcoinstats.Common.{
  Option, some, Option-cases, List, [], ◌∷◌, ◌++◌, length, take, drop, get_or, set, All,
}
use bitcoinstats.BitcoinAddress.{public_key_to_address, compressed_public_key_to_address}
use bitcoinstats.BitcoinAddress.{ripemd160_to_address, ripemd160_to_script_address}
use bitcoinstats.BlockChain.Stream.{Outcome, ok}
use bitcoinstats.BlockChain.Script.{KeyType, KeyPointer, Keys, first_key, is_null, script_keys}
use bitcoinstats.BlockChain.Pointers.{Within, script_keys-IsSafe, script_keys-found}
use bitcoinstats.BlockChain.Transaction.{
  key_bytes, address_from, multi_sig_addresses, key_addresses,
}
use bitcoinstats.BlockChain.Transaction.{no_addresses}

abbrev Returns : Outcome (List (List ℕ)) → Type 0
Returns r = (addresses : List (List ℕ)) × (r ≡ ok addresses)

address_from-Returns :
    (f : List ℕ → Option (List ℕ)) (addresses : List (List ℕ)) (i : ℕ) (bytes : Option (List ℕ))
    (b : List ℕ)
    → bytes ≡ some b
    → Returns (address_from f addresses i bytes)
unfolding address_from
address_from-Returns f addresses i bytes b e = elim (Option-cases (f b)) [
  | inl none_left ↦ (addresses, ap (address_from f addresses i) e ∙ rw (none_left, address_from))
  | inr (a, made) ↦ (set addresses i a, ap (address_from f addresses i) e ∙ rw (made, address_from))
]

module _ (dummy zero_key memory : List ℕ) (script_at n : ℕ)
    (room : script_at + n + 65 ≤ length memory) where
  key_bytes-some :
      (m : ℕ) (p : KeyPointer)
      → m ≤ 65
      → Within n p
      → is_null p ≡ false
      → (b : List ℕ) × (key_bytes dummy zero_key memory script_at m p ≡ some b)
  key_bytes-some m KeyPointer.null le w e = cc
  key_bytes-some m (KeyPointer.in_script off) le w e = (
    take m (drop (script_at + off) memory),
    rw (le→leb (script_at + off + m) (length memory) (omega arith)),
  )
  key_bytes-some m KeyPointer.dummy_key le w e = (take m (drop 1 dummy), refl)
  key_bytes-some m KeyPointer.zero_byte le w e = (take m (drop 1 zero_key), refl)

  module _ (ndebug : Bool) (stack_byte file_index file_offset : ℕ) where
    abbrev all_keys : ℕ → ℕ → List KeyPointer → List (List ℕ) → Outcome (List (List ℕ))
    all_keys =
        multi_sig_addresses ndebug dummy zero_key stack_byte file_index file_offset memory script_at

    one_key :
        (format i : ℕ) (p : KeyPointer) (addresses : List (List ℕ))
        → Within n p
        → is_null p ≡ false
        → Returns (
            if bit_and format (2 ^ i) == 0
            then address_from public_key_to_address addresses i
                (key_bytes dummy zero_key memory script_at 65 p)
            else address_from compressed_public_key_to_address addresses i
                (key_bytes dummy zero_key memory script_at 33 p))
    one_key format i p addresses w e =
        let wide = key_bytes-some 65 p (omega arith) w e in
        let narrow = key_bytes-some 33 p (omega arith) w e in
        elim (Bool-cases (bit_and format (2 ^ i) == 0)) [
          | inl t ↦ rw t (address_from-Returns public_key_to_address addresses i _ wide.0 wide.1)
          | inr t ↦ rw t (
              address_from-Returns compressed_public_key_to_address addresses i _ narrow.0 narrow.1)
        ]

    all_keys-Returns :
        (format i : ℕ) (ps : List KeyPointer) (addresses : List (List ℕ))
        → All (Within n) ps
        → Returns (all_keys format i ps addresses)
    unfolding multi_sig_addresses
    all_keys-Returns format i [] addresses h = (addresses, refl)
    all_keys-Returns format i (KeyPointer.null ∷ ps) addresses h = (addresses, refl)
    all_keys-Returns format i (KeyPointer.in_script off ∷ ps) addresses h =
        let one = one_key format i (KeyPointer.in_script off) addresses h.0 refl in
        let rest = all_keys-Returns format (i + 1) ps one.0 h.1 in
        (rest.0, rw (one.1, multi_sig_addresses) rest.1)
    all_keys-Returns format i (KeyPointer.dummy_key ∷ ps) addresses h =
        let one = one_key format i KeyPointer.dummy_key addresses h.0 refl in
        let rest = all_keys-Returns format (i + 1) ps one.0 h.1 in
        (rest.0, rw (one.1, multi_sig_addresses) rest.1)
    all_keys-Returns format i (KeyPointer.zero_byte ∷ ps) addresses h =
        let one = one_key format i KeyPointer.zero_byte addresses h.0 refl in
        let rest = all_keys-Returns format (i + 1) ps one.0 h.1 in
        (rest.0, rw (one.1, multi_sig_addresses) rest.1)

    first_Within :
        (ps : List KeyPointer)
        → All (Within n) ps
        → is_null (first_key ps) ≡ false
        → Within n (get_or ps 0 KeyPointer.null) × (is_null (get_or ps 0 KeyPointer.null) ≡ false)
    first_Within [] h e = (tt, e)
    first_Within (p ∷ ps) h e = (h.0, e)

    keys-Returns :
        (k : Keys) (kind : KeyType)
        → k.key_type ≡ kind
        → All (Within n) k.public_key
        → is_null (first_key k.public_key) ≡ false
        → Returns (
            key_addresses ndebug dummy zero_key stack_byte file_index file_offset memory script_at
              k)
    unfolding key_addresses
    keys-Returns k KeyType.unknown e h f = (no_addresses, rw (e, key_addresses))
    keys-Returns k KeyType.zero_length e h f = (no_addresses, rw (e, key_addresses))
    keys-Returns k KeyType.multisig e h f =
        let all = all_keys-Returns k.multi_sig_format 0 k.public_key no_addresses h in
        (all.0, rw (e, key_addresses) all.1)
    keys-Returns k KeyType.uncompressed_public_key e h f =
        let w = first_Within k.public_key h f in
        let b = key_bytes-some 65 _ (omega arith) w.0 w.1 in
        let r = address_from-Returns public_key_to_address no_addresses 0 _ b.0 b.1 in
        (r.0, rw (e, key_addresses) r.1)
    keys-Returns k KeyType.compressed_public_key e h f =
        let w = first_Within k.public_key h f in
        let b = key_bytes-some 33 _ (omega arith) w.0 w.1 in
        let r = address_from-Returns compressed_public_key_to_address no_addresses 0 _ b.0 b.1 in
        (r.0, rw (e, key_addresses) r.1)
    keys-Returns k KeyType.truncated_compressed_key e h f =
        let w = first_Within k.public_key h f in
        let b = key_bytes-some 32 _ (omega arith) w.0 w.1 in
        let r =
          address_from-Returns (λ c. compressed_public_key_to_address (c ++ stack_byte ∷ []))
            no_addresses 0 _ b.0 b.1 in
        (r.0, rw (e, key_addresses) r.1)
    keys-Returns k KeyType.ripemd160 e h f =
        let w = first_Within k.public_key h f in
        let b = key_bytes-some 20 _ (omega arith) w.0 w.1 in
        let r =
          address_from-Returns (λ b. some (ripemd160_to_address b)) no_addresses 0 _ b.0 b.1 in
        (r.0, rw (e, key_addresses) r.1)
    keys-Returns k KeyType.script_hash e h f =
        let w = first_Within k.public_key h f in
        let b = key_bytes-some 20 _ (omega arith) w.0 w.1 in
        let r =
          address_from-Returns (λ b. some (ripemd160_to_script_address b)) no_addresses 0 _ b.0
            b.1 in
        (r.0, rw (e, key_addresses) r.1)
    keys-Returns k KeyType.stealth e h f =
        let w = first_Within k.public_key h f in
        let b = key_bytes-some 20 _ (omega arith) w.0 w.1 in
        let r =
          address_from-Returns (λ b. some (ripemd160_to_address b)) no_addresses 0 _ b.0 b.1 in
        (r.0, rw (e, key_addresses) r.1)

pub key_addresses-Returns :
    (ndebug : Bool) (dummy zero_key : List ℕ) (stack_byte file_index file_offset : ℕ)
    (memory : List ℕ) (script_at : ℕ) (script : List ℕ)
    → script_at + length script + 65 ≤ length memory
    → (addresses : List (List ℕ)) × (key_addresses ndebug dummy zero_key stack_byte file_index
          file_offset memory script_at
          (script_keys script)
        ≡ ok addresses)
key_addresses-Returns ndebug dummy zero_key stack_byte file_index file_offset memory script_at
      script room =
    keys-Returns dummy zero_key memory script_at (length script) room ndebug stack_byte file_index
      file_offset (script_keys script) (script_keys script).key_type refl
      (script_keys-IsSafe script).pointers (script_keys-found script)
