-- ===== src/BlockChain/Script.antt =====
-- How `readOutput` of src/BlockChain.cpp tells from a challenge script what kind of key it pays to.
use bitcoinstats.Common.{ℕ, zero, suc, ◌+◌, ◌-◌, ◌^◌, ltb, leb, ◌==◌, if◌then◌else◌, bit_or}
use bitcoinstats.Common.{
  Bool, true, false, ◌&&◌, ◌||◌, List, [], ◌∷◌, length, get_or, set, replicate,
}

-- BlockChain::KeyType, without the prefix KT_.
pub data KeyType : Type 0 where
  unknown uncompressed_public_key compressed_public_key ripemd160 truncated_compressed_key : KeyType
  multisig stealth script_hash zero_length : KeyType

-- A value of `publicKey[i]`: NULL, a place in the challenge script, &gDummyKey[1] or &gZeroByte[1].
pub data KeyPointer : Type 0 where
  null : KeyPointer
  in_script : ℕ → KeyPointer
  dummy_key zero_byte : KeyPointer

-- What the classification sets in the output, `gIsWarning`, and whether the stand-in was taken,
-- which sets `gReportTransactionHash`.
pub record Keys : Type 0 where
  pub key_type : KeyType
  pub public_key : List KeyPointer
  pub multi_sig_format : ℕ
  pub is_warning : Bool
  pub fell_back : Bool

abbrev pub no_keys : Keys
no_keys = record {
  key_type = KeyType.unknown;
  public_key = replicate 5 KeyPointer.null;
  multi_sig_format = 0;
  is_warning = false;
  fell_back = false;
}

abbrev pub first_key : List KeyPointer → KeyPointer
first_key [] = KeyPointer.null
first_key (p ∷ ps) = p

abbrev pub is_null : KeyPointer → Bool
is_null KeyPointer.null = true
is_null (KeyPointer.in_script off) = false
is_null KeyPointer.dummy_key = false
is_null KeyPointer.zero_byte = false

-- output.publicKey[0] = script + off; output.keyType = kind;
abbrev pub found : KeyType → ℕ → Keys → Keys
found kind off k = record k {
  key_type = kind;
  public_key = set k.public_key 0 (KeyPointer.in_script off);
}

-- The opcodes that are tested for.
abbrev pub op_return : ℕ
op_return = 0x6a

abbrev pub op_dup : ℕ
op_dup = 0x76

abbrev pub op_equal : ℕ
op_equal = 0x87

abbrev pub op_equalverify : ℕ
op_equalverify = 0x88

abbrev pub op_hash160 : ℕ
op_hash160 = 0xa9

abbrev pub op_checksig : ℕ
op_checksig = 0xac

abbrev pub op_checkmultisig : ℕ
op_checkmultisig = 0xae

-- `switch (*scanBegin)`: OP_0, or OP_1 to OP_5.
unfoldable pub expected_prefix : ℕ → Bool
expected_prefix c = c == 0 || leb 0x51 c && leb c 0x55

-- `switch (*scanEnd)`: OP_1 to OP_5.
unfoldable pub expected_postfix : ℕ → Bool
expected_postfix c = leb 0x51 c && leb c 0x55

-- `while (keyIndex < 5 && scanBegin < scanEnd)`: a round adds a key or leaves the loop, so `rounds`
-- counts 5 - keyIndex.
unfoldable pub multi_sig_keys : ℕ → List ℕ → ℕ → ℕ → ℕ → Keys → Keys
multi_sig_keys zero script scan_end key_index scan_begin k = k
multi_sig_keys (suc rounds) script scan_end key_index scan_begin k =
    let c = get_or script scan_begin 0 in
    let pointed = record k {
      key_type = KeyType.multisig;
      public_key = set k.public_key key_index (KeyPointer.in_script (scan_begin + 1));
    } in
    let compressed =
      multi_sig_keys rounds script scan_end (key_index + 1) (scan_begin + 1 + 0x21)
        (record pointed { multi_sig_format = bit_or k.multi_sig_format (2 ^ key_index) }) in
    let uncompressed =
      multi_sig_keys rounds script scan_end (key_index + 1) (scan_begin + 1 + 0x41) pointed in
    if ltb scan_begin scan_end
    then if c == 0x21 then compressed else if c == 0x41 then uncompressed else k
    else k

-- The branch for a script that ends in OP_CHECKMULTISIG.
unfoldable pub multi_sig : List ℕ → Keys → Keys
unfolding expected_prefix expected_postfix
multi_sig script k =
    let scan_end = length script - 2 in
    let k' =
      if expected_prefix (get_or script 0 0) && expected_postfix (get_or script scan_end 0)
      then multi_sig_keys 5 script scan_end 0 1 k
      else k in
    if is_null (first_key k'.public_key) then record k' { is_warning = true } else k'

-- OP_DUP, OP_HASH160, 20, then OP_EQUALVERIFY and OP_CHECKSIG behind 20 more bytes.
unfoldable pub is_pay_to_hash : List ℕ → ℕ → Bool
is_pay_to_hash script i =
    get_or script i 0 == op_dup
    && (get_or script (i + 1) 0 == op_hash160
        && (get_or script (i + 2) 0 == 20
            && (get_or script (i + 23) 0 == op_equalverify
                && get_or script (i + 24) 0 == op_checksig)))

-- `for (i = 0; i < endIndex; i++)`, with `rounds` for endIndex - i.
unfoldable pub scan_pay_to_hash : ℕ → ℕ → List ℕ → Keys → Keys
scan_pay_to_hash zero i script k = k
scan_pay_to_hash (suc rounds) i script k =
    let rest = scan_pay_to_hash rounds (i + 1) script k in
    if is_pay_to_hash script i
    then record (found KeyType.ripemd160 (i + 3) k) { is_warning = true }
    else rest

-- The last branch.
unfoldable pub scan_script : List ℕ → Keys → Keys
scan_script script k =
    if ltb 25 (length script) then scan_pay_to_hash (length script - 25) 0 script k else k

-- The conditions on the script, in the order of the source.
abbrev pub is_full_key : List ℕ → Bool
is_full_key script =
    length script == 67 && (get_or script 0 0 == 65 && get_or script 66 0 == op_checksig)

abbrev pub is_stealth : List ℕ → Bool
is_stealth script = length script == 40 && get_or script 0 0 == op_return

abbrev pub is_bare_key : List ℕ → Bool
is_bare_key script = length script == 66 && get_or script 65 0 == op_checksig

abbrev pub is_compressed_key : List ℕ → Bool
is_compressed_key script = length script == 35 && get_or script 34 0 == op_checksig

abbrev pub is_truncated_key : List ℕ → Bool
is_truncated_key script = length script == 33 && get_or script 0 0 == 0x20

abbrev pub is_script_hash : List ℕ → Bool
is_script_hash script =
    length script == 23
    && (get_or script 0 0 == op_hash160
        && (get_or script 1 0 == 20 && get_or script 22 0 == op_equal))

abbrev pub is_key_hash : List ℕ → Bool
is_key_hash script =
    leb 25 (length script)
    && (get_or script 0 0 == op_dup && (get_or script 1 0 == op_hash160 && get_or script 2 0 == 20))

abbrev pub is_empty_hash : List ℕ → Bool
is_empty_hash script =
    length script == 5
    && (get_or script 0 0 == op_dup
        && (get_or script 1 0 == op_hash160
            && (get_or script 2 0 == 0
                && (get_or script 3 0 == op_equalverify && get_or script 4 0 == op_checksig))))

abbrev pub is_multi_sig : List ℕ → Bool
is_multi_sig script =
    get_or script (length script - 1) 0 == op_checkmultisig && ltb 25 (length script)

-- The first `if`, which is not tied to the chain that follows by an `else`.
unfoldable pub full_key_script : List ℕ → Keys → Keys
full_key_script script k =
    if is_full_key script then found KeyType.uncompressed_public_key 1 k else k

-- The chain of `else if`.
unfoldable pub script_chain : List ℕ → Keys → Keys
script_chain script k =
    if is_stealth script
    then found KeyType.stealth 1 k
    else if is_bare_key script
    then found KeyType.uncompressed_public_key 0 k
    else if is_compressed_key script
    then found KeyType.compressed_public_key 1 k
    else if is_truncated_key script
    then found KeyType.truncated_compressed_key 1 k
    else if is_script_hash script
    then found KeyType.script_hash 2 k
    else if is_key_hash script
    then found KeyType.ripemd160 3 k
    else if is_empty_hash script
    then record k { is_warning = true }
    else if is_multi_sig script
    then multi_sig script k
    else scan_script script k

-- A script that is not empty.
unfoldable pub classify_script : List ℕ → Keys
classify_script script = script_chain script (full_key_script script no_keys)

-- `if (!output.publicKey[0])`: a stand-in is put for a key that was not found.
unfoldable pub with_fallback : List ℕ → Keys → Keys
with_fallback script k =
    if is_null (first_key k.public_key)
    then record k {
      key_type = KeyType.ripemd160;
      public_key =
          set k.public_key 0
            (if length script == 0 then KeyPointer.zero_byte else KeyPointer.dummy_key);
      is_warning = true;
      fell_back = true;
    }
    else k

-- All of it; an empty script has no pointer, and goes straight to the stand-in.
unfoldable pub script_keys : List ℕ → Keys
script_keys [] = with_fallback [] no_keys
script_keys (c ∷ cs) = with_fallback (c ∷ cs) (classify_script (c ∷ cs))
