-- ===== src/BlockChain/Pointers.antt =====
-- The key pointers that `readOutput` of src/BlockChain.cpp stores stay within the challenge script.
use bitcoinstats.Common.{ℕ, zero, suc, ◌+◌, ◌-◌, ◌^◌, ◌≤◌, ◌<◌, ◌≡◌, refl, ◌∙◌, arith}
use bitcoinstats.Common.{Bool, true, false, ◌&&◌, inl, inr, Bool-cases, bit_or}
use bitcoinstats.Common.{
  ltb, leb, ◌==◌, if◌then◌else◌, List, [], ◌∷◌, length, get_or, set, All, length-set,
}
use bitcoinstats.BlockChain.Script.{KeyType, KeyPointer, Keys, no_keys, first_key, is_null, found}
use bitcoinstats.BlockChain.Script.{multi_sig_keys, multi_sig, is_pay_to_hash, scan_pay_to_hash}
use bitcoinstats.BlockChain.Script.{scan_script, full_key_script, script_chain, classify_script}
use bitcoinstats.BlockChain.Script.{with_fallback, script_keys, expected_prefix, expected_postfix}
use bitcoinstats.BlockChain.Script.{is_full_key, is_stealth, is_bare_key}
use bitcoinstats.BlockChain.Script.{
  is_compressed_key, is_truncated_key, is_script_hash, is_key_hash,
}
use bitcoinstats.BlockChain.Script.{is_empty_hash, is_multi_sig}

abbrev pub Within : ℕ → KeyPointer → Type 0
Within n KeyPointer.null = Unit
Within n (KeyPointer.in_script off) = off ≤ n
Within n KeyPointer.dummy_key = Unit
Within n KeyPointer.zero_byte = Unit

-- Five pointers, each to a place in a script of `n` bytes or just behind it.
pub record IsSafe (n : ℕ) (k : Keys) : Type 0 where
  pub pointers : All (Within n) k.public_key
  pub five : length k.public_key ≡ 5

All-set :
    (n : ℕ) (ps : List KeyPointer) (i : ℕ) (p : KeyPointer)
    → All (Within n) ps
    → Within n p
    → All (Within n) (set ps i p)
All-set n [] i p h w = tt
All-set n (q ∷ ps) zero p h w = (w, h.1)
All-set n (q ∷ ps) (suc i) p h w = (h.0, All-set n ps i p h.1 w)

no_keys-IsSafe : (n : ℕ) → IsSafe n no_keys
no_keys-IsSafe n = record { pointers = (tt, (tt, (tt, (tt, (tt, tt))))); five = refl }

if-IsSafe :
    (n : ℕ) (b : Bool) (x y : Keys)
    → (b ≡ true → IsSafe n x)
    → (b ≡ false → IsSafe n y)
    → IsSafe n (if b then x else y)
if-IsSafe n true x y p q = p refl
if-IsSafe n false x y p q = q refl

found-IsSafe :
    (n : ℕ) (kind : KeyType) (off : ℕ) (k : Keys)
    → IsSafe n k
    → off ≤ n
    → IsSafe n (found kind off k)
found-IsSafe n kind off k h le = record {
  pointers = All-set n k.public_key 0 (KeyPointer.in_script off) h.pointers le;
  five = length-set k.public_key 0 (KeyPointer.in_script off) ∙ h.five;
}

warned-IsSafe : (n : ℕ) (k : Keys) → IsSafe n k → IsSafe n (record k { is_warning = true })
warned-IsSafe n k h = record { pointers = h.pointers; five = h.five }

multi_sig_keys-IsSafe :
    (rounds : ℕ) (script : List ℕ) (scan_end i b : ℕ) (k : Keys) (n : ℕ)
    → scan_end ≤ n
    → IsSafe n k
    → IsSafe n (multi_sig_keys rounds script scan_end i b k)
unfolding multi_sig_keys
multi_sig_keys-IsSafe zero script scan_end i b k n le h = h
multi_sig_keys-IsSafe (suc rounds) script scan_end i b k n le h =
    if-IsSafe n (ltb b scan_end) _ _
      (λ lt.
        if-IsSafe n (get_or script b 0 == 0x21) _ _
          (λ _.
            multi_sig_keys-IsSafe rounds script scan_end (i + 1) (b + 1 + 0x21)
              (record k {
                key_type = KeyType.multisig;
                public_key = set k.public_key i (KeyPointer.in_script (b + 1));
                multi_sig_format = bit_or k.multi_sig_format (2 ^ i);
              })
              n le (record { pointers = (pointed lt).pointers; five = (pointed lt).five }))
          (λ _.
            if-IsSafe n (get_or script b 0 == 0x41) _ _
              (λ _.
                multi_sig_keys-IsSafe rounds script scan_end (i + 1) (b + 1 + 0x41)
                  (record k {
                    key_type = KeyType.multisig;
                    public_key = set k.public_key i (KeyPointer.in_script (b + 1));
                  })
                  n le (pointed lt))
              (λ _. h)))
      (λ _. h)
  where
    pointed :
        ltb b scan_end ≡ true
        → IsSafe n (record k {
          key_type = KeyType.multisig;
          public_key = set k.public_key i (KeyPointer.in_script (b + 1));
        })
    pointed lt = record {
      pointers = All-set n k.public_key i (KeyPointer.in_script (b + 1)) h.pointers (ground arith);
      five = length-set k.public_key i (KeyPointer.in_script (b + 1)) ∙ h.five;
    }

multi_sig-IsSafe :
    (script : List ℕ) (k : Keys)
    → IsSafe (length script) k
    → IsSafe (length script) (multi_sig script k)
unfolding multi_sig
multi_sig-IsSafe script k h =
    if-IsSafe (length script) (is_null (first_key keys.public_key)) _ _
      (λ _. warned-IsSafe (length script) keys safe) (λ _. safe)
  where
    end : ℕ
    end = length script - 2

    keys : Keys
    keys =
        if expected_prefix (get_or script 0 0) && expected_postfix (get_or script end 0)
        then multi_sig_keys 5 script end 0 1 k
        else k

    safe : IsSafe (length script) keys
    safe =
        if-IsSafe (length script)
          (expected_prefix (get_or script 0 0) && expected_postfix (get_or script end 0)) _ _
          (λ _. multi_sig_keys-IsSafe 5 script end 0 1 k (length script) (omega arith) h) (λ _. h)

scan_pay_to_hash-IsSafe :
    (rounds i : ℕ) (script : List ℕ) (k : Keys) (n : ℕ)
    → rounds + i + 25 ≤ n
    → IsSafe n k
    → IsSafe n (scan_pay_to_hash rounds i script k)
unfolding scan_pay_to_hash
scan_pay_to_hash-IsSafe zero i script k n le h = h
scan_pay_to_hash-IsSafe (suc rounds) i script k n le h =
    if-IsSafe n (is_pay_to_hash script i) _ _
      (λ _. warned-IsSafe n _ (found-IsSafe n KeyType.ripemd160 (i + 3) k h (omega arith)))
      (λ _. scan_pay_to_hash-IsSafe rounds (i + 1) script k n (omega arith) h)

scan_script-IsSafe :
    (script : List ℕ) (k : Keys)
    → IsSafe (length script) k
    → IsSafe (length script) (scan_script script k)
unfolding scan_script
scan_script-IsSafe script k h =
    if-IsSafe (length script) (ltb 25 (length script)) _ _
      (λ e.
        scan_pay_to_hash-IsSafe (length script - 25) 0 script k (length script) (ground arith) h)
      (λ _. h)

-- A conjunction that holds has a first part that holds.
first_test : (n m : ℕ) (b : Bool) → ((n == m) && b) ≡ true → m ≤ n
first_test n m b h = ground arith

full_key_script-IsSafe :
    (script : List ℕ) (k : Keys)
    → IsSafe (length script) k
    → IsSafe (length script) (full_key_script script k)
unfolding full_key_script
full_key_script-IsSafe script k h =
    let n = length script in
    if-IsSafe n (is_full_key script) _ _
      (λ e. found-IsSafe n _ 1 k h (omega (arith, first_test n 67 _ e))) (λ _. h)

script_chain-IsSafe :
    (script : List ℕ) (k : Keys)
    → IsSafe (length script) k
    → IsSafe (length script) (script_chain script k)
unfolding script_chain
script_chain-IsSafe script k h =
    let n = length script in
    if-IsSafe n (is_stealth script) _ _
      (λ e. found-IsSafe n _ 1 k h (omega (arith, first_test n 40 _ e)))
      λ _.
        if-IsSafe n (is_bare_key script) _ _ (λ e. found-IsSafe n _ 0 k h (omega arith))
          λ _.
            if-IsSafe n (is_compressed_key script) _ _
              (λ e. found-IsSafe n _ 1 k h (omega (arith, first_test n 35 _ e)))
              λ _.
                if-IsSafe n (is_truncated_key script) _ _
                  (λ e. found-IsSafe n _ 1 k h (omega (arith, first_test n 33 _ e)))
                  λ _.
                    if-IsSafe n (is_script_hash script) _ _
                      (λ e. found-IsSafe n _ 2 k h (omega (arith, first_test n 23 _ e)))
                      λ _.
                        if-IsSafe n (is_key_hash script) _ _
                          (λ e. found-IsSafe n _ 3 k h (at_least n _ e))
                          λ _.
                            if-IsSafe n (is_empty_hash script) _ _ (λ e. warned-IsSafe n k h)
                              λ _.
                                if-IsSafe n (is_multi_sig script) _ _
                                  (λ e. multi_sig-IsSafe script k h)
                                  λ _. scan_script-IsSafe script k h
  where
    at_least : (n : ℕ) (b : Bool) → (leb 25 n && b) ≡ true → 3 ≤ n
    at_least n b e = ground arith

with_fallback-IsSafe :
    (script : List ℕ) (k : Keys)
    → IsSafe (length script) k
    → IsSafe (length script) (with_fallback script k)
unfolding with_fallback
with_fallback-IsSafe script k h =
    if-IsSafe (length script) (is_null (first_key k.public_key)) _ _
      (λ _. record {
        pointers =
            All-set (length script) k.public_key 0 _ h.pointers (stand_in (length script == 0));
        five = length-set k.public_key 0 _ ∙ h.five;
      })
      (λ _. h)
  where
    stand_in :
        (b : Bool)
        → Within (length script) (if b then KeyPointer.zero_byte else KeyPointer.dummy_key)
    stand_in true = tt
    stand_in false = tt

-- Whatever the script, `readOutput` stores five key pointers, and each that is set into the script
-- points to one of its bytes or just behind the last.
pub script_keys-IsSafe : (script : List ℕ) → IsSafe (length script) (script_keys script)
unfolding script_keys classify_script
script_keys-IsSafe [] = with_fallback-IsSafe [] no_keys (no_keys-IsSafe 0)
script_keys-IsSafe (c ∷ cs) =
    let n = length (c ∷ cs) in
    with_fallback-IsSafe (c ∷ cs) _
      (script_chain-IsSafe (c ∷ cs) _ (full_key_script-IsSafe (c ∷ cs) no_keys (no_keys-IsSafe n)))

with_fallback-found :
    (script : List ℕ) (k : Keys)
    → length k.public_key ≡ 5
    → is_null (first_key (with_fallback script k).public_key) ≡ false
unfolding with_fallback
with_fallback-found script k five = elim (Bool-cases (is_null (first_key k.public_key))) [
  | inl e ↦ rw e (first_set k.public_key (length script == 0) (omega arith))
  | inr e ↦ rw e e
]
  where
    first_set :
        (ps : List KeyPointer) (b : Bool)
        → 0 < length ps
        → is_null (first_key (set ps 0 (if b then KeyPointer.zero_byte else KeyPointer.dummy_key)))
          ≡ false
    first_set [] b h = absurd (omega arith)
    first_set (p ∷ ps) true h = refl
    first_set (p ∷ ps) false h = refl

-- Whatever the script, the first key pointer of the output is not null.
pub script_keys-found :
    (script : List ℕ) → is_null (first_key (script_keys script).public_key) ≡ false
unfolding script_keys classify_script
script_keys-found [] = with_fallback-found [] no_keys refl
script_keys-found (c ∷ cs) =
    let n = length (c ∷ cs) in
    with_fallback-found (c ∷ cs) _
      (script_chain-IsSafe (c ∷ cs) _
        (full_key_script-IsSafe (c ∷ cs) no_keys (no_keys-IsSafe n))).five
