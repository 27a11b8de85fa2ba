-- ===== src/BlockChain/Reads.antt =====
-- What the reading functions of src/BlockChain.cpp return on bytes that stand at the stream pointer.
use bitcoinstats.Common.{ℕ, zero, suc, ◌+◌, ◌*◌, ◌/◌, ◌%◌, ◌^◌, ◌≤◌, ◌<◌, arith}
use bitcoinstats.Common.{◌≡◌, ◌≢◌, refl, sym, ap, ap₂, ◌∙◌, inl, inr, Bool, false, Bool-cases}
use bitcoinstats.Common.{ltb, leb, le→leb, lt→ltb, le→not_ltb}
use bitcoinstats.Common.{List, [], ◌∷◌, ◌++◌, append_assoc, length, take, drop, length-append}
use bitcoinstats.Common.{drop-append_left, take-append_left}
use bitcoinstats.Common.{le_bytes, le_value-le_bytes}
use bitcoinstats.BlockChain.Stream.{ok, Reader, read_bytes, read_u8, read_u16}
use bitcoinstats.BlockChain.Stream.{read_u32, read_u64, read_hash, read_variable_length_integer}
use bitcoinstats.BlockChain.Stream.{>>=-step}
use bitcoinstats.BlockChain.Format.{compact_size}

abbrev pub advance : Reader → ℕ → Reader
advance s n = record s { block_read = s.block_read + n }

-- `bytes` are the next bytes of the block.
pub record Ahead (s : Reader) (bytes : List ℕ) : Type 0 where
  pub rest : List ℕ
  pub stands : drop s.block_read s.memory ≡ bytes ++ rest
  pub room : s.block_read + length bytes ≤ s.block_end

pub drop-drop {ℓ} : {A : Type ℓ} (m n : ℕ) (xs : List A) → drop (m + n) xs ≡ drop n (drop m xs)
drop-drop zero n xs = ap (λ (k : ℕ). drop k xs) (let e : 0 + n ≡ n = omega arith in e)
drop-drop (suc m) zero [] = ap (λ (k : ℕ). drop k []) (let e : suc m + 0 ≡ suc m = omega arith in e)
drop-drop (suc m) (suc n) [] =
    ap (λ (k : ℕ). drop k []) (let e : suc m + suc n ≡ suc (m + suc n) = omega arith in e)
drop-drop (suc m) n (x ∷ xs) =
    ap (λ (k : ℕ). drop k (x ∷ xs)) (let e : suc m + n ≡ suc (m + n) = omega arith in e)
    ∙ drop-drop m n xs

pub Ahead-advance :
    {s : Reader} (n : ℕ) (xs ys : List ℕ)
    → n ≡ length xs
    → Ahead s (xs ++ ys)
    → Ahead (advance s n) ys
Ahead-advance {s} n xs ys e h = record {
  rest = h.rest;
  stands =
      drop-drop s.block_read n s.memory
      ∙ ap₂ drop e (h.stands ∙ append_assoc xs ys h.rest)
      ∙ drop-append_left xs (ys ++ h.rest);
  room = omega (arith, h.room, length-append xs ys);
}

pub Ahead-first : {s : Reader} (xs ys : List ℕ) → Ahead s (xs ++ ys) → Ahead s xs
Ahead-first xs ys h = record {
  rest = ys ++ h.rest;
  stands = h.stands ∙ append_assoc xs ys h.rest;
  room = omega (arith, h.room, length-append xs ys);
}

pub Ahead-take :
    {s : Reader} (n : ℕ) (xs : List ℕ)
    → n ≡ length xs
    → Ahead s xs
    → take n (drop s.block_read s.memory) ≡ xs
Ahead-take {s} n xs e h = ap₂ take e h.stands ∙ take-append_left xs h.rest

pub read_bytes-Ahead :
    {s : Reader} (n : ℕ) (xs : List ℕ)
    → n ≡ length xs
    → Ahead s xs
    → read_bytes n s ≡ ok (xs, advance s n)
unfolding read_bytes
read_bytes-Ahead {s} n xs e h =
    rw (le→leb (s.block_read + n) s.block_end (omega (arith, h.room)))
      (ap (λ t. ok (t, advance s n)) (Ahead-take n xs e h))

pub read_u8-Ahead : {s : Reader} (v : ℕ) → Ahead s (v ∷ []) → read_u8 s ≡ ok (v, advance s 1)
unfolding read_u8
read_u8-Ahead {s} v h =
    >>=-step _ _ (read_bytes-Ahead 1 (v ∷ []) refl h)
      (ap (λ (t : ℕ). ok (t, advance s 1)) (let e : v + 256 * 0 ≡ v = omega arith in e))

pub read_u16-Ahead :
    {s : Reader} (v : ℕ) → v < 2 ^ 16 → Ahead s (le_bytes 2 v) → read_u16 s ≡ ok (v, advance s 2)
unfolding read_u16
read_u16-Ahead {s} v fits h =
    >>=-step _ _ (read_bytes-Ahead 2 (le_bytes 2 v) refl h)
      (ap (λ (t : ℕ). ok (t, advance s 2)) (le_value-le_bytes 2 v (omega arith)))

pub read_u32-Ahead :
    {s : Reader} (v : ℕ) → v < 2 ^ 32 → Ahead s (le_bytes 4 v) → read_u32 s ≡ ok (v, advance s 4)
unfolding read_u32
read_u32-Ahead {s} v fits h =
    >>=-step _ _ (read_bytes-Ahead 4 (le_bytes 4 v) refl h)
      (ap (λ (t : ℕ). ok (t, advance s 4)) (le_value-le_bytes 4 v (omega arith)))

pub read_u64-Ahead :
    {s : Reader} (v : ℕ) → v < 2 ^ 64 → Ahead s (le_bytes 8 v) → read_u64 s ≡ ok (v, advance s 8)
unfolding read_u64
read_u64-Ahead {s} v fits h =
    >>=-step _ _ (read_bytes-Ahead 8 (le_bytes 8 v) refl h)
      (ap (λ (t : ℕ). ok (t, advance s 8)) (le_value-le_bytes 8 v (omega arith)))

pub read_hash-Ahead :
    {s : Reader} (h : List ℕ) → length h ≡ 32 → Ahead s h → read_hash s ≡ ok (h, advance s 32)
unfolding read_hash
read_hash-Ahead h e a = read_bytes-Ahead 32 h (sym e) a

one_byte :
    {s : Reader} (v : ℕ)
    → v < 0xfd
    → Ahead s (v ∷ [])
    → (ndebug : Bool) → read_variable_length_integer ndebug s ≡ ok (v, advance s 1)
unfolding read_variable_length_integer
one_byte v small h ndebug = >>=-step _ _ (read_u8-Ahead v h) (rw (lt→ltb v 0xfd small))

-- After the first byte 0xfd or above, two bytes are read, whatever that byte was.
three_bytes :
    {s : Reader} (tag v : ℕ) (more : List ℕ)
    → 0xfd ≤ tag
    → v < 0xffff
    → Ahead s (tag ∷ (le_bytes 2 v ++ more))
    → (ndebug : Bool) → read_variable_length_integer ndebug s ≡ ok (v, advance (advance s 1) 2)
unfolding read_variable_length_integer
three_bytes {s} tag v more big small h ndebug =
    let later : Ahead (advance s 1) (le_bytes 2 v ++ more) =
      Ahead-advance 1 (tag ∷ []) (le_bytes 2 v ++ more) refl h in
    >>=-step _ _ (read_u8-Ahead tag (Ahead-first (tag ∷ []) (le_bytes 2 v ++ more) h)) (
      rw (le→not_ltb tag 0xfd big) (
        >>=-step _ _ (read_u16-Ahead v (omega arith) (Ahead-first (le_bytes 2 v) more later))
          (rw (lt→ltb v 0xffff small))))

-- The source reads back every variable length integer below 0xffff, and takes just its bytes.
pub read_variable_length_integer-Ahead :
    {s : Reader} (ndebug : Bool) (n : ℕ)
    → n < 0xffff
    → Ahead s (compact_size n)
    → read_variable_length_integer ndebug s ≡ ok (n, advance s (length (compact_size n)))
unfolding compact_size
read_variable_length_integer-Ahead {s} ndebug n small h = elim (Bool-cases (ltb n 0xfd)) [
  | inl e ↦ rw e (one_byte n (ground arith) (rw e at h) ndebug)
  | inr e ↦
      let e' = le→leb n 0xffff (omega arith) in
      rw (e, e')
        (three_bytes 0xfd n [] (omega arith) small (rw (e, e') at h) ndebug
          ∙ ap (λ (k : ℕ). ok (n, record s { block_read = k }))
              (let p : s.block_read + 1 + 2 ≡ s.block_read + 3 = omega arith in p))
]

-- For a number of 0x10000 or more `compact_size` has the tag 0xfe and four bytes. Of these the
-- source reads two: unless they are 0xff 0xff it returns the number modulo 0x10000, and moves by
-- three bytes in all.
pub wide_integer_truncated :
    {s : Reader} (ndebug : Bool) (n : ℕ)
    → 0x10000 ≤ n
    → n % 0x10000 ≢ 0xffff
    → Ahead s (compact_size n)
    → read_variable_length_integer ndebug s ≡ ok (n % 0x10000, advance (advance s 1) 2)
unfolding compact_size
wide_integer_truncated {s} ndebug n big low h =
    let e = le→not_ltb n 0xfd (omega arith) in
    let e' : leb n 0xffff ≡ false = ground arith in
    let split : le_bytes 4 n ≡ le_bytes 2 (n % 0x10000) ++ le_bytes 2 (n / 0x10000) =
      four (omega arith) (omega arith) (omega arith) (omega arith) in
    three_bytes 0xfe (n % 0x10000) (le_bytes 2 (n / 0x10000)) (omega arith) (omega arith)
      (rw (e, e', split) at h) ndebug
  where
    four :
        {a b c d a' b' c' d' : ℕ}
        → a ≡ a'
        → b ≡ b'
        → c ≡ c'
        → d ≡ d'
        → a ∷ b ∷ c ∷ d ∷ [] ≡ a' ∷ b' ∷ c' ∷ d' ∷ []
    four p q r t = cc
