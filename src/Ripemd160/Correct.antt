-- ===== src/Ripemd160/Correct.antt =====
-- `computeRIPEMD160` of src/RIPEMD160.cpp against the hash of the whole padded message.
use bitcoinstats.Common.{ℕ, zero, suc, ◌+◌, ◌*◌, ◌/◌, ◌%◌, ◌^◌, ◌<◌, arith}
use bitcoinstats.Common.{◌≡◌, refl, sym, ap, ap₂, ◌∙◌, subst, List, [], ◌∷◌, ◌++◌, append_assoc}
use bitcoinstats.Common.{length, take, drop, length-append, length-take, length-drop}
use bitcoinstats.Common.{take-append-drop, drop-append_le, All-drop, All-append}
use bitcoinstats.Common.{IsByte, IsBytes}
use bitcoinstats.Ripemd160.Compress.{Registers, compress}
use bitcoinstats.Ripemd160.Reference.{word_list, md_blocks, padding_of, padded, reference_hash}
use bitcoinstats.Ripemd160.Blocks.{load_dwords-eq}
use bitcoinstats.Ripemd160.Finish.{word_list-append, md_finish-eq}
use bitcoinstats.Ripemd160.{md_init, md_chunks, md_finish, hashcode, compute_ripemd160}

md_blocks-append :
    (n m : ℕ) (md : Registers) (xs ys : List ℕ)
    → length xs ≡ 64 * n
    → md_blocks (n + m) md (xs ++ ys) ≡ md_blocks m (md_blocks n md xs) ys
unfolding md_blocks
md_blocks-append zero m md [] ys e =
    ap (λ t. md_blocks t md ys) (let p : 0 + m ≡ m = omega arith in p)
md_blocks-append zero m md (x ∷ xs) ys e = absurd (omega arith)
md_blocks-append (suc n) m md xs ys e =
    ap (λ t. md_blocks t md (xs ++ ys)) (let p : suc n + m ≡ suc (n + m) = omega arith in p)
    ∙ ap₂ (λ t u. md_blocks (n + m) (compress md t) u) (word_list-append 16 xs ys (omega arith))
        (drop-append_le 64 xs ys (omega arith))
    ∙ md_blocks-append n m (compress md (word_list 16 xs)) (drop 64 xs) ys
        (omega (arith, length-drop 64 xs))

-- The loop compresses the whole chunks and leaves the rest.
md_chunks-eq :
    (n : ℕ) (md : Registers) (xs ys : List ℕ)
    → length xs ≡ 64 * n
    → IsBytes (xs ++ ys)
    → md_chunks n md (xs ++ ys) ≡ (md_blocks n md xs, ys)
unfolding md_chunks md_blocks
md_chunks-eq zero md [] ys e h = refl
md_chunks-eq zero md (x ∷ xs) ys e h = absurd (omega arith)
md_chunks-eq (suc n) md xs ys e h =
    ap₂ (λ t u. md_chunks n (compress md t) u)
      (load_dwords-eq 16 (xs ++ ys) (omega (arith, length-append xs ys)) h
        ∙ word_list-append 16 xs ys (omega arith))
      (drop-append_le 64 xs ys (omega arith))
    ∙ md_chunks-eq n (compress md (word_list 16 xs)) (drop 64 xs) ys
        (omega (arith, length-drop 64 xs)) (All-append IsByte (drop 64 xs) ys (parts.0) (parts.1))
  where
    All-parts : (us vs : List ℕ) → IsBytes (us ++ vs) → IsBytes us × IsBytes vs
    All-parts [] vs p = (tt, p)
    All-parts (u ∷ us) vs p = let q = All-parts us vs p.1 in ((p.0, q.0), q.1)

    parts : IsBytes (drop 64 xs) × IsBytes ys
    parts = let q = All-parts xs ys h in (All-drop IsByte 64 xs q.0, q.1)

-- For every message of bytes that a `uint32_t` length can describe, `computeRIPEMD160` is the
-- RIPEMD-160 hash of the message with its padding.
pub compute_ripemd160-reference :
    (msg : List ℕ) → IsBytes msg → length msg < 2 ^ 32 → compute_ripemd160 msg ≡ reference_hash msg
unfolding compute_ripemd160 reference_hash
compute_ripemd160-reference msg bytes fits =
    let n = length msg in
    let k = n / 64 in
    let front = take (64 * k) msg in
    let rest = drop (64 * k) msg in
    let split : front ++ rest ≡ msg = take-append-drop (64 * k) msg in
    let len : length front ≡ 64 * k = omega (arith, length-take (64 * k) msg) in
    let left : length rest ≡ n % 64 = omega (arith, length-drop (64 * k) msg) in
    let chunks : md_chunks k md_init msg ≡ (md_blocks k md_init front, rest) =
      ap (md_chunks k md_init) (sym split)
      ∙ md_chunks-eq k md_init front rest len (subst IsBytes (sym split) bytes) in
    let whole : padded msg ≡ front ++ (rest ++ padding_of n) =
      ap (λ t. t ++ padding_of n) (sym split) ∙ append_assoc front rest (padding_of n) in
    let final = rest ++ padding_of n in
    let count : k + length final / 64 ≡ length (padded msg) / 64 =
      omega (arith, len, ap length whole, length-append front final) in
    ap (λ done. hashcode (md_finish done.0 done.1 n 0)) chunks
    ∙ ap hashcode (
        md_finish-eq rest n fits left (All-drop IsByte (64 * k) msg bytes)
          (md_blocks k md_init front)
        ∙ sym (md_blocks-append k (length final / 64) md_init front final len)
        ∙ ap₂ (λ c m. md_blocks c md_init m) count (sym whole))

-- The digest of every message is 20 numbers, each of them a byte.
pub compute_ripemd160-IsBytes :
    (msg : List ℕ) → IsBytes (compute_ripemd160 msg) × (length (compute_ripemd160 msg) ≡ 20)
unfolding compute_ripemd160 hashcode
compute_ripemd160-IsBytes msg = hashcode_bytes (
    md_finish (md_chunks (length msg / 64) md_init msg).0
      (md_chunks (length msg / 64) md_init msg).1 (length msg) 0)
  where
    hashcode_bytes : (md : Registers) → IsBytes (hashcode md) × (length (hashcode md) ≡ 20)
    hashcode_bytes md = (omega arith, refl)
