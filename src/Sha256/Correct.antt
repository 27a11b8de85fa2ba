-- ===== src/Sha256/Correct.antt =====
-- `computeSHA256` of src/SHA256.cpp against the hash of the whole padded message.
use bitcoinstats.Common.{ℕ, ◌+◌, ◌-◌, ◌*◌, ◌/◌, ◌%◌, ◌^◌, arith}
use bitcoinstats.Common.{◌≡◌, refl, sym, subst, ap, ap₂, ◌∙◌}
use bitcoinstats.Common.{
  List, [], ◌∷◌, ◌++◌, append_assoc, append-nil, reverse, IsByte, IsBytes, All-append,
}
use bitcoinstats.Common.{length, replicate, length-append, length-replicate, length-reverse}
use bitcoinstats.Common.{le_bytes, le_bytes-mod}
use bitcoinstats.Sha256.Compress.{byteswap64}
use bitcoinstats.Sha256.Reference.{
  hash_blocks, be_bytes, be_words, padded, padding_of, reference_hash,
}
use bitcoinstats.Sha256.Streaming.{Holds, init-Holds}
use bitcoinstats.Sha256.Update.{update-Holds}
use bitcoinstats.Sha256.{Context, initial_hash, sha256_init, sha256_update, sha256_finalize}
use bitcoinstats.Sha256.{words_of, compute_sha256}
use bitcoinstats.Sha256.Finalize.{AreWords, hash_blocks-AreWords, store_words-eq, words_of-All}
use bitcoinstats.Sha256.Finalize.{length_pad_bytes, finalize_bytes, finalize_bytes-eq}

-- What the two updates of `sha256_finalize` append is the padding.
appended :
    (msg : List ℕ) (n t : ℕ)
    → n ≡ length msg % 64
    → t ≡ (length msg * 8) % 2 ^ 64
    → (msg ++ finalize_bytes n) ++ le_bytes 8 (byteswap64 t) ≡ padded msg
appended msg n t hn ht =
    append_assoc msg (finalize_bytes n) _
    ∙ ap (λ u. msg ++ u)
        (ap₂ ◌++◌
          (finalize_bytes-eq n (omega arith)
            ∙ ap (λ (m : ℕ). 0x80 ∷ replicate ((119 - m) % 64) 0) hn)
          (length_pad_bytes t (omega arith)
            ∙ ap (be_bytes 8) ht
            ∙ ap reverse (le_bytes-mod (length msg * 8))))

length-padded : (msg : List ℕ) → length (padded msg) % 64 ≡ 0
length-padded msg =
    let zeros = (119 - length msg % 64) % 64 in
    let bits = le_bytes 8 (length msg * 8) in
    omega (
      arith,
      length-append msg (padding_of (length msg)),
      length-append (replicate zeros 0) (reverse bits),
      length-replicate {A = ℕ} zeros 0,
      length-reverse bits,
    )

-- Once the padding is absorbed the context's hash is that of all blocks.
hash_of_padded :
    (sc : Context) (msg : List ℕ)
    → Holds sc msg
    → length msg % 64 ≡ 0
    → sc.hash ≡ hash_blocks (length msg / 64) initial_hash msg
hash_of_padded sc msg h e =
    let split : length msg ≡ length h.blocks + length h.tail =
      ap length h.message ∙ length-append h.blocks h.tail in
    let no_tail : h.tail ≡ [] = empty_tail h.tail (omega (arith, h.whole, h.partial)) in
    let all : msg ≡ h.blocks = h.message ∙ ap (λ t. h.blocks ++ t) no_tail ∙ append-nil h.blocks in
    let n : h.count ≡ length msg / 64 = omega (arith, h.whole, h.partial) in
    h.hashed ∙ ap₂ (λ k u. hash_blocks k initial_hash u) n (sym all)
  where
    empty_tail : (xs : List ℕ) → length xs ≡ 0 → xs ≡ []
    empty_tail [] p = refl
    empty_tail (x ∷ xs) p = absurd (omega arith)

initial-AreWords : AreWords initial_hash
initial-AreWords = omega arith

-- What a context that holds `msg` is finalized to.
finalize-Holds :
    (sc : Context) (msg : List ℕ) → Holds sc msg → sha256_finalize sc ≡ reference_hash msg
unfolding sha256_finalize finalize_bytes reference_hash
finalize-Holds sc msg h =
    let n = sc.buffer_length in
    let first = finalize_bytes n in
    let second = le_bytes 8 (byteswap64 sc.total_length) in
    let sc2 = sha256_update (sha256_update sc first) second in
    let held : Holds sc2 ((msg ++ first) ++ second) =
      update-Holds _ (msg ++ first) second (update-Holds sc msg first h) in
    let len : length msg ≡ length h.blocks + length h.tail =
      ap length h.message ∙ length-append h.blocks h.tail in
    let held' : Holds sc2 (padded msg) =
      subst (Holds sc2)
        (appended msg n sc.total_length (omega (arith, h.filled, h.whole, h.partial)) h.total)
        held in
    let e = hash_of_padded sc2 (padded msg) held' (length-padded msg) in
    store_words-eq (words_of sc2.hash) (
      words_of-All sc2.hash (
        subst AreWords (sym e) (hash_blocks-AreWords _ initial_hash (padded msg) initial-AreWords)))
    ∙ ap (λ w. be_words (words_of w)) e

-- `sha256_update` called on each piece in turn.
unfoldable pub update_all : Context → List (List ℕ) → Context
update_all sc [] = sc
update_all sc (piece ∷ pieces) = update_all (sha256_update sc piece) pieces

abbrev pub joined : List (List ℕ) → List ℕ
joined [] = []
joined (piece ∷ pieces) = piece ++ joined pieces

update_all-Holds :
    (sc : Context) (msg : List ℕ) (pieces : List (List ℕ))
    → Holds sc msg
    → Holds (update_all sc pieces) (msg ++ joined pieces)
unfolding update_all
update_all-Holds sc msg [] h = subst (Holds sc) (sym (append-nil msg)) h
update_all-Holds sc msg (piece ∷ pieces) h =
    subst (Holds (update_all (sha256_update sc piece) pieces))
      (append_assoc msg piece (joined pieces))
      (update_all-Holds (sha256_update sc piece) (msg ++ piece) pieces
        (update-Holds sc msg piece h))

-- However a message is cut into pieces for `sha256_update`, and whatever the 64 bytes of the
-- context's buffer hold at the start, `sha256_finalize` gives the hash of the whole message, with
-- the padding of FIPS 180-4 and the code's compression of blocks.
pub finalize-update_all :
    (buffer : List ℕ) (pieces : List (List ℕ))
    → length buffer ≡ 64
    → sha256_finalize (update_all (sha256_init buffer) pieces) ≡ reference_hash (joined pieces)
finalize-update_all buffer pieces e =
    finalize-Holds _ (joined pieces)
      (update_all-Holds (sha256_init buffer) [] pieces (init-Holds buffer e))

-- For every message, `computeSHA256` is the hash of the padded message.
pub compute_sha256-reference : (msg : List ℕ) → compute_sha256 msg ≡ reference_hash msg
unfolding compute_sha256
compute_sha256-reference msg =
    finalize-Holds _ msg
      (update-Holds (sha256_init (replicate 64 0)) [] msg (init-Holds (replicate 64 0) refl))

be_words-IsBytes : (ws : List ℕ) → IsBytes (be_words ws) × (length (be_words ws) ≡ 4 * length ws)
be_words-IsBytes [] = (tt, omega arith)
be_words-IsBytes (w ∷ ws) =
    let rest = be_words-IsBytes ws in
    (
      All-append IsByte (be_bytes 4 w) (be_words ws)
          (omega arith, (omega arith, (omega arith, (omega arith, tt)))) rest.0,
      omega (arith, rest.1),
    )

-- The digest of every message is 32 numbers, each of them a byte.
pub compute_sha256-IsBytes :
    (msg : List ℕ) → IsBytes (compute_sha256 msg) × (length (compute_sha256 msg) ≡ 32)
unfolding reference_hash words_of
compute_sha256-IsBytes msg =
    rw compute_sha256-reference (
      be_words-IsBytes
        (words_of (hash_blocks (length (padded msg) / 64) initial_hash (padded msg))))
