-- ===== src/Sha256/Streaming.antt =====
-- `sha256_update` absorbs a message in pieces of any size: what the context holds depends only on
-- the bytes seen so far.
use bitcoinstats.Common.{ℕ, zero, suc, ◌+◌, ◌*◌, ◌%◌, ◌^◌, ◌≤◌, ◌<◌, arith}
use bitcoinstats.Common.{◌≡◌, refl, sym, ap, ap₂, ◌∙◌, inl, inr, Bool-cases}
use bitcoinstats.Common.{List, [], ◌∷◌, ◌++◌, append_assoc, append-nil, u64, ◌==◌}
use bitcoinstats.Common.{length, take, drop, length-append, length-take, length-drop}
use bitcoinstats.Common.{take-append_left, take-append_le}
use bitcoinstats.Common.{drop-append_le, take_all, drop_all}
use bitcoinstats.Sha256.Compress.{Words8, sha256_guts}
use bitcoinstats.Sha256.Reference.{hash_blocks}
use bitcoinstats.Sha256.{Context, initial_hash, copy_to, sha256_init, fill_buffer}

pub hash_blocks-append :
    (n m : ℕ) (h : Words8) (xs ys : List ℕ)
    → length xs ≡ 64 * n
    → hash_blocks (n + m) h (xs ++ ys) ≡ hash_blocks m (hash_blocks n h xs) ys
unfolding hash_blocks
hash_blocks-append zero m h [] ys e =
    ap (λ t. hash_blocks t h ys) (let p : 0 + m ≡ m = omega arith in p)
hash_blocks-append zero m h (x ∷ xs) ys e = absurd (omega arith)
hash_blocks-append (suc n) m h xs ys e =
    let p : suc n + m ≡ suc (n + m) = omega arith in
    ap (λ t. hash_blocks t h (xs ++ ys)) p
    ∙ ap₂ (λ t u. hash_blocks (n + m) (sha256_guts h t) u) (take-append_le 64 xs ys (omega arith))
        (drop-append_le 64 xs ys (omega arith))
    ∙ hash_blocks-append n m (sha256_guts h (take 64 xs)) (drop 64 xs) ys
        (omega (arith, length-drop 64 xs))

-- The context after the message `blocks ++ tail`, of which `blocks` are compressed.
pub record Holds (sc : Context) (msg : List ℕ) : Type 0 where
  pub count : ℕ
  pub blocks : List ℕ
  pub tail : List ℕ
  pub message : msg ≡ blocks ++ tail
  pub whole : length blocks ≡ 64 * count
  pub partial : length tail < 64
  pub hashed : sc.hash ≡ hash_blocks count initial_hash blocks
  pub waiting : take sc.buffer_length sc.buffer ≡ tail
  pub filled : sc.buffer_length ≡ length tail
  pub size : length sc.buffer ≡ 64
  pub total : sc.total_length ≡ (length msg * 8) % 2 ^ 64

pub init-Holds : (buffer : List ℕ) → length buffer ≡ 64 → Holds (sha256_init buffer) []
unfolding sha256_init hash_blocks
init-Holds buffer e = record {
  count = 0;
  blocks = [];
  tail = [];
  message = refl;
  whole = omega arith;
  partial = omega arith;
  hashed = refl;
  waiting = refl;
  filled = refl;
  size = e;
  total = omega arith;
}

-- Writing `bytes` at `at` keeps what is before, and puts `bytes` behind it.
length-copy_to :
    (buffer : List ℕ) (at : ℕ) (bytes : List ℕ)
    → at + length bytes ≤ length buffer
    → length (copy_to buffer at bytes) ≡ length buffer
length-copy_to buffer at bytes h = omega (
  arith,
  length-append (take at buffer) (bytes ++ drop (at + length bytes) buffer),
  length-append bytes (drop (at + length bytes) buffer),
  length-take at buffer,
  length-drop (at + length bytes) buffer,
)

take-copy_to :
    (buffer : List ℕ) (at : ℕ) (bytes : List ℕ)
    → at ≤ length buffer
    → take (at + length bytes) (copy_to buffer at bytes) ≡ take at buffer ++ bytes
take-copy_to buffer at bytes h =
    let front = take at buffer ++ bytes in
    let behind = drop (at + length bytes) buffer in
    let n : at + length bytes ≡ length front =
      omega (arith, length-append (take at buffer) bytes, length-take at buffer) in
    ap₂ take n (sym (append_assoc (take at buffer) bytes behind)) ∙ take-append_left front behind

copy_to_full :
    (buffer : List ℕ) (at : ℕ) (bytes : List ℕ)
    → at + length bytes ≡ length buffer
    → copy_to buffer at bytes ≡ take at buffer ++ bytes
copy_to_full buffer at bytes h =
    ap (λ t. take at buffer ++ t)
      (ap (λ t. bytes ++ t) (drop_all (at + length bytes) buffer (omega arith)) ∙ append-nil bytes)

-- Bytes that do not fill the buffer wait in it.
module _ {sc : Context} {msg : List ℕ} (h : Holds sc msg) (bytes : List ℕ) where
  abbrev pub stored : Context
  stored = record sc {
    buffer = copy_to sc.buffer sc.buffer_length bytes;
    total_length = u64 (sc.total_length + length bytes * 8);
    buffer_length = sc.buffer_length + length bytes;
  }

  total-append : stored.total_length ≡ (length (msg ++ bytes) * 8) % 2 ^ 64
  total-append = omega (arith, h.total, length-append msg bytes)

  pub stored-Holds : length h.tail + length bytes < 64 → Holds stored (msg ++ bytes)
  stored-Holds short = record {
    count = h.count;
    blocks = h.blocks;
    tail = h.tail ++ bytes;
    message = ap (λ t. t ++ bytes) h.message ∙ append_assoc h.blocks h.tail bytes;
    whole = h.whole;
    partial = omega (arith, length-append h.tail bytes);
    hashed = h.hashed;
    waiting =
        take-copy_to sc.buffer sc.buffer_length bytes (omega (arith, h.filled, h.size, h.partial))
        ∙ ap (λ t. t ++ bytes) h.waiting;
    filled = omega (arith, h.filled, length-append h.tail bytes);
    size =
        length-copy_to sc.buffer sc.buffer_length bytes (omega (arith, h.filled, h.size)) ∙ h.size;
    total = total-append;
  }

  -- Bytes that just fill it make one more block.
  abbrev compressed : Context
  compressed = record stored { hash = sha256_guts stored.hash stored.buffer; buffer_length = 0 }

  filled_block : length h.tail + length bytes ≡ 64 → stored.buffer ≡ h.tail ++ bytes
  filled_block full =
      copy_to_full sc.buffer sc.buffer_length bytes (omega (arith, h.filled, h.size))
      ∙ ap (λ t. t ++ bytes) h.waiting

  compressed-Holds : length h.tail + length bytes ≡ 64 → Holds compressed (msg ++ bytes)
  compressed-Holds full = record {
    count = h.count + 1;
    blocks = h.blocks ++ (h.tail ++ bytes);
    tail = [];
    message =
        ap (λ t. t ++ bytes) h.message ∙ append_assoc h.blocks h.tail bytes ∙ sym (append-nil _);
    whole =
        omega
          (arith, h.whole, length-append h.blocks (h.tail ++ bytes), length-append h.tail bytes);
    partial = omega arith;
    hashed = ap₂ sha256_guts h.hashed (filled_block full) ∙ sym next_block;
    waiting = refl;
    filled = refl;
    size =
        length-copy_to sc.buffer sc.buffer_length bytes (omega (arith, h.filled, h.size)) ∙ h.size;
    total = total-append;
  }
    where
      next_block :
          hash_blocks (h.count + 1) initial_hash (h.blocks ++ (h.tail ++ bytes))
          ≡ sha256_guts (hash_blocks h.count initial_hash h.blocks) (h.tail ++ bytes)
      next_block =
          hash_blocks-append h.count 1 initial_hash h.blocks (h.tail ++ bytes) h.whole
          ∙ unfold hash_blocks in
            ap (sha256_guts _)
              (take_all 64 (h.tail ++ bytes) (omega (arith, length-append h.tail bytes)))

pub fill_buffer-Holds :
    {sc : Context} {msg : List ℕ} (h : Holds sc msg) (bytes : List ℕ)
    → length h.tail + length bytes ≤ 64
    → Holds (fill_buffer sc bytes) (msg ++ bytes)
unfolding fill_buffer
fill_buffer-Holds {sc} h bytes fits = elim (Bool-cases (sc.buffer_length + length bytes == 64)) [
  | inl e ↦ rw e (compressed-Holds h bytes (ground (arith, h.filled)))
  | inr e ↦ rw e (stored-Holds h bytes (ground (arith, h.filled)))
]
