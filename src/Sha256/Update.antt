-- ===== src/Sha256/Update.antt =====
-- The whole blocks of `sha256_update`, and the update itself: it appends to the message.
use bitcoinstats.Common.{ℕ, zero, suc, ◌+◌, ◌-◌, ◌*◌, ◌/◌, ◌≤◌, ◌<◌, min, arith}
use bitcoinstats.Common.{◌≡◌, refl, sym, subst, ap, ◌∙◌, inl, inr, Bool-cases}
use bitcoinstats.Common.{List, [], ◌∷◌, ◌++◌, append_assoc, append-nil, u64, ◌==◌}
use bitcoinstats.Common.{length, take, drop, length-append, length-take, length-drop}
use bitcoinstats.Common.{take-append-drop, take_all, drop_all, ltb, ltb→lt}
use bitcoinstats.Sha256.Compress.{sha256_guts}
use bitcoinstats.Sha256.Reference.{hash_blocks}
use bitcoinstats.Sha256.Streaming.{Holds, hash_blocks-append, stored-Holds, fill_buffer-Holds}
use bitcoinstats.Sha256.{Context, initial_hash, fill_buffer}
use bitcoinstats.Sha256.{full_blocks, keep_rest, sha256_update}

-- A context whose buffer is empty takes whole blocks straight from the input.
module _ {sc : Context} {msg : List ℕ} (h : Holds sc msg) (block : List ℕ) where
  abbrev direct : Context
  direct = record sc {
    total_length = u64 (sc.total_length + 512);
    hash = sha256_guts sc.hash block;
  }

  direct-Holds : sc.buffer_length ≡ 0 → length block ≡ 64 → Holds direct (msg ++ block)
  direct-Holds e full = record {
    count = h.count + 1;
    blocks = h.blocks ++ block;
    tail = [];
    message =
        ap (λ t. t ++ block) (h.message ∙ ap (λ t. h.blocks ++ t) no_tail ∙ append-nil h.blocks)
        ∙ sym (append-nil _);
    whole = omega (arith, h.whole, length-append h.blocks block);
    partial = omega arith;
    hashed = ap (λ t. sha256_guts t block) h.hashed ∙ sym next_block;
    waiting = ap (λ t. take t sc.buffer) e;
    filled = e;
    size = h.size;
    total = omega (arith, h.total, length-append msg block);
  }
    where
      no_tail : h.tail ≡ []
      no_tail = sym h.waiting ∙ ap (λ t. take t sc.buffer) e

      next_block :
          hash_blocks (h.count + 1) initial_hash (h.blocks ++ block)
          ≡ sha256_guts (hash_blocks h.count initial_hash h.blocks) block
      next_block =
          hash_blocks-append h.count 1 initial_hash h.blocks block h.whole
          ∙ unfold hash_blocks in ap (sha256_guts _) (take_all 64 block (omega arith))

record Rest (msg bytes : List ℕ) (result : Context × List ℕ) : Type 0 where
  taken : List ℕ
  holds : Holds result.0 (msg ++ taken)
  split : bytes ≡ taken ++ result.1
  empty : (result.0).buffer_length ≡ 0

full_blocks-Rest :
    (n : ℕ) (sc : Context) (msg bytes : List ℕ)
    → Holds sc msg
    → sc.buffer_length ≡ 0
    → 64 * n ≤ length bytes
    → Rest msg bytes (full_blocks n sc bytes)
      × (length (full_blocks n sc bytes).1 ≡ length bytes - 64 * n)
unfolding full_blocks
full_blocks-Rest zero sc msg bytes h e le = (
  record { taken = []; holds = subst (Holds sc) (sym (append-nil msg)) h; split = refl; empty = e },
  omega arith,
)
full_blocks-Rest (suc n) sc msg bytes h e le =
    let block = take 64 bytes in
    let later =
      full_blocks-Rest n (direct h block) (msg ++ block) (drop 64 bytes)
        (direct-Holds h block e (omega (arith, length-take 64 bytes))) e
        (omega (arith, length-drop 64 bytes)) in
    let more = later.0 in
    (
      record {
        taken = block ++ more.taken;
        holds = subst (Holds _) (append_assoc msg block more.taken) more.holds;
        split =
            sym (take-append-drop 64 bytes)
            ∙ ap (λ t. block ++ t) more.split
            ∙ sym (append_assoc block more.taken _);
        empty = more.empty;
      },
      omega (arith, later.1, length-drop 64 bytes),
    )

keep_rest-Holds :
    {sc : Context} {msg : List ℕ} (h : Holds sc msg) (bytes : List ℕ)
    → length h.tail + length bytes < 64
    → Holds (keep_rest sc bytes) (msg ++ bytes)
unfolding keep_rest
keep_rest-Holds h [] fits = subst (Holds _) (sym (append-nil _)) h
keep_rest-Holds h (b ∷ bs) fits = stored-Holds h (b ∷ bs) fits

-- The blocks and the remainder, for a context whose buffer is empty.
blocks_then_rest :
    (sc : Context) (msg bytes : List ℕ) (k : ℕ)
    → Holds sc msg
    → sc.buffer_length ≡ 0
    → k ≡ length bytes / 64
    → let done = full_blocks k sc bytes in Holds (keep_rest done.0 done.1) (msg ++ bytes)
blocks_then_rest sc msg bytes k h e kk =
    let result = full_blocks-Rest k sc msg bytes h e (omega arith) in
    let r = result.0 in
    let done = full_blocks k sc bytes in
    subst (Holds (keep_rest done.0 done.1))
      (append_assoc msg r.taken done.1 ∙ ap (λ t. msg ++ t) (sym r.split))
      (keep_rest-Holds r.holds done.1 (omega (arith, result.1, r.holds.filled, r.empty)))

fill_buffer_emptied :
    (sc : Context) (bytes : List ℕ)
    → sc.buffer_length + length bytes ≡ 64
    → (fill_buffer sc bytes).buffer_length ≡ 0
unfolding fill_buffer
fill_buffer_emptied sc bytes e = ground arith

-- The length that the first part takes from the input.
abbrev room : Context → List ℕ → ℕ
room sc bytes = min (64 - sc.buffer_length) (length bytes)

abbrev topped_up : Context → List ℕ → Context
topped_up sc bytes =
    let rest = drop (room sc bytes) bytes in
    let done = full_blocks (length rest / 64) (fill_buffer sc (take (room sc bytes) bytes)) rest in
    keep_rest done.0 done.1

topped_up-Holds :
    {sc : Context} {msg : List ℕ} (h : Holds sc msg) (bytes : List ℕ)
    → Holds (topped_up sc bytes) (msg ++ bytes)
topped_up-Holds {sc} {msg} h bytes =
    elim (Bool-cases (ltb (length bytes) (64 - sc.buffer_length))) [
      | inl short ↦
          let lt = ltb→lt _ _ short in
          let all : take (room sc bytes) bytes ≡ bytes =
            take_all (room sc bytes) bytes (omega arith) in
          let none_left : drop (room sc bytes) bytes ≡ [] =
            drop_all (room sc bytes) bytes (omega arith) in
          rw (none_left, all)
            (unfold full_blocks keep_rest in
              fill_buffer-Holds h bytes (omega (arith, h.filled, h.partial)))
      | inr full ↦
          let n = room sc bytes in
          let le : 64 - sc.buffer_length ≤ length bytes = ground arith in
          let len : length (take n bytes) ≡ 64 - sc.buffer_length =
            omega (arith, length-take n bytes) in
          let first =
            fill_buffer-Holds h (take n bytes) (omega (arith, len, h.filled, h.partial)) in
          subst (Holds (topped_up sc bytes))
            (append_assoc msg (take n bytes) (drop n bytes)
              ∙ ap (λ t. msg ++ t) (take-append-drop n bytes))
            (blocks_then_rest (fill_buffer sc (take n bytes)) (msg ++ take n bytes) (drop n bytes)
              (length (drop n bytes) / 64) first
              (fill_buffer_emptied sc (take n bytes) (omega (arith, len, h.filled, h.partial)))
              refl)
    ]

-- A context that holds a message holds the longer one after `sha256_update` with more bytes,
-- however many they are.
pub update-Holds :
    (sc : Context) (msg bytes : List ℕ)
    → Holds sc msg
    → Holds (sha256_update sc bytes) (msg ++ bytes)
unfolding sha256_update
update-Holds sc msg bytes h = elim (Bool-cases (sc.buffer_length == 0)) [
  | inl e ↦ rw e (blocks_then_rest sc msg bytes (length bytes / 64) h (ground arith) refl)
  | inr e ↦ rw e (topped_up-Holds h bytes)
]
