-- ===== src/BlockFiles/Resuming.antt =====
-- `readBlockHeader` of src/BlockChain.cpp where other bytes stand in front of the next block.
use bitcoinstats.Common.{ℕ, zero, suc, ◌+◌, ◌-◌, ◌^◌, ◌≤◌, ◌<◌, min, arith}
use bitcoinstats.Common.{◌≡◌, ◌≢◌, refl, sym, ap, ◌∙◌, Bool, true}
use bitcoinstats.Common.{Option, ◌||◌, if◌then◌else◌, ||-true, ne→==, eq→==, u32}
use bitcoinstats.Common.{List, [], ◌∷◌, ◌++◌, length, take, drop, le_bytes, le_value, length-append}
use bitcoinstats.Common.{length-drop, append_assoc, take-append_le}
use bitcoinstats.Common.{length-take}
use bitcoinstats.BlockChain.Stream.{Outcome, ok, fault}
use bitcoinstats.BlockFiles.{magic_id, max_block_size, fseek, fread_u32, file_of, put_file}
use bitcoinstats.BlockFiles.{File, Scanner, is_magic, is_read}
use bitcoinstats.BlockFiles.{found_at, find_magic}
use bitcoinstats.BlockFiles.Scan.{resume, resume_at}
use bitcoinstats.BlockFiles.Frames.{Next, Next-fread_u32}

-- The magic id begins nowhere in the junk that stands in front of it.
unfoldable pub HasNoMagic : List ℕ → Type 0
HasNoMagic [] = Unit
HasNoMagic (x ∷ junk) =
    (le_value (take 4 ((x ∷ junk) ++ le_bytes 4 magic_id)) ≢ magic_id) × HasNoMagic junk

find_magic-step :
    (temp window : List ℕ) (count i : ℕ)
    → take 4 temp ≡ window
    → length window ≡ 4
    → le_value window ≢ magic_id
    → find_magic (suc count) i temp ≡ find_magic count (i + 1) (drop 1 temp)
unfolding find_magic
find_magic-step temp window count i e four other = rw (e, eq→== _ _ four, ne→== _ _ other) refl

find_magic-found_at :
    (junk tail : List ℕ) (count i : ℕ)
    → length junk < count
    → HasNoMagic junk
    → find_magic count i (junk ++ (le_bytes 4 magic_id ++ tail)) ≡ found_at (i + length junk)
unfolding find_magic HasNoMagic
find_magic-found_at junk tail zero i h free = absurd (omega arith)
find_magic-found_at [] tail (suc count) i h free = ap found_at (omega arith)
find_magic-found_at (x ∷ junk) tail (suc count) i h free =
    let front = (x ∷ junk) ++ le_bytes 4 magic_id in
    let same : take 4 ((x ∷ junk) ++ (le_bytes 4 magic_id ++ tail)) ≡ take 4 front =
      ap (λ (t : List ℕ). take 4 t) (sym (append_assoc (x ∷ junk) (le_bytes 4 magic_id) tail))
      ∙ take-append_le 4 front tail (omega (arith, length-append junk (le_bytes 4 magic_id))) in
    let four : length (take 4 front) ≡ 4 =
      omega (arith, length-take 4 front, length-append junk (le_bytes 4 magic_id)) in
    find_magic-step ((x ∷ junk) ++ (le_bytes 4 magic_id ++ tail)) (take 4 front) count i same four
      free.0
    ∙ find_magic-found_at junk tail count (i + 1) (omega arith) free.1
    ∙ ap found_at (omega arith)

take-append_ge :
    (n : ℕ) (xs ys : List ℕ) → length xs ≤ n → take n (xs ++ ys) ≡ xs ++ take (n - length xs) ys
take-append_ge n [] ys h = ap (λ (k : ℕ). take k ys) (omega arith)
take-append_ge zero (x ∷ xs) ys h = absurd (omega arith)
take-append_ge (suc n) (x ∷ xs) ys h =
    let e : suc n - suc (length xs) ≡ n - length xs = omega arith in
    ap (λ (t : List ℕ). x ∷ t) (take-append_ge n xs ys (omega arith))
    ∙ ap (λ (k : ℕ). x ∷ (xs ++ take k ys)) (sym e)

-- The junk, with the first byte of the magic id behind it at the latest, is in reach of the search.
pub record IsJunk (junk : List ℕ) : Type 0 where
  pub not_empty : 0 < length junk
  pub in_reach : length junk + 4 ≤ max_block_size
  pub no_magic : HasNoMagic junk

-- The buffer of the search begins with the junk and the magic id.
find_magic-window :
    (junk more zeros4 : List ℕ) (count : ℕ)
    → IsJunk junk
    → length junk + 4 ≤ count
    → find_magic count 0
        (take max_block_size (take count (junk ++ (le_bytes 4 magic_id ++ more)) ++ zeros4))
      ≡ found_at (length junk)
find_magic-window junk more zeros4 count w h =
    let front = junk ++ le_bytes 4 magic_id in
    let size : length front ≡ length junk + 4 =
      omega (arith, length-append junk (le_bytes 4 magic_id)) in
    let t1 = take (count - length front) more in
    let t2 = take (max_block_size - length front) (t1 ++ zeros4) in
    let view : take max_block_size (take count (junk ++ (le_bytes 4 magic_id ++ more)) ++ zeros4)
        ≡ junk ++ (le_bytes 4 magic_id ++ t2) =
      ap (λ (t : List ℕ). take max_block_size (take count t ++ zeros4))
        (sym (append_assoc junk (le_bytes 4 magic_id) more))
      ∙ ap (λ (t : List ℕ). take max_block_size (t ++ zeros4))
          (take-append_ge count front more (omega (arith, size, h)))
      ∙ ap (λ (t : List ℕ). take max_block_size t) (append_assoc front t1 zeros4)
      ∙ take-append_ge max_block_size front (t1 ++ zeros4) (omega (arith, size, w.in_reach))
      ∙ append_assoc junk (le_bytes 4 magic_id) t2 in
    ap (find_magic count 0) view
    ∙ find_magic-found_at junk t2 count 0 (omega (arith, h)) w.no_magic
    ∙ ap found_at (omega arith)

-- The search of `resume`, once it was made in the file `f`.
pub resume-found :
    (files : ℕ → Option (List ℕ)) (ndebug : Bool) (s : Scanner) (f : File) (at : ℕ)
    (junk more : List ℕ)
    → file_of s ≡ f
    → IsJunk junk
    → drop at f.contents ≡ junk ++ (le_bytes 4 magic_id ++ more)
    → resume files ndebug at s
      ≡ resume_at files ndebug at
          (put_file s (fseek (at + min max_block_size (length f.contents - at)) f))
          (found_at (length junk))
unfolding resume
resume-found files ndebug s f at junk more e w here =
    let count = min max_block_size (length f.contents - at) in
    let size : length (drop at f.contents) ≡ length junk + (4 + length more) =
      ap (λ (t : List ℕ). length t) here
      ∙ length-append junk (le_bytes 4 magic_id ++ more)
      ∙ ap (λ (k : ℕ). length junk + k) (length-append (le_bytes 4 magic_id) more) in
    let enough : length junk + 4 ≤ count =
      omega (arith, size, length-drop at f.contents, w.in_reach) in
    ap
      (λ (g : File).
        resume_at files ndebug at
          (put_file s (fseek (at + min max_block_size (length g.contents - at)) g))
          (find_magic (min max_block_size (length g.contents - at)) 0 (
            take max_block_size (
              take (min max_block_size (length g.contents - at)) (drop at g.contents)
              ++ 0 ∷ 0 ∷ 0 ∷ []))))
      e
    ∙ ap
        (λ (t : List ℕ).
          resume_at files ndebug at (put_file s (fseek (at + count) f))
            (find_magic count 0 (take max_block_size (take count t ++ 0 ∷ 0 ∷ 0 ∷ []))))
        here
    ∙ ap (resume_at files ndebug at (put_file s (fseek (at + count) f)))
        (find_magic-window junk more (0 ∷ 0 ∷ 0 ∷ []) count w enough)

pub resume_at-found :
    (files : ℕ → Option (List ℕ)) (ndebug : Bool) (s : Scanner) (f : File) (at i : ℕ)
    (behind : List ℕ)
    → s.block_index < length s.block_data_files
    → file_of s ≡ f
    → at + i < 2 ^ 32
    → Next (fseek (at + i) f) (le_bytes 4 magic_id ++ behind)
    → resume_at files ndebug at s (found_at i) ≡ ok (true, put_file s (fseek (at + i + 4) f))
unfolding resume_at is_magic is_read
resume_at-found files ndebug s f at i behind inside e fits h =
    let place : u32 (at + i) ≡ at + i = omega (arith, fits) in
    let take_found : Option ℕ × File → Outcome (Bool × Scanner) =
      λ r. if ndebug || is_magic r.0 then ok (is_read r.0, put_file s r.1) else fault in
    ap (λ (g : File). take_found (fread_u32 (fseek (u32 (at + i)) g))) e
    ∙ ap (λ (k : ℕ). take_found (fread_u32 (fseek k f))) place
    ∙ ap take_found (Next-fread_u32 magic_id behind (omega arith) h)
    ∙ rw (||-true ndebug) refl
