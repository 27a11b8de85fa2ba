-- ===== src/BlockFiles/Frames.antt =====
-- The blocks in the files, behind their magic id and length, and how one is found.
use bitcoinstats.Common.{ℕ, ◌+◌, ◌-◌, ◌^◌, ◌≤◌, ◌<◌, arith}
use bitcoinstats.Common.{◌≡◌, sym, subst, ap, ◌∙◌, Bool, true, Option, some}
use bitcoinstats.Common.{le→leb, lt→ltb, u32}
use bitcoinstats.Common.{List, ◌++◌, length, take, drop, le_bytes, le_value, length-append}
use bitcoinstats.Common.{
  take-append-drop, length-take, length-le_bytes, le_value-le_bytes, append_assoc,
}
use bitcoinstats.Common.{take-append_left, drop-append_left}
use bitcoinstats.Common.Updates.{get_or-set, set-set}
use mathlib.Core.Option.{map}
use bitcoinstats.BlockChain.Stream.{ok}
use bitcoinstats.BlockChain.Reads.{drop-drop}
use bitcoinstats.BlockFiles.{magic_id, max_block_size, fread, fseek, fread_u32, file_of, put_file}
use bitcoinstats.BlockFiles.{File, Scanner}
use bitcoinstats.BlockFiles.Scan.{
  first_magic, header_of, add_header, take_prefix, take_length, look_for_block, read_found_block,
  read_block_header,
}
use bitcoinstats.BlockFiles.Scan.{read_if_found}

-- A block as it stands in a file.
unfoldable pub frame_bytes : List ℕ → List ℕ
frame_bytes block = le_bytes 4 magic_id ++ (le_bytes 4 (length block) ++ block)

pub length-frame_bytes : (block : List ℕ) → length (frame_bytes block) ≡ 8 + length block
unfolding frame_bytes
length-frame_bytes block = omega arith

-- The members once the block of the frame at the place in the current file was read.
unfoldable pub scanned : Scanner → List ℕ → Scanner
scanned s block =
    let f = file_of s in
    add_header (header_of s.block_index (f.position + 8) (length block) (take 80 block))
      (put_file s (fseek (f.position + 8 + length block) f))

-- What stands at the place in a file.
pub record Next (f : File) (bytes : List ℕ) : Type 0 where
  pub rest : List ℕ
  pub stands : drop f.position f.contents ≡ bytes ++ rest
  pub inside : f.position + length bytes ≤ length f.contents

pub Next-fread :
    {f : File} (xs ys : List ℕ) (n : ℕ)
    → length xs ≡ n
    → Next f (xs ++ ys)
    → fread n f ≡ (some xs, fseek (f.position + n) f)
unfolding fread
Next-fread {f} xs ys n e h =
    let le : f.position + n ≤ length f.contents = omega (arith, h.inside, e, length-append xs ys) in
    let here : drop f.position f.contents ≡ xs ++ (ys ++ h.rest) =
      h.stands ∙ append_assoc xs ys h.rest in
    let first : take n (drop f.position f.contents) ≡ xs =
      ap (λ (t : List ℕ). take n t) here
      ∙ ap (λ (k : ℕ). take k (xs ++ (ys ++ h.rest))) (sym e)
      ∙ take-append_left xs (ys ++ h.rest) in
    rw (le→leb _ _ le) (ap (λ (t : List ℕ). (some t, fseek (f.position + n) f)) first)

pub Next-fseek :
    {f : File} (xs ys : List ℕ) (n : ℕ)
    → length xs ≡ n
    → Next f (xs ++ ys)
    → Next (fseek (f.position + n) f) ys
Next-fseek {f} xs ys n e h = record {
  rest = h.rest;
  stands =
      drop-drop f.position n f.contents
      ∙ ap (λ (t : List ℕ). drop n t) (h.stands ∙ append_assoc xs ys h.rest)
      ∙ ap (λ (k : ℕ). drop k (xs ++ (ys ++ h.rest))) (sym e)
      ∙ drop-append_left xs (ys ++ h.rest);
  inside = omega (arith, h.inside, e, length-append xs ys);
}

pub Next-fread_u32 :
    {f : File} (v : ℕ) (ys : List ℕ)
    → v < 2 ^ 32
    → Next f (le_bytes 4 v ++ ys)
    → fread_u32 f ≡ (some v, fseek (f.position + 4) f)
unfolding fread_u32
Next-fread_u32 {f} v ys fits h =
    ap (λ (r : Option (List ℕ) × File). (map le_value r.0, r.1))
      (Next-fread (le_bytes 4 v) ys 4 (length-le_bytes 4 v) h)
    ∙ ap (λ (k : ℕ). (some k, fseek (f.position + 4) f)) (le_value-le_bytes 4 v fits)

-- The current file is read and put back.
pub file_of-put_file :
    (s : Scanner) (f : File)
    → s.block_index < length s.block_data_files
    → file_of (put_file s f) ≡ f
file_of-put_file s f h = get_or-set s.block_data_files s.block_index f _ h

pub put_file-put_file : (s : Scanner) (f g : File) → put_file (put_file s f) g ≡ put_file s g
put_file-put_file s f g =
    ap (λ (t : List File). record s { block_data_files = t })
      (set-set s.block_data_files s.block_index f g)

-- The limits of a block: its header, and the largest size that is read.
pub record IsBlockData (block : List ℕ) : Type 0 where
  pub has_header : 80 ≤ length block
  pub is_small : length block < max_block_size

take_prefix-Next :
    (s : Scanner) (f : File) (block : List ℕ) (offset : ℕ)
    → IsBlockData block
    → f.position + length block < 2 ^ 32
    → Next f block
    → take_prefix (length block) offset s (fread 80 f) ≡ (
      true,
      add_header
          (header_of s.block_index offset (length block) (take 80 block))
          (put_file s (fseek (f.position + length block) f)),
    )
unfolding take_prefix
take_prefix-Next s f block offset w fits h =
    let n = length block in
    let split = take-append-drop 80 block in
    let size : length (take 80 block) ≡ 80 = omega (arith, length-take 80 block, w.has_header) in
    let r =
      Next-fread (take 80 block) (drop 80 block) 80 size
        (subst (λ (t : List ℕ). Next f t) (sym split) h) in
    let place : u32 (u32 (f.position + 80) + u32 (n + 2 ^ 32 - 80)) ≡ f.position + n =
      omega (arith, w.has_header, fits) in
    ap (take_prefix n offset s) r
    ∙ ap
        (λ (k : ℕ). (
          true,
          add_header (header_of s.block_index offset n (take 80 block)) (put_file s (fseek k f)),
        ))
        place

pub read_found_block-Next :
    (ndebug : Bool) (s : Scanner) (f : File) (block : List ℕ)
    → file_of s ≡ f
    → IsBlockData block
    → f.position + 4 + length block < 2 ^ 32
    → Next f (le_bytes 4 (length block) ++ block)
    → read_found_block ndebug s
      ≡ ok (
        true,
        add_header
            (header_of s.block_index (f.position + 4) (length block) (take 80 block))
            (put_file s (fseek (f.position + 4 + length block) f)),
      )
unfolding read_found_block take_length
read_found_block-Next ndebug s f block e w fits h =
    let n = length block in
    let after = Next-fseek (le_bytes 4 n) block 4 (length-le_bytes 4 n) h in
    let place : u32 (f.position + 4) ≡ f.position + 4 = omega (arith, fits) in
    ap (λ (g : File). take_length ndebug s (fread_u32 g)) e
    ∙ ap (take_length ndebug s) (Next-fread_u32 n block (omega (arith, w.is_small)) h)
    ∙ rw (lt→ltb n max_block_size w.is_small) (
        ap (λ (k : ℕ). ok (take_prefix n k s (fread 80 (fseek (f.position + 4) f)))) place
        ∙ ap ok (take_prefix-Next s (fseek (f.position + 4) f) block (f.position + 4) w fits after))

-- Where a block stands behind its magic id and its length at the place in the current file, its
-- header is added and the file is moved behind it.
pub read_block_header-frame :
    (files : ℕ → Option (List ℕ)) (ndebug : Bool) (s : Scanner) (block : List ℕ)
    → s.block_index < length s.block_data_files
    → IsBlockData block
    → (file_of s).position + 8 + length block < 2 ^ 32
    → Next (file_of s) (frame_bytes block)
    → read_block_header files ndebug s ≡ ok (true, scanned s block)
unfolding read_block_header read_if_found look_for_block first_magic frame_bytes scanned
read_block_header-frame files ndebug s block inside w fits h =
    let n = length block in
    let f = file_of s in
    let f' = fseek (f.position + 4) f in
    let again = file_of-put_file s f' inside in
    let behind = le_bytes 4 n ++ block in
    let magic = Next-fread_u32 magic_id behind (omega arith) h in
    let after = Next-fseek (le_bytes 4 magic_id) behind 4 (length-le_bytes 4 magic_id) h in
    let fits' : f.position + 4 + 4 + n < 2 ^ 32 = omega (arith, fits) in
    let found = read_found_block-Next ndebug (put_file s f') f' block again w fits' after in
    let place : f.position + 4 + 4 ≡ f.position + 8 = omega arith in
    rw (lt→ltb _ _ inside) (
      ap
        (λ (r : Option ℕ × File).
          read_if_found ndebug (look_for_block files ndebug (first_magic files s r)))
        magic
      ∙ found
      ∙ ap
          (λ (t : Scanner).
            ok
              (true, add_header (header_of s.block_index (f.position + 4 + 4) n (take 80 block)) t))
          (put_file-put_file s f' (fseek (f.position + 4 + 4 + n) f'))
      ∙ ap
          (λ (k : ℕ). ok (
            true,
            add_header (header_of s.block_index k n (take 80 block)) (put_file s (fseek (k + n) f)),
          ))
          place)
