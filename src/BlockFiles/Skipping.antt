-- ===== src/BlockFiles/Skipping.antt =====
-- `readBlockHeader` of src/BlockChain.cpp skips the bytes that stand in front of the next block.
use bitcoinstats.Common.{ℕ, ◌+◌, ◌-◌, ◌^◌, ◌≤◌, ◌<◌, min, arith}
use bitcoinstats.Common.{◌≡◌, ◌≢◌, refl, sym, subst, ap, ◌∙◌, Bool, true}
use bitcoinstats.Common.{Option, ne→==, lt→ltb, u32}
use bitcoinstats.Common.{List, [], ◌∷◌, ◌++◌, length, take, drop, le_bytes, le_value, length-append}
use bitcoinstats.Common.{
  length-le_bytes, append_assoc, length-set, take-append_le, take-append-drop,
}
use bitcoinstats.Common.{length-take}
use mathlib.Core.Option.{map}
use bitcoinstats.BlockChain.Stream.{ok}
use bitcoinstats.BlockFiles.{magic_id, max_block_size, fseek, fread_u32, file_of, put_file}
use bitcoinstats.BlockFiles.{File, Scanner}
use bitcoinstats.BlockFiles.Scan.{first_magic, look_for_block, read_block_header, read_if_found}
use bitcoinstats.BlockFiles.Scan.{resume, header_of, add_header}
use bitcoinstats.BlockFiles.Frames.{frame_bytes, scanned, IsBlockData, Next, Next-fread, Next-fseek}
use bitcoinstats.BlockFiles.Frames.{file_of-put_file, put_file-put_file, read_found_block-Next}
use bitcoinstats.BlockFiles.Resuming.{IsJunk, HasNoMagic, resume-found, resume_at-found}

-- The first four bytes of the junk are not the magic id.
first_word :
    (junk more : List ℕ)
    → IsJunk junk
    → le_value (take 4 (junk ++ (le_bytes 4 magic_id ++ more))) ≢ magic_id
unfolding HasNoMagic
first_word [] more w = absurd (omega (arith, w.not_empty))
first_word (x ∷ junk) more w =
    let front = (x ∷ junk) ++ le_bytes 4 magic_id in
    let same : take 4 ((x ∷ junk) ++ (le_bytes 4 magic_id ++ more)) ≡ take 4 front =
      ap (λ (t : List ℕ). take 4 t) (sym (append_assoc (x ∷ junk) (le_bytes 4 magic_id) more))
      ∙ take-append_le 4 front more (omega (arith, length-append junk (le_bytes 4 magic_id))) in
    λ e. w.no_magic.0 (ap le_value (sym same) ∙ e)

-- The first read meets the junk, and the search begins.
look_for_block-junk :
    (files : ℕ → Option (List ℕ)) (ndebug : Bool) (s : Scanner) (junk more : List ℕ)
    → IsJunk junk
    → (file_of s).position < 2 ^ 32
    → Next (file_of s) (junk ++ (le_bytes 4 magic_id ++ more))
    → look_for_block files ndebug (first_magic files s (fread_u32 (file_of s)))
      ≡ resume files ndebug
          (file_of s).position
          (put_file s (fseek ((file_of s).position + 4) (file_of s)))
unfolding look_for_block first_magic fread_u32
look_for_block-junk files ndebug s junk more w fits h =
    let f = file_of s in
    let all = junk ++ (le_bytes 4 magic_id ++ more) in
    let size : 4 ≤ length all = omega (
      arith,
      length-append junk (le_bytes 4 magic_id ++ more),
      length-append (le_bytes 4 magic_id) more,
    ) in
    let four : length (take 4 all) ≡ 4 = omega (arith, size, length-take 4 all) in
    let split = sym (take-append-drop 4 all) in
    let r =
      Next-fread (take 4 all) (drop 4 all) 4 four (subst (λ (t : List ℕ). Next f t) split h) in
    let place : u32 f.position ≡ f.position = omega (arith, fits) in
    ap
      (λ (t : Option (List ℕ) × File).
        look_for_block files ndebug (first_magic files s (map le_value t.0, t.1)))
      r
    ∙ rw (ne→== _ _ (first_word junk more w))
        (ap (λ (k : ℕ). resume files ndebug k (put_file s (fseek (f.position + 4) f))) place)

-- The members after a block was read, with the current file and the place named.
scanned-at :
    (s : Scanner) (f : File) (place : ℕ) (block : List ℕ)
    → file_of s ≡ f
    → f.position + 8 ≡ place
    → scanned s block
      ≡ add_header
          (header_of s.block_index place (length block) (take 80 block))
          (put_file s (fseek (place + length block) f))
unfolding scanned
scanned-at s f place block e at =
    ap
      (λ (g : File).
        add_header (header_of s.block_index (g.position + 8) (length block) (take 80 block))
          (put_file s (fseek (g.position + 8 + length block) g)))
      e
    ∙ ap
        (λ (k : ℕ).
          add_header (header_of s.block_index k (length block) (take 80 block))
            (put_file s (fseek (k + length block) f)))
        at

-- Where other bytes stand in front of the next block, in which the magic id does not begin and
-- which fit the search's buffer with the magic id, the block behind them is found, as if the file's
-- place was behind them. The block has from 80 bytes up to below the limit, and the file's place
-- stays below 2 ^ 32.
pub read_block_header-junk :
    (files : ℕ → Option (List ℕ)) (ndebug : Bool) (s : Scanner) (junk block : List ℕ)
    → s.block_index < length s.block_data_files
    → IsJunk junk
    → IsBlockData block
    → (file_of s).position + length junk + 8 + length block < 2 ^ 32
    → Next (file_of s) (junk ++ frame_bytes block)
    → read_block_header files ndebug s
      ≡ ok (
        true,
        scanned (put_file s (fseek ((file_of s).position + length junk) (file_of s))) block,
      )
unfolding read_block_header frame_bytes read_if_found
read_block_header-junk files ndebug s junk block inside w w' fits h =
    let f = file_of s in
    let p = f.position in
    let k = length junk in
    let n = length block in
    let behind = le_bytes 4 n ++ block in
    let c = min max_block_size (length f.contents - p) in
    let s1 = put_file s (fseek (p + 4) f) in
    let s2 = put_file s1 (fseek (p + c) f) in
    let g = fseek (p + k + 4) f in
    let inside1 : s.block_index < length s1.block_data_files =
      omega (arith, inside, length-set s.block_data_files s.block_index (fseek (p + 4) f)) in
    let inside2 : s.block_index < length s2.block_data_files =
      omega (arith, inside1, length-set s1.block_data_files s.block_index (fseek (p + c) f)) in
    let here : drop p f.contents ≡ junk ++ (le_bytes 4 magic_id ++ (behind ++ h.rest)) =
      h.stands ∙ append_assoc junk (le_bytes 4 magic_id ++ behind) h.rest in
    let at_frame = Next-fseek junk (le_bytes 4 magic_id ++ behind) k refl h in
    let at_length =
      Next-fseek (le_bytes 4 magic_id) behind 4 (length-le_bytes 4 magic_id) at_frame in
    let start : p < 2 ^ 32 = omega (arith, fits) in
    let meets = look_for_block-junk files ndebug s junk behind w start h in
    let searches =
      resume-found files ndebug s1 (fseek (p + 4) f) p junk (behind ++ h.rest)
        (file_of-put_file s (fseek (p + 4) f) inside) w here in
    let low : p + k < 2 ^ 32 = omega (arith, fits) in
    let finds =
      resume_at-found files ndebug s2 (fseek (p + c) f) p k behind inside2
        (file_of-put_file s1 (fseek (p + c) f) inside1) low at_frame in
    let high : p + k + 4 + 4 + n < 2 ^ 32 = omega (arith, fits) in
    let reads =
      read_found_block-Next ndebug (put_file s2 g) g block (file_of-put_file s2 g inside2) w' high
        at_length in
    let e8 : p + k + 8 ≡ p + k + 4 + 4 = omega arith in
    let target =
      scanned-at (put_file s (fseek (p + k) f)) (fseek (p + k) f) (p + k + 4 + 4) block
        (file_of-put_file s (fseek (p + k) f) inside) e8 in
    let final = fseek (p + k + 4 + 4 + n) f in
    let joined : put_file (put_file s2 g) final ≡ put_file (put_file s (fseek (p + k) f)) final =
      put_file-put_file s2 g final
      ∙ put_file-put_file s1 (fseek (p + c) f) final
      ∙ put_file-put_file s (fseek (p + 4) f) final
      ∙ sym (put_file-put_file s (fseek (p + k) f) final) in
    rw (lt→ltb _ _ inside) (
      ap (read_if_found ndebug) (meets ∙ searches ∙ finds)
      ∙ reads
      ∙ ap
          (λ (t : Scanner).
            ok (true, add_header (header_of s.block_index (p + k + 4 + 4) n (take 80 block)) t))
          joined
      ∙ ap (λ (t : Scanner). ok (true, t)) (sym target))
