-- ===== src/BlockFiles/Collecting.antt =====
-- The scan of src/BlockChain.cpp over a file of blocks collects their headers.
use bitcoinstats.Common.{ℕ, suc, ◌+◌, ◌^◌, ◌≤◌, ◌<◌, arith}
use bitcoinstats.Common.{◌≡◌, refl, sym, subst, ap, ◌∙◌, Bool, true, false, Option, none, some}
use bitcoinstats.Common.{lt→ltb, u32}
use bitcoinstats.Common.{
  List, [], ◌∷◌, ◌++◌, length, take, drop, length-append, length-drop, length-set,
}
use bitcoinstats.Common.{All, drop-append_left}
use bitcoinstats.BlockChain.Stream.{Outcome, ok}
use bitcoinstats.BlockChain.Reads.{drop-drop}
use bitcoinstats.BlockFiles.{File, BlockHeader, Scanner, fseek, file_of}
use bitcoinstats.BlockFiles.Scan.{add_header}
use bitcoinstats.BlockFiles.Scan.{count_block, scan_block_chain}
use bitcoinstats.BlockFiles.Frames.{frame_bytes, length-frame_bytes, scanned, IsBlockData, Next}
use bitcoinstats.BlockFiles.Frames.{file_of-put_file, read_block_header-frame}
use bitcoinstats.BlockFiles.Scanning.{scan_all}
use bitcoinstats.Sha256.{compute_sha256}
use bitcoinstats.BlockFiles.Headers.{collect, IsFound, collect-IsFound}
use bitcoinstats.BlockFiles.Ends.{read_block_header-Ended}

-- Blocks one behind the other, as they stand in a file.
abbrev pub frames : List (List ℕ) → List ℕ
frames [] = []
frames (b ∷ bs) = frame_bytes b ++ frames bs

-- The current file stands at these blocks, which go to its end, and no file follows it.
pub record AtBlocks (files : ℕ → Option (List ℕ)) (s : Scanner) (blocks : List (List ℕ))
    : Type 0 where
  pub inside : s.block_index < length s.block_data_files
  pub last_file : files (length s.block_data_files) ≡ none
  pub stands : drop (file_of s).position (file_of s).contents ≡ frames blocks
  pub not_behind : (file_of s).position + length (frames blocks) ≤ length (file_of s).contents
  pub place_fits : (file_of s).position + length (frames blocks) < 2 ^ 32
  pub blocks_fit : All IsBlockData blocks

-- A block was counted.
abbrev one_more : Scanner → Scanner
one_more s = record s { scan_count = u32 (s.scan_count + 1) }

scanned-file_of :
    (s : Scanner) (b : List ℕ)
    → s.block_index < length s.block_data_files
    → file_of (one_more (scanned s b)) ≡ fseek ((file_of s).position + 8 + length b) (file_of s)
unfolding scanned add_header
scanned-file_of s b inside =
    file_of-put_file s (fseek ((file_of s).position + 8 + length b) (file_of s)) inside

scanned-AtBlocks :
    (files : ℕ → Option (List ℕ)) (s : Scanner) (b : List ℕ) (bs : List (List ℕ))
    → AtBlocks files s (b ∷ bs)
    → AtBlocks files (one_more (scanned s b)) bs
unfolding scanned add_header
scanned-AtBlocks files s b bs w =
    let f = file_of s in
    let f' = fseek (f.position + 8 + length b) f in
    let e = scanned-file_of s b w.inside in
    let size = length-set s.block_data_files s.block_index f' in
    let sum = length-append (frame_bytes b) (frames bs) in
    let one = length-frame_bytes b in
    let behind : drop (f.position + 8 + length b) f.contents ≡ frames bs =
      ap (λ (k : ℕ). drop k f.contents) (omega (arith, one))
      ∙ drop-drop f.position (length (frame_bytes b)) f.contents
      ∙ ap (λ (t : List ℕ). drop (length (frame_bytes b)) t) w.stands
      ∙ drop-append_left (frame_bytes b) (frames bs) in
    record {
      inside = omega (arith, w.inside, size);
      last_file = ap files size ∙ w.last_file;
      stands = ap (λ (g : File). drop g.position g.contents) e ∙ behind;
      not_behind =
          subst (λ (g : File). g.position + length (frames bs) ≤ length g.contents) (sym e)
            (omega (arith, w.not_behind, sum, one));
      place_fits =
          subst (λ (g : File). g.position + length (frames bs) < 2 ^ 32) (sym e)
            (omega (arith, w.place_fits, sum, one));
      blocks_fit = w.blocks_fit.1;
    }

scanned-count_block :
    (max_blocks last : ℕ) (s : Scanner) (b : List ℕ)
    → s.scan_count < max_blocks
    → count_block max_blocks last (ok (true, scanned s b))
      ≡ ok (false, (s.scan_count, one_more (scanned s b)))
unfolding count_block scanned add_header
scanned-count_block max_blocks last s b h = rw (lt→ltb _ _ h) refl

scanned-scan_count :
    (s : Scanner) (b : List ℕ)
    → s.scan_count + 1 < 2 ^ 32
    → (one_more (scanned s b)).scan_count ≡ s.scan_count + 1
unfolding scanned add_header
scanned-scan_count s b h = omega (arith, h)

scanned-collect :
    (s : Scanner) (b : List ℕ) (bs : List (List ℕ))
    → s.block_index < length s.block_data_files
    → collect s.block_index
        (file_of (one_more (scanned s b))).position
        bs
        (scanned s b).block_header_set
      ≡ collect s.block_index (file_of s).position (b ∷ bs) s.block_header_set
unfolding scanned add_header
scanned-collect s b bs inside =
    ap (λ (g : File). collect s.block_index g.position bs (scanned s b).block_header_set)
      (scanned-file_of s b inside)

-- What the loop of a client returns after a file of blocks.
pub record Collected (s : Scanner) (blocks : List (List ℕ)) (r : Option (Outcome (ℕ × Scanner)))
    : Type 0 where
  pub last : ℕ
  pub after : Scanner
  pub returns : r ≡ some (ok (last, after))
  pub headers :
      after.block_header_set ≡ collect s.block_index (file_of s).position blocks s.block_header_set
  pub found :
      All
        (λ (b : List ℕ).
          IsFound after.block_header_set (compute_sha256 (compute_sha256 (take 80 b))))
        blocks
  pub counted : after.scan_count ≡ s.scan_count + length blocks

-- Where the current file goes on with blocks of 80 bytes or more, below the limit of a block, up to
-- its end, no file follows it, and the limit of blocks is not passed, the scan ends after one call
-- for each block and one more. The set is then the one before with the header of every block put
-- into it, in order, with its place; the double hash of every block is found in it, and every block
-- was counted. Places and the limit are below 2 ^ 32.
pub scan_all-Collected :
    (files : ℕ → Option (List ℕ)) (ndebug : Bool) (max_blocks last : ℕ) (s : Scanner)
    (blocks : List (List ℕ))
    → AtBlocks files s blocks
    → s.scan_count + length blocks ≤ max_blocks
    → max_blocks < 2 ^ 32
    → Collected s blocks (scan_all files ndebug max_blocks (suc (length blocks)) last s)
unfolding scan_all scan_block_chain count_block scanned add_header
scan_all-Collected files ndebug max_blocks last s [] w room fits =
    let size : length (drop (file_of s).position (file_of s).contents) ≡ 0 =
      ap (λ (t : List ℕ). length t) w.stands in
    let at_end : length (file_of s).contents ≤ (file_of s).position =
      omega (arith, size, length-drop (file_of s).position (file_of s).contents) in
    let ended = read_block_header-Ended files ndebug s w.inside w.last_file at_end in
    record {
      last = last;
      after = ended.after;
      returns = rw (ended.returns, scan_all) refl;
      headers = ended.same_headers;
      found = tt;
      counted = omega (arith, ended.same_count);
    }
scan_all-Collected files ndebug max_blocks last s (b ∷ bs) w room fits =
    let f = file_of s in
    let t = one_more (scanned s b) in
    let sum = length-append (frame_bytes b) (frames bs) in
    let one = length-frame_bytes b in
    let here : Next f (frame_bytes b) = record {
      rest = frames bs;
      stands = w.stands;
      inside = omega (arith, w.not_behind, sum);
    } in
    let place : f.position + 8 + length b < 2 ^ 32 = omega (arith, w.place_fits, sum, one) in
    let found = read_block_header-frame files ndebug s b w.inside w.blocks_fit.0 place here in
    let scans : scan_block_chain files ndebug max_blocks last s ≡ ok (false, (s.scan_count, t)) =
      ap (count_block max_blocks last) found
      ∙ scanned-count_block max_blocks last s b (omega (arith, room)) in
    let next : t.scan_count ≡ s.scan_count + 1 =
      scanned-scan_count s b (omega (arith, room, fits)) in
    let later =
      scan_all-Collected files ndebug max_blocks s.scan_count t bs (scanned-AtBlocks files s b bs w)
        (omega (arith, next, room)) fits in
    let same = later.headers ∙ scanned-collect s b bs w.inside in
    record {
      last = later.last;
      after = later.after;
      returns = rw (scans, scan_all) later.returns;
      headers = same;
      found =
          subst
            (λ (hs : List BlockHeader).
              All (λ (x : List ℕ). IsFound hs (compute_sha256 (compute_sha256 (take 80 x))))
                (b ∷ bs))
            (sym same) (collect-IsFound s.block_index f.position (b ∷ bs) s.block_header_set);
      counted = omega (arith, later.counted, next);
    }
