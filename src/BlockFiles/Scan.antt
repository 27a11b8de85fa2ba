-- ===== src/BlockFiles/Scan.antt =====
-- The scan of `BlockChainImpl` in src/BlockChain.cpp, that finds the headers of the blocks.
-- There are fewer than 2 ^ 32 files. Log messages are left out.
use bitcoinstats.Common.{ℕ, ◌+◌, ◌-◌, ◌^◌, ltb, ◌==◌, if◌then◌else◌, min, replicate}
use bitcoinstats.Common.{Bool, true, false, ◌||◌, ◌&&◌, Option, none, some, u32}
use bitcoinstats.Common.{List, [], ◌∷◌, ◌++◌, length, take, drop}
use bitcoinstats.Sha256.{compute_sha256}
use bitcoinstats.BlockChain.Stream.{Outcome, ok, exited, fault}
use bitcoinstats.BlockFiles.{magic_id, max_block_size, fread, fseek, fread_u32, file_of, put_file}
use bitcoinstats.BlockFiles.{File, BlockHeader, Scanner, insert_header, is_magic, is_read}
use bitcoinstats.BlockFiles.{Search, found_at, missing, outside, find_magic}

-- The parameter is what fopen finds in the root directory: the contents of each file by its number.
module _ (files : ℕ → Option (List ℕ)) where
  unfoldable pub open_block : Scanner → Bool × Scanner
  open_block s =
      let n = length s.block_data_files in
      elim (files n) [
        | none ↦ (false, record s { block_index = n })
        | some c ↦ (
          true,
          record s {
            block_index = n;
            file_length = u32 (length c);
            block_data_files = s.block_data_files ++ record { contents = c; position = 0 } ∷ [];
          },
        )
      ]

  -- The next file, and the read of its first four bytes, when it can be opened.
  unfoldable pub magic_of_opened : Scanner → Option ℕ × Scanner
  magic_of_opened s =
      let opened = open_block s in
      let next = fread_u32 (file_of opened.1) in
      if opened.0 then (next.0, put_file opened.1 next.1) else (none, opened.1)

  -- The first part of `readBlockHeader`, from its first read on: the magic id at the place in the
  -- file, or at the start of the next file where there are no four bytes; and `lastBlockRead`.
  unfoldable pub first_magic : Scanner → Option ℕ × File → Option ℕ × (ℕ × Scanner)
  first_magic s (some m, f) = (some m, (u32 (file_of s).position, put_file s f))
  first_magic s (none, f) =
      let next = magic_of_opened (put_file s f) in
      (
        next.0,
        (
          if is_read next.0 then u32 (file_of next.1).position else u32 (file_of s).position,
          next.1,
        ),
      )

  -- The second part, once the search for the next magic id from `last` on has ended.
  unfoldable pub resume_at : Bool → ℕ → Scanner → Search → Outcome (Bool × Scanner)
  resume_at ndebug last s (found_at i) =
      let r = fread_u32 (fseek (u32 (last + i)) (file_of s)) in
      if ndebug || is_magic r.0 then ok (is_read r.0, put_file s r.1) else fault
  resume_at ndebug last s missing = let next = magic_of_opened s in ok (is_magic next.0, next.1)
  resume_at ndebug last s outside = fault

  -- Behind what was read the buffer holds zeros, of which a look at four bytes reaches three.
  unfoldable pub resume : Bool → ℕ → Scanner → Outcome (Bool × Scanner)
  resume ndebug last s =
      let f = file_of s in
      let count = min max_block_size (length f.contents - last) in
      let temp = take max_block_size (take count (drop last f.contents) ++ 0 ∷ 0 ∷ 0 ∷ []) in
      resume_at ndebug last (put_file s (fseek (last + count) f)) (find_magic count 0 temp)

-- The header of a block from its first 80 bytes.
unfoldable pub header_of : ℕ → ℕ → ℕ → List ℕ → BlockHeader
header_of file offset n prefix = record {
  hash = compute_sha256 (compute_sha256 prefix);
  file_index = file;
  file_offset = offset;
  block_length = n;
  previous_block_hash = take 32 (drop 4 prefix);
}

-- The last block header, which is also put into the set.
unfoldable pub add_header : BlockHeader → Scanner → Scanner
add_header header s = record s {
  last_block_header = header;
  block_header_set = insert_header header s.block_header_set;
}

-- The third part: the block behind the magic id. A block of less than 80 bytes wraps around in
-- `advance`, and comes out right in the sum.
unfoldable pub take_prefix : ℕ → ℕ → Scanner → Option (List ℕ) × File → Bool × Scanner
take_prefix n offset s (none, f) = (false, put_file s f)
take_prefix n offset s (some prefix, f) =
    let advance = u32 (n + 2 ^ 32 - 80) in
    let f' = fseek (u32 (u32 f.position + advance)) f in
    (true, add_header (header_of s.block_index offset n prefix) (put_file s f'))

unfoldable pub take_length : Bool → Scanner → Option ℕ × File → Outcome (Bool × Scanner)
take_length ndebug s (none, f) = ok (false, put_file s f)
take_length ndebug s (some n, f) =
    if ltb n max_block_size
    then ok (take_prefix n (u32 f.position) s (fread 80 f))
    else if ndebug
    then ok (false, put_file s f)
    else fault

unfoldable pub read_found_block : Bool → Scanner → Outcome (Bool × Scanner)
read_found_block ndebug s = take_length ndebug s (fread_u32 (file_of s))

-- The block is read when its magic id was found.
unfoldable pub read_if_found : Bool → Outcome (Bool × Scanner) → Outcome (Bool × Scanner)
read_if_found ndebug exited = exited
read_if_found ndebug fault = fault
read_if_found ndebug (ok (true, s)) = read_found_block ndebug s
read_if_found ndebug (ok (false, s)) = ok (false, s)

-- Whether the magic id is found, by the first part or else by the second.
unfoldable pub look_for_block :
    (ℕ → Option (List ℕ)) → Bool → Option ℕ × (ℕ × Scanner) → Outcome (Bool × Scanner)
look_for_block files ndebug (none, (last, s)) = ok (false, s)
look_for_block files ndebug (some m, (last, s)) =
    if m == magic_id then ok (true, s) else resume files ndebug last s

-- readBlockHeader
unfoldable pub read_block_header : (ℕ → Option (List ℕ)) → Bool → Scanner → Outcome (Bool × Scanner)
read_block_header files ndebug s =
    if ltb s.block_index (length s.block_data_files)
    then read_if_found ndebug
        (look_for_block files ndebug (first_magic files s (fread_u32 (file_of s))))
    else ok (false, s)

-- `if (readBlockHeader() && mScanCount < mMaxBlocks)` in `scanBlockChain`.
unfoldable pub count_block : ℕ → ℕ → Outcome (Bool × Scanner) → Outcome (Bool × (ℕ × Scanner))
count_block max_blocks last exited = exited
count_block max_blocks last fault = fault
count_block max_blocks last (ok (read, s)) =
    if read && ltb s.scan_count max_blocks
    then ok (false, (s.scan_count, record s { scan_count = u32 (s.scan_count + 1) }))
    else ok (true, (last, s))

-- scanBlockChain: whether the scan is complete, `lastBlockRead`, and the members.
unfoldable pub scan_block_chain :
    (ℕ → Option (List ℕ)) → Bool → ℕ → ℕ → Scanner → Outcome (Bool × (ℕ × Scanner))
scan_block_chain files ndebug max_blocks last s =
    count_block max_blocks last (read_block_header files ndebug s)

-- The constructor, which opens the first file. The header that `mLastBlockHeader` starts as has
-- length 0 and the hash 0; its previous hash is not set.
unfoldable pub create : (ℕ → Option (List ℕ)) → List ℕ → Scanner
create files unset =
    (open_block files (record {
      block_data_files = [];
      block_index = 0;
      file_length = 0;
      scan_count = 0;
      last_block_header = record {
        hash = replicate 32 0;
        file_index = 0;
        file_offset = 0;
        block_length = 0;
        previous_block_hash = unset;
      };
      block_header_set = [];
    })).1
