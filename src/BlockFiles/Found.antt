-- ===== src/BlockFiles/Found.antt =====
-- What `readBlockHeader` of src/BlockChain.cpp finds out about a block in a file.
use bitcoinstats.Common.{ℕ, ◌+◌, ◌^◌, ◌<◌, arith, ◌≡◌, refl, ap, ◌∙◌, Bool, true, Option}
use bitcoinstats.Common.{List, length, take, drop}
use bitcoinstats.Common.Lists.{take-take, drop-take}
use bitcoinstats.Sha256.{compute_sha256}
use bitcoinstats.BlockChain.Stream.{Outcome, ok}
use bitcoinstats.BlockFiles.{Scanner, fseek, file_of, insert_header}
use bitcoinstats.BlockFiles.Scan.{header_of, add_header, read_block_header}
use bitcoinstats.BlockFiles.Frames.{Next, IsBlockData, frame_bytes, scanned}
use bitcoinstats.BlockFiles.Frames.{file_of-put_file, read_block_header-frame}
use bitcoinstats.BlockFiles.Headers.{IsFound, insert_header-IsFound}

-- The members after a block was found, field by field.
pub record BlockFound (s : Scanner) (block : List ℕ) (r : Outcome (Bool × Scanner)) : Type 0 where
  pub after : Scanner
  pub returns : r ≡ ok (true, after)
  pub same_hash : after.last_block_header.hash ≡ compute_sha256 (compute_sha256 (take 80 block))
  pub same_previous : after.last_block_header.previous_block_hash ≡ take 32 (drop 4 block)
  pub same_file : after.last_block_header.file_index ≡ s.block_index
  pub same_offset : after.last_block_header.file_offset ≡ (file_of s).position + 8
  pub same_length : after.last_block_header.block_length ≡ length block
  pub grows : after.block_header_set ≡ insert_header after.last_block_header s.block_header_set
  pub is_found : IsFound after.block_header_set (compute_sha256 (compute_sha256 (take 80 block)))
  pub moves : file_of after ≡ fseek ((file_of s).position + 8 + length block) (file_of s)
  pub same_index : after.block_index ≡ s.block_index
  pub same_count : after.scan_count ≡ s.scan_count

-- The previous hash stands behind the four bytes of the version.
previous-take : (block : List ℕ) → take 32 (drop 4 (take 80 block)) ≡ take 32 (drop 4 block)
previous-take block =
    ap (λ (t : List ℕ). take 32 t) (drop-take 4 80 76 block (omega arith))
    ∙ take-take 32 76 (drop 4 block) (omega arith)

-- Where a block stands behind its magic id and its length at the place in the current file, it is
-- found. The last header then has the double hash of its first 80 bytes, the previous hash from its
-- bytes 4 to 35, its file, its place behind the length, and its length. This header is put into the
-- set, in which its hash is found, and the file is moved behind the block. The block has from 80
-- bytes up to below the limit, and the file's place stays below 2 ^ 32.
pub read_block_header-BlockFound :
    (files : ℕ → Option (List ℕ)) (ndebug : Bool) (s : Scanner) (block : List ℕ)
    → s.block_index < length s.block_data_files
    → IsBlockData block
    → (file_of s).position + 8 + length block < 2 ^ 32
    → Next (file_of s) (frame_bytes block)
    → BlockFound s block (read_block_header files ndebug s)
unfolding scanned add_header header_of
read_block_header-BlockFound files ndebug s block inside w fits h = record {
  after = scanned s block;
  returns = read_block_header-frame files ndebug s block inside w fits h;
  same_hash = refl;
  same_previous = previous-take block;
  same_file = refl;
  same_offset = refl;
  same_length = refl;
  grows = refl;
  is_found =
      insert_header-IsFound
        (header_of s.block_index ((file_of s).position + 8) (length block) (take 80 block))
        s.block_header_set;
  moves = file_of-put_file s (fseek ((file_of s).position + 8 + length block) (file_of s)) inside;
  same_index = refl;
  same_count = refl;
}
