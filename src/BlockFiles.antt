-- ===== src/BlockFiles.antt =====
-- The data of `BlockChainImpl` of src/BlockChain.cpp: the files blk?????.dat, the headers of blocks
-- that the scan finds in them, and the reads from a file.
use bitcoinstats.Common.{ℕ, zero, suc, ◌+◌, ◌-◌, ◌*◌, ◌^◌, ltb, leb, ◌==◌, if◌then◌else◌}
use bitcoinstats.Common.{Bool, true, false, ◌||◌, ◌&&◌, not, Option, none, some, u32, le_value}
use bitcoinstats.Common.{List, [], ◌∷◌, ◌++◌, length, take, drop, set, get_or, replicate, min, max}
use mathlib.Core.Option.{map}
use bitcoinstats.Common.Equality.{same_bytes}
pub mod Scan
pub mod Frames
pub mod Resuming
pub mod Skipping
mod Scanning
mod Headers
mod Found
mod Ends
mod Collecting
mod Tests

abbrev pub magic_id : ℕ
magic_id = 0xD9B4BEF9

abbrev pub max_block_size : ℕ
max_block_size = 1024 * 1024 * 32

-- A FILE that is open for reading.
pub record File : Type 0 where
  pub contents : List ℕ
  pub position : ℕ

-- fread of one item of `n` bytes. A read that meets the end of the file takes what there is.
unfoldable pub fread : ℕ → File → Option (List ℕ) × File
fread n f =
    if leb (f.position + n) (length f.contents)
    then (some (take n (drop f.position f.contents)), record f { position = f.position + n })
    else (none, record f { position = max f.position (length f.contents) })

-- fseek(..., SEEK_SET)
abbrev pub fseek : ℕ → File → File
fseek n f = record f { position = n }

-- BlockHeader: the hash is that of its base class Hash256.
pub record BlockHeader : Type 0 where
  pub hash : List ℕ
  pub file_index : ℕ
  pub file_offset : ℕ
  pub block_length : ℕ
  pub previous_block_hash : List ℕ

-- The members of `BlockChainImpl` that the scan uses.
pub record Scanner : Type 0 where
  pub block_data_files : List File
  pub block_index : ℕ
  pub file_length : ℕ
  pub scan_count : ℕ
  pub last_block_header : BlockHeader
  pub block_header_set : List BlockHeader

-- `mBlockHeaderSet.find`: headers are compared by their hash.
unfoldable pub find_header : List ℕ → List BlockHeader → Option BlockHeader
find_header hash [] = none
find_header hash (h ∷ hs) = if same_bytes h.hash hash then some h else find_header hash hs

-- `mBlockHeaderSet.insert`, which keeps a header that is there with the same hash.
unfoldable pub insert_header : BlockHeader → List BlockHeader → List BlockHeader
insert_header h hs = elim (find_header h.hash hs) [ none ↦ h ∷ hs | some old ↦ hs ]

-- Where the search for the next magic id ends: at an index, nowhere, or behind the buffer.
pub data Search : Type 0 where
  found_at : ℕ → Search
  missing outside : Search

-- The loop over `temp`, from the index `i` on, `count` times.
unfoldable pub find_magic : ℕ → ℕ → List ℕ → Search
find_magic zero i temp = missing
find_magic (suc count) i temp =
    if length (take 4 temp) == 4
    then (if le_value (take 4 temp) == magic_id
        then found_at i
        else find_magic count (i + 1) (drop 1 temp))
    else outside

-- fread of a 32-bit number.
unfoldable pub fread_u32 : File → Option ℕ × File
fread_u32 f = let r = fread 4 f in (map le_value r.0, r.1)

-- The file that is being scanned, and the same file after it was read.
abbrev pub file_of : Scanner → File
file_of s = get_or s.block_data_files s.block_index (record { contents = []; position = 0 })

abbrev pub put_file : Scanner → File → Scanner
put_file s f = record s { block_data_files = set s.block_data_files s.block_index f }

-- `r == 1 && magicID == MAGIC_ID`, and `r == 1`.
unfoldable pub is_magic : Option ℕ → Bool
is_magic none = false
is_magic (some m) = m == magic_id

unfoldable pub is_read : Option ℕ → Bool
is_read none = false
is_read (some m) = true
