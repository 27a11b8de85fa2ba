-- ===== src/HeaderChain.antt =====
-- `buildBlockChain` of src/BlockChain.cpp: from the last header that was scanned back to the first,
-- by the hash of the previous block. Log messages are left out.
use bitcoinstats.Common.{ℕ, zero, suc, ◌+◌, ◌-◌, ◌^◌, ◌==◌, if◌then◌else◌, Option, none, some, u32}
use bitcoinstats.Common.{List, [], ◌∷◌, length, set, replicate}
use bitcoinstats.Common.Options.{◌>>=◌}
use bitcoinstats.BlockFiles.{BlockHeader, Scanner, find_header}
mod Gather
mod Ranks
pub mod Linked
mod Links
mod Tests

-- The members that `buildBlockChain` sets, beside those of the scan.
pub record HeaderChain : Type 0 where
  pub scanner : Scanner
  pub block_count : ℕ
  pub block_chain_headers : List BlockHeader

-- `BlockHeader()`, with which `new BlockHeader[blockCount]` fills the array; what the constructor
-- does not set is given.
abbrev pub new_header : List ℕ → BlockHeader
new_header unset = record {
  hash = replicate 32 0;
  file_index = 0;
  file_offset = 0;
  block_length = 0;
  previous_block_hash = unset;
}

-- The first loop, from `found` on. There is no result where the fuel ends first.
unfoldable pub count_blocks : ℕ → List BlockHeader → Option BlockHeader → ℕ → Option ℕ
count_blocks fuel headers none block_count = some block_count
count_blocks zero headers (some h) block_count = none
count_blocks (suc fuel) headers (some h) block_count =
    count_blocks fuel headers (find_header h.previous_block_hash headers) (u32 (block_count + 1))

-- The second loop, which fills the array from its end.
unfoldable pub gather_headers :
    ℕ → List BlockHeader → Option BlockHeader → ℕ → List BlockHeader → Option (List BlockHeader)
gather_headers fuel headers none index array = some array
gather_headers zero headers (some h) index array = none
gather_headers (suc fuel) headers (some h) index array =
    gather_headers fuel headers (find_header h.previous_block_hash headers)
      (u32 (index + 2 ^ 32 - 1)) (set array index h)

-- Both loops.
unfoldable pub build_headers : ℕ → List ℕ → Scanner → Option (ℕ × List BlockHeader)
build_headers fuel unset s =
    let headers = s.block_header_set in
    let last = find_header s.last_block_header.hash headers in
    do
      n ← count_blocks fuel headers last 0
      array ←
          gather_headers fuel headers last (u32 (n + 2 ^ 32 - 1)) (replicate n (new_header unset))
      some (n, array)

-- buildBlockChain: its return value, and the members. As many steps as there are headers are enough
-- where the headers have no cycle.
unfoldable pub build_block_chain : List ℕ → HeaderChain → Option (ℕ × HeaderChain)
build_block_chain unset c =
    let s = c.scanner in
    if s.scan_count == 0 then some (0, c) else do
      r ← build_headers (suc (length s.block_header_set)) unset s
      some (
        r.0,
        record {
          scanner = record s { scan_count = 0 };
          block_count = r.0;
          block_chain_headers = r.1;
        },
      )
