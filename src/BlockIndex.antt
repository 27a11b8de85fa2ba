-- ===== src/BlockIndex.antt =====
-- include/CBlockIndex.h: the records of the block index of Bitcoin Core.
use bitcoinstats.Common.{ℕ, ◌+◌, ◌-◌, ◌^◌, ◌<◌, ◌≤◌, ◌≡◌, arith, Bool, ◌||◌, true, false, not}
use bitcoinstats.Common.{Option, none, some, List, [], ◌++◌, length, take, drop, replicate}
use bitcoinstats.Common.{bit_and, leb, ◌==◌, if◌then◌else◌, le_value, le_bytes, IsBytes}
use bitcoinstats.Common.Options.{◌>>=◌}
pub mod Varint128
mod Canonical
mod Record
mod Tests
use Varint128.{read_varint128, write_varint128}

-- The hashes are lists of 32 bytes; `block_version` holds the 32 bits of the signed number.
pub record CBlockIndex : Type 0 where
  pub version_number : ℕ
  pub block_height : ℕ
  pub block_status : ℕ
  pub transaction_count : ℕ
  pub file_index : ℕ
  pub file_offset : ℕ
  pub undo_offset : ℕ
  pub block_version : ℕ
  pub hash_previous : List ℕ
  pub hash_merkle_root : List ℕ
  pub time : ℕ
  pub bits : ℕ
  pub nonce : ℕ
  pub block_hash : List ℕ

abbrev pub block_have_data : ℕ
block_have_data = 8

abbrev pub block_have_undo : ℕ
block_have_undo = 16

abbrev pub block_have_mask : ℕ
block_have_mask = 24

-- The constructor, from the key of the database behind its letter 'b'.
unfoldable pub construct : List ℕ → CBlockIndex
construct block_hash = record {
  version_number = 0;
  block_height = 0;
  block_status = 0;
  transaction_count = 0;
  file_index = 0;
  file_offset = 0;
  undo_offset = 0;
  block_version = 0;
  hash_previous = replicate 32 0;
  hash_merkle_root = replicate 32 0;
  time = 0;
  bits = 0;
  nonce = 0;
  block_hash = take 32 block_hash;
}

-- A flag of the status: `mBlockStatus & mask`, as a condition.
unfoldable pub has : ℕ → ℕ → Bool
has status mask = not (bit_and status mask == 0)

-- A field that is read under a flag, and keeps its value otherwise.
unfoldable pub read_field_if : Bool → ℕ → List ℕ → Option (ℕ × List ℕ)
read_field_if flag old bytes = if flag then read_varint128 bytes else some (old, bytes)

-- The `n` bytes at the pointer `scan`, and those behind them.
unfoldable pub scan_bytes : ℕ → List ℕ → Option (List ℕ × List ℕ)
scan_bytes n bytes = if leb n (length bytes) then some (take n bytes, drop n bytes) else none

unfoldable pub scan_u32 : List ℕ → Option (ℕ × List ℕ)
scan_u32 bytes = scan_bytes 4 bytes >>= λ b. some (le_value b.0, b.1)

-- The fields of the header of the block, which stand at their full size.
unfoldable pub read_header : CBlockIndex → List ℕ → Option (CBlockIndex × List ℕ)
read_header index bytes = do
  version ← scan_u32 bytes
  previous ← scan_bytes 32 version.1
  merkle ← scan_bytes 32 previous.1
  time ← scan_u32 merkle.1
  bits ← scan_u32 time.1
  nonce ← scan_u32 bits.1
  some (
    record index {
      block_version = version.0;
      hash_previous = previous.0;
      hash_merkle_root = merkle.0;
      time = time.0;
      bits = bits.0;
      nonce = nonce.0;
    },
    nonce.1,
  )

-- The fields in front of the header.
unfoldable pub read_fields : CBlockIndex → List ℕ → Option (CBlockIndex × List ℕ)
read_fields index bytes = do
  version ← read_varint128 bytes
  height ← read_varint128 version.1
  status ← read_varint128 height.1
  count ← read_varint128 status.1
  file ← read_field_if (has status.0 block_have_mask) index.file_index count.1
  offset ← read_field_if (has status.0 block_have_data) index.file_offset file.1
  undo ← read_field_if (has status.0 block_have_undo) index.undo_offset offset.1
  some (
    record index {
      version_number = version.0;
      block_height = height.0;
      block_status = status.0;
      transaction_count = count.0;
      file_index = file.0;
      file_offset = offset.0;
      undo_offset = undo.0;
    },
    undo.1,
  )

-- There is no result where the memory ends before the record, and where the assertion fails, which
-- is checked unless the build defines NDEBUG.
unfoldable pub read_block_index : Bool → CBlockIndex → List ℕ → ℕ → Option (CBlockIndex × List ℕ)
read_block_index ndebug index bytes expected_size = do
  fields ← read_fields index bytes
  header ← read_header fields.0 fields.1
  let size = length bytes - length header.1 in
      if ndebug || (size == expected_size) then some header else none
