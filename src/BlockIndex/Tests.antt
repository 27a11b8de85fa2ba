-- ===== src/BlockIndex/Tests.antt =====
-- The theorems on the block index at concrete inputs.
use bitcoinstats.Common.{◌≡◌, refl, arith, false, some, [], ◌∷◌, ◌++◌}
use bitcoinstats.Common.{length, replicate}
use bitcoinstats.BlockIndex.{CBlockIndex, construct, has, read_block_index}
use bitcoinstats.BlockIndex.Varint128.{read_varint128, write_varint128, shift_in, read_from}
use bitcoinstats.BlockIndex.Varint128.{read_varint128-write_varint128}
use bitcoinstats.BlockIndex.Canonical.{write_varint128-read_varint128}
use bitcoinstats.BlockIndex.Record.{IsStorable, index_bytes, read_block_index-index_bytes}

abbrev genesis : CBlockIndex
genesis = record {
  version_number = 229900;
  block_height = 0;
  block_status = 11;
  transaction_count = 1;
  file_index = 0;
  file_offset = 8;
  undo_offset = 0;
  block_version = 1;
  hash_previous = replicate 32 0;
  hash_merkle_root = replicate 32 59;
  time = 1231006505;
  bits = 0x1d00ffff;
  nonce = 2083236893;
  block_hash = replicate 32 111;
}

genesis-IsStorable : IsStorable genesis
unfolding has
genesis-IsStorable = record {
  version_fits = omega arith;
  height_fits = omega arith;
  status_fits = omega arith;
  count_fits = omega arith;
  file_fits = omega arith;
  offset_fits = omega arith;
  undo_fits = omega arith;
  file_flag = λ e. refl;
  offset_flag = λ e. cc;
  undo_flag = λ e. refl;
  block_version_fits = omega arith;
  previous_length = refl;
  merkle_length = refl;
  time_fits = omega arith;
  bits_fits = omega arith;
  nonce_fits = omega arith;
  hash_length = refl;
}

read_varint128_example : read_varint128 (write_varint128 70000 ++ 9 ∷ []) ≡ some (70000, 9 ∷ [])
read_varint128_example = read_varint128-write_varint128 70000 (9 ∷ []) (omega arith)

write_varint128_example : write_varint128 300 ++ 5 ∷ [] ≡ 0x81 ∷ 0x2c ∷ 5 ∷ []
unfolding read_varint128 read_from shift_in
write_varint128_example =
    write_varint128-read_varint128 (0x81 ∷ 0x2c ∷ 5 ∷ []) 300 (5 ∷ [])
      (omega arith, (omega arith, (omega arith, tt))) (omega arith) refl

read_block_index_example :
    read_block_index false
      (construct (replicate 32 111))
      (index_bytes genesis ++ 1 ∷ [])
      (length (index_bytes genesis))
    ≡ some (genesis, 1 ∷ [])
read_block_index_example = read_block_index-index_bytes false genesis (1 ∷ []) genesis-IsStorable
