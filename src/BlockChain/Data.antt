-- ===== src/BlockChain/Data.antt =====
-- The limits of src/BlockChain.cpp, and the records of include/BlockChain.h.
use bitcoinstats.Common.{ℕ, ◌*◌}
use bitcoinstats.Common.{List}
use bitcoinstats.BlockChain.Script.{Keys}

abbrev pub max_reasonable_script_length : ℕ
max_reasonable_script_length = 1024 * 32

-- Spelled 32678 in the source, where the comment says 32768.
abbrev pub max_reasonable_inputs : ℕ
max_reasonable_inputs = 32678

abbrev pub max_reasonable_outputs : ℕ
max_reasonable_outputs = 32768

abbrev pub max_block_inputs : ℕ
max_block_inputs = 32768

abbrev pub max_block_outputs : ℕ
max_block_outputs = 32768

abbrev pub max_block_transaction : ℕ
max_block_transaction = 32768

-- BlockChain::BlockInput
pub record BlockInput : Type 0 where
  pub transaction_hash : List ℕ
  pub transaction_index : ℕ
  pub response_script_length : ℕ
  pub response_script : List ℕ
  pub sequence_number : ℕ

-- BlockChain::BlockOutput
pub record BlockOutput : Type 0 where
  pub value : ℕ
  pub challenge_script_length : ℕ
  pub challenge_script : List ℕ
  pub keys : Keys
  pub addresses : List (List ℕ)

-- BlockChain::BlockTransaction
pub record BlockTransaction : Type 0 where
  pub transaction_version_number : ℕ
  pub inputs : List BlockInput
  pub outputs : List BlockOutput
  pub lock_time : ℕ
  pub transaction_hash : List ℕ
  pub transaction_length : ℕ
  pub file_index : ℕ
  pub file_offset : ℕ
  pub transaction_index : ℕ

-- BlockChain::Block, the fields that stand in the block's data.
pub record Block : Type 0 where
  pub block_format_version : ℕ
  pub previous_block_hash : List ℕ
  pub merkle_root : List ℕ
  pub time_stamp : ℕ
  pub bits : ℕ
  pub nonce : ℕ
  pub transaction_count : ℕ
  pub transactions : List BlockTransaction
