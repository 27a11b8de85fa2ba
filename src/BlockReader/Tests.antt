-- ===== src/BlockReader/Tests.antt =====
-- The theorems on `processTransactions`, `readBlock` and `readSingleTransaction` at concrete inputs.
use bitcoinstats.Common.{ℕ, ◌+◌, ◌≡◌, refl, arith, false, inl, inr, List, [], ◌∷◌, ◌++◌}
use bitcoinstats.Common.{length, replicate}
use bitcoinstats.Common.Equality.{same_bytes}
use bitcoinstats.BlockChain.Stream.{ok}
use bitcoinstats.BlockChain.Data.{BlockInput, BlockTransaction, Block}
use bitcoinstats.BlockChain.Format.{block_bytes, compact_size}
use bitcoinstats.BlockChain.Samples.{a_block}
use bitcoinstats.BlockChain.Samples.{a_block-IsWireBlock}
use bitcoinstats.BlockFiles.{BlockHeader}
use bitcoinstats.BlockReader.{FileLocation, Ledger, find_location, location_of}
use bitcoinstats.BlockReader.{insert_transactions, is_located, check_inputs, check_transactions}
use bitcoinstats.BlockReader.{process_transactions}
use bitcoinstats.BlockReader.Ledgers.{Accounts, process_transactions-Accounts}
use bitcoinstats.BlockReader.Ledgers.{process_transactions-AreFunded}
use bitcoinstats.BlockReader.Reading.{BlockChainImpl, read_block}
use bitcoinstats.BlockReader.Loading.{Loaded, read_block-Loaded}

abbrev input : ℕ → ℕ → BlockInput
input hash index = record {
  transaction_hash = hash ∷ [];
  transaction_index = index;
  response_script_length = 0;
  response_script = [];
  sequence_number = 0;
}

abbrev transaction : ℕ → List BlockInput → BlockTransaction
transaction hash inputs = record {
  transaction_version_number = 1;
  inputs = inputs;
  outputs = [];
  lock_time = 0;
  transaction_hash = hash ∷ [];
  transaction_length = 100;
  file_index = 0;
  file_offset = 88;
  transaction_index = hash;
}

-- New coins, a transaction that spends them, and one that spends an output of an earlier block.
abbrev spending_block : Block
spending_block = record {
  block_format_version = 1;
  previous_block_hash = [];
  merkle_root = [];
  time_stamp = 0;
  bits = 0;
  nonce = 0;
  transaction_count = 2;
  transactions =
      transaction 5 (input 0 0xFFFFFFFF ∷ []) ∷ transaction 6 (input 5 0 ∷ input 3 1 ∷ []) ∷ [];
}

abbrev empty_ledger : Ledger
empty_ledger = record {
  total_transaction_count = 1;
  total_input_count = 1;
  total_output_count = 1;
  transaction_set = location_of (transaction 3 []) ∷ [];
}

abbrev spent_ledger : Ledger
spent_ledger = record {
  total_transaction_count = 3;
  total_input_count = 4;
  total_output_count = 1;
  transaction_set =
      location_of (transaction 6 [])
      ∷ location_of (transaction 5 [])
      ∷ location_of (transaction 3 [])
      ∷ [];
}

spending_block_run : process_transactions spending_block empty_ledger ≡ ok spent_ledger
unfolding process_transactions insert_transactions check_transactions check_inputs is_located
    find_location location_of same_bytes
spending_block_run = refl

process_transactions-Accounts_example :
    Accounts spending_block.transactions empty_ledger.transaction_set spent_ledger.transaction_set
process_transactions-Accounts_example =
    process_transactions-Accounts spending_block empty_ledger spent_ledger spending_block_run

funded_example : process_transactions spending_block empty_ledger ≡ ok spent_ledger
unfolding insert_transactions find_location location_of same_bytes
funded_example =
    process_transactions-AreFunded spending_block empty_ledger (omega arith) (omega arith) (
      (inl refl, tt),
      (
        (
          inr (location_of (transaction 5 []), refl, refl),
          (inr (location_of (transaction 3 []), refl, refl), tt),
        ),
        tt,
      ),
    )

abbrev a_header : ℕ → ℕ → BlockHeader
a_header size own = record {
  hash = own ∷ [];
  file_index = 0;
  file_offset = 0;
  block_length = size;
  previous_block_hash = (own + 1) ∷ [];
}

abbrev a_location : ℕ → FileLocation
a_location size = record {
  hash = 9 ∷ [];
  file_index = 0;
  file_offset = 0;
  file_length = size;
  transaction_index = 12;
}

-- Three headers of a chain; the block stands at the start of a file.
abbrev reader_of : List ℕ → ℕ → BlockChainImpl
reader_of contents size = record {
  chain = record {
    scanner = record {
      block_data_files = record { contents = contents; position = 0 } ∷ [];
      block_index = 1;
      file_length = 0;
      scan_count = 0;
      last_block_header = a_header size 5;
      block_header_set = [];
    };
    block_count = 3;
    block_chain_headers = a_header size 7 ∷ a_header size 6 ∷ a_header size 5 ∷ [];
  };
  ledger = record {
    total_transaction_count = 0;
    total_input_count = 0;
    total_output_count = 0;
    transaction_set = a_location size ∷ [];
  };
  transaction_count = 0;
  block_data_buffer = replicate 400 0;
  transaction_block_buffer = replicate 400 0;
  is_warning = false;
  report_transaction_hash = false;
  single_read_block = record {
    block = spending_block;
    block_index = 0;
    block_length = 0;
    file_index = 0;
    file_offset = 0;
    next_block_hash = 4 ∷ [];
    computed_block_hash = [];
    block_reward = 0;
    total_input_count = 0;
    total_output_count = 0;
    warning = false;
  };
}

read_block_example :
    Loaded false [] [] 0 a_block 0
      (a_header (length (block_bytes a_block)) 7)
      (reader_of (block_bytes a_block ++ []) (length (block_bytes a_block)))
      (read_block false [] [] 0 0
        (reader_of (block_bytes a_block ++ []) (length (block_bytes a_block))))
unfolding compact_size
read_block_example =
    read_block-Loaded false [] [] 0 0
      (reader_of (block_bytes a_block ++ []) (length (block_bytes a_block)))
      (a_header (length (block_bytes a_block)) 7)
      (record { contents = block_bytes a_block ++ []; position = 0 }) a_block (omega arith) refl
      refl (record { rest = []; stands = refl; inside = omega arith }) refl (omega arith)
      (record {
        linked = (refl, (refl, (tt, tt)));
        same_count = refl;
        two_blocks = omega arith;
        count_fits = omega arith;
      })
      a_block-IsWireBlock (omega arith) (omega arith)
