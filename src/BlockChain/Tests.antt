-- ===== src/BlockChain/Tests.antt =====
-- The theorems on src/BlockChain.cpp at concrete inputs, and runs of the script classification.
use bitcoinstats.Common.{ℕ, ◌%◌, ◌≡◌, refl, arith, false, true}
use bitcoinstats.Common.{List, [], ◌∷◌, ◌++◌, length, replicate}
use bitcoinstats.BlockChain.Stream.{ok, Reader, read_variable_length_integer}
use bitcoinstats.BlockChain.Script.{KeyType, script_keys, is_null, first_key, classify_script}
use bitcoinstats.BlockChain.Script.{full_key_script, script_chain, multi_sig, multi_sig_keys}
use bitcoinstats.BlockChain.Script.{with_fallback}
use bitcoinstats.BlockChain.Transaction.{read_input, read_output, read_transaction}
use bitcoinstats.BlockChain.Transaction.{process_block_data}
use bitcoinstats.BlockChain.Format.{input_bytes}
use bitcoinstats.BlockChain.Format.{output_bytes, transaction_bytes, block_bytes, compact_size}
use bitcoinstats.BlockChain.Samples.{an_input, an_output, a_transaction, a_block}
use bitcoinstats.BlockChain.Samples.{an_input-IsWireInput, an_output-IsWireOutput}
use bitcoinstats.BlockChain.Samples.{a_transaction-IsWireTransaction, a_block-IsWireBlock}
use bitcoinstats.BlockChain.Reads.{advance, read_variable_length_integer-Ahead}
use bitcoinstats.BlockChain.Reads.{wide_integer_truncated}
use bitcoinstats.BlockChain.Pointers.{IsSafe, script_keys-IsSafe, script_keys-found}
use bitcoinstats.BlockChain.Inputs.{input_of, read_input-Ahead}
use bitcoinstats.BlockChain.Outputs.{Decoded, read_output-Ahead}
use bitcoinstats.BlockChain.Decode.{Transcribed, read_transaction-Transcribed}
use bitcoinstats.BlockChain.Blocks.{start, BlockRead, process_block_data-BlockRead}

-- OP_2 <key> <key> OP_2 OP_CHECKMULTISIG
abbrev two_keys : List ℕ
two_keys = 0x52 ∷ 0x21 ∷ 2 ∷ replicate 32 7 ++ 0x21 ∷ 3 ∷ replicate 32 7 ++ 0x52 ∷ 0xae ∷ []

two_keys_found : (script_keys two_keys).key_type ≡ KeyType.multisig
unfolding script_keys classify_script full_key_script script_chain multi_sig multi_sig_keys
    with_fallback
two_keys_found = refl

-- A reader at the start of some bytes, with 65 bytes behind them.
abbrev reader_of : List ℕ → Reader
reader_of bytes = record {
  memory = bytes ++ replicate 65 0;
  block_end = length bytes;
  block_read = 0;
  block_reward = 0;
  total_input_count = 0;
  total_output_count = 0;
  is_warning = false;
  report_transaction_hash = false;
}

process_block_data_example :
    BlockRead false [] [] 0 0 8 a_block 0
      (start (block_bytes a_block ++ replicate 65 0) (length (block_bytes a_block)) (reader_of []))
      (process_block_data false [] [] 0 0 8
        (block_bytes a_block ++ replicate 65 0)
        (length (block_bytes a_block))
        0
        (reader_of []))
unfolding compact_size
process_block_data_example =
    process_block_data-BlockRead false [] [] 0 0 8 (reader_of []) a_block 0 (replicate 65 0)
      a_block-IsWireBlock (omega arith) (omega arith) (omega arith)

read_transaction_example :
    Transcribed false [] [] 0 0 8 a_transaction 0
      (reader_of (transaction_bytes a_transaction))
      (read_transaction false [] [] 0 0 8 0 (reader_of (transaction_bytes a_transaction)))
unfolding compact_size
read_transaction_example =
    read_transaction-Transcribed false [] [] 0 0 8 a_transaction 0 a_transaction-IsWireTransaction
      (omega arith) (omega arith)
      (record { rest = replicate 65 0; stands = refl; room = omega arith }) (omega arith)

read_output_example :
    Decoded false [] [] 0 0 8 an_output
      (reader_of (output_bytes an_output))
      (read_output false [] [] 0 0 8 (reader_of (output_bytes an_output)))
unfolding compact_size
read_output_example =
    read_output-Ahead false [] [] 0 0 8 an_output an_output-IsWireOutput
      (record { rest = replicate 65 0; stands = refl; room = omega arith }) (omega arith)

read_input_example :
    read_input false [] [] 0 0 8 (reader_of (input_bytes an_input))
    ≡ ok (
      input_of an_input,
      advance (reader_of (input_bytes an_input)) (length (input_bytes an_input)),
    )
unfolding compact_size
read_input_example =
    read_input-Ahead false [] [] 0 0 8 an_input an_input-IsWireInput
      (record { rest = replicate 65 0; stands = refl; room = omega arith })

script_keys-IsSafe_example : IsSafe (length two_keys) (script_keys two_keys)
script_keys-IsSafe_example = script_keys-IsSafe two_keys

script_keys-found_example : is_null (first_key (script_keys two_keys).public_key) ≡ false
script_keys-found_example = script_keys-found two_keys

variable_length_example :
    read_variable_length_integer true (reader_of (compact_size 300))
    ≡ ok (300, advance (reader_of (compact_size 300)) (length (compact_size 300)))
unfolding compact_size
variable_length_example =
    read_variable_length_integer-Ahead true 300 (omega arith)
      (record { rest = replicate 65 0; stands = refl; room = omega arith })

wide_integer_example :
    read_variable_length_integer true (reader_of (compact_size 0x12345))
    ≡ ok (0x12345 % 0x10000, advance (advance (reader_of (compact_size 0x12345)) 1) 2)
unfolding compact_size
wide_integer_example =
    wide_integer_truncated true 0x12345 (omega arith) (omega arith)
      (record { rest = replicate 65 0; stands = refl; room = omega arith })
