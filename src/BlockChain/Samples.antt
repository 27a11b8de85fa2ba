-- ===== src/BlockChain/Samples.antt =====
-- A block with one transaction, for the tests on src/BlockChain.cpp.
use bitcoinstats.Common.{ℕ, refl, arith}
use bitcoinstats.Common.{List, [], ◌∷◌, ◌++◌, replicate}
use bitcoinstats.BlockChain.Format.{WireInput, WireOutput, WireTransaction, WireBlock}
use bitcoinstats.BlockChain.Format.{IsWireInput, IsWireOutput, IsWireTransaction, IsWireBlock}

-- OP_DUP OP_HASH160 20 <hash> OP_EQUALVERIFY OP_CHECKSIG
abbrev pub pay_to_hash : List ℕ
pay_to_hash = 0x76 ∷ 0xa9 ∷ 20 ∷ replicate 20 7 ++ 0x88 ∷ 0xac ∷ []

abbrev pub an_input : WireInput
an_input = record { hash = replicate 32 1; index = 0; script = 1 ∷ 2 ∷ []; sequence = 0xffffffff }

abbrev pub an_output : WireOutput
an_output = record { value = 5000000000; script = pay_to_hash }

abbrev pub a_transaction : WireTransaction
a_transaction = record {
  version = 1;
  inputs = an_input ∷ [];
  outputs = an_output ∷ [];
  lock_time = 0;
}

abbrev pub a_block : WireBlock
a_block = record {
  version = 1;
  previous = replicate 32 2;
  merkle_root = replicate 32 3;
  time = 1231006505;
  bits = 0x1d00ffff;
  nonce = 2083236893;
  transactions = a_transaction ∷ [];
}

pub an_input-IsWireInput : IsWireInput an_input
an_input-IsWireInput = record {
  hash_size = refl;
  index_fits = omega arith;
  script_fits = omega arith;
  sequence_fits = omega arith;
}

pub an_output-IsWireOutput : IsWireOutput an_output
an_output-IsWireOutput = record { value_fits = omega arith; script_fits = omega arith }

pub a_transaction-IsWireTransaction : IsWireTransaction a_transaction
a_transaction-IsWireTransaction = record {
  version_fits = omega arith;
  lock_time_fits = omega arith;
  inputs_fit = (an_input-IsWireInput, tt);
  outputs_fit = (an_output-IsWireOutput, tt);
  some_input = omega arith;
  few_inputs = omega arith;
}

pub a_block-IsWireBlock : IsWireBlock a_block
a_block-IsWireBlock = record {
  version_fits = omega arith;
  previous_size = refl;
  merkle_root_size = refl;
  time_fits = omega arith;
  bits_fits = omega arith;
  nonce_fits = omega arith;
  few_transactions = omega arith;
  transactions_fit = (a_transaction-IsWireTransaction, tt);
}
