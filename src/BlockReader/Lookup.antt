-- ===== src/BlockReader/Lookup.antt =====
-- `readSingleTransaction` of src/BlockChain.cpp gives back the transaction of a hash.
use bitcoinstats.Common.{ℕ}
use bitcoinstats.Common.{◌≡◌, Bool, Option, some}
use bitcoinstats.Common.{List}
use bitcoinstats.Common.{map}
use bitcoinstats.BlockChain.Stream.{Outcome, ok, Reader}
use bitcoinstats.BlockChain.Data.{BlockOutput, BlockTransaction}
use bitcoinstats.BlockChain.Format.{WireTransaction, transaction_bytes}
use bitcoinstats.BlockChain.Inputs.{input_of}
use bitcoinstats.BlockChain.Outputs.{AreOutputsOf}
use bitcoinstats.BlockChain.Ending.{transaction_of}
use bitcoinstats.BlockReader.{FileLocation}
use bitcoinstats.BlockReader.Reading.{BlockChainImpl}
use bitcoinstats.BlockReader.Reading.{located}

module _ (ndebug : Bool) (dummy zero_key : List ℕ) (stack_byte : ℕ) where
  -- A transaction that was decoded on its own from the bytes of `t`.
  pub record IsSingle (t : WireTransaction) (x : BlockTransaction) : Type 0 where
    pub outputs : List BlockOutput
    pub decoded :
        x
        ≡ transaction_of ndebug dummy zero_key stack_byte 0 0 0 t.version 0
            (map input_of t.inputs)
            outputs
            t.lock_time
            (transaction_bytes t)
    pub decodes : AreOutputsOf t.outputs outputs

  record Processed (t : WireTransaction) (r : Outcome (BlockTransaction × Reader)) : Type 0 where
    single : BlockTransaction
    after : Reader
    returns : r ≡ ok (single, after)
    is_single : IsSingle t single

  -- What the lookup of a transaction gives: the transaction, and the files with their places.
  pub record Found (t : WireTransaction) (l : FileLocation) (c : BlockChainImpl)
      (r : Outcome (Option BlockTransaction × BlockChainImpl)) : Type 0 where
    pub single : BlockTransaction
    pub after : BlockChainImpl
    pub returns : r ≡ ok (some (located l single), after)
    pub is_single : IsSingle t single
    pub same_files : after.chain.scanner.block_data_files ≡ c.chain.scanner.block_data_files
