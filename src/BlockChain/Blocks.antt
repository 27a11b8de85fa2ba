-- ===== src/BlockChain/Blocks.antt =====
-- `processBlockData` of src/BlockChain.cpp on the bytes of a block.
use bitcoinstats.Common.{ℕ, ◌+◌, ◌≤◌, ◌<◌, arith}
use bitcoinstats.Common.{◌≡◌, refl, sym, subst, Bool, true}
use bitcoinstats.Common.{ltb, leb, lt→ltb}
use bitcoinstats.Common.{List, ◌++◌, length, le_bytes, length-append}
use bitcoinstats.BlockChain.Stream.{Outcome, ok, Reader, >>=-step, modify}
use bitcoinstats.BlockChain.Format.{compact_size, transaction_bytes, all_bytes}
use bitcoinstats.BlockChain.Format.{WireBlock, block_bytes, IsWireBlock}
use bitcoinstats.BlockChain.Reads.{Ahead, Ahead-advance, Ahead-first}
use bitcoinstats.BlockChain.Reads.{
  read_u32-Ahead, read_hash-Ahead, read_variable_length_integer-Ahead,
}
use bitcoinstats.BlockChain.Inputs.{assert_that-true}
use bitcoinstats.BlockChain.Ending.{gate_passes, leb-false, Passed}
use bitcoinstats.BlockChain.Data.{Block}
use bitcoinstats.BlockChain.Transaction.{read_block_data}
use bitcoinstats.BlockChain.Transaction.{process_block_data}
use bitcoinstats.BlockChain.Sequence.{
  inputs_in, outputs_in, value_in, AreTransactionsOf, read_transactions-Ahead,
}

-- The reader once `processBlockData` has set the stream pointers.
abbrev pub start : List ℕ → ℕ → Reader → Reader
start memory block_length s = record s { memory = memory; block_read = 0; block_end = block_length }

module _ (ndebug : Bool) (dummy zero_key : List ℕ) (stack_byte file_index file_offset : ℕ) where
  -- The fields of a block, and its transactions.
  pub record IsBlockOf (b : WireBlock) (begin index : ℕ) (x : Block) : Type 0 where
    pub same_version : x.block_format_version ≡ b.version
    pub same_previous : x.previous_block_hash ≡ b.previous
    pub same_merkle_root : x.merkle_root ≡ b.merkle_root
    pub same_time : x.time_stamp ≡ b.time
    pub same_bits : x.bits ≡ b.bits
    pub same_nonce : x.nonce ≡ b.nonce
    pub same_count : x.transaction_count ≡ length b.transactions
    pub same_transactions :
        AreTransactionsOf ndebug dummy zero_key stack_byte file_index file_offset begin index
          b.transactions x.transactions

  pub record BlockRead (b : WireBlock) (index : ℕ) (s : Reader)
      (r : Outcome ((Block × Bool) × Reader)) : Type 0 where
    pub block : Block
    pub after : Reader
    pub returns : r ≡ ok ((block, true), after)
    pub decodes :
        IsBlockOf b (s.block_read + 80 + length (compact_size (length b.transactions))) index block
    pub moves :
        Passed s after
          (length (block_bytes b))
          (value_in b.transactions)
          (inputs_in b.transactions)
          (outputs_in b.transactions)

  read_block_data-BlockRead :
      {s : Reader} (b : WireBlock) (index : ℕ)
      → IsWireBlock b
      → s.total_input_count + inputs_in b.transactions < 32768
      → s.total_output_count + outputs_in b.transactions < 32768
      → Ahead s (block_bytes b)
      → s.block_end + 65 ≤ length s.memory
      → BlockRead b index s
          (read_block_data ndebug dummy zero_key stack_byte file_index file_offset index s)
  unfolding read_block_data
  read_block_data-BlockRead {s} b index w ins outs h slack =
      let n = length b.transactions in
      let c = compact_size n in
      let tb = all_bytes transaction_bytes b.transactions in
      let h1 = Ahead-advance 4 (le_bytes 4 b.version) _ refl h in
      let h2 = Ahead-advance 32 b.previous _ (sym w.previous_size) h1 in
      let h3 = Ahead-advance 32 b.merkle_root _ (sym w.merkle_root_size) h2 in
      let h4 = Ahead-advance 4 (le_bytes 4 b.time) _ refl h3 in
      let h5 = Ahead-advance 4 (le_bytes 4 b.bits) _ refl h4 in
      let h6 = Ahead-advance 4 (le_bytes 4 b.nonce) (c ++ tb) refl h5 in
      let h7 = Ahead-advance (length c) c tb refl h6 in
      let place : s.block_read + 4 + 32 + 32 + 4 + 4 + 4 + length c ≡ s.block_read + 80 + length c =
        omega arith in
      let d =
        read_transactions-Ahead ndebug dummy zero_key stack_byte file_index file_offset
          b.transactions index w.transactions_fit (omega (arith, ins)) (omega (arith, outs)) h7
          slack in
      let after_roots =
        le_bytes 4 b.time ++ (le_bytes 4 b.bits ++ (le_bytes 4 b.nonce ++ (c ++ tb))) in
      let sum : length (block_bytes b) ≡ 80 + length c + length tb = omega (
        arith,
        length-append b.previous (b.merkle_root ++ after_roots),
        length-append b.merkle_root after_roots,
        length-append c tb,
        w.previous_size,
        w.merkle_root_size,
      ) in
      record {
        block = record {
          block_format_version = b.version;
          previous_block_hash = b.previous;
          merkle_root = b.merkle_root;
          time_stamp = b.time;
          bits = b.bits;
          nonce = b.nonce;
          transaction_count = n;
          transactions = d.transactions;
        };
        after = d.after;
        returns =
            >>=-step _ _
              (read_u32-Ahead b.version w.version_fits (Ahead-first (le_bytes 4 b.version) _ h))
              (>>=-step _ _
                (read_hash-Ahead b.previous w.previous_size (Ahead-first b.previous _ h1))
                (>>=-step _ _
                  (read_hash-Ahead b.merkle_root w.merkle_root_size
                    (Ahead-first b.merkle_root _ h2))
                  (>>=-step _ _
                    (read_u32-Ahead b.time w.time_fits (Ahead-first (le_bytes 4 b.time) _ h3))
                    (>>=-step _ _
                      (read_u32-Ahead b.bits w.bits_fits (Ahead-first (le_bytes 4 b.bits) _ h4))
                      (>>=-step _ _
                        (read_u32-Ahead b.nonce w.nonce_fits
                          (Ahead-first (le_bytes 4 b.nonce) _ h5))
                        (>>=-step _ _
                          (read_variable_length_integer-Ahead ndebug n
                            (omega (arith, w.few_transactions)) (Ahead-first c _ h6))
                          (>>=-step _ _
                            (assert_that-true ndebug (ltb n 32768) _
                              (lt→ltb n 32768 w.few_transactions))
                            (>>=-step _ _
                              (gate_passes (leb 32768 n) _ (leb-false 32768 n w.few_transactions))
                              (>>=-step _ _ d.returns refl)))))))));
        decodes = record {
          same_version = refl;
          same_previous = refl;
          same_merkle_root = refl;
          same_time = refl;
          same_bits = refl;
          same_nonce = refl;
          same_count = refl;
          same_transactions =
              subst
                (λ (k : ℕ).
                  AreTransactionsOf ndebug dummy zero_key stack_byte file_index file_offset k index
                    b.transactions d.transactions)
                place d.decodes;
        };
        moves = record {
          same_memory = d.moves.same_memory;
          same_end = d.moves.same_end;
          read = omega (arith, d.moves.read, sum);
          reward = d.moves.reward;
          input_count = d.moves.input_count;
          output_count = d.moves.output_count;
        };
      }

  -- Take a block whose fields fit their widths, with scripts, inputs, outputs and transactions
  -- within the limits, counts that stay below them, and a memory that goes on for 65 bytes behind
  -- it. `processBlockData` returns true and reads back the header's fields and every transaction,
  -- in order, each with its place in the file, its index, which is counted modulo 2 ^ 32, and its
  -- hash. The reader moves just
  -- behind the block, the counts go up by the inputs and outputs, and the value of all outputs is
  -- added to the block's reward modulo 2 ^ 64.
  pub process_block_data-BlockRead :
      (s : Reader) (b : WireBlock) (index : ℕ) (behind : List ℕ)
      → IsWireBlock b
      → s.total_input_count + inputs_in b.transactions < 32768
      → s.total_output_count + outputs_in b.transactions < 32768
      → 65 ≤ length behind
      → BlockRead b index (start (block_bytes b ++ behind) (length (block_bytes b)) s) (
          process_block_data ndebug dummy zero_key stack_byte file_index file_offset
            (block_bytes b ++ behind)
            (length (block_bytes b))
            index
            s)
  unfolding process_block_data
  process_block_data-BlockRead s b index behind w ins outs slack =
      let m = block_bytes b ++ behind in
      let k = length (block_bytes b) in
      let d =
        read_block_data-BlockRead {s = start m k s} b index w ins outs
          (record { rest = behind; stands = refl; room = omega arith })
          (omega (arith, slack, length-append (block_bytes b) behind)) in
      record {
        block = d.block;
        after = d.after;
        returns = >>=-step (modify (start m k)) _ refl d.returns;
        decodes = d.decodes;
        moves = d.moves;
      }
