-- ===== src/BlockReader/Loading.antt =====
-- `readBlock` of src/BlockChain.cpp reads the block of a header from its file.
use bitcoinstats.Common.{ℕ, ◌+◌, ◌≤◌, ◌<◌, arith, u32}
use bitcoinstats.Common.{◌≡◌, refl, sym, subst, ap, ◌∙◌, Bool, false, Option, some}
use bitcoinstats.Common.{lt→not_leb, ne→==, ◌==◌, append-nil}
use bitcoinstats.Common.{
  List, [], ◌++◌, length, take, drop, get_elem?, length-append, length-drop, le_bytes,
}
use bitcoinstats.Common.{take-append_le}
use bitcoinstats.Sha256.{compute_sha256}
use bitcoinstats.BlockChain.Stream.{Outcome, Reader}
use bitcoinstats.BlockChain.Data.{Block}
use bitcoinstats.BlockChain.Transaction.{process_block_data}
use bitcoinstats.BlockChain.Format.{WireBlock, IsWireBlock, block_bytes, compact_size}
use bitcoinstats.BlockChain.Format.{all_bytes, transaction_bytes}
use bitcoinstats.BlockChain.Sequence.{inputs_in, outputs_in}
use bitcoinstats.BlockChain.Blocks.{IsBlockOf, process_block_data-BlockRead}
use bitcoinstats.BlockFiles.{File, BlockHeader, fseek}
use bitcoinstats.BlockFiles.Frames.{Next, Next-fread}
use bitcoinstats.BlockReader.{process_transactions}
use bitcoinstats.BlockReader.Reading.{BlockChainImpl, BlockImpl, fread_item, put_data_file}
use bitcoinstats.BlockReader.Reading.{new_reader, with_ledger, finish_block}
use bitcoinstats.BlockReader.Following.{IsBuilt, NextHash, next_block_hash_of-NextHash}
use bitcoinstats.BlockReader.Reading.{decode_block, take_block, read_block}

module _ (ndebug : Bool) (dummy zero_key : List ℕ) (stack_byte : ℕ) where
  -- What `readBlock` does with the block `b` of a header: `after` holds all but the ledger.
  pub record Loaded (b : WireBlock) (index : ℕ) (header : BlockHeader) (c : BlockChainImpl)
      (r : Outcome (Bool × BlockChainImpl)) : Type 0 where
    pub after : BlockChainImpl
    pub returns :
        r ≡ with_ledger after (process_transactions after.single_read_block.block c.ledger)
    pub decodes :
        IsBlockOf ndebug dummy zero_key stack_byte header.file_index header.file_offset b
          (80 + length (compact_size (length b.transactions)))
          c.transaction_count
          after.single_read_block.block
    pub same_hash :
        after.single_read_block.computed_block_hash
        ≡ compute_sha256 (compute_sha256 (take 80 (block_bytes b)))
    pub next_hash :
        NextHash index c.chain c.single_read_block.next_block_hash
          after.single_read_block.next_block_hash
    pub same_index : after.single_read_block.block_index ≡ index
    pub same_ledger : after.ledger ≡ c.ledger
    pub same_chain_headers : after.chain.block_chain_headers ≡ c.chain.block_chain_headers

  block_bytes-length : (b : WireBlock) → IsWireBlock b → 80 ≤ length (block_bytes b)
  block_bytes-length b w =
      let tail =
        le_bytes 4 b.time
        ++ (le_bytes 4 b.bits
            ++ (le_bytes 4 b.nonce
                ++ (compact_size (length b.transactions)
                    ++ all_bytes transaction_bytes b.transactions))) in
      omega (
        arith,
        length-append b.previous (b.merkle_root ++ tail),
        length-append b.merkle_root tail,
        w.previous_size,
        w.merkle_root_size,
      )

  -- The block's header fills its first 80 bytes.
  block_bytes-take :
      (b : WireBlock) (behind : List ℕ)
      → IsWireBlock b
      → take 80 (block_bytes b ++ behind) ≡ take 80 (block_bytes b)
  block_bytes-take b behind w = take-append_le 80 (block_bytes b) behind (block_bytes-length b w)

  -- Where a header of the chain names a file with the bytes of the block `b` at its offset,
  -- `readBlock` reads the block with all its transactions, with their indices and places, computes
  -- the double hash of its first 80 bytes and sets the hash of the next block: that of the next
  -- header, or for the last two blocks the one that was set before. Then it is
  -- `processTransactions` on the block that returns or exits. The array holds two headers or more,
  -- each with the hash of the one before it; indices are counted modulo 2 ^ 32. The block's fields fit their widths and the limits, its length is that of the header, and the
  -- buffer goes on for 65 bytes behind it.
  pub read_block-Loaded :
      (index : ℕ) (c : BlockChainImpl) (header : BlockHeader) (f : File) (b : WireBlock)
      → index < c.chain.block_count
      → get_elem? c.chain.block_chain_headers index ≡ some header
      → get_elem? c.chain.scanner.block_data_files header.file_index ≡ some f
      → Next (fseek header.file_offset f) (block_bytes b)
      → length (block_bytes b) ≡ header.block_length
      → header.block_length + 65 ≤ length c.block_data_buffer
      → IsBuilt c.chain
      → IsWireBlock b
      → inputs_in b.transactions < 32768
      → outputs_in b.transactions < 32768
      → Loaded b index header c (read_block ndebug dummy zero_key stack_byte index c)
  unfolding read_block take_block decode_block finish_block fread_item
  read_block-Loaded index c header f b inside at file stands size slack built w ins outs =
      let (next, follows, is_next) =
        next_block_hash_of-NextHash index c.chain c.single_read_block.next_block_hash built in
      let bytes = block_bytes b in
      let n = header.block_length in
      let f' = fseek header.file_offset f in
      let behind = drop (length bytes) c.block_data_buffer in
      let room : 65 ≤ length behind =
        omega (arith, slack, size, length-drop (length bytes) c.block_data_buffer) in
      let c' : BlockChainImpl =
        put_data_file header.file_index (fseek (header.file_offset + n) f')
          (record c { block_data_buffer = bytes ++ behind }) in
      let impl : BlockImpl = record c.single_read_block {
        block_index = index;
        block_length = n;
        file_index = header.file_index;
        file_offset = header.file_offset;
        next_block_hash = next;
        computed_block_hash = compute_sha256 (compute_sha256 (take 80 (bytes ++ behind)));
      } in
      let d =
        process_block_data-BlockRead ndebug dummy zero_key stack_byte header.file_index
          header.file_offset (new_reader c') b c.transaction_count behind w (omega (arith, ins))
          (omega (arith, outs)) room in
      let some_bytes : (n == 0) ≡ false =
        ne→== n 0 (λ z. absurd (omega (arith, size, z, block_bytes-length b w))) in
      let reads : fread_item n f' ≡ (some bytes, fseek (header.file_offset + n) f') =
        rw some_bytes (
          Next-fread bytes [] n size
            (subst (λ (r : List ℕ). Next f' r) (sym (append-nil bytes)) stands)) in
      let takes = λ (r : Option (List ℕ) × File).
        take_block ndebug dummy zero_key stack_byte index header r c in
      let decodes =
        λ (r : Outcome (List ℕ)). decode_block ndebug dummy zero_key stack_byte index header r c' in
      let finishes = λ (k : ℕ).
        finish_block ndebug dummy zero_key stack_byte impl
          (process_block_data ndebug dummy zero_key stack_byte header.file_index header.file_offset
            (bytes ++ behind) k c.transaction_count (new_reader c'))
          c' in
      let ends = λ (r : Outcome ((Block × Bool) × Reader)).
        finish_block ndebug dummy zero_key stack_byte impl r c' in
      record {
        after = record c' {
          transaction_count = u32 (c.transaction_count + length d.block.transactions);
          is_warning = false;
          report_transaction_hash = d.after.report_transaction_hash;
          single_read_block = record impl {
            block = d.block;
            block_reward = d.after.block_reward;
            total_input_count = d.after.total_input_count;
            total_output_count = d.after.total_output_count;
            warning = d.after.is_warning;
          };
        };
        returns =
            rw (lt→not_leb _ _ inside, at, file, read_block)
              (ap takes reads ∙ ap decodes follows ∙ ap finishes (sym size) ∙ ap ends d.returns);
        decodes = d.decodes;
        same_hash =
            ap (λ (r : List ℕ). compute_sha256 (compute_sha256 r)) (block_bytes-take b behind w);
        next_hash = is_next;
        same_index = refl;
        same_ledger = refl;
        same_chain_headers = refl;
      }
