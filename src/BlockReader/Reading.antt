-- ===== src/BlockReader/Reading.antt =====
-- `readBlock`, `processSingleTransaction` and `readSingleTransaction` of src/BlockChain.cpp.
use bitcoinstats.Common.{ℕ, ◌+◌, ◌-◌, ◌^◌, ltb, leb, ◌==◌, if◌then◌else◌, u32}
use bitcoinstats.Common.{Bool, true, false, Option, none, some}
use bitcoinstats.Common.{List, ◌++◌, length, take, drop, set, get_elem?}
use mathlib.Core.Option.{map}
use bitcoinstats.Sha256.{compute_sha256}
use bitcoinstats.BlockChain.Stream.{Outcome, ok, exited, fault, Reader}
use bitcoinstats.BlockChain.Data.{BlockTransaction, Block}
use bitcoinstats.BlockChain.Transaction.{process_block_data, process_transaction_data}
use bitcoinstats.BlockFiles.{File, BlockHeader, fread, fseek, max_block_size}
use bitcoinstats.HeaderChain.{HeaderChain}
use bitcoinstats.BlockReader.{FileLocation, Ledger, find_location, process_transactions}

-- BlockImpl: a block that was read, with what `readBlock` sets in it.
pub record BlockImpl : Type 0 where
  pub block : Block
  pub block_index : ℕ
  pub block_length : ℕ
  pub file_index : ℕ
  pub file_offset : ℕ
  pub next_block_hash : List ℕ
  pub computed_block_hash : List ℕ
  pub block_reward : ℕ
  pub total_input_count : ℕ
  pub total_output_count : ℕ
  pub warning : Bool

-- The members of `BlockChainImpl` that reading uses, and the two globals of the block reader that
-- outlive a block.
pub record BlockChainImpl : Type 0 where
  pub chain : HeaderChain
  pub ledger : Ledger
  pub transaction_count : ℕ
  pub block_data_buffer : List ℕ
  pub transaction_block_buffer : List ℕ
  pub is_warning : Bool
  pub report_transaction_hash : Bool
  pub single_read_block : BlockImpl

-- fread of one item of a size that may be zero, which reads no item.
unfoldable pub fread_item : ℕ → File → Option (List ℕ) × File
fread_item n f = if n == 0 then (none, f) else fread n f

-- The file with this number, replaced.
abbrev pub put_data_file : ℕ → File → BlockChainImpl → BlockChainImpl
put_data_file i f c = record c {
  chain = record c.chain {
    scanner = record c.chain.scanner {
      block_data_files = set c.chain.scanner.block_data_files i f;
    };
  };
}

-- A buffer over whose start bytes are read.
abbrev pub overwrite : List ℕ → List ℕ → List ℕ
overwrite bytes buffer = bytes ++ drop (length bytes) buffer

-- The reader of a block or a transaction, with its counts reset and its data still to be set.
abbrev pub new_reader : BlockChainImpl → Reader
new_reader c = record {
  memory = c.block_data_buffer;
  block_end = 0;
  block_read = 0;
  block_reward = 0;
  total_input_count = 0;
  total_output_count = 0;
  is_warning = c.is_warning;
  report_transaction_hash = c.report_transaction_hash;
}

-- `nextBlockHash`: it keeps its value for the last two blocks. In a chain of one block the limit
-- wraps around, and the read is behind the array.
unfoldable pub next_block_hash_of : ℕ → HeaderChain → List ℕ → Outcome (List ℕ)
next_block_hash_of index chain old =
    if ltb index (u32 (chain.block_count + 2 ^ 32 - 2))
    then (elim (get_elem? chain.block_chain_headers (index + 2)) [
      | none ↦ fault
      | some h ↦ ok h.previous_block_hash
    ])
    else ok old

-- What `readSingleTransaction` sets in the transaction, from its location.
abbrev pub located : FileLocation → BlockTransaction → BlockTransaction
located l t = record t {
  transaction_index = l.transaction_index;
  file_index = l.file_index;
  file_offset = l.file_offset;
}

unfoldable pub locate :
    FileLocation
    → Outcome (Option BlockTransaction × BlockChainImpl)
    → Outcome (Option BlockTransaction × BlockChainImpl)
locate l exited = exited
locate l fault = fault
locate l (ok r) = ok (map (located l) r.0, r.1)

-- The block is read, and the ledger is what `processTransactions` made of it.
unfoldable pub with_ledger : BlockChainImpl → Outcome Ledger → Outcome (Bool × BlockChainImpl)
with_ledger c exited = exited
with_ledger c fault = fault
with_ledger c (ok l) = ok (true, record c { ledger = l })

-- The parameters are those of the block reader.
module _ (ndebug : Bool) (dummy zero_key : List ℕ) (stack_byte : ℕ) where
  -- The end of `readBlock`, once `processBlockData` has returned.
  unfoldable pub finish_block :
      BlockImpl
      → Outcome ((Block × Bool) × Reader)
      → BlockChainImpl
      → Outcome (Bool × BlockChainImpl)
  finish_block impl exited c = exited
  finish_block impl fault c = fault
  finish_block impl (ok ((block, good), r)) c =
      let impl' : BlockImpl = record impl {
        block = block;
        block_reward = r.block_reward;
        total_input_count = r.total_input_count;
        total_output_count = r.total_output_count;
        warning = r.is_warning;
      } in
      let c' : BlockChainImpl = record c {
        transaction_count = u32 (c.transaction_count + length block.transactions);
        is_warning = false;
        report_transaction_hash = r.report_transaction_hash;
        single_read_block = impl';
      } in
      if good then with_ledger c' (process_transactions block c'.ledger) else ok (false, c')

  -- The block in the buffer, with its double hash.
  unfoldable pub decode_block :
      ℕ → BlockHeader → Outcome (List ℕ) → BlockChainImpl → Outcome (Bool × BlockChainImpl)
  decode_block index header exited c = exited
  decode_block index header fault c = fault
  decode_block index header (ok next) c =
      let buffer = c.block_data_buffer in
      let impl : BlockImpl = record c.single_read_block {
        block_index = index;
        block_length = header.block_length;
        file_index = header.file_index;
        file_offset = header.file_offset;
        next_block_hash = next;
        computed_block_hash = compute_sha256 (compute_sha256 (take 80 buffer));
      } in
      finish_block impl
        (process_block_data ndebug dummy zero_key stack_byte header.file_index header.file_offset
          buffer header.block_length c.transaction_count (new_reader c))
        c

  -- What follows the read of the block's bytes; where it fails the program exits.
  unfoldable pub take_block :
      ℕ → BlockHeader → Option (List ℕ) × File → BlockChainImpl → Outcome (Bool × BlockChainImpl)
  take_block index header (none, f) c = exited
  take_block index header (some bytes, f) c =
      let old = c.single_read_block.next_block_hash in
      decode_block index header (next_block_hash_of index c.chain old) (
        put_data_file header.file_index f
          (record c { block_data_buffer = overwrite bytes c.block_data_buffer }))

  -- readBlock
  unfoldable pub read_block : ℕ → BlockChainImpl → Outcome (Bool × BlockChainImpl)
  read_block index c =
      if leb c.chain.block_count index
      then ok (false, c)
      else elim (get_elem? c.chain.block_chain_headers index) [
        | none ↦ fault
        | some header ↦ elim (get_elem? c.chain.scanner.block_data_files header.file_index) [
          | none ↦ fault
          | some f ↦
              take_block index header (fread_item header.block_length (fseek header.file_offset f))
                c
        ]
      ]

  -- The two globals after a transaction was read on its own.
  unfoldable pub finish_single :
      Outcome (BlockTransaction × Reader)
      → BlockChainImpl
      → Outcome (Option BlockTransaction × BlockChainImpl)
  finish_single exited c = exited
  finish_single fault c = fault
  finish_single (ok (t, r)) c = ok (
    some t,
    record c { is_warning = r.is_warning; report_transaction_hash = r.report_transaction_hash },
  )

  -- processSingleTransaction, on a transaction of this length at the start of the memory.
  unfoldable pub process_single_transaction :
      List ℕ → ℕ → BlockChainImpl → Outcome (Option BlockTransaction × BlockChainImpl)
  process_single_transaction memory n c =
      if ltb n max_block_size
      then finish_single
          (process_transaction_data ndebug dummy zero_key stack_byte 0 0 memory n (new_reader c)) c
      else ok (none, c)

  -- What follows the read of the transaction's bytes; the file is put back to its place.
  unfoldable pub take_transaction :
      FileLocation
      → File
      → Option (List ℕ) × File
      → BlockChainImpl
      → Outcome (Option BlockTransaction × BlockChainImpl)
  take_transaction l f (none, f') c =
      if ndebug then ok (none, put_data_file l.file_index (fseek (u32 f.position) f) c) else fault
  take_transaction l f (some bytes, f') c =
      let buffer = overwrite bytes c.transaction_block_buffer in
      let c' : BlockChainImpl =
        put_data_file l.file_index (fseek (u32 f.position) f)
          (record c { transaction_block_buffer = buffer }) in
      locate l (process_single_transaction buffer l.file_length c')

  -- readSingleTransaction
  unfoldable pub read_single_transaction :
      List ℕ → BlockChainImpl → Outcome (Option BlockTransaction × BlockChainImpl)
  read_single_transaction hash c = elim (find_location hash c.ledger.transaction_set) [
    | none ↦ ok (none, c)
    | some l ↦
        let refused : Outcome (Option BlockTransaction × BlockChainImpl) =
          if ndebug then ok (none, c) else fault in
        elim (get_elem? c.chain.scanner.block_data_files l.file_index) [
          | none ↦ refused
          | some f ↦
              if ltb l.file_length max_block_size
              then take_transaction l f (fread_item l.file_length (fseek l.file_offset f)) c
              else refused
        ]
  ]
