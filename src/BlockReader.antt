-- ===== src/BlockReader.antt =====
-- `processTransactions`, `readBlock`, `processSingleTransaction` and `readSingleTransaction` of
-- src/BlockChain.cpp: blocks read from their files, and the set of all transactions.
-- Log messages and the report of ASCII texts are left out.
use bitcoinstats.Common.{ℕ, ◌+◌, ◌-◌, ◌^◌, ltb, leb, ◌==◌, if◌then◌else◌, u32}
use bitcoinstats.Common.{Bool, true, false, ◌||◌, Option, none, some}
use bitcoinstats.Common.{List, [], ◌∷◌, ◌++◌, length, take, drop, set, get_elem?}
use bitcoinstats.Common.Equality.{same_bytes}
use bitcoinstats.Sha256.{compute_sha256}
use bitcoinstats.BlockChain.Stream.{Outcome, ok, exited, fault, Reader}
use bitcoinstats.BlockChain.Data.{BlockInput, BlockTransaction, Block}
use bitcoinstats.BlockChain.Transaction.{process_block_data, process_transaction_data}
use bitcoinstats.BlockFiles.{File, BlockHeader, Scanner, fread, fseek, max_block_size}
use bitcoinstats.HeaderChain.{HeaderChain}
pub mod Known
pub mod Insertion
mod Ledgers
pub mod Reading
mod Lookup
mod Following
mod Loading
mod Tests

-- FileLocation: where the transaction of a hash stands.
pub record FileLocation : Type 0 where
  pub hash : List ℕ
  pub file_index : ℕ
  pub file_offset : ℕ
  pub file_length : ℕ
  pub transaction_index : ℕ

-- `mTransactionSet.find`: locations are compared by their hash.
unfoldable pub find_location : List ℕ → List FileLocation → Option FileLocation
find_location hash [] = none
find_location hash (l ∷ ls) = if same_bytes l.hash hash then some l else find_location hash ls

-- The set of transactions, and the totals over all blocks.
pub record Ledger : Type 0 where
  pub total_transaction_count : ℕ
  pub total_input_count : ℕ
  pub total_output_count : ℕ
  pub transaction_set : List FileLocation

unfoldable pub location_of : BlockTransaction → FileLocation
location_of t = record {
  hash = t.transaction_hash;
  file_index = t.file_index;
  file_offset = t.file_offset;
  file_length = t.transaction_length;
  transaction_index = t.transaction_index;
}

-- One round of the first loop of `processTransactions`: a hash that is in the set already is only
-- reported.
abbrev pub insert_transaction : BlockTransaction → List FileLocation → List FileLocation
insert_transaction t ls = elim (find_location t.transaction_hash ls) [
  | none ↦ location_of t ∷ ls
  | some old ↦ ls
]

unfoldable pub insert_transactions : List BlockTransaction → List FileLocation → List FileLocation
insert_transactions [] locations = locations
insert_transactions (t ∷ ts) locations = insert_transactions ts (insert_transaction t locations)

-- The test of one input; the index 0xFFFFFFFF stands for new coins.
unfoldable pub is_located : List FileLocation → BlockInput → Bool
is_located locations i =
    i.transaction_index == 0xFFFFFFFF
    || elim (find_location i.transaction_hash locations) [ none ↦ false | some l ↦ true ]

-- The loop over the inputs of a transaction: whether no input makes it exit.
unfoldable pub check_inputs : List FileLocation → List BlockInput → Bool
check_inputs locations [] = true
check_inputs locations (i ∷ is) =
    if is_located locations i then check_inputs locations is else false

-- The second loop of `processTransactions`.
unfoldable pub check_transactions : List BlockTransaction → Ledger → Outcome Ledger
check_transactions [] l = ok l
check_transactions (t ∷ ts) l =
    if check_inputs l.transaction_set t.inputs
    then check_transactions ts (record l {
      total_input_count = u32 (l.total_input_count + length t.inputs);
      total_output_count = u32 (l.total_output_count + length t.outputs);
    })
    else exited

unfoldable pub process_transactions : Block → Ledger → Outcome Ledger
process_transactions block l = check_transactions block.transactions (record l {
  total_transaction_count = u32 (l.total_transaction_count + block.transaction_count);
  transaction_set = insert_transactions block.transactions l.transaction_set;
})
