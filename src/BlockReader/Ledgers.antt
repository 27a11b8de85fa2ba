-- ===== src/BlockReader/Ledgers.antt =====
-- What `processTransactions` of src/BlockChain.cpp makes of the set of transactions and the totals.
use bitcoinstats.Common.{ℕ, ◌+◌, ◌^◌, ◌<◌, ◌≡◌, sym, subst, ap₂, ◌∙◌, arith}
use bitcoinstats.Common.{some}
use bitcoinstats.Common.{List, [], ◌∷◌, length, u32, All}
use bitcoinstats.BlockChain.Stream.{ok}
use bitcoinstats.BlockChain.Data.{BlockTransaction, Block}
use bitcoinstats.BlockReader.{FileLocation, Ledger, find_location}
use bitcoinstats.BlockReader.{insert_transactions, check_transactions}
use bitcoinstats.BlockReader.{process_transactions}
use bitcoinstats.BlockReader.Known.{IsKnown, AreFunded, check_transactions-All}
use bitcoinstats.BlockReader.Known.{All-check_inputs}
use bitcoinstats.BlockReader.Insertion.{find_location-insert_transactions}
use bitcoinstats.BlockReader.Insertion.{insert_transactions-IsKnown}

-- A set of transactions that accounts for those of a block, and for all that an earlier set has.
pub record Accounts (ts : List BlockTransaction) (before after : List FileLocation) : Type 0 where
  pub funded : All (AreFunded after) ts
  pub known : All (λ (t : BlockTransaction). IsKnown after t.transaction_hash) ts
  pub kept :
      (hash : List ℕ) (l : FileLocation)
      → find_location hash before ≡ some l
      → find_location hash after ≡ some l

-- When `processTransactions` returns, every input of the block takes new coins or the output of a
-- transaction in the set, every transaction of the block is in the set, and each location that was
-- in the set is still the one of its hash.
pub process_transactions-Accounts :
    (block : Block) (l l' : Ledger)
    → process_transactions block l ≡ ok l'
    → Accounts block.transactions l.transaction_set l'.transaction_set
unfolding process_transactions
process_transactions-Accounts block l l' e =
    let ts = block.transactions in
    let inserted = insert_transactions ts l.transaction_set in
    let counted : Ledger = record l {
      total_transaction_count = u32 (l.total_transaction_count + block.transaction_count);
      transaction_set = inserted;
    } in
    let (funded, same) = check_transactions-All ts counted l' e in
    subst (λ (r : List FileLocation). Accounts ts l.transaction_set r) (sym same)
      (record {
        funded = funded;
        known = insert_transactions-IsKnown ts l.transaction_set;
        kept = λ hash x found. find_location-insert_transactions ts l.transaction_set hash x found;
      })

-- The inputs and the outputs of transactions.
abbrev pub inputs_of : List BlockTransaction → ℕ
inputs_of [] = 0
inputs_of (t ∷ ts) = length t.inputs + inputs_of ts

abbrev pub outputs_of : List BlockTransaction → ℕ
outputs_of [] = 0
outputs_of (t ∷ ts) = length t.outputs + outputs_of ts

check_transactions-AreFunded :
    (ts : List BlockTransaction) (l : Ledger)
    → l.total_input_count < 2 ^ 32
    → l.total_output_count < 2 ^ 32
    → All (AreFunded l.transaction_set) ts
    → check_transactions ts l
      ≡ ok (record l {
        total_input_count = u32 (l.total_input_count + inputs_of ts);
        total_output_count = u32 (l.total_output_count + outputs_of ts);
      })
unfolding check_transactions
check_transactions-AreFunded [] l ins outs a =
    let i : l.total_input_count ≡ u32 (l.total_input_count + 0) = omega (arith, ins) in
    let o : l.total_output_count ≡ u32 (l.total_output_count + 0) = omega (arith, outs) in
    ap₂ (λ (x y : ℕ). ok (record l { total_input_count = x; total_output_count = y })) i o
check_transactions-AreFunded (t ∷ ts) l ins outs a =
    let n = length t.inputs in
    let m = length t.outputs in
    let counted : Ledger = record l {
      total_input_count = u32 (l.total_input_count + n);
      total_output_count = u32 (l.total_output_count + m);
    } in
    let i : u32 (u32 (l.total_input_count + n) + inputs_of ts)
        ≡ u32 (l.total_input_count + (n + inputs_of ts)) =
      omega arith in
    let o : u32 (u32 (l.total_output_count + m) + outputs_of ts)
        ≡ u32 (l.total_output_count + (m + outputs_of ts)) =
      omega arith in
    rw (All-check_inputs l.transaction_set t.inputs a.0) (
      check_transactions-AreFunded ts counted (omega arith) (omega arith) a.1
      ∙ ap₂ (λ (x y : ℕ). ok (record l { total_input_count = x; total_output_count = y })) i o)

-- Where every input of the block takes new coins or the output of a transaction that is in the set
-- once those of the block are inserted, `processTransactions` returns: with that set, and with the
-- transactions, inputs and outputs of the block added to the totals modulo 2 ^ 32.
pub process_transactions-AreFunded :
    (block : Block) (l : Ledger)
    → l.total_input_count < 2 ^ 32
    → l.total_output_count < 2 ^ 32
    → All (AreFunded (insert_transactions block.transactions l.transaction_set)) block.transactions
    → process_transactions block l
      ≡ ok (record {
        total_transaction_count = u32 (l.total_transaction_count + block.transaction_count);
        total_input_count = u32 (l.total_input_count + inputs_of block.transactions);
        total_output_count = u32 (l.total_output_count + outputs_of block.transactions);
        transaction_set = insert_transactions block.transactions l.transaction_set;
      })
unfolding process_transactions
process_transactions-AreFunded block l ins outs a =
    let counted : Ledger = record l {
      total_transaction_count = u32 (l.total_transaction_count + block.transaction_count);
      transaction_set = insert_transactions block.transactions l.transaction_set;
    } in
    check_transactions-AreFunded block.transactions counted ins outs a
