-- ===== src/BlockChain/Sequence.antt =====
-- The transactions that `processBlockData` of src/BlockChain.cpp reads, one after the other.
use bitcoinstats.Common.{u32, ℕ, ◌+◌, ◌≤◌, ◌<◌, arith}
use bitcoinstats.Common.{◌≡◌, refl, sym, ap, ap₂, ◌∙◌, subst, Bool, true}
use bitcoinstats.Common.{u64}
use bitcoinstats.Common.{List, [], ◌∷◌, ◌++◌, length, drop, length-append, All, map}
use bitcoinstats.BlockChain.Stream.{Outcome, ok, Reader, >>=-step}
use bitcoinstats.BlockChain.Format.{WireTransaction, transaction_bytes, all_bytes, sum_of}
use bitcoinstats.BlockChain.Format.{IsWireTransaction}
use bitcoinstats.BlockChain.Reads.{Ahead, Ahead-advance, Ahead-first}
use bitcoinstats.BlockChain.Inputs.{input_of}
use bitcoinstats.BlockChain.Outputs.{AreOutputsOf, total_value}
use bitcoinstats.BlockChain.Ending.{Passed, transaction_of}
use bitcoinstats.BlockChain.Decode.{read_transaction-Transcribed}
use bitcoinstats.BlockChain.Data.{BlockOutput, BlockTransaction}
use bitcoinstats.BlockChain.Transaction.{read_transactions}

Passed-Passed :
    {s t u : Reader} (m n p q i j k l : ℕ)
    → Passed s t m p i k
    → Passed t u n q j l
    → Passed s u (m + n) (p + q) (i + j) (k + l)
Passed-Passed m n p q i j k l f g = record {
  same_memory = g.same_memory ∙ f.same_memory;
  same_end = g.same_end ∙ f.same_end;
  read = omega (arith, f.read, g.read);
  reward = omega (arith, f.reward, g.reward);
  input_count = omega (arith, f.input_count, g.input_count);
  output_count = omega (arith, f.output_count, g.output_count);
}

Ahead-Passed :
    {s s' : Reader} (xs ys : List ℕ) {paid ins outs : ℕ}
    → Passed s s' (length xs) paid ins outs
    → Ahead s (xs ++ ys)
    → Ahead s' ys
Ahead-Passed {s} {s'} xs ys m h =
    let later = Ahead-advance (length xs) xs ys refl h in
    record {
      rest = later.rest;
      stands = ap₂ drop m.read m.same_memory ∙ later.stands;
      room = omega (arith, later.room, m.read, m.same_end);
    }

abbrev pub inputs_in : List WireTransaction → ℕ
inputs_in = sum_of (λ t. length t.inputs)

abbrev pub outputs_in : List WireTransaction → ℕ
outputs_in = sum_of (λ t. length t.outputs)

abbrev pub value_in : List WireTransaction → ℕ
value_in = sum_of (λ t. total_value t.outputs)

module _ (ndebug : Bool) (dummy zero_key : List ℕ) (stack_byte file_index file_offset : ℕ) where
  -- The transactions read are those on the wire, from the place `begin` and the index on.
  pub AreTransactionsOf : ℕ → ℕ → List WireTransaction → List BlockTransaction → Type 0
  AreTransactionsOf begin index [] [] = Unit
  AreTransactionsOf begin index [] (x ∷ xs) = ⊥
  AreTransactionsOf begin index (t ∷ ts) [] = ⊥
  AreTransactionsOf begin index (t ∷ ts) (x ∷ xs) =
      ((outputs : List BlockOutput) × (AreOutputsOf t.outputs outputs
          × (x
              ≡ transaction_of ndebug dummy zero_key stack_byte file_index file_offset begin
                  t.version index (map input_of t.inputs) outputs t.lock_time
                  (transaction_bytes t))))
      × AreTransactionsOf (begin + length (transaction_bytes t)) (u32 (index + 1)) ts xs

  pub record AllTranscribed (ts : List WireTransaction) (index : ℕ) (s : Reader)
      (r : Outcome ((List BlockTransaction × Bool) × Reader)) : Type 0 where
    pub transactions : List BlockTransaction
    pub after : Reader
    pub returns : r ≡ ok ((transactions, true), after)
    pub decodes : AreTransactionsOf s.block_read index ts transactions
    pub moves :
        Passed s after
          (length (all_bytes transaction_bytes ts))
          (value_in ts)
          (inputs_in ts)
          (outputs_in ts)

  pub read_transactions-Ahead :
      (ts : List WireTransaction) (index : ℕ) {s : Reader}
      → All IsWireTransaction ts
      → s.total_input_count + inputs_in ts < 32768
      → s.total_output_count + outputs_in ts < 32768
      → Ahead s (all_bytes transaction_bytes ts)
      → s.block_end + 65 ≤ length s.memory
      → AllTranscribed ts index s (
          read_transactions ndebug dummy zero_key stack_byte file_index file_offset
            (length ts)
            index
            s)
  unfolding read_transactions AreTransactionsOf
  read_transactions-Ahead [] index {s} w ins outs h slack = record {
    transactions = [];
    after = s;
    returns = refl;
    decodes = tt;
    moves = record {
      same_memory = refl;
      same_end = refl;
      read = omega arith;
      reward = ap u64 (omega arith);
      input_count = omega arith;
      output_count = omega arith;
    };
  }
  read_transactions-Ahead (t ∷ ts) index {s} w ins outs h slack =
      let one = transaction_bytes t in
      let d =
        read_transaction-Transcribed ndebug dummy zero_key stack_byte file_index file_offset t index
          w.0 (omega (arith, ins)) (omega (arith, outs)) (Ahead-first one _ h) slack in
      let later =
        read_transactions-Ahead ts (u32 (index + 1)) w.1 (omega (arith, ins, d.moves.input_count))
          (omega (arith, outs, d.moves.output_count)) (Ahead-Passed one _ d.moves h)
          (omega (arith, slack, d.moves.same_end, ap length d.moves.same_memory)) in
      record {
        transactions = _ ∷ later.transactions;
        after = later.after;
        returns = >>=-step _ _ d.returns (>>=-step _ _ later.returns refl);
        decodes = (
          (d.outputs, (d.decodes, refl)),
          subst (λ (k : ℕ). AreTransactionsOf k (u32 (index + 1)) ts later.transactions)
              d.moves.read later.decodes,
        );
        moves =
            subst
              (λ (k : ℕ).
                Passed s later.after k (value_in (t ∷ ts)) (inputs_in (t ∷ ts))
                  (outputs_in (t ∷ ts)))
              (sym (length-append one (all_bytes transaction_bytes ts)))
              (Passed-Passed (length one) (length (all_bytes transaction_bytes ts))
                (total_value t.outputs) (value_in ts) (length t.inputs) (inputs_in ts)
                (length t.outputs) (outputs_in ts) d.moves later.moves);
      }
