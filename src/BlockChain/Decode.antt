-- ===== src/BlockChain/Decode.antt =====
-- `readTransaction` of src/BlockChain.cpp on the bytes of a transaction.
use bitcoinstats.Common.{ℕ, ◌+◌, ◌-◌, ◌≤◌, ◌<◌, arith}
use bitcoinstats.Common.{◌≡◌, refl, ap, ◌∙◌, Bool, true, ◌||◌, Option, some}
use bitcoinstats.Common.{ltb, leb, ◌==◌, if◌then◌else◌, lt→ltb, ne→==, u32}
use bitcoinstats.Common.{List, ◌++◌, length, take, drop, le_bytes, length-append, map}
use bitcoinstats.BlockChain.Stream.{Outcome, ok, Reader, >>=-step, modify, gets}
use bitcoinstats.BlockChain.Format.{compact_size, WireTransaction, transaction_bytes, input_bytes}
use bitcoinstats.BlockChain.Format.{all_bytes, IsWireTransaction}
use bitcoinstats.BlockChain.Reads.{advance, Ahead, Ahead-advance, Ahead-first, Ahead-take}
use bitcoinstats.BlockChain.Reads.{read_u32-Ahead, read_variable_length_integer-Ahead}
use bitcoinstats.BlockChain.Inputs.{assert_that-true, input_of, read_inputs-Ahead}
use bitcoinstats.BlockChain.Outputs.{AreOutputsOf, total_value}
use bitcoinstats.BlockChain.Ending.{gate_passes, warn_unless_passes, leb-false, Passed}
use bitcoinstats.BlockChain.Ending.{transaction_of, outputs_bytes, read_transaction_outputs-Ended}
use bitcoinstats.BlockChain.Data.{BlockOutput, BlockTransaction}
use bitcoinstats.BlockChain.Transaction.{read_transaction}

module _ (ndebug : Bool) (dummy zero_key : List ℕ) (stack_byte file_index file_offset : ℕ) where
  -- What `r`, the reading of `t` from `s` on, is.
  pub record Transcribed (t : WireTransaction) (index : ℕ) (s : Reader)
      (r : Outcome (Option BlockTransaction × Reader)) : Type 0 where
    pub outputs : List BlockOutput
    pub after : Reader
    pub returns :
        r
        ≡ ok (
          some (
              transaction_of ndebug dummy zero_key stack_byte file_index file_offset s.block_read
                t.version index
                (map input_of t.inputs)
                outputs
                t.lock_time
                (transaction_bytes t)),
          after,
        )
    pub decodes : AreOutputsOf t.outputs outputs
    pub moves :
        Passed s after
          (length (transaction_bytes t))
          (total_value t.outputs)
          (length t.inputs)
          (length t.outputs)

  -- Take the bytes of a transaction whose fields fit their widths, with at least one input,
  -- scripts and inputs within the limits, counts of the block that stay below them, and a memory
  -- that goes on for 65 bytes behind the block. `readTransaction` reads back the version, the
  -- inputs, the outputs with the keys of their scripts and the lock time. The hash is the double
  -- SHA-256 of just these bytes. The reader moves behind them, with the counts and the reward of
  -- the block added up.
  pub read_transaction-Transcribed :
      {s : Reader} (t : WireTransaction) (index : ℕ)
      → IsWireTransaction t
      → s.total_input_count + length t.inputs < 32768
      → s.total_output_count + length t.outputs < 32768
      → Ahead s (transaction_bytes t)
      → s.block_end + 65 ≤ length s.memory
      → Transcribed t index s
          (read_transaction ndebug dummy zero_key stack_byte file_index file_offset index s)
  unfolding read_transaction outputs_bytes
  read_transaction-Transcribed {s} t index w ins outs h slack =
      let n = length t.inputs in
      let c = compact_size n in
      let v = t.version in
      let ib = all_bytes input_bytes t.inputs in
      let ob = outputs_bytes t.outputs t.lock_time in
      let known = v == 1 || v == 2 in
      let s1 : Reader = record (advance s 4) {
        is_warning = if known then s.is_warning else true;
      } in
      let h0 = Ahead-advance 4 (le_bytes 4 v) (c ++ (ib ++ ob)) refl h in
      let h1 : Ahead s1 (c ++ (ib ++ ob)) = record {
        rest = h0.rest;
        stands = h0.stands;
        room = h0.room;
      } in
      let h2 = Ahead-advance (length c) c (ib ++ ob) refl h1 in
      let s2 : Reader = record (advance s1 (length c)) {
        total_input_count = u32 (s.total_input_count + n);
      } in
      let h3 : Ahead s2 (ib ++ ob) = record {
        rest = h2.rest;
        stands = h2.stands;
        room = h2.room;
      } in
      let h4 = Ahead-advance (length ib) ib ob refl h3 in
      let sum : length (transaction_bytes t) ≡ 4 + length c + length ib + length ob =
        omega (arith, length-append c (ib ++ ob), length-append ib ob) in
      let bytes = transaction_bytes t in
      let whole : s.block_read + 4 + length c + length ib + length ob - s.block_read
          ≡ length bytes =
        omega (arith, sum) in
      let d =
        read_transaction_outputs-Ended ndebug dummy zero_key stack_byte file_index file_offset
          s.block_read v index (map input_of t.inputs) t.outputs t.lock_time bytes w.outputs_fit
          (omega arith) outs w.lock_time_fits h4 slack
          (ap (λ (k : ℕ). take k (drop s.block_read s.memory)) whole
            ∙ Ahead-take (length bytes) bytes refl h) in
      record {
        outputs = d.outputs;
        after = d.after;
        returns = >>=-step (gets (λ r. r.block_read)) _ refl (
            >>=-step _ _ (read_u32-Ahead v w.version_fits (Ahead-first (le_bytes 4 v) _ h)) (
              >>=-step _ _ (warn_unless_passes known (advance s 4)) (
                >>=-step _ _
                  (read_variable_length_integer-Ahead ndebug n (omega (arith, w.few_inputs))
                    (Ahead-first c _ h1))
                  (>>=-step _ _
                    (assert_that-true ndebug (ltb n 32678) _ (lt→ltb n 32678 w.few_inputs))
                    (>>=-step _ _ (gate_passes (leb 32678 n) _ (leb-false 32678 n w.few_inputs)) (
                      >>=-step
                        (modify
                          (λ r. record r { total_input_count = u32 (r.total_input_count + n) }))
                        _ refl
                        (>>=-step (gets (λ r. r.total_input_count)) _ refl (
                          >>=-step _ _
                            (assert_that-true ndebug (ltb (u32 (s.total_input_count + n)) 32768) _
                              (lt→ltb _ 32768 (omega arith)))
                            (>>=-step _ _
                              (gate_passes (leb 32768 (u32 (s.total_input_count + n))) _
                                (leb-false 32768 _ (omega arith)))
                              (>>=-step _ _
                                (read_inputs-Ahead ndebug dummy zero_key stack_byte file_index
                                  file_offset t.inputs w.inputs_fit (Ahead-first ib _ h3))
                                (rw (ne→== n 0 (ground (arith, w.some_input))) d.returns)))))))))));
        decodes = d.decodes;
        moves = record {
          same_memory = d.moves.same_memory;
          same_end = d.moves.same_end;
          read = omega (arith, d.moves.read, sum);
          reward = d.moves.reward;
          input_count = omega (arith, d.moves.input_count);
          output_count = d.moves.output_count;
        };
      }
