-- ===== src/BlockChain/Ending.antt =====
-- The end of `readTransaction` of src/BlockChain.cpp, from the number of the outputs on.
use bitcoinstats.Common.{ℕ, ◌+◌, ◌-◌, ◌^◌, ◌≤◌, ◌<◌, arith}
use bitcoinstats.Common.{◌≡◌, refl, ap, ap₂, ◌∙◌, Bool, true, false, Option, some}
use bitcoinstats.Common.{ltb, leb, if◌then◌else◌, lt→ltb, le→not_ltb, u32, u64}
use bitcoinstats.Common.{List, ◌++◌, length, take, drop, le_bytes, length-append, All}
use bitcoinstats.Sha256.{compute_sha256}
use bitcoinstats.BlockChain.Stream.{Outcome, ok, Reader, >>=-step, pure, modify, gets, exit, M}
use bitcoinstats.BlockChain.Format.{compact_size}
use bitcoinstats.BlockChain.Format.{output_bytes, all_bytes, IsWireOutput, WireOutput}
use bitcoinstats.BlockChain.Reads.{advance, Ahead, Ahead-advance, Ahead-first}
use bitcoinstats.BlockChain.Reads.{read_u32-Ahead, read_variable_length_integer-Ahead}
use bitcoinstats.BlockChain.Inputs.{assert_that-true}
use bitcoinstats.BlockChain.Outputs.{AreOutputsOf, total_value, read_outputs-Ahead, Ahead-Moved}
use bitcoinstats.BlockChain.Data.{BlockInput, BlockOutput, BlockTransaction}
use bitcoinstats.BlockChain.Transaction.{finish_transaction}
use bitcoinstats.BlockChain.Transaction.{read_transaction_outputs}

-- A limit that the source checks with a call of exit.
abbrev pub gate : Bool → M (Unit {0})
gate b = if b then exit else pure tt

pub gate_passes : (b : Bool) (s : Reader) → b ≡ false → gate b s ≡ ok (tt, s)
gate_passes b s h = rw h

abbrev pub warn_unless : Bool → M (Unit {0})
warn_unless b = if b then pure tt else modify (λ s. record s { is_warning = true })

pub warn_unless_passes :
    (b : Bool) (s : Reader)
    → warn_unless b s ≡ ok (tt, record s { is_warning = if b then s.is_warning else true })
warn_unless_passes true s = refl
warn_unless_passes false s = refl

pub leb-false : (a b : ℕ) → b < a → leb a b ≡ false
leb-false a b h = ground arith

-- What reading a transaction does to the reader.
pub record Passed (s s' : Reader) (n paid inputs outputs : ℕ) : Type 0 where
  pub same_memory : s'.memory ≡ s.memory
  pub same_end : s'.block_end ≡ s.block_end
  pub read : s'.block_read ≡ s.block_read + n
  pub reward : u64 s'.block_reward ≡ u64 (s.block_reward + paid)
  pub input_count : s'.total_input_count ≡ s.total_input_count + inputs
  pub output_count : s'.total_output_count ≡ s.total_output_count + outputs

-- What stands behind the inputs.
unfoldable pub outputs_bytes : List WireOutput → ℕ → List ℕ
outputs_bytes xs lock_time =
    compact_size (length xs) ++ (all_bytes output_bytes xs ++ le_bytes 4 lock_time)

module _ (ndebug : Bool) (dummy zero_key : List ℕ) (stack_byte file_index file_offset : ℕ) where
  -- The transaction that is read at `begin`.
  abbrev pub transaction_of :
      ℕ → ℕ → ℕ → List BlockInput → List BlockOutput → ℕ → List ℕ → BlockTransaction
  transaction_of begin version index inputs outputs lock_time bytes = record {
    transaction_version_number = version;
    inputs = inputs;
    outputs = outputs;
    lock_time = lock_time;
    transaction_hash = compute_sha256 (compute_sha256 bytes);
    transaction_length = u32 (length bytes);
    file_index = file_index;
    file_offset = u32 (file_offset + begin);
    transaction_index = index;
  }

  finish-Ahead :
      {u : Reader} (begin version index : ℕ) (inputs : List BlockInput) (outputs : List BlockOutput)
      (lock_time : ℕ) (bytes : List ℕ)
      → lock_time < 2 ^ 32
      → Ahead u (le_bytes 4 lock_time)
      → take (u.block_read + 4 - begin) (drop begin u.memory) ≡ bytes
      → finish_transaction ndebug dummy zero_key stack_byte file_index file_offset begin version
          index inputs outputs u
        ≡ ok (
          some (transaction_of begin version index inputs outputs lock_time bytes),
          record (advance u 4) { report_transaction_hash = false },
        )
  unfolding finish_transaction
  finish-Ahead {u} begin version index inputs outputs lock_time bytes small h e =
      >>=-step _ _ (read_u32-Ahead lock_time small h) (
        >>=-step (gets (λ s. take (s.block_read - begin) (drop begin s.memory))) _ refl (
          >>=-step (modify (λ s. record s { report_transaction_hash = false })) _ refl (
            ap
              (λ b. ok (
                some (transaction_of begin version index inputs outputs lock_time b),
                record (advance u 4) { report_transaction_hash = false },
              ))
              e)))

  -- The transaction that is read, with the outputs `xs`, and the reader behind it.
  pub record Ended (xs : List WireOutput) (begin version index : ℕ) (inputs : List BlockInput)
      (lock_time : ℕ) (bytes : List ℕ) (s : Reader) (n : ℕ)
      (r : Outcome (Option BlockTransaction × Reader)) : Type 0 where
    pub outputs : List BlockOutput
    pub after : Reader
    pub returns :
        r ≡ ok (some (transaction_of begin version index inputs outputs lock_time bytes), after)
    pub decodes : AreOutputsOf xs outputs
    pub moves : Passed s after n (total_value xs) 0 (length xs)

  pub read_transaction_outputs-Ended :
      {s : Reader} (begin version index : ℕ) (inputs : List BlockInput) (xs : List WireOutput)
      (lock_time : ℕ) (bytes : List ℕ)
      → All IsWireOutput xs
      → length xs < 32768
      → s.total_output_count + length xs < 32768
      → lock_time < 2 ^ 32
      → Ahead s (outputs_bytes xs lock_time)
      → s.block_end + 65 ≤ length s.memory
      → take (s.block_read + length (outputs_bytes xs lock_time) - begin) (drop begin s.memory)
        ≡ bytes
      → Ended xs begin version index inputs lock_time bytes s
          (length (outputs_bytes xs lock_time))
          (read_transaction_outputs ndebug dummy zero_key stack_byte file_index file_offset begin
            version index inputs s)
  unfolding read_transaction_outputs outputs_bytes
  read_transaction_outputs-Ended {s} begin version index inputs xs lock_time bytes w few total small
        h slack e =
      let n = length xs in
      let c = compact_size n in
      let h1 = Ahead-advance (length c) c _ refl h in
      let s2 : Reader = record (advance s (length c)) {
        total_output_count = u32 (s.total_output_count + n);
      } in
      let h2 : Ahead s2 (all_bytes output_bytes xs ++ le_bytes 4 lock_time) = record {
        rest = h1.rest;
        stands = h1.stands;
        room = h1.room;
      } in
      let d =
        read_outputs-Ahead ndebug dummy zero_key stack_byte file_index file_offset xs w
          (Ahead-first (all_bytes output_bytes xs) _ h2) slack in
      let sum : length (outputs_bytes xs lock_time)
          ≡ length c + length (all_bytes output_bytes xs) + 4 =
        omega (
          arith,
          length-append c (all_bytes output_bytes xs ++ le_bytes 4 lock_time),
          length-append (all_bytes output_bytes xs) (le_bytes 4 lock_time),
        ) in
      let same : take (d.after.block_read + 4 - begin) (drop begin d.after.memory) ≡ bytes =
        ap₂ (λ (k : ℕ) (m : List ℕ). take (k - begin) (drop begin m))
          (omega (arith, d.moves.read, sum)) d.moves.same_memory
        ∙ e in
      record {
        outputs = d.outputs;
        after = record (advance d.after 4) { report_transaction_hash = false };
        returns =
            >>=-step _ _
              (read_variable_length_integer-Ahead ndebug n (omega arith) (Ahead-first c _ h))
              (>>=-step _ _ (assert_that-true ndebug (ltb n 32768) _ (lt→ltb n 32768 few)) (
                >>=-step _ _ (gate_passes (ltb 32768 n) _ (le→not_ltb 32768 n (omega arith))) (
                  >>=-step
                    (modify (λ t. record t { total_output_count = u32 (t.total_output_count + n) }))
                    _ refl
                    (>>=-step (gets (λ t. t.total_output_count)) _ refl (
                      >>=-step _ _
                        (assert_that-true ndebug (ltb (u32 (s.total_output_count + n)) 32768) _
                          (lt→ltb _ 32768 (omega arith)))
                        (>>=-step _ _
                          (gate_passes (leb 32768 (u32 (s.total_output_count + n))) _
                            (leb-false 32768 _ (omega arith)))
                          (>>=-step _ _ d.returns (
                            finish-Ahead begin version index inputs d.outputs lock_time bytes small
                              (Ahead-Moved (all_bytes output_bytes xs) _ d.moves h2) same))))))));
        decodes = d.decodes;
        moves = record {
          same_memory = d.moves.same_memory;
          same_end = d.moves.same_end;
          read = omega (arith, d.moves.read, sum);
          reward = d.moves.reward;
          input_count = omega (arith, d.moves.same_inputs);
          output_count = omega (arith, d.moves.same_outputs);
        };
      }
