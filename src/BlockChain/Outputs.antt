-- ===== src/BlockChain/Outputs.antt =====
-- `readOutput` of src/BlockChain.cpp on the bytes of an output.
use bitcoinstats.Common.{ℕ, ◌+◌, ◌-◌, ◌≤◌, ◌<◌, arith}
use bitcoinstats.Common.{◌≡◌, refl, sym, ap, ap₂, ◌∙◌, subst, inl, inr, Bool, Bool-cases, ◌||◌}
use bitcoinstats.Common.{ltb, leb, ◌==◌, if◌then◌else◌, lt→ltb, le→not_ltb, u64}
use bitcoinstats.Common.{List, [], ◌∷◌, ◌++◌, length, drop, le_bytes, length-append, All}
use bitcoinstats.BlockChain.Stream.{Outcome, ok, Reader, >>=-step, pure, modify, exit, M}
use bitcoinstats.BlockChain.Script.{script_keys}
use bitcoinstats.BlockChain.Addresses.{key_addresses-Returns}
use bitcoinstats.BlockChain.Format.{compact_size, WireOutput, output_bytes, all_bytes, IsWireOutput}
use bitcoinstats.BlockChain.Reads.{advance, Ahead, Ahead-advance, Ahead-first}
use bitcoinstats.BlockChain.Reads.{read_u64-Ahead, read_variable_length_integer-Ahead}
use bitcoinstats.BlockChain.Inputs.{assert_that-true, read_script-Ahead}
use bitcoinstats.BlockChain.Data.{BlockOutput}
use bitcoinstats.BlockChain.Transaction.{decode_output, read_output, read_outputs}

-- What reading outputs does to the reader: it takes `n` bytes and adds `paid` to the block's reward.
pub record Moved (s s' : Reader) (n paid : ℕ) : Type 0 where
  pub same_memory : s'.memory ≡ s.memory
  pub same_end : s'.block_end ≡ s.block_end
  pub read : s'.block_read ≡ s.block_read + n
  pub reward : u64 s'.block_reward ≡ u64 (s.block_reward + paid)
  pub same_inputs : s'.total_input_count ≡ s.total_input_count
  pub same_outputs : s'.total_output_count ≡ s.total_output_count

-- The fields of an output that its bytes tell, and the keys of its script.
pub record IsOutputOf (x : WireOutput) (o : BlockOutput) : Type 0 where
  pub same_value : o.value ≡ x.value
  pub same_length : o.challenge_script_length ≡ length x.script
  pub same_script : o.challenge_script ≡ x.script
  pub same_keys : o.keys ≡ script_keys x.script

pub Ahead-Moved :
    {s s' : Reader} (xs ys : List ℕ) {paid : ℕ}
    → Moved s s' (length xs) paid
    → Ahead s (xs ++ ys)
    → Ahead s' ys
Ahead-Moved {s} {s'} xs ys m h =
    let later = Ahead-advance (length xs) xs ys refl h in
    record {
      rest = later.rest;
      stands = ap₂ drop m.read m.same_memory ∙ later.stands;
      room = omega (arith, later.room, m.read, m.same_end);
    }

-- The test of the script's length lets a script below the limit pass.
abbrev limit : ℕ → M (Unit {0})
limit n = if leb 8192 n then pure tt else if ltb 32768 n then exit else pure tt

limit_passes : (n : ℕ) (s : Reader) → n < 32768 → limit n s ≡ ok (tt, s)
limit_passes n s h = elim (Bool-cases (leb 8192 n)) [
  | inl e ↦ rw e
  | inr e ↦ rw (e, le→not_ltb 32768 n (omega arith))
]

-- The outputs that were read, one for each on the wire.
pub AreOutputsOf : List WireOutput → List BlockOutput → Type 0
AreOutputsOf [] [] = Unit
AreOutputsOf [] (o ∷ os) = ⊥
AreOutputsOf (x ∷ xs) [] = ⊥
AreOutputsOf (x ∷ xs) (o ∷ os) = IsOutputOf x o × AreOutputsOf xs os

abbrev pub total_value : List WireOutput → ℕ
total_value [] = 0
total_value (x ∷ xs) = x.value + total_value xs

module _ (ndebug : Bool) (dummy zero_key : List ℕ) (stack_byte file_index file_offset : ℕ) where
  -- What one reading of `x` from `s` on gives.
  pub record Decoded (x : WireOutput) (s : Reader) (r : Outcome (BlockOutput × Reader))
      : Type 0 where
    pub output : BlockOutput
    pub after : Reader
    pub returns : r ≡ ok (output, after)
    pub decodes : IsOutputOf x output
    pub moves : Moved s after (length (output_bytes x)) x.value

  length-output_bytes :
      (x : WireOutput)
      → length (output_bytes x) ≡ 8 + length (compact_size (length x.script)) + length x.script
  length-output_bytes x = omega (arith, length-append (compact_size (length x.script)) x.script)

  abbrev paid : Reader → ℕ → Reader
  paid s v = record s { block_reward = u64 (s.block_reward + v) }

  -- The state in which the script's keys are looked for.
  abbrev before_keys : Reader → WireOutput → Reader
  before_keys s x =
      advance (advance (paid (advance s 8) x.value) (length (compact_size (length x.script))))
        (length x.script)

  decode_output-Decoded :
      (x : WireOutput) (s : Reader)
      → IsWireOutput x
      → s.block_read + length (output_bytes x) + 65 ≤ length s.memory
      → Decoded x s (
          decode_output ndebug dummy zero_key stack_byte file_index file_offset x.value
            (length x.script)
            x.script
            (before_keys s x))
  unfolding decode_output
  decode_output-Decoded x s w room =
      let t = before_keys s x in
      let n = length x.script in
      let found =
        key_addresses-Returns ndebug dummy zero_key stack_byte file_index file_offset t.memory
          (t.block_read - n) x.script (omega (arith, room, length-output_bytes x)) in
      let k = script_keys x.script in
      let report = t.report_transaction_hash || n == 0 || k.fell_back in
      record {
        output = record {
          value = x.value;
          challenge_script_length = n;
          challenge_script = x.script;
          keys = k;
          addresses = found.0;
        };
        after = record t {
          is_warning = t.is_warning || k.is_warning || report;
          report_transaction_hash = report;
        };
        returns = rw (found.1, decode_output);
        decodes = record {
          same_value = refl;
          same_length = refl;
          same_script = refl;
          same_keys = refl;
        };
        moves = record {
          same_memory = refl;
          same_end = refl;
          read = omega (arith, length-output_bytes x);
          reward = omega arith;
          same_inputs = refl;
          same_outputs = refl;
        };
      }

  -- For a value of 64 bits, a script below the limit, and a memory that goes on for 65 bytes
  -- behind the block, `readOutput` reads back the output with the keys of its script, takes just
  -- its bytes, and adds its value to the reward of the block modulo 2 ^ 64.
  pub read_output-Ahead :
      {s : Reader} (x : WireOutput)
      → IsWireOutput x
      → Ahead s (output_bytes x)
      → s.block_end + 65 ≤ length s.memory
      → Decoded x s (read_output ndebug dummy zero_key stack_byte file_index file_offset s)
  unfolding read_output
  read_output-Ahead {s} x w h slack =
      let n = length x.script in
      let c = compact_size n in
      let h1 = Ahead-advance 8 (le_bytes 8 x.value) _ refl h in
      let h1' : Ahead (paid (advance s 8) x.value) (c ++ x.script) = record {
        rest = h1.rest;
        stands = h1.stands;
        room = h1.room;
      } in
      let h2 = Ahead-advance (length c) c _ refl h1' in
      let d = decode_output-Decoded x s w (omega (arith, h.room, slack)) in
      record {
        output = d.output;
        after = d.after;
        returns =
            >>=-step _ _
              (read_u64-Ahead x.value w.value_fits (Ahead-first (le_bytes 8 x.value) _ h))
              (>>=-step (modify (λ t. record t { block_reward = u64 (t.block_reward + x.value) })) _
                refl
                (>>=-step _ _
                  (read_variable_length_integer-Ahead ndebug n (omega (arith, w.script_fits))
                    (Ahead-first c _ h1'))
                  (>>=-step _ _
                    (assert_that-true ndebug (ltb n 32768) _ (lt→ltb n 32768 w.script_fits))
                    (>>=-step _ _ (limit_passes n _ w.script_fits)
                      (>>=-step _ _ (read_script-Ahead n x.script refl h2) d.returns)))));
        decodes = d.decodes;
        moves = d.moves;
      }

  pub record AllDecoded (xs : List WireOutput) (s : Reader)
      (r : Outcome (List BlockOutput × Reader)) : Type 0 where
    pub outputs : List BlockOutput
    pub after : Reader
    pub returns : r ≡ ok (outputs, after)
    pub decodes : AreOutputsOf xs outputs
    pub moves : Moved s after (length (all_bytes output_bytes xs)) (total_value xs)

  Moved-Moved :
      {s t u : Reader} (m n p q : ℕ) → Moved s t m p → Moved t u n q → Moved s u (m + n) (p + q)
  Moved-Moved m n p q f g = record {
    same_memory = g.same_memory ∙ f.same_memory;
    same_end = g.same_end ∙ f.same_end;
    read = omega (arith, f.read, g.read);
    reward = omega (arith, f.reward, g.reward);
    same_inputs = g.same_inputs ∙ f.same_inputs;
    same_outputs = g.same_outputs ∙ f.same_outputs;
  }

  -- `readOutputs`, the same for the outputs of a transaction.
  pub read_outputs-Ahead :
      (xs : List WireOutput) {s : Reader}
      → All IsWireOutput xs
      → Ahead s (all_bytes output_bytes xs)
      → s.block_end + 65 ≤ length s.memory
      → AllDecoded xs s
          (read_outputs ndebug dummy zero_key stack_byte file_index file_offset (length xs) s)
  unfolding read_outputs AreOutputsOf
  read_outputs-Ahead [] {s} w h slack = record {
    outputs = [];
    after = s;
    returns = refl;
    decodes = tt;
    moves = record {
      same_memory = refl;
      same_end = refl;
      read = omega arith;
      reward = ap u64 (omega arith);
      same_inputs = refl;
      same_outputs = refl;
    };
  }
  read_outputs-Ahead (x ∷ xs) {s} w h slack =
      let one = output_bytes x in
      let d = read_output-Ahead x w.0 (Ahead-first one _ h) slack in
      let later =
        read_outputs-Ahead xs w.1 (Ahead-Moved one _ d.moves h)
          (omega (arith, slack, d.moves.same_end, ap length d.moves.same_memory)) in
      record {
        outputs = d.output ∷ later.outputs;
        after = later.after;
        returns = >>=-step _ _ d.returns (>>=-step _ _ later.returns refl);
        decodes = (d.decodes, later.decodes);
        moves =
            subst (λ (k : ℕ). Moved s later.after k (x.value + total_value xs))
              (sym (length-append one (all_bytes output_bytes xs)))
              (Moved-Moved (length one) (length (all_bytes output_bytes xs)) x.value
                (total_value xs) d.moves later.moves);
      }
