-- ===== src/BlockChain/Inputs.antt =====
-- `readInput` of src/BlockChain.cpp on the bytes of an input.
use bitcoinstats.Common.{ℕ, zero, suc, ◌+◌, ◌≤◌, arith}
use bitcoinstats.Common.{◌≡◌, refl, sym, ap, ◌∙◌, Bool, true, false}
use bitcoinstats.Common.{ltb, lt→ltb, le→leb}
use bitcoinstats.Common.{List, [], ◌∷◌, ◌++◌, length, le_bytes, length-append, All, map}
use bitcoinstats.BlockChain.Stream.{ok, Reader, >>=-step, assert_that, get_read_buffer_advance}
use bitcoinstats.BlockChain.Format.{compact_size, WireInput, input_bytes, all_bytes, IsWireInput}
use bitcoinstats.BlockChain.Reads.{advance, Ahead, Ahead-advance, Ahead-first, Ahead-take}
use bitcoinstats.BlockChain.Reads.{
  read_hash-Ahead, read_u32-Ahead, read_variable_length_integer-Ahead,
}
use bitcoinstats.BlockChain.Data.{BlockInput}
use bitcoinstats.BlockChain.Transaction.{read_script, read_input_script, read_input, read_inputs}

pub assert_that-true :
    (ndebug b : Bool) (s : Reader) → b ≡ true → assert_that ndebug b s ≡ ok (tt, s)
assert_that-true true b s h = refl
assert_that-true false b s h = rw h

pub advance-zero : (s : Reader) → advance s 0 ≡ s
advance-zero s =
    ap (λ (k : ℕ). record s { block_read = k })
      (let e : s.block_read + 0 ≡ s.block_read = omega arith in e)

get_read_buffer_advance-room :
    (n : ℕ) (s : Reader)
    → s.block_read + n ≤ s.block_end
    → get_read_buffer_advance n s ≡ ok (s.block_read, advance s n)
unfolding get_read_buffer_advance
get_read_buffer_advance-room n s h = rw (le→leb (s.block_read + n) s.block_end h)

-- A script of `n` bytes is returned whole.
pub read_script-Ahead :
    {s : Reader} (n : ℕ) (xs : List ℕ)
    → n ≡ length xs
    → Ahead s xs
    → read_script n s ≡ ok (xs, advance s n)
unfolding read_script
read_script-Ahead {s} zero [] e h = ap (λ t. ok ([], t)) (sym (advance-zero s))
read_script-Ahead zero (x ∷ xs) e h = absurd (omega arith)
read_script-Ahead {s} (suc n) xs e h =
    >>=-step _ _ (get_read_buffer_advance-room (suc n) s (omega (arith, h.room)))
      (ap (λ t. ok (t, advance s (suc n))) (Ahead-take (suc n) xs e h))

abbrev pub input_of : WireInput → BlockInput
input_of x = record {
  transaction_hash = x.hash;
  transaction_index = x.index;
  response_script_length = length x.script;
  response_script = x.script;
  sequence_number = x.sequence;
}

length-input_bytes :
    (x : WireInput)
    → length (input_bytes x)
      ≡ length x.hash + 4 + length (compact_size (length x.script)) + length x.script + 4
length-input_bytes x =
    let c = compact_size (length x.script) in
    length-append x.hash _
    ∙ omega (
      arith,
      length-append c (x.script ++ le_bytes 4 x.sequence),
      length-append x.script (le_bytes 4 x.sequence),
    )

module _ (ndebug : Bool) (dummy zero_key : List ℕ) (stack_byte file_index file_offset : ℕ) where
  -- `readInput` reads back every input with a hash of 32 bytes, numbers of 32 bits and a script
  -- below the limit, and takes just its bytes.
  pub read_input-Ahead :
      {s : Reader} (x : WireInput)
      → IsWireInput x
      → Ahead s (input_bytes x)
      → read_input ndebug dummy zero_key stack_byte file_index file_offset s
        ≡ ok (input_of x, advance s (length (input_bytes x)))
  unfolding read_input read_input_script
  read_input-Ahead {s} x w h =
      let n = length x.script in
      let c = compact_size n in
      let h1 = Ahead-advance 32 x.hash _ (sym w.hash_size) h in
      let h2 = Ahead-advance 4 (le_bytes 4 x.index) _ refl h1 in
      let h3 = Ahead-advance (length c) c _ refl h2 in
      let h4 = Ahead-advance n x.script _ refl h3 in
      >>=-step _ _ (read_hash-Ahead x.hash w.hash_size (Ahead-first x.hash _ h)) (
        >>=-step _ _ (read_u32-Ahead x.index w.index_fits (Ahead-first (le_bytes 4 x.index) _ h1)) (
          >>=-step _ _
            (read_variable_length_integer-Ahead ndebug n (omega (arith, w.script_fits))
              (Ahead-first c _ h2))
            (>>=-step _ _ (assert_that-true ndebug (ltb n 32768) _ (lt→ltb n 32768 w.script_fits)) (
              rw (lt→ltb n 32768 w.script_fits) (
                >>=-step _ _ (read_script-Ahead n x.script refl (Ahead-first x.script _ h3)) (
                  >>=-step _ _ (read_u32-Ahead x.sequence w.sequence_fits h4) (
                    ap (λ (k : ℕ). ok (input_of x, record s { block_read = k }))
                      (omega (arith, length-input_bytes x, w.hash_size)))))))))

  -- `readInputs` reads back the inputs of a transaction.
  pub read_inputs-Ahead :
      (xs : List WireInput) {s : Reader}
      → All IsWireInput xs
      → Ahead s (all_bytes input_bytes xs)
      → read_inputs ndebug dummy zero_key stack_byte file_index file_offset (length xs) s
        ≡ ok (map input_of xs, advance s (length (all_bytes input_bytes xs)))
  unfolding read_inputs
  read_inputs-Ahead [] {s} w h = ap (λ t. ok ([], t)) (sym (advance-zero s))
  read_inputs-Ahead (x ∷ xs) {s} w h =
      let one = input_bytes x in
      >>=-step _ _ (read_input-Ahead x w.0 (Ahead-first one _ h)) (
        >>=-step _ _ (read_inputs-Ahead xs w.1 (Ahead-advance (length one) one _ refl h)) (
          ap (λ (k : ℕ). ok (map input_of (x ∷ xs), record s { block_read = k }))
            (omega (arith, length-append one (all_bytes input_bytes xs)))))
