-- ===== src/BlockChain/Transaction.antt =====
-- `readInput`, `readOutput`, `readTransaction` and `processBlockData` of src/BlockChain.cpp.
-- Log messages, the ASCII form of an address and the globals that only the messages print are left
-- out. A pointer to a hash or a script is given with the bytes that it points to.
use bitcoinstats.Common.{ℕ, zero, suc, ◌+◌, ◌-◌, ◌^◌, ltb, leb, ◌==◌, if◌then◌else◌, bit_and}
use bitcoinstats.Common.{Bool, true, false, ◌||◌, Option, none, some, u32, u64}
use bitcoinstats.Common.{List, [], ◌∷◌, ◌++◌, length, take, drop, get_or, set, replicate}
use bitcoinstats.Sha256.{compute_sha256}
use bitcoinstats.BitcoinAddress.{public_key_to_address, compressed_public_key_to_address}
use bitcoinstats.BitcoinAddress.{ripemd160_to_address, ripemd160_to_script_address}
use bitcoinstats.BlockChain.Stream.{Outcome, ok, exited, fault, M, ◌>>=◌, ◌>>◌, pure, exit}
use bitcoinstats.BlockChain.Stream.{modify, gets, assert_that, read_u32, read_u64, read_hash}
use bitcoinstats.BlockChain.Stream.{read_variable_length_integer, get_read_buffer_advance}
use bitcoinstats.BlockChain.Script.{KeyType, KeyPointer, Keys, script_keys}
use bitcoinstats.BlockChain.Data.{
  max_reasonable_script_length, max_reasonable_inputs, max_reasonable_outputs, max_block_inputs,
  max_block_outputs, max_block_transaction, BlockInput, BlockOutput, BlockTransaction, Block,
}

-- `length ? getReadBufferAdvance(length) : NULL`, and the bytes there.
unfoldable pub read_script : ℕ → M (List ℕ)
read_script zero = pure []
read_script (suc n) = do
  p ← get_read_buffer_advance (suc n)
  gets (λ s. take (suc n) (drop p s.memory))

-- The bytes that a key pointer points to, for a script that begins at `script_at`.
abbrev pub key_bytes : List ℕ → List ℕ → List ℕ → ℕ → ℕ → KeyPointer → Option (List ℕ)
key_bytes dummy zero_key memory script_at n KeyPointer.null = none
key_bytes dummy zero_key memory script_at n (KeyPointer.in_script off) =
    if leb (script_at + off + n) (length memory)
    then some (take n (drop (script_at + off) memory))
    else none
key_bytes dummy zero_key memory script_at n KeyPointer.dummy_key = some (take n (drop 1 dummy))
key_bytes dummy zero_key memory script_at n KeyPointer.zero_byte = some (take n (drop 1 zero_key))

-- An address function applied to what a pointer points to; one that fails leaves the address unset.
unfoldable pub address_from :
    (List ℕ → Option (List ℕ)) → List (List ℕ) → ℕ → Option (List ℕ) → Outcome (List (List ℕ))
address_from f addresses i none = fault
address_from f addresses i (some bytes) = elim (f bytes) [
  | none ↦ ok addresses
  | some a ↦ ok (set addresses i a)
]

abbrev pub no_addresses : List (List ℕ)
no_addresses = replicate 5 (replicate 25 0)

-- The parameters: whether the build defines NDEBUG, the global keys gDummyKey and gZeroByte, the
-- stack byte that stands behind the truncated key, and the place of the block in its file.
module _ (ndebug : Bool) (dummy zero_key : List ℕ) (stack_byte file_index file_offset : ℕ) where
  -- `for (i = 0; i < MAX_MULTISIG; i++)` over the keys from `i` on, up to the first null.
  unfoldable pub multi_sig_addresses :
      List ℕ → ℕ → ℕ → ℕ → List KeyPointer → List (List ℕ) → Outcome (List (List ℕ))
  unfolding address_from
  multi_sig_addresses memory script_at format i [] addresses = ok addresses
  multi_sig_addresses memory script_at format i (KeyPointer.null ∷ keys) addresses = ok addresses
  multi_sig_addresses memory script_at format i (key ∷ keys) addresses =
      let uncompressed = bit_and format (2 ^ i) == 0 in
      let one =
        if uncompressed
        then address_from public_key_to_address addresses i
            (key_bytes dummy zero_key memory script_at 65 key)
        else address_from compressed_public_key_to_address addresses i
            (key_bytes dummy zero_key memory script_at 33 key) in
      elim one [
        | ok addresses' ↦ multi_sig_addresses memory script_at format (i + 1) keys addresses'
        | exited ↦ exited
        | fault ↦ fault
      ]

  -- `switch (output.keyType)` at the end of `readOutput`.
  unfoldable pub key_addresses : List ℕ → ℕ → Keys → Outcome (List (List ℕ))
  unfolding multi_sig_addresses
  key_addresses memory script_at k =
      let first = λ (n : ℕ).
        key_bytes dummy zero_key memory script_at n (get_or k.public_key 0 KeyPointer.null) in
      let run = λ (f : List ℕ → Option (List ℕ)) (n : ℕ). address_from f no_addresses 0 (first n) in
      let all =
        multi_sig_addresses memory script_at k.multi_sig_format 0 k.public_key no_addresses in
      elim k.key_type [
        | KeyType.ripemd160 ↦ run (λ b. some (ripemd160_to_address b)) 20
        | KeyType.script_hash ↦ run (λ b. some (ripemd160_to_script_address b)) 20
        | KeyType.stealth ↦ run (λ b. some (ripemd160_to_address b)) 20
        | KeyType.uncompressed_public_key ↦ run public_key_to_address 65
        | KeyType.compressed_public_key ↦ run compressed_public_key_to_address 33
        | KeyType.truncated_compressed_key ↦
            run (λ b. compressed_public_key_to_address (b ++ stack_byte ∷ [])) 32
        | KeyType.multisig ↦ all
        | KeyType.unknown ↦ ok no_addresses
        | KeyType.zero_length ↦ ok no_addresses
      ]

  -- The script and the sequence number of an input, for a length that is in range.
  unfoldable pub read_input_script : List ℕ → ℕ → ℕ → M BlockInput
  read_input_script hash index n = do
    script ← read_script n
    sequence ← read_u32
    pure (record {
      transaction_hash = hash;
      transaction_index = index;
      response_script_length = n;
      response_script = script;
      sequence_number = sequence;
    })

  unfoldable pub read_input : M BlockInput
  read_input = do
    hash ← read_hash
    index ← read_u32
    n ← read_variable_length_integer ndebug
    assert_that ndebug (ltb n max_reasonable_script_length)
    if ltb n max_reasonable_script_length then read_input_script hash index n else exit

  -- The keys, the addresses and the warnings of a script that has been read.
  unfoldable pub decode_output : ℕ → ℕ → List ℕ → M BlockOutput
  decode_output value n script s =
      let script_at = s.block_read - n in
      let k = script_keys script in
      let report = s.report_transaction_hash || n == 0 || k.fell_back in
      elim (key_addresses s.memory script_at k) [
        | ok addresses ↦ ok (
          record {
            value = value;
            challenge_script_length = n;
            challenge_script = script;
            keys = k;
            addresses = addresses;
          },
          record s {
            is_warning = s.is_warning || k.is_warning || report;
            report_transaction_hash = report;
          },
        )
        | exited ↦ exited
        | fault ↦ fault
      ]

  -- The test against the limit stands in the `else` of the test for 8192 in the source.
  unfoldable pub read_output : M BlockOutput
  read_output = do
    value ← read_u64
    modify (λ s. record s { block_reward = u64 (s.block_reward + value) })
    n ← read_variable_length_integer ndebug
    assert_that ndebug (ltb n max_reasonable_script_length)
    if leb 8192 n then pure tt else if ltb max_reasonable_script_length n then exit else pure tt
    script ← read_script n
    decode_output value n script

  -- `for (i = 0; i < count; i++)`
  unfoldable pub read_inputs : ℕ → M (List BlockInput)
  read_inputs zero = pure []
  read_inputs (suc n) = do x ← read_input; xs ← read_inputs n; pure (x ∷ xs)

  unfoldable pub read_outputs : ℕ → M (List BlockOutput)
  read_outputs zero = pure []
  read_outputs (suc n) = do x ← read_output; xs ← read_outputs n; pure (x ∷ xs)

  -- The end of `readTransaction`, once the inputs and outputs are read from `begin` on.
  unfoldable pub finish_transaction :
      ℕ → ℕ → ℕ → List BlockInput → List BlockOutput → M (Option BlockTransaction)
  finish_transaction begin version index inputs outputs = do
    lock_time ← read_u32
    bytes ← gets (λ s. take (s.block_read - begin) (drop begin s.memory))
    modify (λ s. record s { report_transaction_hash = false })
    pure (
        some (record {
          transaction_version_number = version;
          inputs = inputs;
          outputs = outputs;
          lock_time = lock_time;
          transaction_hash = compute_sha256 (compute_sha256 bytes);
          transaction_length = u32 (length bytes);
          file_index = file_index;
          file_offset = u32 (file_offset + begin);
          transaction_index = index;
        }))

  -- The outputs and what follows them.
  unfoldable pub read_transaction_outputs :
      ℕ → ℕ → ℕ → List BlockInput → M (Option BlockTransaction)
  read_transaction_outputs begin version index inputs = do
    n ← read_variable_length_integer ndebug
    assert_that ndebug (ltb n max_reasonable_outputs)
    if ltb max_reasonable_outputs n then exit else pure tt
    modify (λ s. record s { total_output_count = u32 (s.total_output_count + n) })
    total ← gets (λ s. s.total_output_count)
    assert_that ndebug (ltb total max_block_outputs)
    if leb max_block_outputs total then exit else pure tt
    outputs ← read_outputs n
    finish_transaction begin version index inputs outputs

  -- `readTransaction`; `none` is its `false`, which it returns for a transaction with no inputs,
  -- since `ret` is set by the loop over the inputs only.
  unfoldable pub read_transaction : ℕ → M (Option BlockTransaction)
  read_transaction index = do
    begin ← gets (λ s. s.block_read)
    version ← read_u32
    if version == 1 || version == 2 then pure tt else modify (λ s. record s { is_warning = true })
    n ← read_variable_length_integer ndebug
    assert_that ndebug (ltb n max_reasonable_inputs)
    if leb max_reasonable_inputs n then exit else pure tt
    modify (λ s. record s { total_input_count = u32 (s.total_input_count + n) })
    total ← gets (λ s. s.total_input_count)
    assert_that ndebug (ltb total max_block_inputs)
    if leb max_block_inputs total then exit else pure tt
    inputs ← read_inputs n
    if n == 0 then pure none else read_transaction_outputs begin version index inputs

  -- The loop over the transactions of a block; the Boolean is the `ret` of `processBlockData`.
  unfoldable pub read_transactions : ℕ → ℕ → M (List BlockTransaction × Bool)
  read_transactions zero index = pure ([], true)
  read_transactions (suc n) index = do
    t ← read_transaction index
    elim t [
      | none ↦ pure ([], false)
      | some x ↦ do later ← read_transactions n (u32 (index + 1)); pure (x ∷ later.0, later.1)
    ]

  -- `processBlockData` once the stream pointers are set.
  unfoldable pub read_block_data : ℕ → M (Block × Bool)
  read_block_data index = do
    version ← read_u32
    previous ← read_hash
    merkle ← read_hash
    time ← read_u32
    bits ← read_u32
    nonce ← read_u32
    count ← read_variable_length_integer ndebug
    assert_that ndebug (ltb count max_block_transaction)
    if leb max_block_transaction count then exit else pure tt
    result ← read_transactions count index
    pure (
      record {
        block_format_version = version;
        previous_block_hash = previous;
        merkle_root = merkle;
        time_stamp = time;
        bits = bits;
        nonce = nonce;
        transaction_count = count;
        transactions = result.0;
      },
      result.1,
    )

  -- `processBlockData` on a block of `block_length` bytes at the start of `memory`.
  unfoldable pub process_block_data : List ℕ → ℕ → ℕ → M (Block × Bool)
  process_block_data memory block_length index = do
    modify (λ s. record s { memory = memory; block_read = 0; block_end = block_length })
    read_block_data index

  -- `processTransactionData`: a transaction on its own, with the index 0.
  unfoldable pub process_transaction_data : List ℕ → ℕ → M BlockTransaction
  process_transaction_data memory transaction_length = do
    modify (λ s. record s { memory = memory; block_read = 0; block_end = transaction_length })
    t ← read_transaction 0
    elim t [ none ↦ exit | some x ↦ pure x ]
