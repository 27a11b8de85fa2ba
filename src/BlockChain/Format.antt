-- ===== src/BlockChain/Format.antt =====
-- The wire format of the Bitcoin protocol, as an independent description of what
-- src/BlockChain.cpp reads: the bytes of a variable length integer, an input, an output and a
-- transaction.
use bitcoinstats.Common.{ℕ, ◌+◌, ltb, leb, if◌then◌else◌, ◌<◌, ◌^◌, ◌≡◌}
use bitcoinstats.Common.{List, [], ◌∷◌, ◌++◌, length, le_bytes, All}

-- The variable length integer of a number below 2 ^ 32.
unfoldable pub compact_size : ℕ → List ℕ
compact_size n =
    if ltb n 0xfd then n ∷ [] else if leb n 0xffff then 0xfd ∷ le_bytes 2 n else 0xfe ∷ le_bytes 4 n

pub record WireInput : Type 0 where
  pub hash : List ℕ
  pub index : ℕ
  pub script : List ℕ
  pub sequence : ℕ

pub record WireOutput : Type 0 where
  pub value : ℕ
  pub script : List ℕ

pub record WireTransaction : Type 0 where
  pub version : ℕ
  pub inputs : List WireInput
  pub outputs : List WireOutput
  pub lock_time : ℕ

abbrev pub input_bytes : WireInput → List ℕ
input_bytes x =
    x.hash
    ++ (le_bytes 4 x.index
        ++ (compact_size (length x.script) ++ (x.script ++ le_bytes 4 x.sequence)))

abbrev pub output_bytes : WireOutput → List ℕ
output_bytes x = le_bytes 8 x.value ++ (compact_size (length x.script) ++ x.script)

abbrev pub all_bytes {ℓ} : {A : Type ℓ} → (A → List ℕ) → List A → List ℕ
all_bytes f [] = []
all_bytes f (x ∷ xs) = f x ++ all_bytes f xs

abbrev pub transaction_bytes : WireTransaction → List ℕ
transaction_bytes t =
    le_bytes 4 t.version
    ++ (compact_size (length t.inputs)
        ++ (all_bytes input_bytes t.inputs
            ++ (compact_size (length t.outputs)
                ++ (all_bytes output_bytes t.outputs ++ le_bytes 4 t.lock_time))))

-- The sizes of the fields, and scripts within the limit of the source.
pub record IsWireInput (x : WireInput) : Type 0 where
  pub hash_size : length x.hash ≡ 32
  pub index_fits : x.index < 2 ^ 32
  pub script_fits : length x.script < 32768
  pub sequence_fits : x.sequence < 2 ^ 32

pub record IsWireOutput (x : WireOutput) : Type 0 where
  pub value_fits : x.value < 2 ^ 64
  pub script_fits : length x.script < 32768

pub record IsWireTransaction (t : WireTransaction) : Type 0 where
  pub version_fits : t.version < 2 ^ 32
  pub lock_time_fits : t.lock_time < 2 ^ 32
  pub inputs_fit : All IsWireInput t.inputs
  pub outputs_fit : All IsWireOutput t.outputs
  pub some_input : 0 < length t.inputs
  pub few_inputs : length t.inputs < 32678

pub record WireBlock : Type 0 where
  pub version : ℕ
  pub previous : List ℕ
  pub merkle_root : List ℕ
  pub time : ℕ
  pub bits : ℕ
  pub nonce : ℕ
  pub transactions : List WireTransaction

abbrev pub block_bytes : WireBlock → List ℕ
block_bytes b =
    le_bytes 4 b.version
    ++ (b.previous
        ++ (b.merkle_root
            ++ (le_bytes 4 b.time
                ++ (le_bytes 4 b.bits
                    ++ (le_bytes 4 b.nonce
                        ++ (compact_size (length b.transactions)
                            ++ all_bytes transaction_bytes b.transactions))))))

pub record IsWireBlock (b : WireBlock) : Type 0 where
  pub version_fits : b.version < 2 ^ 32
  pub previous_size : length b.previous ≡ 32
  pub merkle_root_size : length b.merkle_root ≡ 32
  pub time_fits : b.time < 2 ^ 32
  pub bits_fits : b.bits < 2 ^ 32
  pub nonce_fits : b.nonce < 2 ^ 32
  pub few_transactions : length b.transactions < 32768
  pub transactions_fit : All IsWireTransaction b.transactions

-- What the transactions add to the block's counts and reward.
abbrev pub sum_of {ℓ} : {A : Type ℓ} → (A → ℕ) → List A → ℕ
sum_of f [] = 0
sum_of f (x ∷ xs) = f x + sum_of f xs
