-- ===== src/BlockChain/Stream.antt =====
-- The reading functions of `BlockImpl` in src/BlockChain.cpp, over the memory that holds a block.
-- A pointer into the block is its distance from `mBlockData`.
use bitcoinstats.Common.{ℕ, ◌+◌, ◌%◌, ◌^◌, ltb, leb, if◌then◌else◌, Bool, false, ◌||◌, ◌≡◌}
use bitcoinstats.Common.{List, take, drop, le_value}

-- `exited` is a call of exit(1). `fault` is an assertion that fails, or an access outside the memory
-- of the block, which the source leaves undefined.
pub data Outcome {ℓ} (A : Type ℓ) : Type ℓ where
  ok : A → Outcome A
  exited fault : Outcome A

-- The stream pointers, and what reading changes in the block and in the globals.
pub record Reader : Type 0 where
  pub memory : List ℕ
  pub block_end : ℕ
  pub block_read : ℕ
  pub block_reward : ℕ
  pub total_input_count : ℕ
  pub total_output_count : ℕ
  pub is_warning : Bool
  pub report_transaction_hash : Bool

abbrev pub M {ℓ} : Type ℓ → Type ℓ
M A = Reader → Outcome (A × Reader)

infixl 5 ◌>>=◌ ◌>>◌
unfoldable pub ◌>>=◌ {ℓ κ} : {A : Type ℓ} {B : Type κ} → M A → (A → M B) → M B
◌>>=◌ m f s = elim (m s) [ ok (a, s') ↦ f a s' | exited ↦ exited | fault ↦ fault ]

abbrev pub ◌>>◌ {ℓ} : {B : Type ℓ} → M (Unit {0}) → M B → M B
m >> n = m >>= λ _. n

-- One step of a `do` block whose first action succeeds.
pub >>=-step {ℓ κ} :
    {A : Type ℓ} {B : Type κ} (m : M A) (f : A → M B) {s s' : Reader} {a : A}
    {r : Outcome (B × Reader)}
    → m s ≡ ok (a, s')
    → f a s' ≡ r
    → (m >>= f) s ≡ r
unfolding ◌>>=◌
>>=-step m f e h = rw (e, ◌>>=◌) h

abbrev pub pure {ℓ} : {A : Type ℓ} → A → M A
pure a s = ok (a, s)

abbrev pub exit {ℓ} : {A : Type ℓ} → M A
exit s = exited

abbrev pub modify : (Reader → Reader) → M (Unit {0})
modify f s = ok (tt, f s)

abbrev pub gets {ℓ} : {A : Type ℓ} → (Reader → A) → M A
gets f s = ok (f s, s)

-- assert(...): checked unless the build defines NDEBUG.
abbrev pub assert_that : Bool → Bool → M (Unit {0})
assert_that ndebug test s = if ndebug || test then ok (tt, s) else fault

-- The `n` bytes at the stream pointer, which is moved behind them. Beyond `mBlockEnd` the assertion
-- fails, and a build without it reads what is not the block's.
unfoldable pub read_bytes : ℕ → M (List ℕ)
read_bytes n s =
    if leb (s.block_read + n) s.block_end
    then ok (take n (drop s.block_read s.memory), record s { block_read = s.block_read + n })
    else fault

unfoldable pub read_u8 : M ℕ
read_u8 = do b ← read_bytes 1; pure (le_value b)

unfoldable pub read_u16 : M ℕ
read_u16 = do b ← read_bytes 2; pure (le_value b)

unfoldable pub read_u32 : M ℕ
read_u32 = do b ← read_bytes 4; pure (le_value b)

unfoldable pub read_u64 : M ℕ
read_u64 = do b ← read_bytes 8; pure (le_value b)

-- The hash is the 32 bytes that the returned pointer points to.
unfoldable pub read_hash : M (List ℕ)
read_hash = read_bytes 32

-- readVariableLengthInteger. In the last case the assertion `assert(0)` stands before the read.
unfoldable pub read_variable_length_integer : Bool → M ℕ
read_variable_length_integer ndebug = do
  v ← read_u8
  if ltb v 0xfd then pure v else do
    v16 ← read_u16
    if ltb v16 0xffff then pure v16 else do
      v32 ← read_u32
      if ltb v32 0xffffffff
          then pure v32
          else do assert_that ndebug false; v64 ← read_u64; pure (v64 % 2 ^ 32)

-- getReadBufferAdvance: the pointer before the move.
unfoldable pub get_read_buffer_advance : ℕ → M ℕ
get_read_buffer_advance n s =
    if leb (s.block_read + n) s.block_end
    then ok (s.block_read, record s { block_read = s.block_read + n })
    else fault
