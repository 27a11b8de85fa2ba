-- ===== src/BlockFiles/Scanning.antt =====
-- Calls of `scanBlockChain` of src/BlockChain.cpp until it says that the scan is complete, as
-- include/BlockChain.h asks of its clients.
use bitcoinstats.Common.{ℕ, zero, suc, ◌+◌, ◌<◌}
use bitcoinstats.Common.{◌≡◌, Bool, true, false, Option, none, some}
use bitcoinstats.Common.{u32}
use bitcoinstats.Common.{List}
use bitcoinstats.BlockChain.Stream.{Outcome, ok, exited, fault}
use bitcoinstats.BlockFiles.{Scanner}
use bitcoinstats.BlockFiles.Scan.{scan_block_chain}

-- What comes out has counted as many blocks.
abbrev Keeps : ℕ → Outcome (Bool × Scanner) → Type 0
Keeps n (ok (b, s)) = s.scan_count ≡ n
Keeps n exited = Unit
Keeps n fault = Unit

-- The loop of a client. There is no result where the fuel ends first.
unfoldable pub scan_all :
    (ℕ → Option (List ℕ)) → Bool → ℕ → ℕ → ℕ → Scanner → Option (Outcome (ℕ × Scanner))
scan_all files ndebug max_blocks zero last s = none
scan_all files ndebug max_blocks (suc fuel) last s =
    elim (scan_block_chain files ndebug max_blocks last s) [
      | ok r ↦ elim r.0 [
        | true ↦ some (ok r.1)
        | false ↦ scan_all files ndebug max_blocks fuel r.1.0 r.1.1
      ]
      | exited ↦ some exited
      | fault ↦ some fault
    ]

-- A scan ends, or a block was counted.
data Scanned (n max_blocks : ℕ) (r : Outcome (Bool × (ℕ × Scanner))) : Type 0 where
  completed : (last : ℕ) (s : Scanner) → r ≡ ok (true, (last, s)) → Scanned n max_blocks r
  counted :
      (last : ℕ) (s : Scanner)
      → r ≡ ok (false, (last, s))
      → n < max_blocks
      → s.scan_count ≡ u32 (n + 1)
      → Scanned n max_blocks r
  stopped : r ≡ exited → Scanned n max_blocks r
  undefined : r ≡ fault → Scanned n max_blocks r
