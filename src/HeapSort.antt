-- ===== src/HeapSort.antt =====
-- include/HeapSort.h: the sort of an array of pointers by a virtual comparison. Its length
-- is an int32_t. An index `high` is given as the number of the
-- elements up to it, `high + 1`.
use bitcoinstats.Common.{ℕ, zero, suc, ◌+◌, ◌-◌, ◌*◌, ◌/◌, ◌^◌, ltb, ◌==◌, if◌then◌else◌}
use bitcoinstats.Common.{Bool, true, false, ◌&&◌, Option, none, some, List, length, set, get_or}
use bitcoinstats.Common.Options.{◌>>=◌}
pub mod Arrays
mod Sift
mod Loop
mod Heapify
mod Sorted
mod Tests

-- The parameters are the test `compare(p1, p2) < 0`, and what stands for a read outside the array,
-- which the sort never makes.
module _ {ℓ} {A : Type ℓ} (less : A → A → Bool) (null : A) where
  abbrev pub at : List A → ℕ → A
  at arr i = get_or arr i null

  -- `tmp = arr[i]; arr[i] = arr[j]; arr[j] = tmp`
  abbrev pub swap : List A → ℕ → ℕ → List A
  swap arr i j = set (set arr i (at arr j)) j (at arr i)

  -- `swapIdx` once both children were compared, for a root whose left child exists.
  unfoldable pub swap_index : List A → ℕ → ℕ → ℕ
  swap_index arr root count =
      let left_child = root * 2 + 1 in
      let right_child = left_child + 1 in
      let first = if less (at arr root) (at arr left_child) then left_child else root in
      if ltb right_child count && less (at arr first) (at arr right_child)
      then right_child
      else first

  -- The loop of shiftRight. There is no result where `root * 2 + 1` overflows an int32_t, or the fuel
  -- ends first. `rightChild` is at most `high + 1`, and does not overflow.
  unfoldable pub shift_right : ℕ → List A → ℕ → ℕ → Option (List A)
  shift_right zero arr root count = none
  shift_right (suc fuel) arr root count = elim (ltb (root * 2 + 1) (2 ^ 31)) [
    | false ↦ none
    | true ↦ elim (ltb (root * 2 + 1) count) [
      | false ↦ some arr
      | true ↦ elim (swap_index arr root count == root) [
        | true ↦ some arr
        | false ↦ let i = swap_index arr root count in shift_right fuel (swap arr root i) i count
      ]
    ]
  ]

  -- The loop of heapify, from `midIdx` down to 0, for `midIdx + 1` rounds.
  unfoldable pub heapify_rounds : ℕ → List A → ℕ → Option (List A)
  heapify_rounds zero arr count = some arr
  heapify_rounds (suc mid_idx) arr count = do
    arr' ← shift_right (suc count) arr mid_idx count
    heapify_rounds mid_idx arr' count

  -- heapify: `(high - low - 1) / 2` rounds towards 0, so that it is 0 for one element and -1 for none.
  unfoldable pub heapify : List A → ℕ → Option (List A)
  heapify arr count = heapify_rounds (if count == 1 then 1 else count / 2) arr count

  -- The loop of heapSort over the elements that are left.
  unfoldable pub extract : ℕ → List A → Option (List A)
  extract zero arr = some arr
  extract (suc zero) arr = some arr
  extract (suc (suc high)) arr = do
    arr' ← shift_right (suc (suc high)) (swap arr (suc high) 0) 0 (suc high)
    extract (suc high) arr'

  unfoldable pub heap_sort : List A → Option (List A)
  heap_sort arr = do arr' ← heapify arr (length arr); extract (length arr) arr'
