-- ===== src/HeapSort/Tests.antt =====
-- The theorem on heapSort at a concrete input, and a run of it.
use bitcoinstats.Common.{ℕ, ◌≡◌, refl, arith, ltb, some, List, [], ◌∷◌}
use bitcoinstats.Common.Options.{◌>>=◌}
use bitcoinstats.HeapSort.{heap_sort, heapify, heapify_rounds, extract, shift_right, swap_index}
use bitcoinstats.HeapSort.Arrays.{IsOrder}
use bitcoinstats.HeapSort.Sorted.{IsSortOf, heap_sort-IsSortOf}

ltb-IsOrder : IsOrder ltb
ltb-IsOrder = record { asym = λ x y h. ground arith; trans = λ x y z h k. ground arith }

heap_sort_run : heap_sort ltb 0 (3 ∷ 1 ∷ 4 ∷ 1 ∷ 5 ∷ []) ≡ some (1 ∷ 1 ∷ 3 ∷ 4 ∷ 5 ∷ [])
unfolding heap_sort heapify heapify_rounds extract shift_right swap_index ◌>>=◌
heap_sort_run = refl

heap_sort_example :
    (out : List ℕ) × (heap_sort ltb 0 (3 ∷ 1 ∷ 2 ∷ []) ≡ some out)
    × IsSortOf ltb 0 (3 ∷ 1 ∷ 2 ∷ []) out
heap_sort_example = heap_sort-IsSortOf ltb 0 ltb-IsOrder (3 ∷ 1 ∷ 2 ∷ []) (omega arith)
