-- ===== src/HeapSort/Heapify.antt =====
-- heapify of include/HeapSort.h makes the array a heap.
use bitcoinstats.Common.{ℕ, zero, suc, ◌/◌, ◌^◌, ◌≤◌, ◌<◌, arith, ◌≡◌, refl}
use bitcoinstats.Common.{inl, inr, ◌==◌, ==→eq, ==-false→ne}
use bitcoinstats.Common.{Bool, false, Bool-cases, List, length}
use bitcoinstats.Common.Options.{>>=-some}
use bitcoinstats.HeapSort.{at, heapify_rounds, heapify}
use bitcoinstats.HeapSort.Arrays.{IsOrder, irrefl}
use bitcoinstats.HeapSort.Sift.{parent, IsHeap, IsHeapBut}
use bitcoinstats.HeapSort.Loop.{Rearranged-refl, Rearranged-trans}
use bitcoinstats.HeapSort.Loop.{Sifted, shift_right-Sifted}

module _ {ℓ} {A : Type ℓ} (less : A → A → Bool) (null : A) where
  heapify_rounds-Sifted :
      IsOrder less
      → (k n : ℕ) (arr : List A) → k ≤ n
      → n ≤ length arr
      → n ≤ 2 ^ 30
      → IsHeap less null k n arr
      → Sifted less null 0 n arr (heapify_rounds less null k arr n)
  unfolding heapify_rounds
  heapify_rounds-Sifted o zero n arr below room small w = record {
    out = arr;
    returns = refl;
    is_heap = w;
    rearranged = Rearranged-refl less null n arr;
  }
  heapify_rounds-Sifted o (suc k) n arr below room small w =
      let but : IsHeapBut less null k n k arr = record {
        elsewhere = λ c pos inside up ne. w c pos inside (omega (arith, up, ne));
        above = λ c pos inside e pos' up. absurd (omega (arith, pos', up));
      } in
      let first =
        shift_right-Sifted less null o (suc n) k n k arr (omega arith) (omega arith) room
          (omega arith) small but in
      let room' : n ≤ length first.out = omega (arith, room, first.rearranged.same_length) in
      let later = heapify_rounds-Sifted o k n first.out (omega arith) room' small first.is_heap in
      record {
        out = later.out;
        returns = >>=-some _ _ first.returns later.returns;
        is_heap = later.is_heap;
        rearranged = Rearranged-trans less null first.rearranged later.rearranged;
      }

  pub heapify-Sifted :
      IsOrder less
      → (arr : List A) → length arr ≤ 2 ^ 30
      → Sifted less null 0 (length arr) arr (heapify less null arr (length arr))
  unfolding heapify
  heapify-Sifted o arr small =
      let n = length arr in
      elim (Bool-cases (n == 1)) [
        | inl e ↦
            let one = ==→eq n 1 e in
            rw e (
              heapify_rounds-Sifted o 1 n arr (omega (arith, one)) (omega arith) small
                (λ c pos inside up. absurd (omega (arith, one, pos, inside))))
        | inr e ↦
            let differs = ==-false→ne n 1 e in
            rw e (
              heapify_rounds-Sifted o (n / 2) n arr (omega arith) (omega arith) small
                (λ c pos inside up. absurd (omega (arith, differs, pos, inside, up))))
      ]

  -- The first element of a heap is not below another.
  pub heap_top :
      IsOrder less
      → (fuel c n : ℕ) (arr : List A) → IsHeap less null 0 n arr
      → c < n
      → c ≤ fuel
      → less (at less null arr 0) (at less null arr c) ≡ false
  heap_top o fuel zero n arr w inside enough = irrefl less o (at less null arr 0)
  heap_top o zero (suc c) n arr w inside enough = absurd (omega arith)
  heap_top o (suc fuel) (suc c) n arr w inside enough =
      let p = parent (suc c) in
      let up = heap_top o fuel p n arr w (omega arith) (omega arith) in
      o.trans (at less null arr (suc c)) (at less null arr p) (at less null arr 0)
        (w (suc c) (omega arith) inside (omega arith)) up
