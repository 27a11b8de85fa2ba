-- ===== src/HeapSort/Sorted.antt =====
-- heapSort of include/HeapSort.h sorts the array.
use bitcoinstats.Common.{ℕ, zero, suc, ◌^◌, ◌≤◌, ◌<◌, arith, ◌≡◌, ◌≢◌, refl}
use bitcoinstats.Common.{
  ap, ap₂, ◌∙◌, inl, inr, ltb, ◌==◌, ltb→lt, ltb-false→le, ==→eq, ==-false→ne,
}
use bitcoinstats.Common.{Bool, false, Bool-cases, Option, some, List, length}
use bitcoinstats.Common.Options.{>>=-some}
use bitcoinstats.HeapSort.{at, swap, extract, heap_sort}
use bitcoinstats.HeapSort.Arrays.{IsOrder, irrefl, count, length-swap, swap-first, swap-other}
use bitcoinstats.HeapSort.Sift.{parent, IsHeap, IsHeapBut}
use bitcoinstats.HeapSort.Loop.{Rearranged, Rearranged-swap}
use bitcoinstats.HeapSort.Heapify.{heapify-Sifted, heap_top}
use bitcoinstats.HeapSort.Loop.{shift_right-Sifted}

module _ {ℓ} {A : Type ℓ} (less : A → A → Bool) (null : A) where
  -- The elements from `m` on are in their places: none is below one in front of it.
  IsSettled : ℕ → List A → Type 0
  IsSettled m arr =
      (i j : ℕ)
      → i ≤ j
      → m ≤ j
      → j < length arr
      → less (at less null arr j) (at less null arr i) ≡ false

  -- What the sort promises: the same elements, none of them below one in front of it.
  pub record IsSortOf (arr out : List A) : Type ℓ where
    pub same_length : length out ≡ length arr
    pub same_count : (p : A → Bool) → count p out ≡ count p arr
    pub sorted :
        (i j : ℕ) → i ≤ j → j < length out → less (at less null out j) (at less null out i) ≡ false

  record Extracted (m : ℕ) (arr : List A) (r : Option (List A)) : Type ℓ where
    out : List A
    returns : r ≡ some out
    is_sort : IsSortOf arr out

  -- What holds below an index before the top is put behind the heap holds there afterwards.
  below_after :
      (h : ℕ) (xs ys zs : List A)
      → Rearranged less null (suc (suc h)) xs ys
      → Rearranged less null (suc h) ys zs
      → (P : A → Bool) → ((k : ℕ) → k < suc (suc h) → P (at less null xs k) ≡ false)
      → (i : ℕ) → i < suc (suc h)
      → P (at less null zs i) ≡ false
  below_after h xs ys zs f r P w i lt = elim (Bool-cases (ltb i (suc h))) [
    | inl e ↦ r.all_below P (λ k below. f.all_below P w k (omega arith)) i (ltb→lt _ _ e)
    | inr e ↦ ap P (r.same_above i (ltb-false→le _ _ e)) ∙ f.all_below P w i lt
  ]

  -- A round of the second loop: the top is put behind the heap.
  settle :
      IsOrder less
      → (h : ℕ) (arr out : List A) → suc (suc h) ≤ length arr
      → IsHeap less null 0 (suc (suc h)) arr
      → IsSettled (suc (suc h)) arr
      → Rearranged less null (suc h) (swap less null arr (suc h) 0) out
      → IsSettled (suc h) out
  unfolding IsSettled
  settle o h arr out room w done r i j le from inside =
      let x = at less null arr 0 in
      let m = suc (suc h) in
      let arr1 = swap less null arr (suc h) 0 in
      let ne : suc h ≢ 0 = λ e. absurd (omega (arith, e)) in
      let f = Rearranged-swap less null m arr (suc h) 0 (omega arith) (omega arith) room ne in
      let inside' : j < length arr =
        omega (arith, inside, r.same_length, length-swap less null arr (suc h) 0) in
      let at_j = r.same_above j from in
      elim (Bool-cases (j == suc h)) [
        | inl e ↦
            let last : at less null out j ≡ x =
              at_j
              ∙ ap (λ (k : ℕ). at less null arr1 k) (==→eq _ _ e)
              ∙ swap-first less null arr (suc h) 0 (omega arith) ne in
            ap (λ (y : A). less y (at less null out i)) last
            ∙ below_after h arr arr1 out f r (less x)
                (λ k below. heap_top less null o k k m arr w below (omega arith)) i
                (omega (arith, le, ==→eq _ _ e))
        | inr e ↦
            let above : m ≤ j = omega (arith, from, ==-false→ne _ _ e) in
            let y = at less null arr j in
            ap (λ (t : A). less t (at less null out i)) (at_j ∙ f.same_above j above)
            ∙ elim (Bool-cases (ltb i m)) [
              | inl b ↦
                  below_after h arr arr1 out f r (less y)
                    (λ k below. done k j (omega arith) above inside') i (ltb→lt _ _ b)
              | inr b ↦
                  let high = ltb-false→le _ _ b in
                  ap (less y) (r.same_above i (omega arith) ∙ f.same_above i high)
                  ∙ done i j le above inside'
            ]
      ]

  extract-Extracted :
      IsOrder less
      → (m : ℕ) (arr : List A) → m ≤ length arr
      → m ≤ 2 ^ 30
      → IsHeap less null 0 m arr
      → IsSettled m arr
      → Extracted m arr (extract less null m arr)
  unfolding extract IsSettled
  extract-Extracted o zero arr room small w done = record {
    out = arr;
    returns = refl;
    is_sort = record {
      same_length = refl;
      same_count = λ p. refl;
      sorted = λ i j le inside. done i j le (omega arith) inside;
    };
  }
  extract-Extracted o (suc zero) arr room small w done = record {
    out = arr;
    returns = refl;
    is_sort = record {
      same_length = refl;
      same_count = λ p. refl;
      sorted = λ i j le inside. elim (Bool-cases (j == 0)) [
        | inl e ↦
            let j0 = ==→eq j 0 e in
            let ij : i ≡ j = omega (arith, le, j0) in
            ap (λ (k : ℕ). less (at less null arr j) (at less null arr k)) ij
            ∙ irrefl less o (at less null arr j)
        | inr e ↦ done i j le (omega (arith, ==-false→ne j 0 e)) inside
      ];
    };
  }
  extract-Extracted o (suc (suc h)) arr room small w done =
      let m = suc (suc h) in
      let arr1 = swap less null arr (suc h) 0 in
      let ne : suc h ≢ 0 = λ e. absurd (omega (arith, e)) in
      let f = Rearranged-swap less null m arr (suc h) 0 (omega arith) (omega arith) room ne in
      let other = swap-other less null arr (suc h) 0 in
      let but : IsHeapBut less null 0 (suc h) 0 arr1 = record {
        elsewhere = λ c pos inside up p.
            ap₂ less (other (parent c) (λ e. absurd (omega (arith, e, inside))) p) (
              other c (λ e. absurd (omega (arith, e, inside)))
                (λ e. absurd (omega (arith, e, pos))))
            ∙ w c pos (omega arith) up;
        above = λ c pos inside e pos' up. absurd (omega (arith, pos'));
      } in
      let room1 : suc h ≤ length arr1 = omega (arith, room, length-swap less null arr (suc h) 0) in
      let s =
        shift_right-Sifted less null o m 0 (suc h) 0 arr1 (omega arith) (omega arith) room1
          (omega arith) (omega (arith, small)) but in
      let room2 : suc h ≤ length s.out = omega (arith, room1, s.rearranged.same_length) in
      let later =
        extract-Extracted o (suc h) s.out room2 (omega (arith, small)) s.is_heap
          (settle o h arr s.out room w done s.rearranged) in
      record {
        out = later.out;
        returns = >>=-some _ _ s.returns later.returns;
        is_sort = record {
          same_length = later.is_sort.same_length ∙ s.rearranged.same_length ∙ f.same_length;
          same_count = λ p. later.is_sort.same_count p ∙ s.rearranged.same_count p ∙ f.same_count p;
          sorted = later.is_sort.sorted;
        };
      }

  -- For a `compare` that is a strict order with transitive ties, and an array of at most 2 ^ 30
  -- elements, no index overflows and the sort ends. It gives an array of
  -- the same length and the same elements, in which no element is below one in front of it. That the
  -- elements are the same is said by their numbers: every predicate holds for as many.
  pub heap_sort-IsSortOf :
      IsOrder less
      → (arr : List A) → length arr ≤ 2 ^ 30
      → (out : List A) × (heap_sort less null arr ≡ some out) × IsSortOf arr out
  unfolding heap_sort IsSettled
  heap_sort-IsSortOf o arr small =
      let n = length arr in
      let h = heapify-Sifted less null o arr small in
      let size = h.rearranged.same_length in
      let e =
        extract-Extracted o n h.out (omega (arith, size)) small h.is_heap
          (λ i j le from inside. absurd (omega (arith, from, inside, size))) in
      (
        e.out,
        >>=-some _ _ h.returns e.returns,
        record {
          same_length = e.is_sort.same_length ∙ size;
          same_count = λ p. e.is_sort.same_count p ∙ h.rearranged.same_count p;
          sorted = e.is_sort.sorted;
        },
      )
