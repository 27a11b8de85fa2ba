-- ===== src/HeapSort/Loop.antt =====
-- The loop of shiftRight in include/HeapSort.h: it ends, and leaves a heap with the same elements.
use bitcoinstats.Common.{ℕ, zero, suc, ◌+◌, ◌*◌, ◌^◌, ◌≤◌, ◌<◌, arith, ◌≡◌, ◌≢◌, refl, sym}
use bitcoinstats.Common.{ap, ap₂, ◌∙◌, inl, inr, ltb, ◌==◌, ltb→lt, lt→ltb, ltb-false→le, ==→eq}
use bitcoinstats.Common.{==-false→ne, eq→==, ne→==}
use bitcoinstats.Common.{Bool, true, false, Bool-cases, Option, some, List, length}
use bitcoinstats.HeapSort.{at, swap, swap_index, shift_right}
use bitcoinstats.HeapSort.Arrays.{IsOrder, count, length-swap, count-swap, swap-first}
use bitcoinstats.HeapSort.Arrays.{swap-second, swap-other}
use bitcoinstats.HeapSort.Sift.{parent, Under, IsHeap, IsHeapBut, swap_index-Picked}
use bitcoinstats.HeapSort.Sift.{stays, moves}

module _ {ℓ} {A : Type ℓ} (less : A → A → Bool) (null : A) where
  -- A change of an array below the index `n`: the same elements, in other places.
  pub record Rearranged (n : ℕ) (arr out : List A) : Type ℓ where
    pub same_length : length out ≡ length arr
    pub same_count : (p : A → Bool) → count p out ≡ count p arr
    pub same_above : (k : ℕ) → n ≤ k → at less null out k ≡ at less null arr k
    pub all_below :
        (P : A → Bool)
        → ((k : ℕ) → k < n → P (at less null arr k) ≡ false)
        → (k : ℕ) → k < n
        → P (at less null out k) ≡ false

  pub Rearranged-refl : (n : ℕ) (arr : List A) → Rearranged n arr arr
  Rearranged-refl n arr = record {
    same_length = refl;
    same_count = λ p. refl;
    same_above = λ k h. refl;
    all_below = λ P h. h;
  }

  pub Rearranged-trans :
      {n : ℕ} {xs ys zs : List A} → Rearranged n xs ys → Rearranged n ys zs → Rearranged n xs zs
  Rearranged-trans f g = record {
    same_length = g.same_length ∙ f.same_length;
    same_count = λ p. g.same_count p ∙ f.same_count p;
    same_above = λ k h. g.same_above k h ∙ f.same_above k h;
    all_below = λ P h. g.all_below P (f.all_below P h);
  }

  pub Rearranged-swap :
      (n : ℕ) (arr : List A) (i j : ℕ)
      → i < n
      → j < n
      → n ≤ length arr
      → i ≢ j
      → Rearranged n arr (swap less null arr i j)
  Rearranged-swap n arr i j hi hj room ne = record {
    same_length = length-swap less null arr i j;
    same_count = λ p. count-swap less null p arr i j (omega arith) (omega arith) ne;
    same_above = λ k h.
        swap-other less null arr i j k (λ e. absurd (omega (arith, e, h, hi)))
          (λ e. absurd (omega (arith, e, h, hj)));
    all_below = λ P h k below. elim (Bool-cases (k == i)) [
      | inl e ↦
          ap (λ (m : ℕ). P (at less null (swap less null arr i j) m)) (==→eq _ _ e)
          ∙ ap P (swap-first less null arr i j (omega arith) ne)
          ∙ h j hj
      | inr e ↦ elim (Bool-cases (k == j)) [
        | inl e' ↦
            ap (λ (m : ℕ). P (at less null (swap less null arr i j) m)) (==→eq _ _ e')
            ∙ ap P (swap-second less null arr i j (omega arith))
            ∙ h i hi
        | inr e' ↦
            ap P (swap-other less null arr i j k (==-false→ne _ _ e) (==-false→ne _ _ e'))
            ∙ h k below
      ]
    ];
  }

  -- After the swap the hole of the heap is at the child.
  swap-IsHeapBut :
      IsOrder less
      → (low n root i : ℕ) (arr : List A) → low ≤ root
      → n ≤ length arr
      → IsHeapBut less null low n root arr
      → root < i
      → i < n
      → parent i ≡ root
      → less (at less null arr root) (at less null arr i) ≡ true
      → ((c : ℕ) → 0 < c → c < n → parent c ≡ root → Under less null arr i c)
      → IsHeapBut less null low n i (swap less null arr root i)
  swap-IsHeapBut o low n root i arr from room w after inside child larger tops =
      let arr' = swap less null arr root i in
      let ne : root ≢ i = λ e. absurd (omega (arith, e, after)) in
      let at_root = swap-first less null arr root i (omega arith) ne in
      let at_i = swap-second less null arr root i (omega arith) in
      let other = swap-other less null arr root i in
      record {
        elsewhere = λ c pos below up not_i. elim (Bool-cases (c == i)) [
          | inl is_i ↦
              let c_i = ==→eq c i is_i in
              let p_root : parent c ≡ root = ap parent c_i ∙ child in
              ap₂ (λ (p q : ℕ). less (at less null arr' p) (at less null arr' q)) p_root c_i
              ∙ ap₂ less at_root at_i
              ∙ o.asym _ _ larger
          | inr c_i ↦ elim (Bool-cases (parent c == root)) [
            | inl is_root ↦
                let p_root = ==→eq (parent c) root is_root in
                let c_root : c ≢ root = λ e. absurd (omega (arith, e, pos, p_root)) in
                ap (λ (p : ℕ). less (at less null arr' p) (at less null arr' c)) p_root
                ∙ ap₂ less at_root (other c c_root (==-false→ne c i c_i))
                ∙ tops c pos below p_root
            | inr p_root ↦ elim (Bool-cases (c == root)) [
              | inl is_root ↦
                  let c_root = ==→eq c root is_root in
                  let p_same : parent c ≡ parent root = ap parent c_root in
                  let up' : low ≤ parent root = omega (arith, up, p_same) in
                  let pos_root : 0 < root = omega (arith, pos, c_root) in
                  ap₂ less (other (parent c) (==-false→ne _ _ p_root) not_i)
                    (ap (λ (q : ℕ). at less null arr' q) c_root ∙ at_root)
                  ∙ ap (λ (p : ℕ). less (at less null arr p) (at less null arr i)) p_same
                  ∙ w.above i (omega (arith, after)) inside child pos_root up'
              | inr c_root ↦
                  ap₂ less (other (parent c) (==-false→ne _ _ p_root) not_i)
                    (other c (==-false→ne _ _ c_root) (==-false→ne _ _ c_i))
                  ∙ w.elsewhere c pos below up (==-false→ne _ _ p_root)
            ]
          ]
        ];
        above = λ c pos below e pos' up.
            let c_root : c ≢ root = λ k. absurd (omega (arith, k, e, after, pos)) in
            let c_i : c ≢ i = λ k. absurd (omega (arith, k, e, pos)) in
            let p_root : parent c ≢ root = λ k. ne (sym k ∙ e) in
            let low_c : low ≤ parent c = omega (arith, e, from, after) in
            ap (λ (p : ℕ). less (at less null arr' p) (at less null arr' c)) child
            ∙ ap₂ less at_root (other c c_root c_i)
            ∙ ap (λ (p : ℕ). less (at less null arr p) (at less null arr c)) (sym e)
            ∙ w.elsewhere c pos below low_c p_root;
      }

  -- What shiftRight returns.
  pub record Sifted (low n : ℕ) (arr : List A) (r : Option (List A)) : Type ℓ where
    pub out : List A
    pub returns : r ≡ some out
    pub is_heap : IsHeap less null low n out
    pub rearranged : Rearranged n arr out

  -- A heap but below a root is a heap where the root is not below its children.
  IsHeapBut-IsHeap :
      {low n root : ℕ} {arr : List A}
      → IsHeapBut less null low n root arr
      → ((c : ℕ) → 0 < c → c < n → parent c ≡ root → Under less null arr root c)
      → IsHeap less null low n arr
  IsHeapBut-IsHeap {root = root} {arr = arr} w tops c pos below up =
      elim (Bool-cases (parent c == root)) [
        | inl e ↦
            let e' = ==→eq (parent c) root e in
            ap (λ (p : ℕ). less (at less null arr p) (at less null arr c)) e' ∙ tops c pos below e'
        | inr e ↦ w.elsewhere c pos below up (==-false→ne _ _ e)
      ]

  pub shift_right-Sifted :
      IsOrder less
      → (fuel low n root : ℕ) (arr : List A) → low ≤ root
      → root < n
      → n ≤ length arr
      → n < root + fuel
      → n ≤ 2 ^ 30
      → IsHeapBut less null low n root arr
      → Sifted low n arr (shift_right less null fuel arr root n)
  unfolding shift_right
  shift_right-Sifted o zero low n root arr from inside room enough small w = absurd (omega arith)
  shift_right-Sifted o (suc fuel) low n root arr from inside room enough small w =
      let fits = lt→ltb (root * 2 + 1) (2 ^ 31) (omega (arith, inside, small)) in
      elim (Bool-cases (ltb (root * 2 + 1) n)) [
        | inr e ↦ record {
          out = arr;
          returns = rw (fits, e, shift_right) refl;
          is_heap =
              IsHeapBut-IsHeap w
                (λ c pos below p. absurd (omega (arith, ltb-false→le _ _ e, pos, below, p)));
          rearranged = Rearranged-refl n arr;
        }
        | inl e ↦ elim (swap_index-Picked less null o arr root n (ltb→lt _ _ e)) [
          | stays same tops ↦ record {
            out = arr;
            returns = rw (fits, e, eq→== _ _ same, shift_right) refl;
            is_heap = IsHeapBut-IsHeap w tops;
            rearranged = Rearranged-refl n arr;
          }
          | moves after below child larger tops ↦
              let i = swap_index less null arr root n in
              let ne : root ≢ i = λ k. absurd (omega (arith, k, after)) in
              let arr' = swap less null arr root i in
              let room' : n ≤ length arr' = omega (arith, room, length-swap less null arr root i) in
              let later =
                shift_right-Sifted o fuel low n i arr' (omega (arith, from, after)) below room'
                  (omega (arith, enough, after)) small
                  (swap-IsHeapBut o low n root i arr from room w after below child larger tops) in
              record {
                out = later.out;
                returns = rw (fits, e, ne→== _ _ (λ k. ne (sym k)), shift_right) later.returns;
                is_heap = later.is_heap;
                rearranged =
                    Rearranged-trans (Rearranged-swap n arr root i inside below room ne)
                      later.rearranged;
              }
        ]
      ]
