-- ===== src/HeapSort/Sift.antt =====
-- shiftRight of include/HeapSort.h restores the order of a heap below its root.
use bitcoinstats.Common.{ℕ, ◌+◌, ◌-◌, ◌*◌, ◌/◌, ◌≤◌, ◌<◌, arith, ◌≡◌, ◌≢◌, refl, sym}
use bitcoinstats.Common.{subst, inl, inr, ltb, ◌==◌, ltb→lt, ltb-false→le, ==→eq}
use bitcoinstats.Common.{==-false→ne}
use bitcoinstats.Common.{Bool, true, false, Bool-cases, List}
use bitcoinstats.HeapSort.{at, swap_index}
use bitcoinstats.HeapSort.Arrays.{IsOrder, irrefl}

abbrev pub parent : ℕ → ℕ
parent c = (c - 1) / 2

module _ {ℓ} {A : Type ℓ} (less : A → A → Bool) (null : A) where
  -- The element at `c` is not above the one at `p`.
  abbrev pub Under : List A → ℕ → ℕ → Type 0
  Under arr p c = less (at less null arr p) (at less null arr c) ≡ false

  -- The order of a heap on the indices below `n` whose parents are `low` or above.
  abbrev pub IsHeap : ℕ → ℕ → List A → Type 0
  IsHeap low n arr = (c : ℕ) → 0 < c → c < n → low ≤ parent c → Under arr (parent c) c

  -- The same but below `root`, where the children are under the root's parent.
  pub record IsHeapBut (low n root : ℕ) (arr : List A) : Type 0 where
    pub elsewhere :
        (c : ℕ) → 0 < c → c < n → low ≤ parent c → parent c ≢ root → Under arr (parent c) c
    pub above :
        (c : ℕ)
        → 0 < c
        → c < n
        → parent c ≡ root
        → 0 < root
        → low ≤ parent root
        → Under arr (parent root) c

  -- What the two comparisons find: the root is above both children, or else a child of it is above
  -- the root and above every child.
  pub data Picked (arr : List A) (root n i : ℕ) : Type 0 where
    stays :
        i ≡ root
        → ((c : ℕ) → 0 < c → c < n → parent c ≡ root → Under arr root c)
        → Picked arr root n i
    moves :
        root < i
        → i < n
        → parent i ≡ root
        → less (at less null arr root) (at less null arr i) ≡ true
        → ((c : ℕ) → 0 < c → c < n → parent c ≡ root → Under arr i c)
        → Picked arr root n i

  -- The children of a root are its left and its right child.
  both_children :
      (arr : List A) (root n i : ℕ)
      → Under arr i (root * 2 + 1)
      → (root * 2 + 1 + 1 < n → Under arr i (root * 2 + 1 + 1))
      → (c : ℕ) → 0 < c
      → c < n
      → parent c ≡ root
      → Under arr i c
  both_children arr root n i left right c pos inside e = elim (Bool-cases (c == root * 2 + 1)) [
    | inl y ↦ subst (λ (k : ℕ). Under arr i k) (sym (==→eq _ _ y)) left
    | inr y ↦
        let differs = ==-false→ne c (root * 2 + 1) y in
        let at_right : root * 2 + 1 + 1 ≡ c = omega (arith, e, pos, differs) in
        subst (λ (k : ℕ). Under arr i k) at_right (right (omega (arith, at_right, inside)))
  ]

  strict_trans : IsOrder less → (x y z : A) → less x y ≡ true → less y z ≡ true → less x z ≡ true
  strict_trans o x y z h k = elim (Bool-cases (less x z)) [
    | inl e ↦ e
    | inr e ↦ let no = o.trans y z x (o.asym y z k) e in cc
  ]

  swap_index-left_larger :
      IsOrder less
      → (arr : List A) (root n : ℕ) → root * 2 + 1 < n
      → less (at less null arr root) (at less null arr (root * 2 + 1)) ≡ true
      → Picked arr root n (swap_index less null arr root n)
  unfolding swap_index
  swap_index-left_larger o arr root n inside a =
      let left = root * 2 + 1 in
      let right = left + 1 in
      let x = at less null arr root in
      let y = at less null arr left in
      let z = at less null arr right in
      elim (Bool-cases (ltb right n)) [
        | inl b ↦ elim (Bool-cases (less y z)) [
          | inl c ↦
              rw (a, b, c)
                (moves (omega arith) (ltb→lt _ _ b) (omega arith) (strict_trans o x y z a c)
                  (both_children arr root n right (o.asym y z c) (λ h. irrefl less o z)))
          | inr c ↦
              rw (a, b, c)
                (moves (omega arith) inside (omega arith) a
                  (both_children arr root n left (irrefl less o y) (λ h. c)))
        ]
        | inr b ↦
            rw (a, b)
              (moves (omega arith) inside (omega arith) a (
                both_children arr root n left (irrefl less o y)
                  (λ h. absurd (omega (arith, h, ltb-false→le _ _ b)))))
      ]

  swap_index-left_under :
      IsOrder less
      → (arr : List A) (root n : ℕ) → root * 2 + 1 < n
      → less (at less null arr root) (at less null arr (root * 2 + 1)) ≡ false
      → Picked arr root n (swap_index less null arr root n)
  unfolding swap_index
  swap_index-left_under o arr root n inside a =
      let left = root * 2 + 1 in
      let right = left + 1 in
      let x = at less null arr root in
      let y = at less null arr left in
      let z = at less null arr right in
      elim (Bool-cases (ltb right n)) [
        | inl b ↦ elim (Bool-cases (less x z)) [
          | inl c ↦
              rw (a, b, c)
                (moves (omega arith) (ltb→lt _ _ b) (omega arith) c (
                  both_children arr root n right (o.trans y x z a (o.asym x z c))
                    (λ h. irrefl less o z)))
          | inr c ↦ rw (a, b, c) (stays refl (both_children arr root n root a (λ h. c)))
        ]
        | inr b ↦
            rw (a, b)
              (stays refl (
                both_children arr root n root a
                  (λ h. absurd (omega (arith, h, ltb-false→le _ _ b)))))
      ]

  pub swap_index-Picked :
      IsOrder less
      → (arr : List A) (root n : ℕ) → root * 2 + 1 < n
      → Picked arr root n (swap_index less null arr root n)
  swap_index-Picked o arr root n inside =
      elim (Bool-cases (less (at less null arr root) (at less null arr (root * 2 + 1)))) [
        | inl a ↦ swap_index-left_larger o arr root n inside a
        | inr a ↦ swap_index-left_under o arr root n inside a
      ]
