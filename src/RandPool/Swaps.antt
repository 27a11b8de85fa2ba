-- ===== src/RandPool/Swaps.antt =====
-- The swap of RandPool::Get in include/rand.h keeps the numbers of the pool.
use bitcoinstats.Common.{ℕ, ◌-◌, ◌%◌, ◌≤◌, ◌<◌, arith, ◌≡◌, sym, ap, ◌∙◌, inl, inr}
use bitcoinstats.Common.{◌==◌, ==→eq, ==-false→ne, if◌then◌else◌, Bool-cases}
use bitcoinstats.Common.{length, set, get_or, length-set}
use bitcoinstats.Common.Updates.{get_or-set, get_or-set_ne}
use bitcoinstats.RandPool.{RandPool, rand_get, draw}
use native.Mathlib.Nat.{mod-lt}

-- The pool holds different numbers below its size, and its top is in it.
pub record IsPool (p : RandPool) : Type 0 where
  pub same_length : length p.pool_data ≡ p.size
  pub not_empty : 0 < p.size
  pub top_inside : p.top ≤ p.size
  pub in_range : (i : ℕ) → i < p.size → get_or p.pool_data i 0 < p.size
  pub different :
      (i j : ℕ) → i < p.size → j < p.size → get_or p.pool_data i 0 ≡ get_or p.pool_data j 0 → i ≡ j

-- The index whose number stands at `k` after `entry` and `top` were swapped.
abbrev pub swapped : ℕ → ℕ → ℕ → ℕ
swapped entry top k = if k == top then entry else if k == entry then top else k

swapped-lt : (entry top k n : ℕ) → entry < n → top < n → k < n → swapped entry top k < n
swapped-lt entry top k n h1 h2 h3 = ground arith

swapped-injective : (entry top i j : ℕ) → swapped entry top i ≡ swapped entry top j → i ≡ j
swapped-injective entry top i j e = ground arith

pub draw-get_or :
    (p : RandPool) (k : ℕ)
    → IsPool p
    → 0 < p.top
    → get_or (draw p).1.pool_data k 0
      ≡ get_or p.pool_data (swapped ((rand_get p.rand).0 % p.top) (p.top - 1) k) 0
unfolding draw
draw-get_or p k w some_left =
    let entry = (rand_get p.rand).0 % p.top in
    let below : entry < p.top = mod-lt (rand_get p.rand).0 some_left in
    let top = p.top - 1 in
    let ret = get_or p.pool_data entry 0 in
    let v = get_or p.pool_data top 0 in
    let moved = set p.pool_data entry v in
    let room : entry < length p.pool_data = omega (arith, below, w.same_length, w.top_inside) in
    let room' : top < length moved =
      omega (arith, some_left, w.same_length, w.top_inside, length-set p.pool_data entry v) in
    elim (Bool-cases (k == top)) [
      | inl e ↦ rw e (
          ap (λ (i : ℕ). get_or (set moved top ret) i 0) (==→eq _ _ e)
          ∙ get_or-set moved top ret 0 room')
      | inr e ↦
          let other = get_or-set_ne moved top k ret 0 (λ h. ==-false→ne _ _ e (sym h)) in
          elim (Bool-cases (k == entry)) [
            | inl e' ↦
                rw (e, e')
                  (other
                    ∙ ap (λ (i : ℕ). get_or moved i 0) (==→eq _ _ e')
                    ∙ get_or-set p.pool_data entry v 0 room)
            | inr e' ↦
                rw (e, e')
                  (other ∙ get_or-set_ne p.pool_data entry k v 0 (λ h. ==-false→ne _ _ e' (sym h)))
          ]
    ]

-- The pool keeps its numbers.
pub draw-IsPool : (p : RandPool) → IsPool p → 0 < p.top → IsPool (draw p).1
unfolding draw
draw-IsPool p w some_left =
    let entry = (rand_get p.rand).0 % p.top in
    let below : entry < p.top = mod-lt (rand_get p.rand).0 some_left in
    let top = p.top - 1 in
    let inside = λ (k : ℕ) (h : k < p.size).
      swapped-lt entry top k p.size (omega (arith, below, w.top_inside))
        (omega (arith, some_left, w.top_inside)) h in
    record {
      same_length =
          length-set (set p.pool_data entry (get_or p.pool_data top 0)) top
            (get_or p.pool_data entry 0)
          ∙ length-set p.pool_data entry (get_or p.pool_data top 0)
          ∙ w.same_length;
      not_empty = w.not_empty;
      top_inside = omega (arith, w.top_inside);
      in_range = λ i h. rw (draw-get_or p i w some_left) (w.in_range _ (inside i h));
      different = λ i j hi hj e. swapped-injective entry top i j (
          w.different _ _ (inside i hi) (inside j hj)
            (sym (draw-get_or p i w some_left) ∙ e ∙ draw-get_or p j w some_left));
    }
