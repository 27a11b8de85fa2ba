-- ===== src/RandPool/Draws.antt =====
-- The draws from the pool of include/rand.h give no number twice until the pool is exhausted.
use bitcoinstats.Common.{ℕ, zero, suc, ◌+◌, ◌-◌, ◌%◌, ◌≤◌, ◌<◌, arith, ◌≡◌, refl, sym, subst, ap}
use bitcoinstats.Common.{◌∙◌, ◌==◌, Bool-cases, inl, inr, ==-false→ne, ne→==, eq→==, true, false}
use bitcoinstats.Common.{Bool, List, ◌∷◌, length, get_or}
use bitcoinstats.RandPool.{RandPool, rand_get, draw, get, get_many, numbers_from, new_pool}
use bitcoinstats.RandPool.Swaps.{IsPool, draw-get_or, draw-IsPool}
use native.Mathlib.Nat.{mod-lt}

-- What drawing `n` numbers from a pool gives.
pub record Drawn (n : ℕ) (p : RandPool) (numbers : List ℕ) (p' : RandPool) : Type 0 where
  pub is_pool : IsPool p'
  pub left : p'.top ≡ p.top - n
  pub same_size : p'.size ≡ p.size
  pub as_many : length numbers ≡ n
  pub same_above : (k : ℕ) → p.top ≤ k → get_or p'.pool_data k 0 ≡ get_or p.pool_data k 0
  pub drawn : (i : ℕ) → i < n → get_or numbers i 0 ≡ get_or p'.pool_data (p.top - 1 - i) 0

-- A number that is left in the pool is drawn by `draw` itself.
get-draw : (p : RandPool) → 0 < p.top → get p ≡ ((draw p).0, (false, (draw p).1))
unfolding get
get-draw p some_left = rw (ne→== p.top 0 (λ e. absurd (omega (arith, e, some_left))), get) refl

draw-value :
    (p : RandPool) → IsPool p → 0 < p.top → (draw p).0 ≡ get_or (draw p).1.pool_data (p.top - 1) 0
unfolding draw
draw-value p w some_left =
    let e : (p.top - 1 == p.top - 1) ≡ true = eq→== (p.top - 1) (p.top - 1) refl in
    sym (draw-get_or p (p.top - 1) w some_left ∙ rw e refl)

draw-above :
    (p : RandPool) (k : ℕ)
    → IsPool p
    → 0 < p.top
    → p.top ≤ k
    → get_or (draw p).1.pool_data k 0 ≡ get_or p.pool_data k 0
draw-above p k w some_left above =
    let below : (rand_get p.rand).0 % p.top < p.top = mod-lt (rand_get p.rand).0 some_left in
    let not_top : (k == p.top - 1) ≡ false =
      ne→== _ _ (λ e. absurd (omega (arith, e, above, some_left))) in
    let not_entry : (k == (rand_get p.rand).0 % p.top) ≡ false =
      ne→== _ _ (λ e. absurd (omega (arith, e, above, below))) in
    draw-get_or p k w some_left ∙ rw (not_top, not_entry) refl

draw-top : (p : RandPool) → (draw p).1.top ≡ p.top - 1
unfolding draw
draw-top p = refl

draw-size : (p : RandPool) → (draw p).1.size ≡ p.size
unfolding draw
draw-size p = refl

-- The first number, and those that are drawn after it.
first_of_many :
    (n : ℕ) (p : RandPool)
    → IsPool p
    → 0 < p.top
    → (numbers : List ℕ) (p' : RandPool) → Drawn n (draw p).1 numbers p'
    → (i : ℕ) → i < suc n
    → get_or ((draw p).0 ∷ numbers) i 0 ≡ get_or p'.pool_data (p.top - 1 - i) 0
first_of_many n p w some_left numbers p' later zero h =
    let top1 = draw-top p in
    let at : p.top - 1 - 0 ≡ p.top - 1 = omega arith in
    draw-value p w some_left
    ∙ sym (later.same_above (p.top - 1) (omega (arith, top1)))
    ∙ ap (λ (k : ℕ). get_or p'.pool_data k 0) (sym at)
first_of_many n p w some_left numbers p' later (suc i) h =
    let at : (draw p).1.top - 1 - i ≡ p.top - 1 - suc i = omega (arith, draw-top p) in
    later.drawn i (omega arith) ∙ ap (λ (k : ℕ). get_or p'.pool_data k 0) at

get_many-Drawn :
    (n : ℕ) (p : RandPool) → IsPool p → n ≤ p.top → Drawn n p (get_many n p).0 (get_many n p).1
unfolding get_many
get_many-Drawn zero p w enough = record {
  is_pool = w;
  left = omega arith;
  same_size = refl;
  as_many = refl;
  same_above = λ k h. refl;
  drawn = λ i h. absurd (omega arith);
}
get_many-Drawn (suc n) p w enough =
    let some_left : 0 < p.top = omega arith in
    let p1 = (draw p).1 in
    let step = get-draw p some_left in
    let top1 : p1.top ≡ p.top - 1 = draw-top p in
    let later = get_many-Drawn n p1 (draw-IsPool p w some_left) (omega (arith, enough, top1)) in
    let many : get_many (suc n) p ≡ ((draw p).0 ∷ (get_many n p1).0, (get_many n p1).1) =
      ap (λ (g : ℕ × (Bool × RandPool)). (g.0 ∷ (get_many n g.1.1).0, (get_many n g.1.1).1)) step in
    subst (λ (r : List ℕ × RandPool). Drawn (suc n) p r.0 r.1) (sym many)
      (record {
        is_pool = later.is_pool;
        left = omega (arith, later.left, top1);
        same_size = later.same_size ∙ draw-size p;
        as_many = ap suc later.as_many;
        same_above =
            λ k h. later.same_above k (omega (arith, h, top1)) ∙ draw-above p k w some_left h;
        drawn = first_of_many n p w some_left (get_many n p1).0 (get_many n p1).1 later;
      })

-- The numbers that are drawn from a pool, and what is left.
pub record Dealt (n : ℕ) (p : RandPool) (numbers : List ℕ) (p' : RandPool) : Type 0 where
  pub as_many : length numbers ≡ n
  pub in_range : (i : ℕ) → i < n → get_or numbers i 0 < p.size
  pub different : (i j : ℕ) → i < n → j < n → get_or numbers i 0 ≡ get_or numbers j 0 → i ≡ j
  pub is_pool : IsPool p'
  pub left : p'.top ≡ p.top - n

-- From a pool with at least `n` numbers left, `n` calls of Get give `n` different numbers of the
-- pool's range, and leave a pool with `n` fewer.
pub get_many-Dealt :
    (n : ℕ) (p : RandPool) → IsPool p → n ≤ p.top → Dealt n p (get_many n p).0 (get_many n p).1
get_many-Dealt n p w enough =
    let d = get_many-Drawn n p w enough in
    let size = d.same_size in
    let inside = λ (i : ℕ) (h : i < n).
      let e : p.top - 1 - i < p.size = omega (arith, h, enough, w.top_inside) in e in
    record {
      as_many = d.as_many;
      in_range = λ i h.
          let at = d.drawn i h in
          omega
            (arith, at, size, d.is_pool.in_range (p.top - 1 - i) (omega (arith, inside i h, size)));
      different = λ i j hi hj e.
          let same =
            d.is_pool.different (p.top - 1 - i) (p.top - 1 - j) (omega (arith, inside i hi, size))
              (omega (arith, inside j hj, size)) (sym (d.drawn i hi) ∙ e ∙ d.drawn j hj) in
          omega (arith, same, hi, hj, enough);
      is_pool = d.is_pool;
      left = d.left;
    }

length-numbers_from : (i n : ℕ) → length (numbers_from i n) ≡ n
unfolding numbers_from
length-numbers_from i zero = refl
length-numbers_from i (suc n) = ap suc (length-numbers_from (i + 1) n)

get_or-numbers_from : (i n k : ℕ) → k < n → get_or (numbers_from i n) k 0 ≡ i + k
unfolding numbers_from
get_or-numbers_from i zero k h = absurd (omega arith)
get_or-numbers_from i (suc n) zero h = omega arith
get_or-numbers_from i (suc n) (suc k) h =
    let e : i + 1 + k ≡ i + suc k = omega arith in get_or-numbers_from (i + 1) n k (omega arith) ∙ e

-- A new pool holds the numbers below its size.
pub new_pool-IsPool : (size seed : ℕ) → 0 < size → IsPool (new_pool size seed)
unfolding new_pool
new_pool-IsPool size seed some_size = record {
  same_length = length-numbers_from 0 size;
  not_empty = some_size;
  top_inside = omega arith;
  in_range = λ i h. omega (arith, h, get_or-numbers_from 0 size i h);
  different = λ i j hi hj e.
      omega (arith, e, get_or-numbers_from 0 size i hi, get_or-numbers_from 0 size j hj);
}

-- The numbers of a pool stay the different numbers below its size after every call of Get, also of
-- one that finds the pool exhausted and begins again.
pub get-IsPool : (p : RandPool) → IsPool p → IsPool (get p).1.1
unfolding get
get-IsPool p w = elim (Bool-cases (p.top == 0)) [
  | inl e ↦
      let again : RandPool = record p { top = p.size } in
      let w' : IsPool again = record {
        same_length = w.same_length;
        not_empty = w.not_empty;
        top_inside = omega arith;
        in_range = w.in_range;
        different = w.different;
      } in
      let step : (get p).1.1 ≡ (draw again).1 = rw (e, get) refl in
      subst (λ (q : RandPool). IsPool q) (sym step) (draw-IsPool again w' w.not_empty)
  | inr e ↦
      let some_left : 0 < p.top = omega (arith, ==-false→ne _ _ e) in
      subst (λ (r : ℕ × (Bool × RandPool)). IsPool r.1.1) (sym (get-draw p some_left))
        (draw-IsPool p w some_left)
]
