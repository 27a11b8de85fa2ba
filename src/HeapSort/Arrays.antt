-- ===== src/HeapSort/Arrays.antt =====
-- Orders and arrays for the sort of include/HeapSort.h: a swap keeps the elements.
use bitcoinstats.Common.{ℕ, zero, suc, ◌+◌, ◌<◌, arith, ◌≡◌, ◌≢◌, sym, ap, ◌∙◌}
use bitcoinstats.Common.{Bool, true, false, if◌then◌else◌, Bool-cases, inl, inr}
use bitcoinstats.Common.{List, [], ◌∷◌, length, set, get_or, length-set}
use bitcoinstats.Common.Updates.{get_or-set, get_or-set_ne}
use bitcoinstats.HeapSort.{at, swap}

-- What the source asks of `compare`, for the test that it is negative: a strict order whose ties
-- are transitive.
pub record IsOrder {ℓ} {A : Type ℓ} (less : A → A → Bool) : Type ℓ where
  pub asym : (x y : A) → less x y ≡ true → less y x ≡ false
  pub trans : (x y z : A) → less y x ≡ false → less z y ≡ false → less z x ≡ false

pub irrefl {ℓ} : {A : Type ℓ} (less : A → A → Bool) → IsOrder less → (x : A) → less x x ≡ false
irrefl less o x = elim (Bool-cases (less x x)) [ inl e ↦ o.asym x x e | inr e ↦ e ]

-- How many elements a predicate holds for.
abbrev pub count {ℓ} : {A : Type ℓ} → (A → Bool) → List A → ℕ
count p [] = 0
count p (x ∷ xs) = (if p x then 1 else 0) + count p xs

count-set {ℓ} :
    {A : Type ℓ} (p : A → Bool) (xs : List A) (i : ℕ) (v d : A)
    → i < length xs
    → count p (set xs i v) + (if p (get_or xs i d) then 1 else 0)
      ≡ count p xs + (if p v then 1 else 0)
count-set p [] i v d h = absurd (omega arith)
count-set p (x ∷ xs) zero v d h = omega arith
count-set p (x ∷ xs) (suc i) v d h = omega (arith, count-set p xs i v d (omega arith))

module _ {ℓ} {A : Type ℓ} (less : A → A → Bool) (null : A) where
  pub length-swap : (arr : List A) (i j : ℕ) → length (swap less null arr i j) ≡ length arr
  length-swap arr i j =
      length-set (set arr i (at less null arr j)) j (at less null arr i)
      ∙ length-set arr i (at less null arr j)

  pub count-swap :
      (p : A → Bool) (arr : List A) (i j : ℕ)
      → i < length arr
      → j < length arr
      → i ≢ j
      → count p (swap less null arr i j) ≡ count p arr
  count-swap p arr i j hi hj ne =
      let x = at less null arr i in
      let y = at less null arr j in
      let first = count-set p arr i y null hi in
      let second = count-set p (set arr i y) j x null (omega (arith, hj, length-set arr i y)) in
      let same = ap {B = ℕ} (λ (z : A). if p z then 1 else 0) (get_or-set_ne arr i j y null ne) in
      omega (arith, first, second, same)

  pub swap-first :
      (arr : List A) (i j : ℕ)
      → i < length arr
      → i ≢ j
      → at less null (swap less null arr i j) i ≡ at less null arr j
  swap-first arr i j hi ne =
      get_or-set_ne (set arr i (at less null arr j)) j i (at less null arr i) null (λ e. ne (sym e))
      ∙ get_or-set arr i (at less null arr j) null hi

  pub swap-second :
      (arr : List A) (i j : ℕ)
      → j < length arr
      → at less null (swap less null arr i j) j ≡ at less null arr i
  swap-second arr i j hj =
      get_or-set (set arr i (at less null arr j)) j (at less null arr i) null
        (omega (arith, hj, length-set arr i (at less null arr j)))

  pub swap-other :
      (arr : List A) (i j k : ℕ)
      → k ≢ i
      → k ≢ j
      → at less null (swap less null arr i j) k ≡ at less null arr k
  swap-other arr i j k ni nj =
      get_or-set_ne (set arr i (at less null arr j)) j k (at less null arr i) null (λ e. nj (sym e))
      ∙ get_or-set_ne arr i k (at less null arr j) null (λ e. ni (sym e))
