-- ===== src/Common/Equality.antt =====
-- Equality tests on lists of numbers, as hashes are compared.
use Prim.Native.Nat.{ℕ}
use mathlib.Core.Path.{◌≡◌, refl, ap₂, sym, ◌∙◌}
use mathlib.Core.Logic.{inl, inr}
use mathlib.Core.Bool.{Bool, true, false, ◌&&◌}
use mathlib.Core.List.{List, [], ◌∷◌}
use bitcoinstats.Common.Tests.{◌==◌, ==→eq, eq→==, Bool-cases}

-- Hash256::operator==, and memcmp(...) == 0 on buffers of one length.
unfoldable pub same_bytes : List ℕ → List ℕ → Bool
same_bytes [] [] = true
same_bytes [] (y ∷ ys) = false
same_bytes (x ∷ xs) [] = false
same_bytes (x ∷ xs) (y ∷ ys) = (x == y) && same_bytes xs ys

pub same_bytes→eq : (xs ys : List ℕ) → same_bytes xs ys ≡ true → xs ≡ ys
unfolding same_bytes
same_bytes→eq [] [] h = refl
same_bytes→eq [] (y ∷ ys) h = cc
same_bytes→eq (x ∷ xs) [] h = cc
same_bytes→eq (x ∷ xs) (y ∷ ys) h = elim (Bool-cases (x == y)) [
  | inl e ↦
      let tail : same_bytes (x ∷ xs) (y ∷ ys) ≡ same_bytes xs ys = rw e refl in
      ap₂ (λ a b. a ∷ b) (==→eq x y e) (same_bytes→eq xs ys (sym tail ∙ h))
  | inr e ↦ let differ : same_bytes (x ∷ xs) (y ∷ ys) ≡ false = rw e refl in cc
]

pub same_bytes-same : (xs : List ℕ) → same_bytes xs xs ≡ true
unfolding same_bytes
same_bytes-same [] = refl
same_bytes-same (x ∷ xs) = rw (eq→== x x refl) (same_bytes-same xs)
