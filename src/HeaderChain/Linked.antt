-- ===== src/HeaderChain/Linked.antt =====
-- The headers of a chain in the array of src/BlockChain.cpp, each with the hash of the one before it.
use bitcoinstats.Common.{ℕ, zero, suc, ◌<◌, arith, ◌≡◌, refl, some}
use bitcoinstats.Common.{List, [], ◌∷◌, length, get_elem?}
use bitcoinstats.BlockFiles.{BlockHeader}

-- The first of these headers has this one's hash for its previous hash.
abbrev pub IsFollowedBy : BlockHeader → List BlockHeader → Type 0
IsFollowedBy a [] = Unit
IsFollowedBy a (b ∷ hs) = b.previous_block_hash ≡ a.hash

-- The previous hash of every header but the first is the hash of the header before it.
abbrev pub IsLinked : List BlockHeader → Type 0
IsLinked [] = Unit
IsLinked (a ∷ hs) = IsFollowedBy a hs × IsLinked hs

pub IsLinked-get_elem? :
    (hs : List BlockHeader) (i : ℕ)
    → IsLinked hs
    → suc i < length hs
    → (a b : BlockHeader) × (get_elem? hs i ≡ some a)
      × (get_elem? hs (suc i) ≡ some b)
      × (b.previous_block_hash ≡ a.hash)
IsLinked-get_elem? [] i w h = absurd (omega arith)
IsLinked-get_elem? (a ∷ []) i w h = absurd (omega arith)
IsLinked-get_elem? (a ∷ b ∷ hs) zero w h = (a, b, refl, refl, w.0)
IsLinked-get_elem? (a ∷ b ∷ hs) (suc i) w h = IsLinked-get_elem? (b ∷ hs) i w.1 (omega arith)
