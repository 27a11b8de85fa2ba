-- ===== src/BlockFiles/Headers.antt =====
-- The set of headers of src/BlockChain.cpp, `mBlockHeaderSet`, as it grows.
use bitcoinstats.Common.{ℕ, ◌+◌, ◌≡◌, refl, ap, ◌∙◌, Bool-cases, inl, inr}
use bitcoinstats.Common.{none, some, Option-cases}
use bitcoinstats.Common.{List, [], ◌∷◌, length, take, All}
use bitcoinstats.Common.Equality.{same_bytes, same_bytes-same}
use bitcoinstats.Sha256.{compute_sha256}
use bitcoinstats.BlockFiles.{BlockHeader, find_header, insert_header}
use bitcoinstats.BlockFiles.Scan.{header_of}

-- The set of headers when the blocks from `place` on in this file are added to it.
abbrev pub collect : ℕ → ℕ → List (List ℕ) → List BlockHeader → List BlockHeader
collect file place [] headers = headers
collect file place (b ∷ bs) headers =
    collect file (place + 8 + length b) bs
      (insert_header (header_of file (place + 8) (length b) (take 80 b)) headers)

-- A hash that a header of the set has.
abbrev pub IsFound : List BlockHeader → List ℕ → Type 0
IsFound headers hash = (h : BlockHeader) × (find_header hash headers ≡ some h)

insert_header-missing :
    (h : BlockHeader) (hs : List BlockHeader)
    → find_header h.hash hs ≡ none
    → insert_header h hs ≡ h ∷ hs
unfolding insert_header
insert_header-missing h hs e = rw (e, insert_header) refl

insert_header-present :
    (h : BlockHeader) (hs : List BlockHeader) (old : BlockHeader)
    → find_header h.hash hs ≡ some old
    → insert_header h hs ≡ hs
unfolding insert_header
insert_header-present h hs old e = rw (e, insert_header) refl

find_header-insert_header :
    (hash : List ℕ) (n : BlockHeader) (hs : List BlockHeader)
    → IsFound hs hash
    → IsFound (insert_header n hs) hash
unfolding find_header
find_header-insert_header hash n hs (h, e) = elim (Option-cases (find_header n.hash hs)) [
  | inr (old, found) ↦ (h, ap (find_header hash) (insert_header-present n hs old found) ∙ e)
  | inl missing ↦
      let grown = ap (find_header hash) (insert_header-missing n hs missing) in
      elim (Bool-cases (same_bytes n.hash hash)) [
        | inl same ↦ (n, grown ∙ rw same refl)
        | inr other ↦ (h, grown ∙ rw other e)
      ]
]

pub insert_header-IsFound :
    (n : BlockHeader) (hs : List BlockHeader) → IsFound (insert_header n hs) n.hash
unfolding find_header
insert_header-IsFound n hs = elim (Option-cases (find_header n.hash hs)) [
  | inr (old, found) ↦ (old, ap (find_header n.hash) (insert_header-present n hs old found) ∙ found)
  | inl missing ↦ (
    n,
    ap (find_header n.hash) (insert_header-missing n hs missing) ∙ rw (same_bytes-same n.hash) refl,
  )
]

-- A hash that the set has is not lost.
pub find_header-collect :
    (file place : ℕ) (bs : List (List ℕ)) (hs : List BlockHeader) (hash : List ℕ)
    → IsFound hs hash
    → IsFound (collect file place bs hs) hash
find_header-collect file place [] hs hash f = f
find_header-collect file place (b ∷ bs) hs hash f =
    let n = header_of file (place + 8) (length b) (take 80 b) in
    find_header-collect file (place + 8 + length b) bs (insert_header n hs) hash
      (find_header-insert_header hash n hs f)

-- The double hash of every block is found.
pub collect-IsFound :
    (file place : ℕ) (bs : List (List ℕ)) (hs : List BlockHeader)
    → All
        (λ (b : List ℕ).
          IsFound (collect file place bs hs) (compute_sha256 (compute_sha256 (take 80 b))))
        bs
unfolding header_of
collect-IsFound file place [] hs = tt
collect-IsFound file place (b ∷ bs) hs =
    let n = header_of file (place + 8) (length b) (take 80 b) in
    (
      find_header-collect file (place + 8 + length b) bs (insert_header n hs) n.hash
          (insert_header-IsFound n hs),
      collect-IsFound file (place + 8 + length b) bs (insert_header n hs),
    )
