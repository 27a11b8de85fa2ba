-- ===== src/HeaderChain/Ranks.antt =====
-- The loops of `buildBlockChain` in src/BlockChain.cpp end where the headers have no cycle.
use bitcoinstats.Common.{ℕ, zero, suc, ◌+◌, ◌≤◌, ◌<◌, arith}
use bitcoinstats.Common.{◌≡◌, refl, sym, subst, ap, ◌∙◌, some, Option-cases, inl, inr}
use bitcoinstats.Common.{true, false, leb, if◌then◌else◌, Bool-cases, le→leb}
use bitcoinstats.Common.{lt→not_leb, List, [], ◌∷◌, length, All}
use bitcoinstats.Common.Options.{>>=-some}
use bitcoinstats.Common.Equality.{same_bytes, same_bytes→eq}
use bitcoinstats.BlockFiles.{BlockHeader, find_header}
use bitcoinstats.HeaderChain.Gather.{walk}

-- What is found has the hash that was looked for.
pub find_header-hash :
    (hash : List ℕ) (hs : List BlockHeader) (h : BlockHeader)
    → find_header hash hs ≡ some h
    → h.hash ≡ hash
unfolding find_header
find_header-hash hash [] h e = cc
find_header-hash hash (x ∷ hs) h e = elim (Bool-cases (same_bytes x.hash hash)) [
  | inl same ↦
      let step : find_header hash (x ∷ hs) ≡ some x = rw same refl in
      let eq : x ≡ h = cc in
      ap (λ (t : BlockHeader). t.hash) (sym eq) ∙ same_bytes→eq x.hash hash same
  | inr other ↦
      let step : find_header hash (x ∷ hs) ≡ find_header hash hs = rw other refl in
      find_header-hash hash hs h (sym step ∙ e)
]

-- A measure of the hashes by which the headers of a set have no cycle: the previous hash of a header
-- stands below its own, as the height of a block does.
abbrev pub HasNoCycle : (List ℕ → ℕ) → List BlockHeader → Type 0
HasNoCycle rank = All (λ (h : BlockHeader). rank h.previous_block_hash < rank h.hash)

module _ (rank : List ℕ → ℕ) where
  -- The headers of a set up to a rank.
  count_up_to : ℕ → List BlockHeader → ℕ
  count_up_to r [] = 0
  count_up_to r (h ∷ hs) = (if leb (rank h.hash) r then 1 else 0) + count_up_to r hs

  one_more : (a r' r : ℕ) → r' ≤ r → (if leb a r' then 1 else 0) ≤ (if leb a r then 1 else 0)
  one_more a r' r h = ground arith

  count_up_to-length : (r : ℕ) (hs : List BlockHeader) → count_up_to r hs ≤ length hs
  unfolding count_up_to
  count_up_to-length r [] = omega arith
  count_up_to-length r (h ∷ hs) = elim (Bool-cases (leb (rank h.hash) r)) [
    | inl e ↦ rw e (omega (arith, count_up_to-length r hs))
    | inr e ↦ rw e (omega (arith, count_up_to-length r hs))
  ]

  count_up_to_mono :
      (r' r : ℕ) (hs : List BlockHeader) → r' ≤ r → count_up_to r' hs ≤ count_up_to r hs
  unfolding count_up_to
  count_up_to_mono r' r [] h = omega arith
  count_up_to_mono r' r (x ∷ hs) h =
      omega (arith, one_more (rank x.hash) r' r h, count_up_to_mono r' r hs h)

  -- A header of the set is counted at its rank, and not below.
  count_up_to-find_header :
      (hash : List ℕ) (hs : List BlockHeader) (h : BlockHeader) (r' : ℕ)
      → find_header hash hs ≡ some h
      → r' < rank h.hash
      → count_up_to r' hs < count_up_to (rank h.hash) hs
  unfolding count_up_to find_header
  count_up_to-find_header hash [] h r' e below = cc
  count_up_to-find_header hash (x ∷ hs) h r' e below = elim (Bool-cases (same_bytes x.hash hash)) [
    | inl same ↦
        let step : find_header hash (x ∷ hs) ≡ some x = rw same refl in
        let eq : h ≡ x = cc in
        let at = ap (λ (t : BlockHeader). rank t.hash) eq in
        let in' : leb (rank x.hash) (rank h.hash) ≡ true = le→leb _ _ (omega (arith, at)) in
        let out : leb (rank x.hash) r' ≡ false = lt→not_leb _ _ (omega (arith, at, below)) in
        rw (in', out) (omega (arith, count_up_to_mono r' (rank h.hash) hs (omega (arith, below))))
    | inr other ↦
        let step : find_header hash (x ∷ hs) ≡ find_header hash hs = rw other refl in
        omega (
          arith,
          count_up_to-find_header hash hs h r' (sym step ∙ e) below,
          one_more (rank x.hash) r' (rank h.hash) (omega (arith, below)),
        )
  ]

  rank-find_header :
      (hash : List ℕ) (hs : List BlockHeader) (h : BlockHeader)
      → HasNoCycle rank hs
      → find_header hash hs ≡ some h
      → rank h.previous_block_hash < rank h.hash
  unfolding find_header
  rank-find_header hash [] h a e = cc
  rank-find_header hash (x ∷ hs) h a e = elim (Bool-cases (same_bytes x.hash hash)) [
    | inl same ↦
        let step : find_header hash (x ∷ hs) ≡ some x = rw same refl in
        let eq : x ≡ h = cc in
        subst (λ (t : BlockHeader). rank t.previous_block_hash < rank t.hash) eq a.0
    | inr other ↦
        let step : find_header hash (x ∷ hs) ≡ find_header hash hs = rw other refl in
        rank-find_header hash hs h a.1 (sym step ∙ e)
  ]

  -- The walk ends within as many steps as there are headers up to the rank it begins at.
  walk-fuel :
      (fuel : ℕ) (hs : List BlockHeader) (hash : List ℕ)
      → HasNoCycle rank hs
      → count_up_to (rank hash) hs ≤ fuel
      → (l : List BlockHeader) × (walk fuel hs (find_header hash hs) ≡ some l)
  unfolding walk
  walk-fuel zero hs hash a enough = elim (Option-cases (find_header hash hs)) [
    | inl e ↦ ([], ap (walk zero hs) e)
    | inr (h, e) ↦
        let at = ap rank (find_header-hash hash hs h e) in
        let up = ap (λ (r : ℕ). count_up_to r hs) at in
        absurd (
          omega (
            arith,
            up,
            enough,
            count_up_to-find_header hash hs h (rank h.previous_block_hash) e
                (rank-find_header hash hs h a e),
          ))
  ]
  walk-fuel (suc fuel) hs hash a enough = elim (Option-cases (find_header hash hs)) [
    | inl e ↦ ([], ap (walk (suc fuel) hs) e)
    | inr (h, e) ↦
        let at = ap rank (find_header-hash hash hs h e) in
        let up = ap (λ (r : ℕ). count_up_to r hs) at in
        let fewer =
          count_up_to-find_header hash hs h (rank h.previous_block_hash) e
            (rank-find_header hash hs h a e) in
        let later = walk-fuel fuel hs h.previous_block_hash a (omega (arith, up, fewer, enough)) in
        (h ∷ later.0, ap (walk (suc fuel) hs) e ∙ >>=-some _ _ later.1 refl)
  ]

  -- The walk from any hash ends within one step more than there are headers.
  pub walk-length :
      (hs : List BlockHeader) (hash : List ℕ)
      → HasNoCycle rank hs
      → (l : List BlockHeader) × (walk (suc (length hs)) hs (find_header hash hs) ≡ some l)
  walk-length hs hash a =
      walk-fuel (suc (length hs)) hs hash a (omega (arith, count_up_to-length (rank hash) hs))
