-- ===== src/HeaderChain/Gather.antt =====
-- The two loops of `buildBlockChain` in src/BlockChain.cpp as one walk over the headers.
use bitcoinstats.Common.{ℕ, zero, suc, ◌+◌, ◌-◌, ◌^◌, ◌≤◌, ◌<◌, arith, u32}
use bitcoinstats.Common.{◌≡◌, refl, sym, ap, ◌∙◌, Option, none, some}
use bitcoinstats.Common.{List, [], ◌∷◌, ◌++◌, length, drop, set, replicate, reverse, length-set}
use bitcoinstats.Common.{length-replicate, drop_all, append_assoc, append-nil}
use mathlib.Core.List.{reverse-cons}
use bitcoinstats.Common.Options.{◌>>=◌, >>=-some, some->>=}
use bitcoinstats.BlockFiles.{BlockHeader, Scanner, find_header}
use bitcoinstats.HeaderChain.{count_blocks, gather_headers, build_headers, new_header}

-- The headers that the loops meet, the last block's first.
unfoldable pub walk : ℕ → List BlockHeader → Option BlockHeader → Option (List BlockHeader)
walk fuel headers none = some []
walk zero headers (some h) = none
walk (suc fuel) headers (some h) =
    walk fuel headers (find_header h.previous_block_hash headers) >>= λ hs. some (h ∷ hs)

pub walk-step :
    (fuel : ℕ) (headers : List BlockHeader) (h : BlockHeader) (l : List BlockHeader)
    → walk (suc fuel) headers (some h) ≡ some l
    → (t : List BlockHeader) × (walk fuel headers (find_header h.previous_block_hash headers)
        ≡ some t)
      × (l ≡ h ∷ t)
unfolding walk
walk-step fuel headers h l e =
    let (t, met, same) =
      some->>= (walk fuel headers (find_header h.previous_block_hash headers)) _ l e in
    let eq : l ≡ h ∷ t = cc in (t, met, eq)

pub length-walk :
    (fuel : ℕ) (headers : List BlockHeader) (o : Option BlockHeader) (l : List BlockHeader)
    → walk fuel headers o ≡ some l
    → length l ≤ fuel
unfolding walk
length-walk fuel headers none l e =
    let eq : l ≡ [] = cc in omega (arith, ap (λ (t : List BlockHeader). length t) eq)
length-walk zero headers (some h) l e = cc
length-walk (suc fuel) headers (some h) l e =
    let (t, met, eq) = walk-step fuel headers h l e in
    omega (
      arith,
      ap (λ (t : List BlockHeader). length t) eq,
      length-walk fuel headers (find_header h.previous_block_hash headers) t met,
    )

pub count_blocks-walk :
    (fuel : ℕ) (headers : List BlockHeader) (o : Option BlockHeader) (l : List BlockHeader) (n : ℕ)
    → walk fuel headers o ≡ some l
    → n + length l < 2 ^ 32
    → count_blocks fuel headers o n ≡ some (n + length l)
unfolding walk count_blocks
count_blocks-walk fuel headers none l n e fits =
    let eq : l ≡ [] = cc in ap some (omega (arith, ap (λ (t : List BlockHeader). length t) eq))
count_blocks-walk zero headers (some h) l n e fits = cc
count_blocks-walk (suc fuel) headers (some h) l n e fits =
    let (t, met, eq) = walk-step fuel headers h l e in
    let size = ap (λ (t : List BlockHeader). length t) eq in
    let next : u32 (n + 1) ≡ n + 1 = omega (arith, size, fits) in
    let previous = find_header h.previous_block_hash headers in
    ap (count_blocks fuel headers previous) next
    ∙ count_blocks-walk fuel headers previous t (n + 1) met (omega (arith, size, fits))
    ∙ ap some (omega (arith, size))

drop-set {ℓ} :
    {A : Type ℓ} (xs : List A) (i : ℕ) (v : A)
    → i < length xs
    → drop i (set xs i v) ≡ v ∷ drop (suc i) xs
drop-set [] i v h = absurd (omega arith)
drop-set (x ∷ xs) zero v h = refl
drop-set (x ∷ xs) (suc i) v h = drop-set xs i v (omega arith)

-- The array that the second loop fills: the headers it meets, in the order of the chain.
pub gather_headers-walk :
    (fuel : ℕ) (headers : List BlockHeader) (o : Option BlockHeader) (l array : List BlockHeader)
    → walk fuel headers o ≡ some l
    → length l < 2 ^ 32
    → length l ≤ length array
    → gather_headers fuel headers o (u32 (length l + 2 ^ 32 - 1)) array
      ≡ some (reverse l ++ drop (length l) array)
unfolding walk gather_headers
gather_headers-walk fuel headers none l array e fits room =
    let eq : l ≡ [] = cc in
    ap (λ (t : List BlockHeader). some (reverse t ++ drop (length t) array)) (sym eq)
gather_headers-walk zero headers (some h) l array e fits room = cc
gather_headers-walk (suc fuel) headers (some h) l array e fits room =
    let (t, met, eq) = walk-step fuel headers h l e in
    let size = ap (λ (t : List BlockHeader). length t) eq in
    let previous = find_header h.previous_block_hash headers in
    let at : u32 (length l + 2 ^ 32 - 1) ≡ length t = omega (arith, size, fits) in
    let room' : length t ≤ length (set array (length t) h) =
      omega (arith, size, room, length-set array (length t) h) in
    ap (λ (k : ℕ). gather_headers fuel headers previous (u32 (k + 2 ^ 32 - 1)) (set array k h)) at
    ∙ gather_headers-walk fuel headers previous t (set array (length t) h) met
        (omega (arith, size, fits)) room'
    ∙ ap (λ (r : List BlockHeader). some (reverse t ++ r))
        (drop-set array (length t) h (omega (arith, size, room)))
    ∙ ap some (sym (append_assoc (reverse t) (h ∷ []) (drop (suc (length t)) array)))
    ∙ ap (λ (r : List BlockHeader). some (r ++ drop (suc (length t)) array))
        (sym (reverse-cons h t))
    ∙ ap (λ (r : List BlockHeader). some (reverse r ++ drop (length r) array)) (sym eq)

-- Both loops give the length of the walk and its headers, first to last.
pub build_headers-walk :
    (fuel : ℕ) (unset : List ℕ) (s : Scanner) (l : List BlockHeader)
    → walk fuel s.block_header_set (find_header s.last_block_header.hash s.block_header_set)
      ≡ some l
    → length l < 2 ^ 32
    → build_headers fuel unset s ≡ some (length l, reverse l)
unfolding build_headers
build_headers-walk fuel unset s l e fits =
    let headers = s.block_header_set in
    let last = find_header s.last_block_header.hash headers in
    let array = replicate (length l) (new_header unset) in
    let size : length array ≡ length l = length-replicate (length l) (new_header unset) in
    let filled : reverse l ++ drop (length l) array ≡ reverse l =
      ap (λ (r : List BlockHeader). reverse l ++ r)
        (drop_all (length l) array (omega (arith, size)))
      ∙ append-nil (reverse l) in
    let all : 0 + length l ≡ length l = omega arith in
    >>=-some _ _ (count_blocks-walk fuel headers last l 0 e (omega (arith, fits)) ∙ ap some all) (
      >>=-some _ _ (gather_headers-walk fuel headers last l array e fits (omega (arith, size)))
        (ap (λ (r : List BlockHeader). some (length l, r)) filled))
