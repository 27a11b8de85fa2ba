-- ===== src/HeaderChain/Links.antt =====
-- The chain that `buildBlockChain` of src/BlockChain.cpp leaves in its array.
use bitcoinstats.Common.{ℕ, zero, suc, ◌+◌, ◌^◌, ◌<◌, arith}
use bitcoinstats.Common.{◌≡◌, sym, subst, ap, ◌∙◌, Option, none, some, Option-cases, inl, inr}
use bitcoinstats.Common.{
  false, ◌==◌, ne→==, List, [], ◌∷◌, ◌++◌, length, reverse, length-reverse, append_assoc,
}
use mathlib.Core.List.{reverse-reverse, reverse-cons}
use bitcoinstats.Common.Options.{>>=-some}
use bitcoinstats.BlockFiles.{BlockHeader, find_header}
use bitcoinstats.HeaderChain.{HeaderChain, build_block_chain}
use bitcoinstats.HeaderChain.Linked.{IsLinked}
use bitcoinstats.HeaderChain.Gather.{walk, walk-step, length-walk, build_headers-walk}
use bitcoinstats.HeaderChain.Ranks.{HasNoCycle, find_header-hash, walk-length}

-- Headers of the set from a hash back: each has the hash that is wanted, then its previous hash is
-- wanted, until no header has it.
pub IsChainBack : List BlockHeader → List ℕ → List BlockHeader → Type 0
IsChainBack headers hash [] = find_header hash headers ≡ none
IsChainBack headers hash (h ∷ hs) =
    (h.hash ≡ hash)
    × ((find_header hash headers ≡ some h) × IsChainBack headers h.previous_block_hash hs)

-- A walk from a hash that no header has meets no header.
IsChainBack-missing :
    (fuel : ℕ) (headers : List BlockHeader) (hash : List ℕ) (l : List BlockHeader)
    → find_header hash headers ≡ none
    → walk fuel headers (find_header hash headers) ≡ some l
    → IsChainBack headers hash l
unfolding walk IsChainBack
IsChainBack-missing fuel headers hash l missing e =
    let stop : some [] ≡ some l = sym (ap (walk fuel headers) missing) ∙ e in
    let eq : [] ≡ l = cc in subst (λ (t : List BlockHeader). IsChainBack headers hash t) eq missing

walk-IsChainBack :
    (fuel : ℕ) (headers : List BlockHeader) (hash : List ℕ) (l : List BlockHeader)
    → walk fuel headers (find_header hash headers) ≡ some l
    → IsChainBack headers hash l
unfolding walk IsChainBack
walk-IsChainBack zero headers hash l e = elim (Option-cases (find_header hash headers)) [
  | inl missing ↦ IsChainBack-missing zero headers hash l missing e
  | inr (h, found) ↦ let stop : none ≡ some l = sym (ap (walk zero headers) found) ∙ e in cc
]
walk-IsChainBack (suc fuel) headers hash l e = elim (Option-cases (find_header hash headers)) [
  | inl missing ↦ IsChainBack-missing (suc fuel) headers hash l missing e
  | inr (h, found) ↦
      let (t, met, eq) =
        walk-step fuel headers h l (sym (ap (walk (suc fuel) headers) found) ∙ e) in
      subst (λ (r : List BlockHeader). IsChainBack headers hash r) (sym eq)
        (
          find_header-hash hash headers h found,
          (found, walk-IsChainBack fuel headers h.previous_block_hash t met),
        )
]

-- A chain back from a header, put in front of the headers from it on.
IsChainBack-IsLinked :
    (headers : List BlockHeader) (h : BlockHeader) (hs tail : List BlockHeader)
    → IsChainBack headers h.previous_block_hash hs
    → IsLinked (h ∷ tail)
    → IsLinked (reverse hs ++ h ∷ tail)
unfolding IsChainBack
IsChainBack-IsLinked headers h [] tail c w = w
IsChainBack-IsLinked headers h (g ∷ gs) tail c w =
    let e : reverse (g ∷ gs) ++ h ∷ tail ≡ reverse gs ++ g ∷ h ∷ tail =
      ap (λ (t : List BlockHeader). t ++ h ∷ tail) (reverse-cons g gs)
      ∙ append_assoc (reverse gs) (g ∷ []) (h ∷ tail) in
    subst (λ (t : List BlockHeader). IsLinked t) (sym e)
      (IsChainBack-IsLinked headers g gs (h ∷ tail) c.1.1 (sym c.0, w))

reverse-IsLinked :
    (headers : List BlockHeader) (hash : List ℕ) (l : List BlockHeader)
    → IsChainBack headers hash l
    → IsLinked (reverse l)
unfolding IsChainBack
reverse-IsLinked headers hash [] c = tt
reverse-IsLinked headers hash (h ∷ hs) c =
    subst (λ (t : List BlockHeader). IsLinked t) (sym (reverse-cons h hs))
      (IsChainBack-IsLinked headers h hs [] c.1.1 (tt, tt))

-- What `buildBlockChain` does: the chain that it gathers, its return value, and the members.
pub record ChainBuilt (c : HeaderChain) (r : Option (ℕ × HeaderChain)) : Type 0 where
  pub headers : List BlockHeader
  pub returns :
      r
      ≡ some (
        length headers,
        record {
          scanner = record c.scanner { scan_count = 0 };
          block_count = length headers;
          block_chain_headers = headers;
        },
      )
  pub is_chain :
      IsChainBack c.scanner.block_header_set c.scanner.last_block_header.hash (reverse headers)
  pub is_linked : IsLinked headers

-- After a scan that counted a block, of fewer than 2 ^ 32 - 1 headers without a cycle, both loops of
-- `buildBlockChain` end. The array then holds as many headers as are returned and counted. Read
-- from its end it begins with the header of the last block's hash, each header is the one of the
-- set that has the previous hash of the header after it, and the previous hash of the first is not
-- in the set. So the previous hash of every header but the first is the hash of the one before it.
pub build_block_chain-ChainBuilt :
    (unset : List ℕ) (c : HeaderChain) (rank : List ℕ → ℕ)
    → 0 < c.scanner.scan_count
    → length c.scanner.block_header_set + 1 < 2 ^ 32
    → HasNoCycle rank c.scanner.block_header_set
    → ChainBuilt c (build_block_chain unset c)
unfolding build_block_chain
build_block_chain-ChainBuilt unset c rank counted few acyclic =
    let s = c.scanner in
    let hs = s.block_header_set in
    let hash = s.last_block_header.hash in
    let (l, met) = walk-length rank hs hash acyclic in
    let size = length-walk (suc (length hs)) hs (find_header hash hs) l met in
    let fits : length l < 2 ^ 32 = omega (arith, size, few) in
    let built = build_headers-walk (suc (length hs)) unset s l met fits in
    let chain = walk-IsChainBack (suc (length hs)) hs hash l met in
    let not_zero : (s.scan_count == 0) ≡ false =
      ne→== _ _ (λ z. absurd (omega (arith, counted, z))) in
    record {
      headers = reverse l;
      returns = rw not_zero (
          >>=-some _ _ built (
            ap
              (λ (k : ℕ). some (
                k,
                record {
                  scanner = record s { scan_count = 0 };
                  block_count = k;
                  block_chain_headers = reverse l;
                },
              ))
              (sym (length-reverse l))));
      is_chain =
          subst (λ (t : List BlockHeader). IsChainBack hs hash t) (sym (reverse-reverse l)) chain;
      is_linked = reverse-IsLinked hs hash l chain;
    }
