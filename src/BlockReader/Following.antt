-- ===== src/BlockReader/Following.antt =====
-- The hash of the next block that `readBlock` of src/BlockChain.cpp sets.
use bitcoinstats.Common.{ℕ, suc, ◌+◌, ◌-◌, ◌^◌, ◌≤◌, ◌<◌, arith, u32, ltb}
use bitcoinstats.Common.{◌≡◌, refl, ap, ◌∙◌, Bool-cases, inl, inr, ltb→lt, ltb-false→le}
use bitcoinstats.Common.{List, length, get_elem?, some}
use bitcoinstats.BlockChain.Stream.{ok}
use bitcoinstats.BlockFiles.{BlockHeader}
use bitcoinstats.HeaderChain.{HeaderChain}
use bitcoinstats.HeaderChain.Linked.{IsLinked, IsLinked-get_elem?}
use bitcoinstats.BlockReader.Reading.{next_block_hash_of}

-- The array holds a chain of two blocks or more.
pub record IsBuilt (chain : HeaderChain) : Type 0 where
  pub linked : IsLinked chain.block_chain_headers
  pub same_count : length chain.block_chain_headers ≡ chain.block_count
  pub two_blocks : 2 ≤ chain.block_count
  pub count_fits : chain.block_count < 2 ^ 32

-- The hash of the next block: that of the next header of the chain, but for the last two blocks,
-- where it is `old`.
pub data NextHash (index : ℕ) (chain : HeaderChain) (old next : List ℕ) : Type 0 where
  before_last :
      (h : BlockHeader)
      → index + 2 < chain.block_count
      → get_elem? chain.block_chain_headers (suc index) ≡ some h
      → next ≡ h.hash
      → NextHash index chain old next
  last_two : chain.block_count ≤ index + 2 → next ≡ old → NextHash index chain old next

pub next_block_hash_of-NextHash :
    (index : ℕ) (chain : HeaderChain) (old : List ℕ)
    → IsBuilt chain
    → (next : List ℕ) × (next_block_hash_of index chain old ≡ ok next)
      × NextHash index chain old next
unfolding next_block_hash_of
next_block_hash_of-NextHash index chain old w =
    let limit : u32 (chain.block_count + 2 ^ 32 - 2) ≡ chain.block_count - 2 =
      omega (arith, w.two_blocks, w.count_fits) in
    elim (Bool-cases (ltb index (u32 (chain.block_count + 2 ^ 32 - 2)))) [
      | inl e ↦
          let below : index + 2 < chain.block_count =
            omega (arith, limit, ltb→lt _ _ e, w.two_blocks) in
          let (a, b, at_a, at_b, link) =
            IsLinked-get_elem? chain.block_chain_headers (suc index) w.linked
              (omega (arith, below, w.same_count)) in
          let at : get_elem? chain.block_chain_headers (index + 2) ≡ some b =
            ap (λ (k : ℕ). get_elem? chain.block_chain_headers k) (omega arith) ∙ at_b in
          (b.previous_block_hash, rw (e, at) refl, before_last a below at_a link)
      | inr e ↦ (old, rw e refl, last_two (omega (arith, limit, ltb-false→le _ _ e)) refl)
    ]
