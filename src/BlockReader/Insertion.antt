-- ===== src/BlockReader/Insertion.antt =====
-- The first loop of `processTransactions` in src/BlockChain.cpp: what it puts into the set.
use bitcoinstats.Common.{ℕ, ◌≡◌, refl, subst, ap, ◌∙◌, Bool-cases, inl, inr}
use bitcoinstats.Common.{none, some, Option-cases}
use bitcoinstats.Common.{List, [], ◌∷◌, All}
use bitcoinstats.Common.Equality.{same_bytes, same_bytes→eq, same_bytes-same}
use bitcoinstats.BlockChain.Data.{BlockTransaction}
use bitcoinstats.BlockReader.{
  FileLocation, find_location, insert_transaction, location_of, insert_transactions,
}
use bitcoinstats.BlockReader.Known.{IsKnown, find_location-hash}

insert_present :
    (t : BlockTransaction) (ls : List FileLocation) (old : FileLocation)
    → find_location t.transaction_hash ls ≡ some old
    → insert_transaction t ls ≡ ls
insert_present t ls old e = rw (e, insert_transaction) refl

insert_missing :
    (t : BlockTransaction) (ls : List FileLocation)
    → find_location t.transaction_hash ls ≡ none
    → insert_transaction t ls ≡ location_of t ∷ ls
insert_missing t ls e = rw (e, insert_transaction) refl

find_location-insert_transaction :
    (t : BlockTransaction) (ls : List FileLocation) (hash : List ℕ) (l : FileLocation)
    → find_location hash ls ≡ some l
    → find_location hash (insert_transaction t ls) ≡ some l
unfolding find_location location_of
find_location-insert_transaction t ls hash l e =
    elim (Option-cases (find_location t.transaction_hash ls)) [
      | inr (old, found) ↦ ap (find_location hash) (insert_present t ls old found) ∙ e
      | inl missing ↦ elim (Bool-cases (same_bytes t.transaction_hash hash)) [
        | inl same ↦
            let eq = same_bytes→eq t.transaction_hash hash same in
            let no : find_location hash ls ≡ none =
              subst (λ (h : List ℕ). find_location h ls ≡ none) eq missing in
            cc
        | inr other ↦ ap (find_location hash) (insert_missing t ls missing) ∙ rw other e
      ]
    ]

-- A location of the set stays the one of its hash.
pub find_location-insert_transactions :
    (ts : List BlockTransaction) (ls : List FileLocation) (hash : List ℕ) (l : FileLocation)
    → find_location hash ls ≡ some l
    → find_location hash (insert_transactions ts ls) ≡ some l
unfolding insert_transactions
find_location-insert_transactions [] ls hash l e = e
find_location-insert_transactions (t ∷ ts) ls hash l e =
    find_location-insert_transactions ts (insert_transaction t ls) hash l
      (find_location-insert_transaction t ls hash l e)

insert_transaction-IsKnown :
    (t : BlockTransaction) (ls : List FileLocation)
    → IsKnown (insert_transaction t ls) t.transaction_hash
unfolding find_location location_of
insert_transaction-IsKnown t ls = elim (Option-cases (find_location t.transaction_hash ls)) [
  | inr (old, found) ↦ (
    old,
    ap (find_location t.transaction_hash) (insert_present t ls old found) ∙ found,
    find_location-hash t.transaction_hash ls old found,
  )
  | inl missing ↦ (
    location_of t,
    ap (find_location t.transaction_hash) (insert_missing t ls missing)
        ∙ rw (same_bytes-same t.transaction_hash) refl,
    refl,
  )
]

-- Every transaction of the block is known afterwards.
pub insert_transactions-IsKnown :
    (ts : List BlockTransaction) (ls : List FileLocation)
    → All (λ (t : BlockTransaction). IsKnown (insert_transactions ts ls) t.transaction_hash) ts
unfolding insert_transactions
insert_transactions-IsKnown [] ls = tt
insert_transactions-IsKnown (t ∷ ts) ls =
    let (l, found, same) = insert_transaction-IsKnown t ls in
    let next = insert_transaction t ls in
    (
      (l, find_location-insert_transactions ts next t.transaction_hash l found, same),
      insert_transactions-IsKnown ts next,
    )
