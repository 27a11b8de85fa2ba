-- ===== src/BlockReader/Known.antt =====
-- `processTransactions` of src/BlockChain.cpp: the transactions that are known when it returns.
use bitcoinstats.Common.{ℕ, ◌+◌, ◌≡◌, refl, sym, ap, ◌∙◌, Bool-cases, inl, inr, ◌⊎◌, ◌==◌}
use bitcoinstats.Common.{true, false, ==→eq, eq→==, ||-true, some, Option-cases}
use bitcoinstats.Common.{List, [], ◌∷◌, length, u32, All}
use bitcoinstats.Common.Equality.{same_bytes, same_bytes→eq}
use bitcoinstats.BlockChain.Stream.{ok, exited}
use bitcoinstats.BlockChain.Data.{BlockInput, BlockTransaction}
use bitcoinstats.BlockReader.{FileLocation, Ledger, find_location}
use bitcoinstats.BlockReader.{is_located, check_inputs, check_transactions}

-- A hash of the set.
abbrev pub IsKnown : List FileLocation → List ℕ → Type 0
IsKnown locations hash =
    (l : FileLocation) × (find_location hash locations ≡ some l) × (l.hash ≡ hash)

-- An input takes new coins, or the output of a known transaction.
abbrev pub IsFunded : List FileLocation → BlockInput → Type 0
IsFunded locations i = (i.transaction_index ≡ 0xFFFFFFFF) ⊎ IsKnown locations i.transaction_hash

abbrev pub AreFunded : List FileLocation → BlockTransaction → Type 0
AreFunded locations t = All (IsFunded locations) t.inputs

pub find_location-hash :
    (hash : List ℕ) (ls : List FileLocation) (l : FileLocation)
    → find_location hash ls ≡ some l
    → l.hash ≡ hash
unfolding find_location
find_location-hash hash [] l e = cc
find_location-hash hash (x ∷ ls) l e = elim (Bool-cases (same_bytes x.hash hash)) [
  | inl same ↦
      let step : find_location hash (x ∷ ls) ≡ some x = rw same refl in
      let eq : x ≡ l = cc in
      ap (λ (t : FileLocation). t.hash) (sym eq) ∙ same_bytes→eq x.hash hash same
  | inr other ↦
      let step : find_location hash (x ∷ ls) ≡ find_location hash ls = rw other refl in
      find_location-hash hash ls l (sym step ∙ e)
]

is_located-IsFunded :
    (ls : List FileLocation) (i : BlockInput) → is_located ls i ≡ true → IsFunded ls i
unfolding is_located
is_located-IsFunded ls i e = elim (Bool-cases (i.transaction_index == 0xFFFFFFFF)) [
  | inl fresh ↦ inl (==→eq _ _ fresh)
  | inr spends ↦ elim (Option-cases (find_location i.transaction_hash ls)) [
    | inl missing ↦ let no : is_located ls i ≡ false = rw (spends, missing) refl in cc
    | inr (l, found) ↦ inr (l, found, find_location-hash i.transaction_hash ls l found)
  ]
]

IsFunded-is_located :
    (ls : List FileLocation) (i : BlockInput) → IsFunded ls i → is_located ls i ≡ true
unfolding is_located
IsFunded-is_located ls i (inl fresh) = rw (eq→== _ _ fresh) refl
IsFunded-is_located ls i (inr (l, found, same)) =
    rw found (||-true (i.transaction_index == 0xFFFFFFFF))

check_inputs-All :
    (ls : List FileLocation) (is : List BlockInput)
    → check_inputs ls is ≡ true
    → All (IsFunded ls) is
unfolding check_inputs
check_inputs-All ls [] e = tt
check_inputs-All ls (i ∷ is) e = elim (Bool-cases (is_located ls i)) [
  | inl passes ↦
      let step : check_inputs ls (i ∷ is) ≡ check_inputs ls is = rw passes refl in
      (is_located-IsFunded ls i passes, check_inputs-All ls is (sym step ∙ e))
  | inr fails ↦ let step : check_inputs ls (i ∷ is) ≡ false = rw fails refl in cc
]

pub All-check_inputs :
    (ls : List FileLocation) (is : List BlockInput)
    → All (IsFunded ls) is
    → check_inputs ls is ≡ true
unfolding check_inputs
All-check_inputs ls [] a = refl
All-check_inputs ls (i ∷ is) a = rw (IsFunded-is_located ls i a.0) (All-check_inputs ls is a.1)

-- When the second loop returns, every input of the transactions is funded, and the set is as before.
pub check_transactions-All :
    (ts : List BlockTransaction) (l l' : Ledger)
    → check_transactions ts l ≡ ok l'
    → All (AreFunded l.transaction_set) ts × (l'.transaction_set ≡ l.transaction_set)
unfolding check_transactions
check_transactions-All [] l l' e =
    let eq : l ≡ l' = cc in (tt, ap (λ (r : Ledger). r.transaction_set) (sym eq))
check_transactions-All (t ∷ ts) l l' e =
    elim (Bool-cases (check_inputs l.transaction_set t.inputs)) [
      | inl passes ↦
          let counted : Ledger = record l {
            total_input_count = u32 (l.total_input_count + length t.inputs);
            total_output_count = u32 (l.total_output_count + length t.outputs);
          } in
          let step : check_transactions (t ∷ ts) l ≡ check_transactions ts counted =
            rw passes refl in
          let later = check_transactions-All ts counted l' (sym step ∙ e) in
          ((check_inputs-All l.transaction_set t.inputs passes, later.0), later.1)
      | inr fails ↦ let step : check_transactions (t ∷ ts) l ≡ exited = rw fails refl in cc
    ]
