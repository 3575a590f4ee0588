-- ===== src/Funding/Conservation.antt =====
-- The wallets hold exactly what the ledger says was settled and not reversed.
use ticash.Prelude.{
  ℕ, ◌≡◌, ◌≢◌, refl, arith, Bool, true, not, ◌&&◌, some, List, [], ◌∷◌, ◌==◌, if◌then◌else◌,
  Bool-cases, inl, inr,
}
use ticash.Prelude.Maps.{Map, get, put, get-put, IsAbsent, IsDistinct}
use ticash.Prelude.Int.{ℤ, pos, ◌+ℤ◌, ◌-ℤ◌, +ℤ_shift, int_laws}
use ticash.Funding.Types.{
  FundingStatus, completed, reversed, FundingTransactionRecord, Reference, settled_reference,
  reversed_reference, has_reference, FundingStore,
}
use ticash.Funding.Settlement.{
  amount_or_zero, credit, debit, add_reference, wallet_balance, settle, reverse_settlement,
}

-- The ledger shows the funding as settled, and not as reversed.
abbrev pub counts : List Reference → ℕ → Bool
counts refs id =
    has_reference refs (settled_reference id) && not (has_reference refs (reversed_reference id))

abbrev pub contribution : ℕ → (ℕ → Bool) → ℕ → FundingTransactionRecord → ℤ
contribution user_id c id t = if t.user_id == user_id && c id then pos t.amount else pos 0

-- What a user's settled fundings add up to.
abbrev pub total : ℕ → (ℕ → Bool) → Map FundingTransactionRecord → ℤ
total user_id c [] = pos 0
total user_id c ((id, t) ∷ m) = contribution user_id c id t +ℤ total user_id c m

abbrev pub settled_total : ℕ → FundingStore → ℤ
settled_total user_id s = total user_id (counts s.ledger_references) s.transactions

pub total-same :
    (user_id id : ℕ) (c d : ℕ → Bool) (m : Map FundingTransactionRecord)
    → IsAbsent id m
    → ((j : ℕ) → j ≢ id → c j ≡ d j)
    → total user_id c m ≡ total user_id d m
total-same user_id id c d [] h e = refl
total-same user_id id c d ((j, t) ∷ m) (ne, h) e = rw (e j ne, total-same user_id id c d m h e)

pub total-put :
    (user_id id : ℕ) (c d : ℕ → Bool) (t t' : FundingTransactionRecord)
    (m : Map FundingTransactionRecord)
    → IsDistinct m
    → get id m ≡ some t
    → ((j : ℕ) → j ≢ id → c j ≡ d j)
    → total user_id c m +ℤ contribution user_id d id t'
      ≡ total user_id d (put id t' m) +ℤ contribution user_id c id t
total-put user_id id c d t t' [] h g e = cc
total-put user_id id c d t t' ((j, u) ∷ m) (absent, h) g e = elim (Bool-cases (id == j)) [
  | inl same ↦
      let e0 : id ≡ j = ground arith in
      let rest = total-same user_id id c d m (rw e0 absent) e in
      let g' : u ≡ t = ground arith in rw (same, rest, g', ← e0) (omega int_laws)
  | inr other ↦
      let e1 : c j ≡ d j = e j (ground arith) in
      rw (other, e1) (+ℤ_shift _ _ _ _ _ (total-put user_id id c d t t' m h (ground arith) e))
]

-- What a report does to the ledger and the wallets, before the record is written.
abbrev pub posted : ℕ → FundingTransactionRecord → FundingStatus → FundingStore → FundingStore
posted id t f s = reverse_settlement id t f (settle id t f s)

pub posted-transactions :
    (id : ℕ) (t : FundingTransactionRecord) (f : FundingStatus) (s : FundingStore)
    → (posted id t f s).transactions ≡ s.transactions
posted-transactions id t f s = ground arith

pub posted-counts :
    (id j : ℕ) (t : FundingTransactionRecord) (f : FundingStatus) (s : FundingStore)
    → j ≢ id
    → counts s.ledger_references j ≡ counts (posted id t f s).ledger_references j
posted-counts id j t f s h = ground arith

pub wallet_balance-credit :
    (u v : ℕ) (d : ℤ) (s : FundingStore)
    → wallet_balance u (credit v d s)
      ≡ (if u == v then wallet_balance u s +ℤ d else wallet_balance u s)
unfolding wallet_balance
wallet_balance-credit u v d s =
    let b = amount_or_zero (get v s.wallet_balances) +ℤ d in
    ground (arith, get-put u v b s.wallet_balances)

pub wallet_balance-debit :
    (u v : ℕ) (d : ℤ) (s : FundingStore)
    → wallet_balance u (debit v d s)
      ≡ (if u == v then wallet_balance u s -ℤ d else wallet_balance u s)
unfolding wallet_balance
wallet_balance-debit u v d s =
    let b = amount_or_zero (get v s.wallet_balances) -ℤ d in
    ground (arith, get-put u v b s.wallet_balances)

pub wallet_balance-same :
    (u : ℕ) (s s' : FundingStore)
    → s.wallet_balances ≡ s'.wallet_balances
    → wallet_balance u s ≡ wallet_balance u s'
unfolding wallet_balance
wallet_balance-same u s s' e = rw e

pub posted-wallet :
    (user_id id : ℕ) (t : FundingTransactionRecord) (f : FundingStatus) (s : FundingStore)
    → (has_reference s.ledger_references (reversed_reference id) ≡ true → f ≡ reversed)
    → wallet_balance user_id (posted id t f s)
        +ℤ contribution user_id (counts s.ledger_references) id t
      ≡ wallet_balance user_id s
        +ℤ contribution user_id (counts (posted id t f s).ledger_references) id t
posted-wallet u id t completed s h =
    let s1 = add_reference (settled_reference id) s in
    grind (
      int_laws,
      wallet_balance-credit u t.user_id (pos t.amount) s1,
      wallet_balance-same u s1 s refl,
    )
posted-wallet u id t reversed s h =
    let s1 = add_reference (reversed_reference id) s in
    grind (
      int_laws,
      wallet_balance-debit u t.user_id (pos t.amount) s1,
      wallet_balance-same u s1 s refl,
    )
posted-wallet user_id id t _ s h = refl
