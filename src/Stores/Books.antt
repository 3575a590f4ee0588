-- ===== src/Stores/Books.antt =====
-- The books of the stores: what the balances and the holds must be, by the journals.
use ticash.Prelude.{
  ℕ, ◌≤◌, ◌≡◌, refl, arith, ap, Bool, true, false, none, some, List, [], ◌∷◌, if◌then◌else◌, ◌==◌,
  Bool-cases, inl, inr,
}
use ticash.Prelude.Lists.{All}
use ticash.Prelude.Maps.{Map, get, put}
use ticash.Prelude.Int.{ℤ, pos, negsuc, ◌+ℤ◌, ◌≤ℤ◌, int_laws, +ℤ_shift, pos_part, neg_part}
use ticash.Stores.Types.{
  Store, Order, OrderStatus, held, Account, balance, held_account, funding_clearing,
  provider_settlement, fee_revenue, Journal, Database,
}
use ticash.Stores.Ledger.{sum_lines, nonzero_lines}

abbrev pub balances_total : Map Store → ℤ
balances_total [] = pos 0
balances_total ((_, x) ∷ m) = x.balance_cents +ℤ balances_total m

abbrev pub held_cents : OrderStatus → Order → ℤ
held_cents held order = pos order.total_cents
held_cents _ order = pos 0

abbrev pub held_total : Map Order → ℤ
held_total [] = pos 0
held_total ((_, x) ∷ m) = held_cents x.status x +ℤ held_total m

abbrev pub same_account : Account → Account → Bool
same_account balance balance = true
same_account held_account held_account = true
same_account funding_clearing funding_clearing = true
same_account provider_settlement provider_settlement = true
same_account fee_revenue fee_revenue = true
same_account _ _ = false

abbrev pub line_total : Account → List (Account × ℤ) → ℤ
line_total a [] = pos 0
line_total a ((b, x) ∷ ls) = (if same_account a b then x else pos 0) +ℤ line_total a ls

abbrev pub account_total : Account → List Journal → ℤ
account_total a [] = pos 0
account_total a (j ∷ js) = line_total a j.lines +ℤ account_total a js

-- The order's shares: the commission is part of the fee, and the fee of the total.
abbrev pub IsFair : Order → Type 0
IsFair order = (order.commission_cents ≤ order.fee_cents) × (order.fee_cents ≤ order.total_cents)

-- The books, where the store balances are off by `x` from the balance account and the held orders by
-- `y` from the hold account; between operations both are zero.
pub record Books (x y : ℤ) (db : Database) : Type 0 where
  pub cash : balances_total db.stores +ℤ account_total balance db.journals ≡ x
  pub holds : held_total db.orders +ℤ account_total held_account db.journals ≡ y
  pub balanced : All (λ j. sum_lines j.lines ≡ pos 0) db.journals
  pub keyed : (id : ℕ) (store : Store) → get id db.stores ≡ some store → store.id ≡ id
  pub solvent :
      (id : ℕ) (store : Store) → get id db.stores ≡ some store → pos 0 ≤ℤ store.balance_cents
  pub fair : (id : ℕ) (order : Order) → get id db.orders ≡ some order → IsFair order

pub balances_total-put :
    (id : ℕ) (x y : Store) (m : Map Store)
    → get id m ≡ some x
    → balances_total (put id y m) +ℤ x.balance_cents ≡ balances_total m +ℤ y.balance_cents
balances_total-put id x y [] g = cc
balances_total-put id x y ((j, z) ∷ m) g = elim (Bool-cases (id == j)) [
  | inl here_ ↦ let e : z ≡ x = ground arith in rw (here_, e) (omega int_laws)
  | inr other ↦ rw other (+ℤ_shift _ _ _ _ _ (balances_total-put id x y m (rw other at g)))
]

pub balances_total-put_new :
    (id : ℕ) (y : Store) (m : Map Store)
    → get id m ≡ none
    → balances_total (put id y m) ≡ balances_total m +ℤ y.balance_cents
balances_total-put_new id y [] g = omega int_laws
balances_total-put_new id y ((j, z) ∷ m) g = elim (Bool-cases (id == j)) [
  | inl here_ ↦ absurd (let e = rw here_ at g in cc)
  | inr other ↦ rw (other, balances_total-put_new id y m (rw other at g)) (omega int_laws)
]

pub held_total-put :
    (id : ℕ) (x y : Order) (m : Map Order)
    → get id m ≡ some x
    → held_total (put id y m) +ℤ held_cents x.status x ≡ held_total m +ℤ held_cents y.status y
held_total-put id x y [] g = cc
held_total-put id x y ((j, z) ∷ m) g = elim (Bool-cases (id == j)) [
  | inl here_ ↦ let e : z ≡ x = ground arith in rw (here_, e) (omega int_laws)
  | inr other ↦ rw other (+ℤ_shift _ _ _ _ _ (held_total-put id x y m (rw other at g)))
]

pub held_total-put_new :
    (id : ℕ) (y : Order) (m : Map Order)
    → get id m ≡ none
    → held_total (put id y m) ≡ held_total m +ℤ held_cents y.status y
held_total-put_new id y [] g = omega int_laws
held_total-put_new id y ((j, z) ∷ m) g = elim (Bool-cases (id == j)) [
  | inl here_ ↦ absurd (let e = rw here_ at g in cc)
  | inr other ↦ rw (other, held_total-put_new id y m (rw other at g)) (omega int_laws)
]

pub line_total-nonzero :
    (a : Account) (ls : List (Account × ℤ)) → line_total a (nonzero_lines ls) ≡ line_total a ls
line_total-nonzero a [] = refl
line_total-nonzero a ((b, pos n) ∷ ls) =
    let ih = line_total-nonzero a ls in grind (int_laws, ap pos_part ih, ap neg_part ih)
line_total-nonzero a ((b, negsuc n) ∷ ls) = rw (line_total-nonzero a ls)

pub sum_lines-nonzero : (ls : List (Account × ℤ)) → sum_lines (nonzero_lines ls) ≡ sum_lines ls
sum_lines-nonzero [] = refl
sum_lines-nonzero ((b, pos n) ∷ ls) =
    let ih = sum_lines-nonzero ls in grind (int_laws, ap pos_part ih, ap neg_part ih)
sum_lines-nonzero ((b, negsuc n) ∷ ls) = rw (sum_lines-nonzero ls)
