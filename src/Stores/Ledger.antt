-- ===== src/Stores/Ledger.antt =====
-- The private steps of `FlupFlapStores` (apps/api/src/flupflap/stores.ts): the transaction, the row
-- lock, the balance movement and the double-entry journal. A row lock reads the row; the isolation of
-- the transactions is the database's.
use ticash.Prelude.{
  ℕ, Bool, false, not, ltb, ◌||◌, List, [], ◌∷◌, ◌==◌, if◌then◌else◌, ok, err, Result,
}
use ticash.Prelude.Maps.{get, put}
use ticash.Prelude.Int.{ℤ, pos, negsuc, ◌+ℤ◌, sub_ℕ}
use ticash.Prelude.Actions.{or_raise, current, raise_if, ◌>>=◌, ◌>>◌, modify}
use ticash.Stores.Types.{
  Store, Entry, EntryReference, same_entry, Account, Journal, JournalReference, Database, Failure,
  fail, row_not_found, unique_violation, unbalanced_store_journal, integer_out_of_range, Method,
  store_entry, hold, delivery,
}

-- `atomic`: a transaction that throws leaves nothing behind. The retries after a conflict with another
-- transaction start from what that one left, and are later calls.
abbrev pub rollback :
    {A : Type 0} → Database → Result Failure A × Database → Result Failure A × Database
rollback s (ok a, s') = (ok a, s')
rollback s (err e, _) = (err e, s)

abbrev pub atomic : {A : Type 0} → Method A → Method A
atomic m s = rollback s (m s)

-- `-n`
abbrev pub neg : ℕ → ℤ
neg n = sub_ℕ 0 n

-- The values that the column `balanceCents` holds; the database refuses to write any other.
abbrev pub fits_int : ℤ → Bool
fits_int (pos n) = ltb n 2147483648
fits_int (negsuc n) = ltb n 2147483648

-- `lock`, with `findUniqueOrThrow`
abbrev pub lock : ℕ → Method Store
lock id s = or_raise (get id s.stores) (fail row_not_found 500) s

abbrev pub has_entry : EntryReference → List Entry → Bool
has_entry r [] = false
has_entry r (e ∷ es) = same_entry e.reference r || has_entry r es

abbrev pub add_entry : ℕ → EntryReference → ℤ → Store → Database → Database
add_entry store_id reference amount store db =
    let balance = store.balance_cents +ℤ amount in
    record db {
      stores = put store_id (record store { balance_cents = balance }) db.stores;
      entries =
          record {
            store_id = store_id;
            reference = reference;
            amount_cents = amount;
            balance_after_cents = balance;
          }
          ∷ db.entries;
    }

unfoldable pub movement : ℕ → EntryReference → ℤ → Method (Unit {0})
movement store_id reference amount = do
  store ← lock store_id
  db ← current
  raise_if (not (fits_int (store.balance_cents +ℤ amount))) (fail integer_out_of_range 500)
  raise_if (has_entry reference db.entries) (fail unique_violation 500)
  modify (add_entry store_id reference amount store)

abbrev pub sum_lines : List (Account × ℤ) → ℤ
sum_lines [] = pos 0
sum_lines ((_, x) ∷ ls) = x +ℤ sum_lines ls

abbrev pub is_zero : ℤ → Bool
is_zero (pos n) = n == 0
is_zero (negsuc n) = false

-- `if (!signedCents) continue;`
abbrev pub nonzero_lines : List (Account × ℤ) → List (Account × ℤ)
nonzero_lines [] = []
nonzero_lines ((a, x) ∷ ls) =
    let rest = nonzero_lines ls in if is_zero x then rest else (a, x) ∷ rest

abbrev pub same_journal : JournalReference → JournalReference → Bool
same_journal (store_entry r) (store_entry q) = same_entry r q
same_journal (hold i) (hold j) = i == j
same_journal (delivery i) (delivery j) = i == j
same_journal _ _ = false

abbrev pub has_journal : JournalReference → List Journal → Bool
has_journal r [] = false
has_journal r (j ∷ js) = same_journal j.reference r || has_journal r js

unfoldable pub journal : Bool → JournalReference → List (Account × ℤ) → Method (Unit {0})
journal test_mode reference lines = do
  raise_if (not (is_zero (sum_lines lines))) (fail unbalanced_store_journal 409)
  db ← current
  raise_if (has_journal reference db.journals) (fail unique_violation 500)
  modify (λ s. record s {
    journals =
        record { test_mode = test_mode; reference = reference; lines = nonzero_lines lines }
        ∷ s.journals;
  })
