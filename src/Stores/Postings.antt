-- ===== src/Stores/Postings.antt =====
-- What a balance movement and a journal of apps/api/src/flupflap/stores.ts do to the books.
use ticash.Prelude.{Bool, ℕ, ◌≡◌, ◌∙◌, arith, ap, true, not, some, List, ◌∷◌}
use ticash.Prelude.Maps.{Map, get, get-put_all}
use ticash.Prelude.Int.{ℤ, pos, negsuc, ◌+ℤ◌, ◌≤ℤ◌, int_laws, pos_part, neg_part}
use ticash.Prelude.Triples.{Triple, read_rule, current_rule, raise_if_rule, modify_rule, bind_rule}
use ticash.Stores.Types.{
  Store, Order, Account, balance, held_account, JournalReference, EntryReference, Database,
}
use ticash.Stores.Ledger.{
  fits_int, has_entry, movement, journal, add_entry, sum_lines, is_zero, nonzero_lines, has_journal,
}
use ticash.Stores.Books.{
  Books, balances_total-put, line_total, line_total-nonzero, sum_lines-nonzero,
}

-- The books, with the orders as they were.
abbrev pub BooksWith : Map Order → ℤ → ℤ → Database → Type 0
BooksWith orders x y s = Books x y s × (s.orders ≡ orders)

-- The store's balance covers the movement.
abbrev pub Covers : ℕ → ℤ → Database → Type 0
Covers id amount s =
    (store : Store) → get id s.stores ≡ some store → pos 0 ≤ℤ store.balance_cents +ℤ amount

pub Books-eq : {x y x' y' : ℤ} {s : Database} → x ≡ x' → y ≡ y' → Books x y s → Books x' y' s
Books-eq p q b = record {
  cash = b.cash ∙ p;
  holds = b.holds ∙ q;
  balanced = b.balanced;
  keyed = b.keyed;
  solvent = b.solvent;
  fair = b.fair;
}

add_entry-Books :
    (x y : ℤ) (id : ℕ) (r : EntryReference) (amount : ℤ) (store : Store) (s : Database)
    → get id s.stores ≡ some store
    → pos 0 ≤ℤ store.balance_cents +ℤ amount
    → Books x y s
    → Books (x +ℤ amount) y (add_entry id r amount store s)
add_entry-Books x y id r amount store s g c b = record {
  cash =
      (let h =
          balances_total-put id store
            (record store { balance_cents = store.balance_cents +ℤ amount }) s.stores g in
        let e = b.cash in
        omega (int_laws, ap pos_part h, ap neg_part h, ap pos_part e, ap neg_part e));
  holds = b.holds;
  balanced = b.balanced;
  keyed = get-put_all (λ j (o : Store). o.id ≡ j) id _ s.stores b.keyed (b.keyed id store g);
  solvent = get-put_all (λ _ (o : Store). pos 0 ≤ℤ o.balance_cents) id _ s.stores b.solvent c;
  fair = b.fair;
}

-- The books read the stores, the orders and the journals.
pub Books-same :
    {x y : ℤ} (s s' : Database)
    → s'.stores ≡ s.stores
    → s'.orders ≡ s.orders
    → s'.journals ≡ s.journals
    → Books x y s
    → Books x y s'
Books-same s s' p q r b = record {
  cash = rw (p, r) b.cash;
  holds = rw (q, r) b.holds;
  balanced = rw r b.balanced;
  keyed = rw p b.keyed;
  solvent = rw p b.solvent;
  fair = rw q b.fair;
}

is_zero-eq : (x : ℤ) → is_zero x ≡ true → x ≡ pos 0
is_zero-eq (pos n) h = ground arith
is_zero-eq (negsuc n) h = absurd (cc)

add_journal-Books :
    (test_mode : Bool) (x y : ℤ) (r : JournalReference) (lines : List (Account × ℤ)) (s : Database)
    → sum_lines lines ≡ pos 0
    → Books x y s
    → Books (x +ℤ line_total balance lines) (y +ℤ line_total held_account lines) (record s {
      journals =
          record { test_mode = test_mode; reference = r; lines = nonzero_lines lines } ∷ s.journals;
    })
add_journal-Books test_mode x y r lines s z b = record {
  cash =
      rw (line_total-nonzero balance lines)
        (let e = b.cash in omega (int_laws, ap pos_part e, ap neg_part e));
  holds =
      rw (line_total-nonzero held_account lines)
        (let e = b.holds in omega (int_laws, ap pos_part e, ap neg_part e));
  balanced = (sum_lines-nonzero lines ∙ z, b.balanced);
  keyed = b.keyed;
  solvent = b.solvent;
  fair = b.fair;
}

module _ (orders : Map Order) (x y : ℤ) where
  pub movement_rule :
      (id : ℕ) (r : EntryReference) (amount : ℤ)
      → Triple
          (λ s. BooksWith orders x y s × Covers id amount s)
          (movement id r amount)
          (λ _ s. BooksWith orders (x +ℤ amount) y s)
  unfolding movement
  movement_rule id r amount = bind_rule (read_rule _ (λ s. get id s.stores) _) λ store.
      bind_rule (current_rule _) λ db.
        bind_rule (raise_if_rule _ (not (fits_int (store.balance_cents +ℤ amount))) _) λ _.
          bind_rule (raise_if_rule _ (has_entry r db.entries) _) λ _.
            modify_rule _ _ (add_entry id r amount store) λ s h.
              let ((((((b, o), c), g), _), _), _) = h in
              (add_entry-Books x y id r amount store s g (c store g) b, o)

  pub journal_rule :
      (test_mode : Bool) (r : JournalReference) (lines : List (Account × ℤ))
      → Triple (BooksWith orders x y) (journal test_mode r lines) (λ _ s.
        BooksWith orders (x +ℤ line_total balance lines) (y +ℤ line_total held_account lines) s)
  unfolding journal
  journal_rule test_mode r lines =
      bind_rule (raise_if_rule _ (not (is_zero (sum_lines lines))) _) λ _.
        bind_rule (current_rule _) λ db.
          bind_rule (raise_if_rule _ (has_journal r db.journals) _) λ _.
            modify_rule _ _
              (λ s. record s {
                journals =
                    record { test_mode = test_mode; reference = r; lines = nonzero_lines lines }
                    ∷ s.journals;
              })
              λ s h.
                let ((((b, o), z), _), _) = h in
                (add_journal-Books test_mode x y r lines s (is_zero-eq _ (ground (arith, z))) b, o)
