-- ===== src/Topup/Repository/Quotes.antt =====
-- `createQuote`, `getQuote`, `markQuoteConsumed` and `reserveTransaction` of
-- apps/api/src/topup/repository.ts.
use ticash.Prelude.{
  ℕ, Bool, true, false, not, ◌&&◌, Option, none, some, ◌==◌, leb, if◌then◌else◌, ok, err,
}
use ticash.Prelude.Lists.{find}
use ticash.Prelude.Maps.{get, put, values}
use ticash.Topup.Errors.{fail_with, topup_quote_not_found, topup_quote_already_used}
use ticash.Topup.Repository.Types.{Quote, Transaction, TopUpStore, Method, has_value}

unfoldable pub create_quote : ℕ → Quote → Method Quote
create_quote uuid input s =
    let quote = record input { id = uuid } in
    (ok quote, record s { quotes = put uuid quote s.quotes })

abbrev pub own_quote : ℕ → Option Quote → Option Quote
own_quote user_id none = none
own_quote user_id (some q) = if q.user_id == user_id then some q else none

unfoldable pub get_quote : ℕ → ℕ → TopUpStore → Option Quote
get_quote user_id id s = own_quote user_id (get id s.quotes)

-- `quote.consumedAt ?? when`
abbrev pub consumed_first : Option ℕ → ℕ → ℕ
consumed_first none when = when
consumed_first (some at) when = at

unfoldable pub mark_quote_consumed : ℕ → ℕ → ℕ → Method (Unit {0})
unfolding get_quote
mark_quote_consumed user_id id when s = elim (get_quote user_id id s) [
  | none ↦ (err (fail_with topup_quote_not_found 404), s)
  | some q ↦
      let used = record q { consumed_at = some (consumed_first q.consumed_at when) } in
      (ok tt, record s { quotes = put id used s.quotes })
]

pub record Reserved : Type 0 where
  pub transaction : Transaction
  pub created : Bool

abbrev pub is_replay : Transaction → Transaction → Bool
is_replay input t = t.user_id == input.user_id && t.idempotency_key == input.idempotency_key

abbrev pub is_open_quote : Transaction → Quote → Bool
is_open_quote input q =
    q.user_id == input.user_id
    && not (has_value q.consumed_at)
    && not (leb q.expires_at input.created_at)

abbrev pub submit : Transaction → Option Quote → Method Reserved
submit input none s = (err (fail_with topup_quote_already_used 409), s)
submit input (some q) s =
    if is_open_quote input q
    then (
      ok (record { transaction = input; created = true }),
      record s {
        quotes = put q.id (record q { consumed_at = some input.created_at }) s.quotes;
        transactions = put input.id input s.transactions;
      },
    )
    else (err (fail_with topup_quote_already_used 409), s)

abbrev pub submit_new : Transaction → Option Transaction → Method Reserved
submit_new input (some same_quote) s = (err (fail_with topup_quote_already_used 409), s)
submit_new input none s = submit input (get input.quote_id s.quotes) s

abbrev pub replay_or_submit : Transaction → Option Transaction → Method Reserved
replay_or_submit input (some replay) s = (ok (record { transaction = replay; created = false }), s)
replay_or_submit input none s =
    submit_new input
      (find (λ (t : Transaction). t.quote_id == input.quote_id) (values s.transactions)) s

unfoldable pub reserve_transaction : Transaction → Method Reserved
reserve_transaction input s =
    replay_or_submit input (find (is_replay input) (values s.transactions)) s
