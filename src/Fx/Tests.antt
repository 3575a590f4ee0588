-- ===== src/Fx/Tests.antt =====
-- Exchange quotes of the tests (apps/api/src/fx).
use ticash.Prelude.{◌≡◌, refl, false, none, [], ◌∷◌, ok, err}
use ticash.Fx.Quotes.{FxQuote, FxStore, QuoteRequest, consume, consume_quote, quote_already_used}
use ticash.Fx.Once.{consume_once}

-- $100.00, for 13,200.00 gourdes.
abbrev quote : FxQuote
quote = record {
  id = 1;
  user_id = 7;
  send_country = 10;
  receive_country = 17;
  source_currency = 0;
  target_currency = 7;
  payout_method = 2;
  send_cents = 10000;
  recipient_cents = 1320000;
  expires_at = 5000;
  consumed_at = none;
}

abbrev request : QuoteRequest
request = record {
  send_country = 10;
  receive_country = 17;
  source_currency = 0;
  target_currency = 7;
  payout_method = 2;
  send_millionths = 100000000;
  amount_currency = none;
}

abbrev quoted : FxStore
quoted = (1, quote) ∷ []

abbrev used : FxStore
used = (consume 1 7 4000 quoted).1

consume_once_example : consume 1 8 4500 used ≡ (ok false, used)
unfolding consume
consume_once_example = consume_once 1 7 8 4000 4500 quoted used refl

quote_consumed : consume_quote 4000 7 1 request quoted ≡ (ok quote, used)
unfolding consume_quote consume
quote_consumed = refl

quote_refused : consume_quote 4500 7 1 request used ≡ (err quote_already_used, used)
unfolding consume_quote consume
quote_refused = refl
