-- ===== src/Fx/Quotes.antt =====
-- `consumeQuote` and `supportedCorridor` of apps/api/src/fx/service.ts over `MemoryFxQuoteRepository`
-- (repository.ts). Texts are numbers; a stored amount is whole cents and a requested one whole
-- millionths; times are milliseconds. The memory repository answers at once, so the call is one step.
use ticash.Prelude.{
  ℕ, ◌+◌, ◌*◌, ◌/◌, Bool, true, false, not, ◌&&◌, ◌||◌, Option, none, some, List, [], ◌∷◌, ◌==◌,
  leb, if◌then◌else◌, ok,
}
use mathlib.Core.List.{map}
use ticash.Prelude.Lists.{any}
use ticash.Prelude.Maps.{Map, get, put}
use ticash.Prelude.Actions.{Action, raise_if, or_raise, current, pure, throw, ◌>>=◌, ◌>>◌}

pub record FxQuote : Type 0 where
  pub id : ℕ
  pub user_id : ℕ
  pub send_country : ℕ
  pub receive_country : ℕ
  pub source_currency : ℕ
  pub target_currency : ℕ
  pub payout_method : ℕ
  pub send_cents : ℕ
  pub recipient_cents : ℕ
  pub expires_at : ℕ
  pub consumed_at : Option ℕ

pub record QuoteRequest : Type 0 where
  pub send_country : ℕ
  pub receive_country : ℕ
  pub source_currency : ℕ
  pub target_currency : ℕ
  pub payout_method : ℕ
  pub send_millionths : ℕ
  pub amount_currency : Option ℕ

pub record FxCorridor : Type 0 where
  pub send_country : ℕ
  pub receive_country : ℕ
  pub source_currency : ℕ
  pub target_currency : ℕ

pub data FxError : Type 0 where
  unsupported_corridor invalid_amount_currency quote_not_found quote_expired : FxError
  quote_already_used invalid_send_amount quote_mismatch : FxError

abbrev pub FxStore : Type 0
FxStore = Map FxQuote

abbrev pub Method : Type 0 → Type 0
Method A = Action FxStore FxError A

abbrev pub has_value : {A : Type 0} → Option A → Bool
has_value none = false
has_value (some _) = true

-- The guard of the repository's `consume`.
abbrev pub may_consume : ℕ → ℕ → FxQuote → Bool
may_consume user_id now q =
    not (not (q.user_id == user_id) || has_value q.consumed_at || leb q.expires_at now)

abbrev pub consume_found : ℕ → ℕ → ℕ → Option FxQuote → Method Bool
consume_found id user_id now none s = (ok false, s)
consume_found id user_id now (some q) s =
    if may_consume user_id now q
    then (ok true, put id (record q { consumed_at = some now }) s)
    else (ok false, s)

unfoldable pub consume : ℕ → ℕ → ℕ → Method Bool
consume id user_id now s = consume_found id user_id now (get id s) s

abbrev pub or_else : Option ℕ → ℕ → ℕ
or_else none n = n
or_else (some m) n = m

abbrev pub amount_currency_of : QuoteRequest → ℕ
amount_currency_of input = or_else input.amount_currency input.source_currency

abbrev pub is_corridor : QuoteRequest → FxCorridor → Bool
is_corridor input c =
    input.send_country == c.send_country
    && input.receive_country == c.receive_country
    && input.source_currency == c.source_currency
    && input.target_currency == c.target_currency

-- `money`, from millionths to cents, a half upward.
abbrev pub money : ℕ → ℕ
money millionths = (millionths + 5000) / 10000

abbrev pub matches : FxQuote → QuoteRequest → Bool
matches q input =
    q.send_country == input.send_country
    && q.receive_country == input.receive_country
    && q.source_currency == input.source_currency
    && q.target_currency == input.target_currency
    && q.payout_method == input.payout_method
    && (if amount_currency_of input == input.target_currency
        then q.recipient_cents == money input.send_millionths
        else q.send_cents == money input.send_millionths)

abbrev pub is_own : ℕ → Option FxQuote → Option FxQuote
is_own user_id none = none
is_own user_id (some q) = if q.user_id == user_id then some q else none

-- What the latest record says of a claim that failed.
abbrev pub refused : ℕ → Option FxQuote → FxError
refused now none = quote_already_used
refused now (some q) = if leb q.expires_at now then quote_expired else quote_already_used

-- The numbers of the texts HTG and HT.
abbrev pub htg : ℕ
htg = 7

abbrev pub haiti : ℕ
haiti = 17

-- From a country, 10 more than its currency: US, CA, EU, MX, BR, CL and DO, with USD, CAD, EUR, MXN,
-- BRL, CLP and DOP.
abbrev pub corridor_from : ℕ → FxCorridor
corridor_from currency = record {
  send_country = currency + 10;
  receive_country = haiti;
  source_currency = currency;
  target_currency = htg;
}

abbrev pub supported_corridors : List FxCorridor
supported_corridors = map corridor_from (0 ∷ 1 ∷ 2 ∷ 3 ∷ 4 ∷ 5 ∷ 6 ∷ [])

abbrev pub supported_corridor : QuoteRequest → Method (Unit {0})
supported_corridor input = do
  raise_if (not (any (is_corridor input) supported_corridors)) unsupported_corridor
  raise_if
      (not (amount_currency_of input == input.source_currency)
        && not (amount_currency_of input == input.target_currency))
      invalid_amount_currency

abbrev pub find_quote : ℕ → ℕ → Method FxQuote
find_quote user_id id s = or_raise (is_own user_id (get id s)) quote_not_found s

abbrev pub finish : ℕ → FxQuote → Bool → Method FxQuote
finish now quote true = pure quote
finish now quote false = do s ← current; throw (refused now (get quote.id s))

unfoldable pub consume_quote : ℕ → ℕ → ℕ → QuoteRequest → Method FxQuote
consume_quote now user_id id input = do
  supported_corridor input
  quote ← find_quote user_id id
  raise_if (leb quote.expires_at now) quote_expired
  raise_if (has_value quote.consumed_at) quote_already_used
  raise_if (not (money input.send_millionths * 10000 == input.send_millionths)) invalid_send_amount
  raise_if (not (matches quote input)) quote_mismatch
  done ← consume quote.id user_id now
  finish now quote done
