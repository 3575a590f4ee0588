-- ===== src/Stores/History.antt =====
-- Sequences of calls of `FlupFlapStores` (apps/api/src/flupflap/stores.ts), in the order in which their
-- transactions commit.
use ticash.Prelude.{ℕ, Bool, Option, List, [], ◌∷◌}
use ticash.Stores.Types.{StoreStatus, Recharge, Database}
use ticash.Stores.Applications.{apply}
use ticash.Stores.Openings.{apply-Books}
use ticash.Stores.Deposits.{request_funding, review, review_funding}
use ticash.Stores.Orders.{record_balance_return, authorize, settle}
use ticash.Stores.Settlements.{Consistent, settle-Books}
use ticash.Stores.Authorizations.{authorize-Books}
use ticash.Stores.Reviews.{request_funding-Books, review-Books, review_funding-Books}
use ticash.Stores.Returns.{record_balance_return-Books}

-- A call with its arguments and what it takes from outside: the clock, new ids and the caller's account.
pub data Call : Type 0 where
  apply_call : (uuid : ℕ) (owner : Option ℕ) (country : ℕ) → Call
  request_funding_call : (uuid : ℕ) (owner : Option ℕ) (amount_cents reference : ℕ) → Call
  review_call : (actor id : ℕ) (status : StoreStatus) (commission_bps : Option ℕ) → Call
  review_funding_call : (now actor id : ℕ) (approve : Bool) → Call
  record_balance_return_call : (actor id amount_cents reference : ℕ) → Call
  authorize_call : (now : ℕ) (owner : Option ℕ) (given : Recharge) → Call
  settle_call : (is_refund : Bool) (given : Recharge) → Call

module _ (countries : List ℕ) (test_mode : Bool) where
  -- The state that a call leaves behind, whether it returns or throws.
  abbrev pub perform : Call → Database → Database
  perform (apply_call uuid owner country) s = (apply test_mode uuid owner country s).1
  perform (request_funding_call uuid owner amount reference) s =
      (request_funding countries test_mode uuid owner amount reference s).1
  perform (review_call actor id status bps) s = (review countries test_mode actor id status bps s).1
  perform (review_funding_call now actor id approve) s =
      (review_funding countries test_mode now actor id approve s).1
  perform (record_balance_return_call actor id amount reference) s =
      (record_balance_return test_mode actor id amount reference s).1
  perform (authorize_call now owner given) s = (authorize countries test_mode now owner given s).1
  perform (settle_call is_refund given) s = (settle test_mode is_refund given s).1

  abbrev pub perform_all : List Call → Database → Database
  perform_all [] s = s
  perform_all (c ∷ cs) s = perform_all cs (perform c s)

  perform-Consistent : (c : Call) (s : Database) → Consistent s → Consistent (perform c s)
  perform-Consistent (apply_call uuid owner country) = apply-Books test_mode uuid owner country
  perform-Consistent (request_funding_call uuid owner amount reference) =
      request_funding-Books countries test_mode uuid owner amount reference
  perform-Consistent (review_call actor id status bps) =
      review-Books countries test_mode actor id status bps
  perform-Consistent (review_funding_call now actor id approve) =
      review_funding-Books countries test_mode now actor id approve
  perform-Consistent (record_balance_return_call actor id amount reference) =
      record_balance_return-Books test_mode actor id amount reference
  perform-Consistent (authorize_call now owner given) =
      authorize-Books countries test_mode now owner given
  perform-Consistent (settle_call is_refund given) = settle-Books test_mode is_refund given

  -- Whatever calls are made, and however they end, from books that agree the books still agree: the
  -- store balances together are what the journals' balance account says, the held orders together are
  -- what the hold account says, every journal adds up to zero, every store stands under its id with a
  -- balance that is not negative, and every order's commission is at most its fee and its fee at most
  -- its total.
  pub perform_all-Consistent :
      (cs : List Call) (s : Database) → Consistent s → Consistent (perform_all cs s)
  perform_all-Consistent [] s b = b
  perform_all-Consistent (c ∷ cs) s b =
      perform_all-Consistent cs (perform c s) (perform-Consistent c s b)
