-- ===== src/Topup/Service/Results.antt =====
-- `mapProviderStatus` and `applyProviderResult` of apps/api/src/topup/service.ts. The field
-- `receiverDiscrepancy`, which is only shown to users, is not kept.
use Prim.Native.String.{String}
use ticash.Prelude.{
  ℕ, ◌++◌, Bool, true, false, not, ◌&&◌, ◌||◌, Option, none, some, List, [], ◌∷◌, ◌==◌,
  if◌then◌else◌, leb, ◌-◌,
}
use ticash.Prelude.Texts.{codes, same_codes}
use ticash.Prelude.Actions.{pure, throw, or_raise, raise_if, when, attempt, ◌>>=◌, ◌>>◌}
use ticash.Topup.Errors.{Outcome, fail_with, store_unavailable, invalid_provider_response}
use ticash.Topup.Repository.Types.{
  Status, pending, processing, delivered, failed, refunded, FailureCode, provider_failed,
  provider_failure, PaymentProvider, store_balance, Transaction,
}
use ticash.Topup.Repository.Updates.{
  TransactionUpdate, Field, keep, give, update_transaction, is_delivered, valid_receiver_value,
  post_delivered_ledger, post_refund_ledger,
}
use ticash.Topup.Service.Environment.{
  RechargeEnv, RechargeService, ProviderTopUpResult, StoreBalancePayment, repo,
  get_transaction_by_id, ask, sends_receipt, write_audit, receipt_sent, receipt_failed,
}
use ticash.Topup.Service.Recovery.{no_update, recover_payment}

-- `toUpperCase`, as far as it gives letters of ASCII: the small letters, the dotless i, the long s, the
-- sharp s and the ligatures of f and s. No other code point has an upper case that is made of letters of
-- ASCII only, and the code compares the result with texts of ASCII only.
abbrev pub upper : ℕ → List ℕ
upper c =
    if leb b'a' c && leb c b'z'
    then (c - 32) ∷ []
    else if c == 305
    then b'I' ∷ []
    else if c == 383
    then b'S' ∷ []
    else if c == 223
    then b'S' ∷ b'S' ∷ []
    else if c == 64256
    then b'F' ∷ b'F' ∷ []
    else if c == 64257
    then b'F' ∷ b'I' ∷ []
    else if c == 64258
    then b'F' ∷ b'L' ∷ []
    else if c == 64259
    then b'F' ∷ b'F' ∷ b'I' ∷ []
    else if c == 64260
    then b'F' ∷ b'F' ∷ b'L' ∷ []
    else if c == 64261 || c == 64262
    then b'S' ∷ b'T' ∷ []
    else c ∷ []

abbrev pub upper_codes : List ℕ → List ℕ
upper_codes [] = []
upper_codes (c ∷ cs) = upper c ++ upper_codes cs

abbrev pub is_status_in : List String → String → Bool
is_status_in [] s = false
is_status_in (w ∷ ws) s = same_codes (upper_codes (codes s)) (codes w) || is_status_in ws s

unfoldable pub map_provider_status : String → Status
map_provider_status s =
    if is_status_in ("SUCCESSFUL" ∷ "DELIVERED" ∷ "COMPLETED" ∷ []) s
    then delivered
    else if is_status_in ("FAILED" ∷ "REJECTED" ∷ "DECLINED" ∷ "CANCELLED" ∷ []) s
    then failed
    else if is_status_in ("REFUNDED" ∷ "REVERSED" ∷ []) s
    then refunded
    else if is_status_in ("PROCESSING" ∷ "IN_PROGRESS" ∷ "CONFIRMED" ∷ "SUBMITTED" ∷ []) s
    then processing
    else pending

-- Another identifier than the one that is recorded.
abbrev pub is_other_order : Option ℕ → ℕ → Bool
is_other_order none id = false
is_other_order (some i) id = not (i == id)

abbrev pub is_confirmed : Status → Option ℕ → String → Bool
is_confirmed delivered (some amount) currency = valid_receiver_value amount currency
is_confirmed _ _ currency = false

abbrev pub failure_of : Option ℕ → FailureCode
failure_of none = provider_failed
failure_of (some code) = provider_failure code

-- The fields that depend on the status.
abbrev pub with_status : ℕ → Status → Option ℕ → TransactionUpdate → TransactionUpdate
with_status now delivered code u = record u { delivered_at = give (some now) }
with_status now failed code u = record u {
  failed_at = give (some now);
  failure_code = give (some (failure_of code));
}
with_status now refunded code u = record u { refunded_at = give (some now) }
with_status now _ code u = u

abbrev pub with_value : Bool → ProviderTopUpResult → TransactionUpdate → TransactionUpdate
with_value false r u = u
with_value true r u = record u {
  receiver_value_confirmed = give true;
  delivered_value = give r.delivered_amount;
  delivered_currency = give r.delivered_currency;
}

abbrev pub given : Option ℕ → Field (Option ℕ)
given none = keep
given (some i) = give (some i)

abbrev pub update_of : ℕ → ProviderTopUpResult → Status → TransactionUpdate
update_of now r status = with_status now status r.provider_failure_code (
    with_value (is_confirmed status r.delivered_amount r.delivered_currency) r (record no_update {
      provider_transaction_id = give (some r.transaction_id);
      operator_transaction_id = given r.operator_transaction_id;
      status = give status;
    }))

module _ (env : RechargeEnv) (now id : ℕ) where
  abbrev pub settle_delivered :
      Transaction → Option PaymentProvider → Option StoreBalancePayment → RechargeService (Unit {0})
  settle_delivered t (some store_balance) none = throw (fail_with store_unavailable 503)
  settle_delivered t (some store_balance) (some b) = b.delivered t
  settle_delivered t provider b = repo (post_delivered_ledger t)

  abbrev pub send_receipt :
      Transaction → Bool → Option (Transaction → Outcome Bool) → RechargeService (Unit {0})
  send_receipt t was_delivered none = pure tt
  send_receipt t true (some mail) = pure tt
  send_receipt t false (some mail) =
      attempt
        (do sent ← ask (sends_receipt id) (mail t); when sent (write_audit env receipt_sent id))
        (λ _. write_audit env receipt_failed id)

  abbrev pub post_refund : Transaction → Option PaymentProvider → RechargeService (Unit {0})
  post_refund t (some store_balance) = pure tt
  post_refund t provider = repo (post_refund_ledger t)

  -- What follows the update, by the new status; `before` is the old one.
  abbrev pub settle : Bool → Status → Status → Transaction → RechargeService (Option Transaction)
  settle external delivered before t = do
    settle_delivered t t.payment_provider env.store_balance
    send_receipt t (is_delivered before) env.sender_receipt_email
    pure (some t)
  settle external refunded before t = do
    post_refund t t.payment_provider
    recover_payment env now id true external
  settle external failed before t = recover_payment env now id false external
  settle external _ before t = pure (some t)

  unfoldable pub apply_provider_result :
      ProviderTopUpResult → Bool → RechargeService (Option Transaction)
  apply_provider_result r external = do
    found ← get_transaction_by_id id
    original ← or_raise found (fail_with invalid_provider_response 502)
    raise_if (is_other_order original.provider_transaction_id r.transaction_id)
        (fail_with invalid_provider_response 502)
    updated ← repo (update_transaction now id (update_of now r (map_provider_status r.status)))
    settle external (map_provider_status r.status) original.status updated
