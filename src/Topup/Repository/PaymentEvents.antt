-- ===== src/Topup/Repository/PaymentEvents.antt =====
-- Payment events, recipients and lookups of `MemoryMobileTopUpRepository`
-- (apps/api/src/topup/repository.ts).
use Prim.Native.String.{String}
use text.Mathlib.Text.{◌==◌ as str_eq}
use ticash.Prelude.{
  ℕ, Bool, true, false, not, ◌&&◌, ◌||◌, Option, none, some, ◌==◌, leb, if◌then◌else◌, ok, err,
}
use ticash.Prelude.Lists.{find}
use ticash.Prelude.Maps.{get, put, values}
use ticash.Topup.Errors.{fail_with, payment_event_conflict, type_error}
use ticash.Topup.Repository.Types.{
  Transaction, processing, payment_pending, session_created, refund_pending, void_pending, Status,
  PaymentStatus, PayloadHash, legacy_hash, current_hash, other_hash, PaymentEvent, SavedRecipient,
  TopUpStore, Method, has_value,
}
use ticash.Topup.Repository.Claims.{
  is_pending, is_authorized_or_captured, is_captured, is_fraud_review, is_stripe, same_bool,
}

abbrev pub same_hash : PayloadHash → PayloadHash → Bool
same_hash (legacy_hash i) (legacy_hash j) = i == j
same_hash (current_hash i) (current_hash j) = i == j
same_hash (other_hash i) (other_hash j) = i == j
same_hash _ _ = false

abbrev pub is_legacy : PayloadHash → PayloadHash → Bool
is_legacy (legacy_hash i) (current_hash j) = true
is_legacy _ _ = false

-- `acknowledgeLegacyEvent`
abbrev pub acknowledge_legacy_event : PaymentEvent → PayloadHash → ℕ → Bool
acknowledge_legacy_event e hash id =
    e.processed && e.transaction_id == id && is_legacy e.payload_hash hash

-- `assertSameEvent`
abbrev pub is_same_event : PaymentEvent → PayloadHash → ℕ → Bool
is_same_event e hash id = same_hash e.payload_hash hash && e.transaction_id == id

abbrev pub register_found : ℕ → PayloadHash → ℕ → Option PaymentEvent → Method Bool
register_found event_id hash id none s = (
  ok true,
  record s {
    payment_events =
        put event_id (record { payload_hash = hash; transaction_id = id; processed = false })
          s.payment_events;
  },
)
register_found event_id hash id (some e) s =
    if acknowledge_legacy_event e hash id
    then (ok false, s)
    else if is_same_event e hash id
    then (ok (not e.processed), s)
    else (err (fail_with payment_event_conflict 409), s)

unfoldable pub register_payment_event : ℕ → PayloadHash → ℕ → Method Bool
register_payment_event event_id hash id s =
    register_found event_id hash id (get event_id s.payment_events) s

-- An event that is not there is a TypeError of JavaScript.
abbrev pub complete_found : ℕ → Option PaymentEvent → Method (Unit {0})
complete_found event_id none s = (err (fail_with type_error 500), s)
complete_found event_id (some e) s = (
  ok tt,
  record s { payment_events = put event_id (record e { processed = true }) s.payment_events },
)

unfoldable pub complete_payment_event : ℕ → Method (Unit {0})
complete_payment_event event_id s = complete_found event_id (get event_id s.payment_events) s

-- The fields that `saveRecipient` is given; the others of a saved recipient stay.
pub record RecipientInput : Type 0 where
  pub user_id : ℕ
  pub nickname : ℕ
  pub phone : ℕ
  pub country_code : String
  pub operator_id : Option ℕ

abbrev pub is_recipient : RecipientInput → SavedRecipient → Bool
is_recipient input r =
    r.user_id == input.user_id && r.phone == input.phone && str_eq r.country_code input.country_code

abbrev pub saved_recipient : ℕ → ℕ → RecipientInput → Option SavedRecipient → SavedRecipient
saved_recipient uuid now input none = record {
  id = uuid;
  user_id = input.user_id;
  nickname = input.nickname;
  phone = input.phone;
  country_code = input.country_code;
  operator_id = input.operator_id;
  last_product_id = none;
  last_product_name = none;
  created_at = now;
  updated_at = now;
}
saved_recipient uuid now input (some r) = record r {
  user_id = input.user_id;
  nickname = input.nickname;
  phone = input.phone;
  country_code = input.country_code;
  operator_id = input.operator_id;
  updated_at = now;
}

unfoldable pub save_recipient : ℕ → ℕ → RecipientInput → Method SavedRecipient
save_recipient uuid now input s =
    let saved = saved_recipient uuid now input (find (is_recipient input) (values s.recipients)) in
    (ok saved, record s { recipients = put saved.id saved s.recipients })

abbrev pub used_found : ℕ → ℕ → ℕ → ℕ → ℕ → Option SavedRecipient → TopUpStore → TopUpStore
used_found now user_id id product_id product_name none s = s
used_found now user_id id product_id product_name (some r) s =
    if r.user_id == user_id
    then record s {
      recipients =
          put id
            (record r {
              last_product_id = some product_id;
              last_product_name = some product_name;
              updated_at = now;
            })
            s.recipients;
    }
    else s

unfoldable pub update_recipient_last_used : ℕ → ℕ → ℕ → ℕ → ℕ → Method (Unit {0})
update_recipient_last_used now user_id id product_id product_name s =
    (ok tt, used_found now user_id id product_id product_name (get id s.recipients) s)

abbrev own_transaction : ℕ → Option Transaction → Option Transaction
own_transaction user_id none = none
own_transaction user_id (some t) =
    if t.user_id == user_id && not (has_value t.customer_hidden_at) then some t else none

unfoldable pub get_transaction : ℕ → ℕ → TopUpStore → Option Transaction
get_transaction user_id id s = own_transaction user_id (get id s.transactions)

unfoldable pub get_transaction_by_idempotency : ℕ → ℕ → TopUpStore → Option Transaction
get_transaction_by_idempotency user_id key s =
    find (λ (t : Transaction). t.user_id == user_id && t.idempotency_key == key)
      (values s.transactions)

abbrev is_some : Option ℕ → ℕ → Bool
is_some none h = false
is_some (some i) h = i == h

unfoldable pub get_transaction_by_checkout_resume_token_hash : ℕ → TopUpStore → Option Transaction
get_transaction_by_checkout_resume_token_hash hash s =
    find (λ (t : Transaction). is_some t.checkout_resume_token_hash hash) (values s.transactions)

abbrev is_processing : Status → Bool
is_processing processing = true
is_processing _ = false

abbrev is_unpaid : PaymentStatus → Bool
is_unpaid payment_pending = true
is_unpaid session_created = true
is_unpaid _ = false

abbrev is_returning : PaymentStatus → Bool
is_returning refund_pending = true
is_returning void_pending = true
is_returning _ = false

-- The filter of `listReconciliationCandidates`; the sandbox is the environment 0.
unfoldable pub is_candidate : ℕ → ℕ → Transaction → Bool
is_candidate stale_before environment t =
    t.payment_environment == environment
    && t.recharge_environment == environment
    && same_bool t.test_mode (environment == 0)
    && (is_processing t.status && is_authorized_or_captured t.payment_status
        || is_stripe t.payment_provider && is_pending t.status && is_unpaid t.payment_status
        || t.is_flupflap
          && is_stripe t.payment_provider
          && is_pending t.status
          && is_captured t.payment_status
          && is_fraud_review t.failure_code
        || is_returning t.payment_status)
    && leb t.updated_at stale_before

-- `deferSecurityRefundCheck`
abbrev pub defer_found : Transaction → ℕ → Option Transaction → TopUpStore → TopUpStore
defer_found given when none s = s
defer_found given when (some t) s =
    if t.updated_at == given.updated_at
    then record s { transactions = put given.id (record t { updated_at = when }) s.transactions }
    else s

unfoldable pub defer_security_refund_check : Transaction → ℕ → Method (Unit {0})
defer_security_refund_check given when s =
    (ok tt, defer_found given when (get given.id s.transactions) s)
