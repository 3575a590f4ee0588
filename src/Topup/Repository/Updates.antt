-- ===== src/Topup/Repository/Updates.antt =====
-- `transitionPayment`, `updateTransaction`, the ledger and the lookups of
-- apps/api/src/topup/repository.ts, and the notification of the receiver that an update creates
-- (receiver-notification.ts, receiver-value.ts).
use Prim.Native.String.{String}
use text.Mathlib.Text.{◌==◌ as str_eq}
use ticash.Prelude.{
  ℕ, Bool, true, false, not, ◌&&◌, ◌||◌, Option, none, some, List, [], ◌∷◌, ◌==◌, ltb, leb,
  if◌then◌else◌, ok, err,
}
use ticash.Prelude.Maps.{get, put, has}
use ticash.Prelude.Texts.{codes}
use ticash.Topup.Errors.{fail_with, topup_not_found}
use ticash.Topup.Repository.Types.{
  Status, delivered, PaymentStatus, payment_pending, session_created, authorized, captured,
  payment_failed, void_pending, voided, refund_pending, payment_refunded, PaymentProvider,
  FailureCode, Transaction, ReceiverNotification, waiting, sms_not_configured, LedgerReference,
  delivered_reference, refunded_reference, TopUpStore, Method, has_value,
}

-- A field of a partial update: left out, or given, where it may be given as `undefined`.
pub data Field (A : Type 0) : Type 0 where
  keep : Field A
  give : A → Field A

abbrev pub value_or : {A : Type 0} → Field A → A → A
value_or keep old = old
value_or (give a) old = a

pub record TransactionUpdate : Type 0 where
  pub status : Field Status
  pub payment_status : Field PaymentStatus
  pub provider_transaction_id : Field (Option ℕ)
  pub operator_transaction_id : Field (Option ℕ)
  pub payment_authorization_id : Field (Option ℕ)
  pub payment_provider : Field (Option PaymentProvider)
  pub payment_session_id : Field (Option ℕ)
  pub payment_provider_transaction_id : Field (Option ℕ)
  pub payment_recovery_code : Field (Option ℕ)
  pub checkout_resume_token_hash : Field (Option ℕ)
  pub failure_code : Field (Option FailureCode)
  pub receiver_value_confirmed : Field Bool
  pub delivered_value : Field (Option ℕ)
  pub delivered_currency : Field String
  pub delivered_at : Field (Option ℕ)
  pub failed_at : Field (Option ℕ)
  pub refunded_at : Field (Option ℕ)
  pub customer_hidden_at : Field (Option ℕ)

-- `{ ...record, ...input, updatedAt: now() }`
abbrev pub updated : ℕ → TransactionUpdate → Transaction → Transaction
updated now u t = record t {
  status = value_or u.status t.status;
  payment_status = value_or u.payment_status t.payment_status;
  provider_transaction_id = value_or u.provider_transaction_id t.provider_transaction_id;
  operator_transaction_id = value_or u.operator_transaction_id t.operator_transaction_id;
  payment_authorization_id = value_or u.payment_authorization_id t.payment_authorization_id;
  payment_provider = value_or u.payment_provider t.payment_provider;
  payment_session_id = value_or u.payment_session_id t.payment_session_id;
  payment_provider_transaction_id =
      value_or u.payment_provider_transaction_id t.payment_provider_transaction_id;
  payment_recovery_code = value_or u.payment_recovery_code t.payment_recovery_code;
  checkout_resume_token_hash = value_or u.checkout_resume_token_hash t.checkout_resume_token_hash;
  failure_code = value_or u.failure_code t.failure_code;
  receiver_value_confirmed = value_or u.receiver_value_confirmed t.receiver_value_confirmed;
  delivered_value = value_or u.delivered_value t.delivered_value;
  delivered_currency = value_or u.delivered_currency t.delivered_currency;
  delivered_at = value_or u.delivered_at t.delivered_at;
  failed_at = value_or u.failed_at t.failed_at;
  refunded_at = value_or u.refunded_at t.refunded_at;
  customer_hidden_at = value_or u.customer_hidden_at t.customer_hidden_at;
  updated_at = now;
}

abbrev pub same_payment_status : PaymentStatus → PaymentStatus → Bool
same_payment_status payment_pending payment_pending = true
same_payment_status session_created session_created = true
same_payment_status authorized authorized = true
same_payment_status captured captured = true
same_payment_status payment_failed payment_failed = true
same_payment_status void_pending void_pending = true
same_payment_status voided voided = true
same_payment_status refund_pending refund_pending = true
same_payment_status payment_refunded payment_refunded = true
same_payment_status _ _ = false

-- `from.includes(status)`
abbrev pub is_from : List PaymentStatus → PaymentStatus → Bool
is_from [] s = false
is_from (f ∷ fs) s = same_payment_status f s || is_from fs s

-- Another payment than the one that is recorded.
abbrev pub is_other_payment : Field (Option ℕ) → Option ℕ → Bool
is_other_payment (give (some i)) (some j) = not (i == j)
is_other_payment _ _ = false

abbrev pub transition_found :
    ℕ → ℕ → List PaymentStatus → TransactionUpdate → Option Transaction → Method Bool
transition_found now id from_ input none s = (ok false, s)
transition_found now id from_ input (some t) s =
    if not (is_from from_ t.payment_status)
      || is_other_payment input.payment_provider_transaction_id t.payment_provider_transaction_id
    then (ok false, s)
    else (ok true, record s { transactions = put id (updated now input t) s.transactions })

unfoldable pub transition_payment : ℕ → ℕ → List PaymentStatus → TransactionUpdate → Method Bool
transition_payment now id from_ input s =
    transition_found now id from_ input (get id s.transactions) s

-- `validReceiverValue`: a value below 10^12 with at most 8 decimals, and three capitals.
abbrev pub is_capital : ℕ → Bool
is_capital c = leb b'A' c && leb c b'Z'

abbrev pub is_currency : List ℕ → Bool
is_currency (a ∷ b ∷ c ∷ []) = is_capital a && is_capital b && is_capital c
is_currency _ = false

abbrev pub valid_receiver_value : ℕ → String → Bool
valid_receiver_value amount currency =
    ltb 0 amount && ltb amount 100000000000000000000 && is_currency (codes currency)

abbrev pub receiver_languages : List String
receiver_languages = "en" ∷ "ht" ∷ "es" ∷ "pt" ∷ "fr" ∷ "sw" ∷ []

abbrev pub is_text_in : List String → String → Bool
is_text_in [] t = false
is_text_in (w ∷ ws) t = str_eq w t || is_text_in ws t

-- `defaults[country] ?? 'en'`
abbrev pub default_language : String → String
default_language country =
    if str_eq country "HT"
    then "ht"
    else if is_text_in ("DO" ∷ "MX" ∷ []) country
    then "es"
    else if str_eq country "BR"
    then "pt"
    else if is_text_in ("FR" ∷ "SN" ∷ "CI" ∷ []) country
    then "fr"
    else "en"

-- `receiverLanguage` without an operator's preference.
unfoldable pub receiver_language : String → Option String → String
receiver_language country none = default_language country
receiver_language country (some l) =
    if is_text_in receiver_languages l then l else default_language country

abbrev pub is_delivered : Status → Bool
is_delivered delivered = true
is_delivered _ = false

abbrev pub notification_of : Transaction → Option ℕ → Option ℕ → Option ReceiverNotification
notification_of t (some value) (some at) =
    if is_delivered t.status
      && t.receiver_value_confirmed
      && has_value t.provider_transaction_id
      && valid_receiver_value value t.delivered_currency
    then some (record {
      transaction_id = t.id;
      phone = t.recipient_phone;
      country = t.country_code;
      language = receiver_language t.country_code t.receiver_language;
      amount = value;
      currency = t.delivered_currency;
      status = waiting;
      provider_message_id = none;
      attempts = 0;
      last_error_category = some sms_not_configured;
      claimed_at = none;
      created_at = at;
      updated_at = at;
      sent_at = none;
      delivered_at = none;
    })
    else none
notification_of t _ _ = none

unfoldable pub notification_for : Transaction → Option ReceiverNotification
notification_for t = notification_of t t.delivered_value t.delivered_at

-- `if (notification && !notifications.has(id)) notifications.set(id, notification)`
abbrev pub add_notification : ℕ → Option ReceiverNotification → TopUpStore → TopUpStore
add_notification id none s = s
add_notification id (some n) s =
    if has id s.notifications then s else record s { notifications = put id n s.notifications }

abbrev pub gives_delivered : Field Status → Bool
gives_delivered (give delivered) = true
gives_delivered _ = false

abbrev pub update_found : ℕ → ℕ → TransactionUpdate → Option Transaction → Method Transaction
update_found now id input none s = (err (fail_with topup_not_found 404), s)
update_found now id input (some t) s =
    if is_delivered t.status && t.receiver_value_confirmed && gives_delivered input.status
    then (ok t, s)
    else let t' = updated now input t in
      (
        ok t',
        add_notification id (notification_for t')
            (record s { transactions = put id t' s.transactions }),
      )

unfoldable pub update_transaction : ℕ → ℕ → TransactionUpdate → Method Transaction
update_transaction now id input s = update_found now id input (get id s.transactions) s

abbrev same_reference : LedgerReference → LedgerReference → Bool
same_reference (delivered_reference i) (delivered_reference j) = i == j
same_reference (refunded_reference i) (refunded_reference j) = i == j
same_reference _ _ = false

abbrev pub has_ledger : List LedgerReference → LedgerReference → Bool
has_ledger [] r = false
has_ledger (q ∷ qs) r = same_reference q r || has_ledger qs r

abbrev pub add_ledger : LedgerReference → TopUpStore → TopUpStore
add_ledger r s =
    if has_ledger s.ledger_references r
    then s
    else record s { ledger_references = r ∷ s.ledger_references }

unfoldable pub post_delivered_ledger : Transaction → Method (Unit {0})
post_delivered_ledger t s = (ok tt, add_ledger (delivered_reference t.id) s)

unfoldable pub post_refund_ledger : Transaction → Method (Unit {0})
post_refund_ledger t s =
    if has_ledger s.ledger_references (delivered_reference t.id)
    then (ok tt, add_ledger (refunded_reference t.id) s)
    else (ok tt, s)
