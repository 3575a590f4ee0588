-- ===== src/Topup/Notifications.antt =====
-- The messages to receivers: the notification methods of apps/api/src/topup/repository.ts and
-- `ReceiverNotificationService` of receiver-notification.ts. The sender of messages is a parameter; the
-- messages that were handed to it stand in the state, the latest first.
use ticash.Prelude.{
  ℕ, zero, suc, Bool, true, false, not, ◌&&◌, ◌+◌, Option, none, some, List, [], ◌∷◌, if◌then◌else◌,
  min, Result, ok, err, map,
}
use ticash.Prelude.Lists.{filter, length}
use ticash.Prelude.Maps.{get, put, values}
use ticash.Topup.Repository.Types.{
  Transaction, ReceiverNotification, NotificationStatus, waiting, sent, received, not_sent,
  ErrorCategory, sms_not_configured, provider_rejected, sms_outcome_unknown, TopUpStore, has_value,
}
use ticash.Topup.Repository.Updates.{is_delivered, valid_receiver_value}

abbrev pub is_definite : Option ErrorCategory → Bool
is_definite (some sms_not_configured) = true
is_definite (some provider_rejected) = true
is_definite _ = false

abbrev pub is_retryable : NotificationStatus → ReceiverNotification → Bool
is_retryable waiting n = not (has_value n.claimed_at)
is_retryable not_sent n = is_definite n.last_error_category
is_retryable _ n = false

-- `retryableNotification`
abbrev pub retryable_notification : ReceiverNotification → Bool
retryable_notification n = is_retryable n.status n

abbrev take : {A : Type 0} → ℕ → List A → List A
take zero xs = []
take (suc n) [] = []
take (suc n) (x ∷ xs) = x ∷ take n xs

unfoldable pub list_retryable_notification_ids : ℕ → TopUpStore → List ℕ
list_retryable_notification_ids limit s =
    map (λ (n : ReceiverNotification). n.transaction_id)
      (take limit (filter retryable_notification (values s.notifications)))

abbrev pub may_claim : Option Transaction → ReceiverNotification → Bool
may_claim none n = false
may_claim (some t) n =
    retryable_notification n && is_delivered t.status && t.receiver_value_confirmed

abbrev pub claimed : ℕ → ReceiverNotification → ReceiverNotification
claimed when n = record n {
  status = waiting;
  claimed_at = some when;
  attempts = n.attempts + 1;
  last_error_category = none;
}

abbrev pub claim_found : ℕ → ℕ → Option ReceiverNotification → TopUpStore → Bool × TopUpStore
claim_found id when none s = (false, s)
claim_found id when (some n) s =
    if may_claim (get id s.transactions) n
    then (true, record s { notifications = put id (claimed when n) s.notifications })
    else (false, s)

unfoldable pub claim_notification : ℕ → ℕ → TopUpStore → Bool × TopUpStore
claim_notification id when s = claim_found id when (get id s.notifications) s

-- What the sender of messages answers: an acceptance with the identifier of the message, `none` where
-- that is no text of 1 to 200 characters, or a refusal.
pub data SendResult : Type 0 where
  accepted_sent accepted_delivered : Option ℕ → SendResult
  refused_unconfigured refused_by_provider : SendResult

-- The handler of an outcome; `when` is the clock, and any error of the sender is unknown.
abbrev pub failed_with : ErrorCategory → ReceiverNotification → ReceiverNotification
failed_with c n = record n { status = not_sent; last_error_category = some c }

abbrev pub outcome : ℕ → Result (Unit {0}) SendResult → ReceiverNotification → ReceiverNotification
outcome when (ok refused_unconfigured) n = failed_with sms_not_configured n
outcome when (ok refused_by_provider) n = failed_with provider_rejected n
outcome when (ok (accepted_delivered (some id))) n = record n {
  status = received;
  provider_message_id = some id;
  last_error_category = none;
  sent_at = some when;
  delivered_at = some when;
}
outcome when (ok (accepted_sent (some id))) n = record n {
  status = sent;
  provider_message_id = some id;
  last_error_category = none;
  sent_at = some when;
}
outcome when (ok (accepted_sent none)) n = failed_with sms_outcome_unknown n
outcome when (ok (accepted_delivered none)) n = failed_with sms_outcome_unknown n
outcome when (err e) n = failed_with sms_outcome_unknown n

-- `finishNotification`
abbrev pub finish_found :
    ℕ
    → ℕ
    → (ReceiverNotification → ReceiverNotification)
    → Option ReceiverNotification
    → TopUpStore
    → TopUpStore
finish_found now id update none s = s
finish_found now id update (some n) s = record s {
  notifications = put id (record (update n) { updated_at = now }) s.notifications;
}

abbrev pub finish_notification :
    ℕ → ℕ → (ReceiverNotification → ReceiverNotification) → TopUpStore → TopUpStore
finish_notification now id update s = finish_found now id update (get id s.notifications) s

-- The store, and the messages that were tried: the recharge, and whether the answer was a definite
-- refusal.
pub record Outbox : Type 0 where
  pub store : TopUpStore
  pub handed : List (ℕ × Bool)

abbrev pub is_refusal : Result (Unit {0}) SendResult → Bool
is_refusal (ok refused_unconfigured) = true
is_refusal (ok refused_by_provider) = true
is_refusal _ = false

-- `send` hands the message to the sender; an amount that is no receiver's value has no message.
module _ (send : ReceiverNotification → Result (Unit {0}) SendResult) where
  abbrev pub send_message : ReceiverNotification → Result (Unit {0}) SendResult
  send_message n = if valid_receiver_value n.amount n.currency then send n else err tt

  abbrev pub send_claimed : ℕ → ℕ → Option ReceiverNotification → Outbox → Outbox
  send_claimed now id none b = b
  send_claimed now id (some n) b = record b {
    store = finish_notification now id (outcome now (send_message n)) b.store;
    handed = (id, is_refusal (send_message n)) ∷ b.handed;
  }

  abbrev pub retry_claimed : ℕ → ℕ → Bool × TopUpStore → List (ℕ × Bool) → Outbox
  retry_claimed now id (false, s) handed = record { store = s; handed = handed }
  retry_claimed now id (true, s) handed =
      send_claimed now id (get id s.notifications) (record { store = s; handed = handed })

  -- The notification that is returned is the one of the store.
  unfoldable pub retry : ℕ → ℕ → Outbox → Outbox
  retry now id b = retry_claimed now id (claim_notification id now b.store) b.handed

  abbrev pub retry_all : ℕ → List ℕ → Outbox → Outbox
  retry_all now [] b = b
  retry_all now (id ∷ ids) b = retry_all now ids (retry now id b)

  -- The limit that is given, a whole number, and 50 where it is 0.
  abbrev pub batch_limit : ℕ → ℕ
  batch_limit zero = 50
  batch_limit (suc n) = min 100 (suc n)

  unfoldable pub process_batch : ℕ → ℕ → Outbox → ℕ × Outbox
  process_batch now limit b =
      let ids = list_retryable_notification_ids (batch_limit limit) b.store in
      (length ids, retry_all now ids b)
