-- ===== src/Topup/Messages.antt =====
-- The messages to a receiver, `ReceiverNotificationService` of apps/api/src/topup/receiver-notification.ts
-- and the updates of recharges that create the notifications.
use ticash.Prelude.{
  ℕ, ◌+◌, ◌≤◌, ◌≡◌, ◌≢◌, ◌⊎◌, inl, inr, refl, arith, Bool, true, false, not, ◌&&◌, Option, none,
  some, List, [], ◌∷◌, ◌==◌, if◌then◌else◌, Result, Bool-cases, Option-cases,
}
use mathlib.Core.Path.{◌∙◌, subst}
use ticash.Prelude.Maps.{get, put, has, get-put_self, get-put_ne}
use ticash.Topup.Repository.Types.{Transaction, ReceiverNotification, TopUpStore}
use ticash.Topup.Repository.Updates.{
  TransactionUpdate, update_transaction, updated, add_notification, notification_for, is_delivered,
  gives_delivered,
}
use ticash.Topup.Notifications.{
  retryable_notification, send_message, may_claim, claimed, claim_notification, outcome, Outbox,
  SendResult, is_refusal, retry,
}

-- Messages about a recharge that were handed over and not refused for certain.
abbrev pub is_open : ℕ → ℕ × Bool → ℕ
is_open id (j, refusal) = if j == id && not refusal then 1 else 0

abbrev pub open_messages : ℕ → List (ℕ × Bool) → ℕ
open_messages id [] = 0
open_messages id (m ∷ ms) = is_open id m + open_messages id ms

-- A notification of the recharge that is not tried again.
abbrev IsClosed : ℕ → TopUpStore → Type 0
IsClosed id s =
    (n : ReceiverNotification) × (get id s.notifications ≡ some n)
    × (retryable_notification n ≡ false)

abbrev MessagedOnce : ℕ → Outbox → Type 0
MessagedOnce id b =
    (open_messages id b.handed ≡ 0) ⊎ ((open_messages id b.handed ≡ 1) × IsClosed id b.store)

-- The service tries a notification again, or a recharge is updated.
pub data MessageStep : Type 0 where
  retried : (send : ReceiverNotification → Result (Unit {0}) SendResult) (now id : ℕ) → MessageStep
  changed : (now id : ℕ) (input : TransactionUpdate) → MessageStep

abbrev pub step : MessageStep → Outbox → Outbox
step (retried send now id) b = retry send now id b
step (changed now id input) b = record b { store = (update_transaction now id input b.store).1 }

abbrev pub run : List MessageStep → Outbox → Outbox
run [] b = b
run (m ∷ ms) b = run ms (step m b)

-- An outcome that is no certain refusal is not tried again.
outcome_closed :
    (now : ℕ) (r : Result (Unit {0}) SendResult) (n : ReceiverNotification)
    → is_refusal r ≡ false
    → retryable_notification (record (outcome now r n) { updated_at = now }) ≡ false
outcome_closed now r n h = ground arith

-- A message about recharge `j` to a receiver whose notification was to be tried.
sent_once :
    (id j : ℕ) (x y n : ReceiverNotification) (s : TopUpStore) (handed : List (ℕ × Bool))
    (refusal : Bool)
    → get j s.notifications ≡ some n
    → retryable_notification n ≡ true
    → (refusal ≡ false → retryable_notification x ≡ false)
    → MessagedOnce id (record { store = s; handed = handed })
    → MessagedOnce id (record {
      store = record s { notifications = put j x (put j y s.notifications) };
      handed = (j, refusal) ∷ handed;
    })
sent_once id j x y n s handed refusal found due ends once = elim (Bool-cases (j == id)) [
  | inl same ↦
      let here_ : j ≡ id = (ground arith) in
      let stored = get-put_self j x (put j y s.notifications) in
      elim once [
        | inl none_yet ↦ elim (Bool-cases refusal) [
          | inl r ↦ inl (rw (r, same) (ground arith))
          | inr r ↦ inr (
            (rw (r, same) (ground arith)),
            (
              x,
              subst (λ i. get i (put j x (put j y s.notifications)) ≡ some x) here_ stored,
              ends r,
            ),
          )
        ]
        | inr (one, (m, e, closed)) ↦
            let e2 : get j s.notifications ≡ some m = (rw here_ e) in ground arith
      ]
  | inr other ↦
      let apart : id ≢ j = (ground arith) in
      let kept =
        get-put_ne id j x (put j y s.notifications) apart
        ∙ get-put_ne id j y s.notifications apart in
      elim once [
        | inl z ↦ inl (rw other (omega arith))
        | inr (one, (m, e, closed)) ↦ inr ((rw other (omega arith)), (m, kept ∙ e, closed))
      ]
]

may_claim-retryable :
    (t : Option Transaction) (n : ReceiverNotification)
    → may_claim t n ≡ true
    → retryable_notification n ≡ true
may_claim-retryable t n h = ground arith

retry-MessagedOnce :
    (id : ℕ) (send : ReceiverNotification → Result (Unit {0}) SendResult) (now j : ℕ) (b : Outbox)
    → MessagedOnce id b
    → MessagedOnce id (retry send now j b)
unfolding retry claim_notification
retry-MessagedOnce id send now j b once = elim (Option-cases (get j b.store.notifications)) [
  | inl missing ↦ rw missing once
  | inr (n, found) ↦ elim (Bool-cases (may_claim (get j b.store.transactions) n)) [
    | inr refused ↦ rw (found, refused) once
    | inl may ↦
        let stored = get-put_self j (claimed now n) b.store.notifications in
        let due = may_claim-retryable (get j b.store.transactions) n may in
        let r = send_message send (claimed now n) in
        rw (found, may, stored, stored)
          (sent_once id j (record (outcome now r (claimed now n)) { updated_at = now })
            (claimed now n) n b.store b.handed (is_refusal r) found due
            (outcome_closed now r (claimed now n)) once)
  ]
]

add-IsClosed :
    (id j : ℕ) (n : Option ReceiverNotification) (s : TopUpStore)
    → IsClosed id s
    → IsClosed id (add_notification j n s)
add-IsClosed id j none s h = h
add-IsClosed id j (some n) s (m, e, closed) = elim (Bool-cases (has j s.notifications)) [
  | inl known ↦ rw known (m, e, closed)
  | inr new ↦
      let apart : id ≢ j = (ground arith) in
      rw new (m, get-put_ne id j n s.notifications apart ∙ e, closed)
]

change-IsClosed :
    (id now j : ℕ) (u : TransactionUpdate) (s : TopUpStore)
    → IsClosed id s
    → IsClosed id (update_transaction now j u s).1
unfolding update_transaction
change-IsClosed id now j u s h = elim (Option-cases (get j s.transactions)) [
  | inl missing ↦ rw missing h
  | inr (t, found) ↦
      let t' = updated now u t in
      let s' = record s { transactions = put j t' s.transactions } in
      let is_kept =
        is_delivered t.status && t.receiver_value_confirmed && gives_delivered u.status in
      elim (Bool-cases is_kept) [
        | inl k ↦ rw (found, k) h
        | inr k ↦ rw (found, k) (add-IsClosed id j (notification_for t') s' h)
      ]
]

step-MessagedOnce :
    (id : ℕ) (m : MessageStep) (b : Outbox) → MessagedOnce id b → MessagedOnce id (step m b)
step-MessagedOnce id (retried send now j) b once = retry-MessagedOnce id send now j b once
step-MessagedOnce id (changed now j u) b (inl z) = inl z
step-MessagedOnce id (changed now j u) b (inr (one, c)) =
    inr (one, change-IsClosed id now j u b.store c)

run-MessagedOnce :
    (id : ℕ) (ms : List MessageStep) (b : Outbox) → MessagedOnce id b → MessagedOnce id (run ms b)
run-MessagedOnce id [] b once = once
run-MessagedOnce id (m ∷ ms) b once =
    run-MessagedOnce id ms (step m b) (step-MessagedOnce id m b once)

-- However often notifications are tried and recharges are updated, and whatever the sender answers each
-- time, from no message tried at most one message about a recharge is handed over without a definite
-- refusal.
pub handed_once :
    (id : ℕ) (ms : List MessageStep) (b : Outbox)
    → b.handed ≡ []
    → open_messages id (run ms b).handed ≤ 1
handed_once id ms b none_yet =
    let r = run-MessagedOnce id ms b (inl (rw none_yet refl)) in
    elim r [ inl z ↦ omega arith | inr (one, c) ↦ omega arith ]
