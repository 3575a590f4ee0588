-- ===== src/Topup/Service/Frames.antt =====
-- What the methods of `MobileTopUpService` (apps/api/src/topup/service.ts) keep true, where it depends on
-- the orders and security refunds that were made and on the recharges that were begun only.
use ticash.Prelude.{
  ℕ, ◌+◌, ◌≡◌, ◌⊎◌, inl, inr, refl, arith, Bool, true, not, ◌&&◌, ◌||◌, Option, some, List, [], ◌∷◌,
  ◌==◌, if◌then◌else◌, Option-cases, Bool-cases,
}
use mathlib.Core.Path.{◌∙◌}
use ticash.Prelude.Lists.{All}
use ticash.Prelude.Maps.{get, put, get-put_self, get-put_ne}
use ticash.Prelude.Keeps.{Keeps}
use ticash.Topup.Errors.{Outcome}
use ticash.Topup.Repository.Types.{
  ReceiverNotification, PaymentStatus, Transaction, TopUpStore, Method, has_value,
}
use ticash.Topup.Repository.Claims.{
  claim_if, claim_operation, Operation, payment, fulfillment, recovery, claim_security_refund,
}
use ticash.Topup.Repository.Updates.{
  TransactionUpdate, updated, update_transaction, transition_payment, notification_for,
  add_notification, is_delivered, gives_delivered, is_from, is_other_payment, post_delivered_ledger,
  post_refund_ledger,
}
use ticash.Topup.Repository.PaymentEvents.{update_recipient_last_used}
use ticash.Topup.Service.Environment.{
  RechargeCall, submits, refunds_for_security, RechargeState, RechargeEnv, StoreBalancePayment,
  AuditAction, repo, get_transaction_by_id, ask, write_audit,
}

-- An order that was submitted, or a payment that was refunded for security, for the recharge.
abbrev pub is_ending : ℕ → RechargeCall → ℕ
is_ending id (submits j) = if j == id then 1 else 0
is_ending id (refunds_for_security j) = if j == id then 1 else 0
is_ending id _ = 0

abbrev pub endings : ℕ → List RechargeCall → ℕ
endings id [] = 0
endings id (c ∷ cs) = is_ending id c + endings id cs

abbrev pub begun : Transaction → Bool
begun t = has_value t.fulfillment_started_at || has_value t.recovery_started_at

-- The recharge was claimed for fulfillment or recovery.
abbrev pub Begun : ℕ → TopUpStore → Type 0
Begun id s = (t : Transaction) × (get id s.transactions ≡ some t) × (begun t ≡ true)

abbrev pub EndedOnce : ℕ → RechargeState → Type 0
EndedOnce id s = (endings id s.calls ≡ 0) ⊎ ((endings id s.calls ≡ 1) × Begun id s.store)

abbrev pub IsStable : ℕ → (RechargeState → Type 0) → Type 0
IsStable id P =
    (s s' : RechargeState)
    → endings id s'.calls ≡ endings id s.calls
    → (Begun id s.store → Begun id s'.store)
    → P s
    → P s'

pub EndedOnce-IsStable : (id : ℕ) → IsStable id (EndedOnce id)
EndedOnce-IsStable id s s' e f (inl n) = inl (e ∙ n)
EndedOnce-IsStable id s s' e f (inr (n, b)) = inr (e ∙ n, f b)

-- The store balance makes no orders and forgets no claim, and the other calls forget none.
pub record IsQuiet (env : RechargeEnv) : Type 0 where
  pub delivered_endings :
      (b : StoreBalancePayment) (id : ℕ) (t : Transaction) (s : RechargeState)
      → env.store_balance ≡ some b
      → endings id (b.delivered t s).1.calls ≡ endings id s.calls
  pub delivered_begun :
      (b : StoreBalancePayment) (id : ℕ) (t : Transaction) (s : RechargeState)
      → env.store_balance ≡ some b
      → Begun id s.store
      → Begun id (b.delivered t s).1.store
  pub refund_endings :
      (b : StoreBalancePayment) (id : ℕ) (t : Transaction) (s : RechargeState)
      → env.store_balance ≡ some b
      → endings id (b.refund t s).1.calls ≡ endings id s.calls
  pub refund_begun :
      (b : StoreBalancePayment) (id : ℕ) (t : Transaction) (s : RechargeState)
      → env.store_balance ≡ some b
      → Begun id s.store
      → Begun id (b.refund t s).1.store
  pub meanwhile_begun :
      All
        (λ (c : TopUpStore → TopUpStore). (id : ℕ) (s : TopUpStore) → Begun id s → Begun id (c s))
        env.meanwhile

-- A method of the repository that forgets no claim.
abbrev pub KeepsBegun : {A : Type 0} → Method A → Type 0
KeepsBegun m = (id : ℕ) (s : TopUpStore) → Begun id s → Begun id (m s).1

same-Begun :
    (id : ℕ) (s s' : TopUpStore) → s'.transactions ≡ s.transactions → Begun id s → Begun id s'
same-Begun id s s' e (t, g, b) = (t, rw e g, b)

-- A record is written that is begun if the old one was.
pub put-Begun :
    (id j : ℕ) (t t' : Transaction) (s s' : TopUpStore)
    → get j s.transactions ≡ some t
    → (begun t ≡ true → begun t' ≡ true)
    → s'.transactions ≡ put j t' s.transactions
    → Begun id s
    → Begun id s'
put-Begun id j t t' s s' found h e (u, g, b) = elim (Bool-cases (id == j)) [
  | inl same ↦
      let i : id ≡ j = (ground arith) in
      let q : u ≡ t = (ground (arith, rw i at g)) in
      (t', rw (e, i) (get-put_self j t' s.transactions), h (rw (← q) b))
  | inr other ↦ (u, rw e (get-put_ne id j t' s.transactions (ground arith) ∙ g), b)
]

claim_if-KeepsBegun :
    (test : Transaction → Bool) (write : Transaction → Transaction)
    → ((t : Transaction) → begun t ≡ true → begun (write t) ≡ true)
    → (j id : ℕ) (s : TopUpStore) → Begun id s
    → Begun id (claim_if test write j (get j s.transactions) s).1
claim_if-KeepsBegun test write h j id s b = elim (Option-cases (get j s.transactions)) [
  | inl missing ↦ rw missing b
  | inr (t, found) ↦ elim (Bool-cases (test t)) [
    | inr refused ↦ rw (found, refused) b
    | inl passed ↦
        rw (found, passed)
          (put-Begun id j t (write t) s (record s { transactions = put j (write t) s.transactions })
            found (h t) refl b)
  ]
]

pub claim_operation-KeepsBegun :
    (now j : ℕ) (op : Operation) (when : ℕ) → KeepsBegun (claim_operation now j op when)
unfolding claim_operation
claim_operation-KeepsBegun now j payment when = claim_if-KeepsBegun _ _ (λ t b. b) j
claim_operation-KeepsBegun now j fulfillment when = claim_if-KeepsBegun _ _ (λ t b. refl) j
claim_operation-KeepsBegun now j recovery when = claim_if-KeepsBegun _ _ (λ t b. ground arith) j

pub claim_security_refund-KeepsBegun :
    (now : ℕ) (t : Transaction) (reason when : ℕ)
    → KeepsBegun (claim_security_refund now t reason when)
unfolding claim_security_refund
claim_security_refund-KeepsBegun now t reason when =
    claim_if-KeepsBegun _ _ (λ t b. ground arith) t.id

add-Begun :
    (id j : ℕ) (n : Option ReceiverNotification) (s : TopUpStore)
    → (add_notification j n s).transactions ≡ s.transactions
add-Begun id j n s = ground arith

pub update_transaction-KeepsBegun :
    (now j : ℕ) (u : TransactionUpdate) → KeepsBegun (update_transaction now j u)
unfolding update_transaction
update_transaction-KeepsBegun now j u id s b = elim (Option-cases (get j s.transactions)) [
  | inl missing ↦ rw missing b
  | inr (t, found) ↦
      let t' = updated now u t in
      let s' = record s { transactions = put j t' s.transactions } in
      let is_kept =
        is_delivered t.status && t.receiver_value_confirmed && gives_delivered u.status in
      elim (Bool-cases is_kept) [
        | inl k ↦ rw (found, k) b
        | inr k ↦
            rw (found, k)
              (put-Begun id j t t' s (add_notification j (notification_for t') s') found (λ x. x)
                (add-Begun id j (notification_for t') s') b)
      ]
]

pub transition_payment-KeepsBegun :
    (now j : ℕ) (from_ : List PaymentStatus) (u : TransactionUpdate)
    → KeepsBegun (transition_payment now j from_ u)
unfolding transition_payment
transition_payment-KeepsBegun now j from_ u id s b = elim (Option-cases (get j s.transactions)) [
  | inl missing ↦ rw missing b
  | inr (t, found) ↦
      let t' = updated now u t in
      let refused =
        not (is_from from_ t.payment_status)
        || is_other_payment u.payment_provider_transaction_id t.payment_provider_transaction_id in
      elim (Bool-cases refused) [
        | inl k ↦ rw (found, k) b
        | inr k ↦
            rw (found, k)
              (put-Begun id j t t' s (record s { transactions = put j t' s.transactions }) found
                (λ x. x) refl b)
      ]
]

pub post_delivered_ledger-KeepsBegun : (t : Transaction) → KeepsBegun (post_delivered_ledger t)
unfolding post_delivered_ledger
post_delivered_ledger-KeepsBegun t id s b =
    same-Begun id s (post_delivered_ledger t s).1 (ground arith) b

pub post_refund_ledger-KeepsBegun : (t : Transaction) → KeepsBegun (post_refund_ledger t)
unfolding post_refund_ledger
post_refund_ledger-KeepsBegun t id s b = same-Begun id s (post_refund_ledger t s).1 (ground arith) b

pub update_recipient_last_used-KeepsBegun :
    (now user j product name : ℕ) → KeepsBegun (update_recipient_last_used now user j product name)
unfolding update_recipient_last_used
update_recipient_last_used-KeepsBegun now user j product name id s b =
    same-Begun id s (update_recipient_last_used now user j product name s).1 (ground arith) b

module _ (id : ℕ) (P : RechargeState → Type 0) (stable : IsStable id P) where
  pub repo-Keeps : {A : Type 0} (m : Method A) → KeepsBegun m → Keeps P (repo m)
  repo-Keeps m h = record { run = λ s p. stable s _ refl (h id s.store) p }

  pub ask-Keeps :
      {A : Type 0} (c : RechargeCall) (r : Outcome A) → is_ending id c ≡ 0 → Keeps P (ask c r)
  ask-Keeps c r h = record { run = λ s p. stable s _ (omega (arith, h)) (λ x. x) p }

  pub get-Keeps : (j : ℕ) → Keeps P (get_transaction_by_id j)
  get-Keeps j = record { run = λ s p. p }

  pub audit-Keeps : (env : RechargeEnv) (a : AuditAction) (j : ℕ) → Keeps P (write_audit env a j)
  audit-Keeps env a j = ask-Keeps _ _ refl

  pub delivered-Keeps :
      (env : RechargeEnv) (b : StoreBalancePayment) (t : Transaction)
      → IsQuiet env
      → env.store_balance ≡ some b
      → Keeps P (b.delivered t)
  delivered-Keeps env b t q e = record {
    run = λ s p.
        stable s (b.delivered t s).1 (q.delivered_endings b id t s e) (q.delivered_begun b id t s e)
          p;
  }

  pub refund-Keeps :
      (env : RechargeEnv) (b : StoreBalancePayment) (t : Transaction)
      → IsQuiet env
      → env.store_balance ≡ some b
      → Keeps P (b.refund t)
  refund-Keeps env b t q e = record {
    run = λ s p.
        stable s (b.refund t s).1 (q.refund_endings b id t s e) (q.refund_begun b id t s e) p;
  }
