-- ===== src/Topup/Service/Endings.antt =====
-- Orders and security refunds of a recharge over sequences of calls of `MobileTopUpService`
-- (apps/api/src/topup/service.ts).

use ticash.Prelude.{ℕ, ◌≡◌, refl, Bool, true, false, Option, none, some, List, [], ◌∷◌}
use ticash.Prelude.Keeps.{
  Keeps, pure-Keeps, throw-Keeps, or_raise-Keeps, raise_if-Keeps, when-Keeps, if_leads, bind_leads,
  attempt_leads,
}
use ticash.Topup.Errors.{Outcome}
use ticash.Topup.Repository.Types.{
  Status, pending, processing, delivered, failed, refunded, PaymentProvider, mock, stripe, dwolla,
  store_balance, Transaction, TopUpStore,
}
use ticash.Topup.Repository.Updates.{is_delivered}
use ticash.Topup.Service.Environment.{
  RechargeState, RechargeEnv, RechargeService, StoreBalancePayment, StripePayment, StripeProvider,
  ProviderTopUpResult, RefundStatus, VoidStatus,
}
use ticash.Prelude.Lists.{All}
use ticash.Topup.Repository.Claims.{recovery}
use ticash.Topup.Service.Frames.{
  Begun, IsStable, IsQuiet, repo-Keeps, ask-Keeps, get-Keeps, audit-Keeps, delivered-Keeps,
  refund-Keeps, claim_operation-KeepsBegun, update_transaction-KeepsBegun,
  transition_payment-KeepsBegun, post_delivered_ledger-KeepsBegun, post_refund_ledger-KeepsBegun,
  update_recipient_last_used-KeepsBegun,
}
use ticash.Topup.Service.Recovery.{
  interfere, stripe_answer, stripe_turn, decide, turn, Turn, returns, moves, call_refund, call_void,
  call_recovery, payment_id_of, after_loop, finish_turn, loop, recover_store, recover_claimed,
  recover_by, recover_payment,
}
use ticash.Topup.Service.Results.{
  settle_delivered, send_receipt, post_refund, settle, apply_provider_result,
}

ruleset recharge_steps = (
  bind_leads, attempt_leads, if_leads, when-Keeps, pure-Keeps, throw-Keeps, or_raise-Keeps,
  raise_if-Keeps, claim_operation-KeepsBegun, update_transaction-KeepsBegun,
  transition_payment-KeepsBegun, post_delivered_ledger-KeepsBegun, post_refund_ledger-KeepsBegun,
  update_recipient_last_used-KeepsBegun,
)

module _ (id : ℕ) (P : RechargeState → Type 0) (stable : IsStable id P) (env : RechargeEnv)
    (quiet : IsQuiet env) (now j : ℕ) where
  stripe_answer-Keeps :
      (t : Transaction) (p : StripePayment) → Keeps P (stripe_answer env now j t p)
  stripe_answer-Keeps t p =
      search
        (recharge_steps, repo-Keeps id P stable, get-Keeps id P stable, audit-Keeps id P stable)
        depth 14

  stripe_turn-Keeps :
      (t : Transaction) (p : StripeProvider) (i : Option ℕ) → Keeps P (stripe_turn env now j t p i)
  stripe_turn-Keeps t p none = pure-Keeps P _
  stripe_turn-Keeps t p (some i) =
      search (recharge_steps, ask-Keeps id P stable, audit-Keeps id P stable, stripe_answer-Keeps)
        depth 14

  decide-Keeps :
      (b : Bool) (t : Transaction) (x : Option PaymentProvider) (p : Option StripeProvider)
      → Keeps P (decide env now j b t x p)
  decide-Keeps b t (some stripe) (some p) = stripe_turn-Keeps t p _
  decide-Keeps b t (some stripe) none = pure-Keeps P _
  decide-Keeps b t (some mock) p = pure-Keeps P _
  decide-Keeps b t (some dwolla) p = pure-Keeps P _
  decide-Keeps b t (some store_balance) p = pure-Keeps P _
  decide-Keeps b t none p = pure-Keeps P _

  turn-Keeps : (b : Bool) → Keeps P (turn env now j b)
  turn-Keeps b = search (recharge_steps, get-Keeps id P stable, decide-Keeps) depth 14

  call_refund-Keeps :
      (t : Transaction) (f : Option (ℕ → ℕ → ℕ → Outcome RefundStatus)) (i : Option ℕ)
      → Keeps P (call_refund env now j t f i)
  call_refund-Keeps t none i = pure-Keeps P _
  call_refund-Keeps t (some f) none = pure-Keeps P _
  call_refund-Keeps t (some f) (some i) = search (recharge_steps, ask-Keeps id P stable) depth 14

  call_void-Keeps :
      (f : Option (ℕ → ℕ → Outcome VoidStatus)) (i : Option ℕ) → Keeps P (call_void env now j f i)
  call_void-Keeps none i = pure-Keeps P _
  call_void-Keeps (some f) none = pure-Keeps P _
  call_void-Keeps (some f) (some i) = search (recharge_steps, ask-Keeps id P stable) depth 14

  call_recovery-Keeps :
      (t : Transaction) (b : Bool) (x : Option PaymentProvider) (p : Option StripeProvider)
      → Keeps P (call_recovery env now j t b x p)
  call_recovery-Keeps t true (some mock) p =
      call_refund-Keeps t env.payment_provider.refund (payment_id_of t)
  call_recovery-Keeps t false (some mock) p =
      call_void-Keeps env.payment_provider.void (payment_id_of t)
  call_recovery-Keeps t true (some stripe) (some p) =
      call_refund-Keeps t (some p.refund) (payment_id_of t)
  call_recovery-Keeps t false (some stripe) (some p) =
      call_void-Keeps (some p.void) (payment_id_of t)
  call_recovery-Keeps t true (some stripe) none = pure-Keeps P _
  call_recovery-Keeps t false (some stripe) none = pure-Keeps P _
  call_recovery-Keeps t true (some dwolla) p = pure-Keeps P _
  call_recovery-Keeps t false (some dwolla) p = pure-Keeps P _
  call_recovery-Keeps t true (some store_balance) p = pure-Keeps P _
  call_recovery-Keeps t false (some store_balance) p = pure-Keeps P _
  call_recovery-Keeps t true none p = pure-Keeps P _
  call_recovery-Keeps t false none p = pure-Keeps P _

  after_loop-Keeps :
      (external : Bool) (t : Transaction) (b : Bool) → Keeps P (after_loop env now j external t b)
  after_loop-Keeps external t b =
      search
        (
          recharge_steps,
          call_recovery-Keeps,
          repo-Keeps id P stable,
          get-Keeps id P stable,
          audit-Keeps id P stable,
        )
        depth 20

  finish_turn-Keeps :
      (again : RechargeService (Option Transaction)) (external : Bool) (t : Turn)
      → Keeps P again
      → Keeps P (finish_turn env now j again external t)
  finish_turn-Keeps again external (returns t) k = pure-Keeps P _
  finish_turn-Keeps again external (moves t b) k =
      bind_leads (repo-Keeps id P stable _ (transition_payment-KeepsBegun now j _ _))
        (λ moved. if_leads moved (after_loop-Keeps external t b) k)

  interfere-Keeps :
      (c : TopUpStore → TopUpStore)
      → ((i : ℕ) (s : TopUpStore) → Begun i s → Begun i (c s))
      → Keeps P (interfere env now j c)
  interfere-Keeps c h = record { run = λ s p. stable s _ refl (h id s.store) p }

  loop-Keeps :
      (again : RechargeService (Option Transaction)) (cs : List (TopUpStore → TopUpStore))
      (reversed external : Bool)
      → Keeps P again
      → All
          (λ (c : TopUpStore → TopUpStore). (i : ℕ) (s : TopUpStore) → Begun i s → Begun i (c s))
          cs
      → Keeps P (loop env now j again cs reversed external)
  loop-Keeps again [] reversed external k h =
      bind_leads (turn-Keeps reversed) (λ t. finish_turn-Keeps again external t k)
  loop-Keeps again (c ∷ cs) reversed external k (h, hs) = bind_leads (turn-Keeps reversed) (λ t.
      bind_leads (interfere-Keeps c h) (λ _.
        finish_turn-Keeps (loop env now j again cs reversed external) external t
          (loop-Keeps again cs reversed external k hs)))

  recover_store-Keeps :
      (t : Transaction) (x : Option StoreBalancePayment)
      → env.store_balance ≡ x
      → Keeps P (recover_store env now j t x)
  recover_store-Keeps t none e = throw-Keeps P _
  recover_store-Keeps t (some b) e =
      bind_leads (refund-Keeps id P stable env b t quiet e) (λ _. get-Keeps id P stable j)

  recover_claimed-Keeps :
      (reversed external : Bool) → Keeps P (recover_claimed env now j reversed external)
  recover_claimed-Keeps reversed external =
      bind_leads (repo-Keeps id P stable _ (claim_operation-KeepsBegun now j recovery now)) (λ mine.
        if_leads mine
          (loop-Keeps _ env.meanwhile reversed external (throw-Keeps P _) quiet.meanwhile_begun)
          (get-Keeps id P stable j))

  recover_by-Keeps :
      (reversed external : Bool) (t : Transaction) (x : Option PaymentProvider)
      → Keeps P (recover_by env now j reversed external t x)
  recover_by-Keeps reversed external t (some store_balance) = recover_store-Keeps t _ refl
  recover_by-Keeps reversed external t (some stripe) = recover_claimed-Keeps reversed external
  recover_by-Keeps reversed external t (some mock) = recover_claimed-Keeps reversed external
  recover_by-Keeps reversed external t (some dwolla) = recover_claimed-Keeps reversed external
  recover_by-Keeps reversed external t none = recover_claimed-Keeps reversed external

  pub recover_payment-Keeps :
      (reversed external : Bool) → Keeps P (recover_payment env now j reversed external)
  unfolding recover_payment
  recover_payment-Keeps reversed external =
      search (recharge_steps, get-Keeps id P stable, recover_by-Keeps) depth 14

  settle_delivered-Keeps :
      (t : Transaction) (x : Option PaymentProvider) (b : Option StoreBalancePayment)
      → env.store_balance ≡ b
      → Keeps P (settle_delivered env now j t x b)
  settle_delivered-Keeps t (some store_balance) none e = throw-Keeps P _
  settle_delivered-Keeps t (some store_balance) (some b) e =
      delivered-Keeps id P stable env b t quiet e
  settle_delivered-Keeps t (some stripe) b e =
      repo-Keeps id P stable _ (post_delivered_ledger-KeepsBegun t)
  settle_delivered-Keeps t (some mock) b e =
      repo-Keeps id P stable _ (post_delivered_ledger-KeepsBegun t)
  settle_delivered-Keeps t (some dwolla) b e =
      repo-Keeps id P stable _ (post_delivered_ledger-KeepsBegun t)
  settle_delivered-Keeps t none b e = repo-Keeps id P stable _ (post_delivered_ledger-KeepsBegun t)

  send_receipt-Keeps :
      (t : Transaction) (b : Bool) (mail : Option (Transaction → Outcome Bool))
      → Keeps P (send_receipt env now j t b mail)
  send_receipt-Keeps t b none = pure-Keeps P _
  send_receipt-Keeps t true (some mail) = pure-Keeps P _
  send_receipt-Keeps t false (some mail) =
      search (recharge_steps, ask-Keeps id P stable, audit-Keeps id P stable) depth 14

  post_refund-Keeps :
      (t : Transaction) (x : Option PaymentProvider) → Keeps P (post_refund env now j t x)
  post_refund-Keeps t (some store_balance) = pure-Keeps P _
  post_refund-Keeps t (some stripe) = repo-Keeps id P stable _ (post_refund_ledger-KeepsBegun t)
  post_refund-Keeps t (some mock) = repo-Keeps id P stable _ (post_refund_ledger-KeepsBegun t)
  post_refund-Keeps t (some dwolla) = repo-Keeps id P stable _ (post_refund_ledger-KeepsBegun t)
  post_refund-Keeps t none = repo-Keeps id P stable _ (post_refund_ledger-KeepsBegun t)

  settle-Keeps :
      (external : Bool) (after before : Status) (t : Transaction)
      → Keeps P (settle env now j external after before t)
  settle-Keeps external delivered before t = bind_leads (settle_delivered-Keeps t _ _ refl) (λ _.
      bind_leads (send_receipt-Keeps t (is_delivered before) env.sender_receipt_email)
        (λ _. pure-Keeps P (some t)))
  settle-Keeps external refunded before t =
      bind_leads (post_refund-Keeps t _) (λ _. recover_payment-Keeps true external)
  settle-Keeps external failed before t = recover_payment-Keeps false external
  settle-Keeps external pending before t = pure-Keeps P _
  settle-Keeps external processing before t = pure-Keeps P _

  pub apply_provider_result-Keeps :
      (r : ProviderTopUpResult) (external : Bool)
      → Keeps P (apply_provider_result env now j r external)
  unfolding apply_provider_result
  apply_provider_result-Keeps r external =
      search (recharge_steps, get-Keeps id P stable, repo-Keeps id P stable, settle-Keeps) depth 16
