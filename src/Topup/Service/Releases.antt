-- ===== src/Topup/Service/Releases.antt =====
-- The refund for security, the fraud gate and the calls that fulfil and release recharges
-- (apps/api/src/topup/service.ts).
use ticash.Prelude.{
  ℕ, ◌≡◌, inl, inr, refl, arith, true, false, Option, none, some, ◌==◌, Option-cases, Bool-cases,
}
use ticash.Prelude.Maps.{get, put}
use ticash.Prelude.Keeps.{
  Leads, Keeps, pure-Keeps, or_raise-Keeps, raise_if-Keeps, if_leads, bind_leads, attempt_leads,
}
use ticash.Topup.Errors.{Outcome}
use ticash.Topup.Repository.Types.{Transaction, failed, refund_pending, security_refund_required}
use ticash.Topup.Repository.Claims.{claim_security_refund, may_refund}
use ticash.Topup.Service.Environment.{
  refunds_for_security, RechargeState, RechargeEnv, StripeProvider, asks_gate,
  security_refund_requested, RefundStatus, is_refunded, is_refund_pending,
}
use ticash.Topup.Service.SecurityRefunds.{
  refund_answered, send_refund, refund_claimed, claim_and_refund, refund_for, refund_eligible,
  refund_confirmed_security_failure,
}
use ticash.Topup.Service.Fulfillment.{
  ask_gate, hold_or_submit, fulfill_paid_recharge, review_held_recharge,
}
use ticash.Topup.Service.Frames.{
  put-Begun, IsQuiet, EndedOnce, EndedOnce-IsStable, begun, repo-Keeps, ask-Keeps, get-Keeps,
  audit-Keeps, update_transaction-KeepsBegun, transition_payment-KeepsBegun,
}
use ticash.Topup.Service.Orders.{
  Ready, EndsOnce, claimed-Ready, Ready-ends, other_ends, submit-Keeps,
}

may_refund-new : (t t0 : Transaction) → may_refund t t0 ≡ true → begun t0 ≡ false
may_refund-new t t0 h = ground arith

module _ (id : ℕ) (env : RechargeEnv) (quiet : IsQuiet env) (now : ℕ) where
  refund_answered-Keeps :
      (t : Transaction) (r : RefundStatus) → Keeps (EndedOnce id) (refund_answered env now t r)
  refund_answered-Keeps t is_refund_pending = pure-Keeps _ _
  refund_answered-Keeps t is_refunded =
      let stable = EndedOnce-IsStable id in
      search
        (
          bind_leads,
          transition_payment-KeepsBegun,
          repo-Keeps id (EndedOnce id) stable,
          audit-Keeps id (EndedOnce id) stable,
        )
        depth 12

  send_refund_leads :
      (P : RechargeState → Type 0) (p : StripeProvider) (i : ℕ) (t : Transaction)
      → EndsOnce RefundStatus id P (refunds_for_security t.id)
      → Leads P (send_refund env now p i t) (EndedOnce id)
  send_refund_leads P p i t ends =
      bind_leads (ends (p.refund i t.id t.total_charge_minor)) (λ r. refund_answered-Keeps t r)

  refund_claimed_leads :
      (P : RechargeState → Type 0) (p : StripeProvider) (i : ℕ) (t : Transaction)
      → EndsOnce RefundStatus id P (refunds_for_security t.id)
      → Leads P (refund_claimed env now p i t) (EndedOnce id)
  refund_claimed_leads P p i t ends =
      bind_leads (attempt_leads (send_refund_leads P p i t ends) (λ e. pure-Keeps _ tt))
        (λ _. get-Keeps id (EndedOnce id) (EndedOnce-IsStable id) t.id)

  claim_and_refund-Keeps :
      (p : StripeProvider) (i : ℕ) (t : Transaction) (reason : ℕ)
      → Keeps (EndedOnce id) (claim_and_refund env now p i t reason)
  unfolding claim_security_refund
  claim_and_refund-Keeps p i t reason = record {
    run = λ s once. elim (Option-cases (get t.id s.store.transactions)) [
      | inl missing ↦ rw missing once
      | inr (t0, found) ↦
          let t1 = record t0 {
            status = failed;
            payment_status = refund_pending;
            failure_code = some security_refund_required;
            payment_recovery_code = some reason;
            recovery_started_at = some now;
            failed_at = some now;
            updated_at = now;
          } in
          let s' = record s {
            store = record s.store { transactions = put t.id t1 s.store.transactions };
          } in
          elim (Bool-cases (may_refund t t0)) [
            | inr refused ↦ rw (found, refused) once
            | inl passed ↦ elim (Bool-cases (t.id == id)) [
              | inl same ↦
                  rw (found, passed)
                    ((refund_claimed_leads (Ready id) p i t
                        (Ready-ends _ id (refunds_for_security t.id) (rw same refl))).run
                      s'
                      (claimed-Ready id t.id t0 t1 s found (may_refund-new t t0 passed)
                        (ground arith) same once))
              | inr other ↦
                  rw (found, passed)
                    ((refund_claimed_leads (EndedOnce id) p i t
                        (other_ends _ id (refunds_for_security t.id) (rw other refl))).run
                      s'
                      (EndedOnce-IsStable id s s' refl
                        (put-Begun id t.id t0 t1 s.store s'.store found (λ b. ground arith) refl)
                        once))
            ]
          ]
    ];
  }

  refund_for-Keeps :
      (p : StripeProvider) (i : ℕ) (t : Transaction) (reason : Option ℕ)
      → Keeps (EndedOnce id) (refund_for env now p i t reason)
  refund_for-Keeps p i t none = pure-Keeps _ _
  refund_for-Keeps p i t (some reason) =
      bind_leads
        (audit-Keeps id (EndedOnce id) (EndedOnce-IsStable id) env security_refund_requested t.id)
        (λ _. claim_and_refund-Keeps p i t reason)

  refund_eligible-Keeps :
      (t : Transaction) (p : Option StripeProvider) (i : Option ℕ)
      → Keeps (EndedOnce id) (refund_eligible env now t p i)
  refund_eligible-Keeps t none i = pure-Keeps _ _
  refund_eligible-Keeps t (some p) none = pure-Keeps _ _
  refund_eligible-Keeps t (some p) (some i) =
      let stable = EndedOnce-IsStable id in
      search
        (
          bind_leads,
          attempt_leads,
          if_leads,
          pure-Keeps,
          refund_for-Keeps,
          ask-Keeps id (EndedOnce id) stable,
        )
        depth 16

  refund_confirmed_security_failure-Keeps :
      (t : Transaction) → Keeps (EndedOnce id) (refund_confirmed_security_failure env now t)
  unfolding refund_confirmed_security_failure
  refund_confirmed_security_failure-Keeps t =
      search (bind_leads, if_leads, raise_if-Keeps, pure-Keeps, refund_eligible-Keeps) depth 12

  ask_gate-Keeps :
      (j : ℕ) (t : Transaction) (g : Option (Transaction → Outcome (Option ℕ)))
      → Keeps (EndedOnce id) (ask_gate env now j t g)
  ask_gate-Keeps j t none = pure-Keeps _ _
  ask_gate-Keeps j t (some g) =
      attempt_leads (ask-Keeps id (EndedOnce id) (EndedOnce-IsStable id) (asks_gate j) (g t) refl)
        (λ e. pure-Keeps _ _)

  hold_or_submit-Keeps :
      (j : ℕ) (t : Transaction) (reason : Option ℕ)
      → Keeps (EndedOnce id) (hold_or_submit env now j t reason)
  hold_or_submit-Keeps j t none = submit-Keeps id env quiet now j t
  hold_or_submit-Keeps j t (some reason) =
      let stable = EndedOnce-IsStable id in
      search
        (
          bind_leads,
          update_transaction-KeepsBegun,
          refund_confirmed_security_failure-Keeps,
          repo-Keeps id (EndedOnce id) stable,
          audit-Keeps id (EndedOnce id) stable,
        )
        depth 14

  pub fulfill_paid_recharge-Keeps : (j : ℕ) → Keeps (EndedOnce id) (fulfill_paid_recharge env now j)
  unfolding fulfill_paid_recharge
  fulfill_paid_recharge-Keeps j =
      search
        (
          bind_leads,
          if_leads,
          raise_if-Keeps,
          or_raise-Keeps,
          refund_confirmed_security_failure-Keeps,
          submit-Keeps id env quiet now,
          ask_gate-Keeps,
          hold_or_submit-Keeps,
          get-Keeps id (EndedOnce id) (EndedOnce-IsStable id),
        )
        depth 16

  pub review_held_recharge-Keeps :
      (j actor note : ℕ) → Keeps (EndedOnce id) (review_held_recharge env now j actor note)
  unfolding review_held_recharge
  review_held_recharge-Keeps j actor note =
      let stable = EndedOnce-IsStable id in
      search
        (
          bind_leads,
          raise_if-Keeps,
          or_raise-Keeps,
          update_transaction-KeepsBegun,
          fulfill_paid_recharge-Keeps,
          get-Keeps id (EndedOnce id) stable,
          ask-Keeps id (EndedOnce id) stable,
          repo-Keeps id (EndedOnce id) stable,
        )
        depth 18
