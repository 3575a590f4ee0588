-- ===== src/Topup/Repository/Exclusion.antt =====
-- A recharge of apps/api/src/topup/repository.ts is fulfilled, refunded for security or cancelled by an
-- administrator, and only one of these.
use ticash.Prelude.{
  ℕ, ◌≡◌, refl, arith, Bool, true, false, not, ◌&&◌, Option, none, some, ok, inl, inr, Bool-cases,
}
use mathlib.Core.Path.{subst, sym, ap, ◌∙◌}
use ticash.Prelude.Maps.{get, put, get-put_self}
use ticash.Topup.Repository.Types.{
  failed, refund_pending, payment_failed, security_refund_required, cancelled_by_admin, Transaction,
  TopUpStore, Method, has_value,
}
use ticash.Topup.Repository.Claims.{
  Operation, payment, fulfillment, recovery, claim_if, claim_operation, started_at, start,
  may_start, may_refund, may_cancel, claim_security_refund, cancel_pending_by_admin,
}

claim_if-true :
    (test : Transaction → Bool) (write : Transaction → Transaction) (id : ℕ)
    (o : Option Transaction) (s s' : TopUpStore)
    → claim_if test write id o s ≡ (ok true, s')
    → (t : Transaction) × (o ≡ some t) × (test t ≡ true) × (get id s'.transactions ≡ some (write t))
claim_if-true test write id none s s' h = absurd (cc)
claim_if-true test write id (some t) s s' h = elim (Bool-cases (test t)) [
  | inl passed ↦
      let k = rw passed at h in
      let after : record s { transactions = put id (write t) s.transactions } ≡ s' =
        (ap (λ x. x.1) k) in
      (
        t,
        refl,
        passed,
        subst (λ (z : TopUpStore). get id z.transactions ≡ some (write t)) after
            (get-put_self id (write t) s.transactions),
      )
  | inr other ↦ absurd (let k = rw other at h in let b : false ≡ true = (ground (arith, k)) in cc)
]

claim_if-false :
    (test : Transaction → Bool) (write : Transaction → Transaction) (id : ℕ)
    (o : Option Transaction) (s : TopUpStore) (t : Transaction)
    → o ≡ some t
    → test t ≡ false
    → claim_if test write id o s ≡ (ok false, s)
claim_if-false test write id o s t e f = rw (e, f) refl

-- The claims that end a pending recharge.
pub data Ending : Type 0 where
  fulfil security_refund cancel : Ending

-- The claim, with the record that the caller read, a reason, the time and the clock of the write.
abbrev pub finish : Ending → Transaction → ℕ → ℕ → ℕ → Method Bool
finish fulfil given reason when now = claim_operation now given.id fulfillment when
finish security_refund given reason when now = claim_security_refund now given reason when
finish cancel given reason when now = cancel_pending_by_admin now given when

abbrev test_of : Ending → Transaction → Transaction → Bool
test_of fulfil given t = not (has_value (started_at fulfillment t)) && may_start fulfillment t
test_of security_refund given t = may_refund given t
test_of cancel given t = may_cancel given t

abbrev write_of : Ending → ℕ → ℕ → ℕ → Transaction → Transaction
write_of fulfil reason when now t = record (start fulfillment when t) { updated_at = now }
write_of security_refund reason when now t = record t {
  status = failed;
  payment_status = refund_pending;
  failure_code = some security_refund_required;
  payment_recovery_code = some reason;
  recovery_started_at = some when;
  failed_at = some when;
  updated_at = now;
}
write_of cancel reason when now t = record t {
  status = failed;
  payment_status = payment_failed;
  failure_code = some cancelled_by_admin;
  failed_at = some when;
  updated_at = now;
}

finish-claim_if :
    (e : Ending) (given : Transaction) (reason when now : ℕ) (s : TopUpStore)
    → finish e given reason when now s
      ≡ claim_if
          (test_of e given)
          (write_of e reason when now)
          given.id
          (get given.id s.transactions)
          s
unfolding claim_operation claim_security_refund cancel_pending_by_admin
finish-claim_if fulfil given reason when now s = refl
finish-claim_if security_refund given reason when now s = refl
finish-claim_if cancel given reason when now s = refl

-- What an ending writes passes no ending's test.
test_of-write_of :
    (e e' : Ending) (given again : Transaction) (reason when now : ℕ) (t : Transaction)
    → test_of e given t ≡ true
    → test_of e' again (write_of e reason when now t) ≡ false
test_of-write_of fulfil fulfil given again reason when now t h = ground arith
test_of-write_of fulfil security_refund given again reason when now t h = ground arith
test_of-write_of fulfil cancel given again reason when now t h = ground arith
test_of-write_of security_refund fulfil given again reason when now t h = ground arith
test_of-write_of security_refund security_refund given again reason when now t h = ground arith
test_of-write_of security_refund cancel given again reason when now t h = ground arith
test_of-write_of cancel fulfil given again reason when now t h = ground arith
test_of-write_of cancel security_refund given again reason when now t h = ground arith
test_of-write_of cancel cancel given again reason when now t h = ground arith

-- Once a recharge is claimed for fulfillment, for a security refund or for an administrator's
-- cancellation, each of the three claims on it is refused, whatever it is called with, and changes
-- nothing.
pub one_ending :
    (e e' : Ending) (given again : Transaction) (reason reason' when when' now now' : ℕ)
    (s s' : TopUpStore)
    → again.id ≡ given.id
    → finish e given reason when now s ≡ (ok true, s')
    → finish e' again reason' when' now' s' ≡ (ok false, s')
one_ending e e' given again reason reason' when when' now now' s s' i h =
    let claimed = sym (finish-claim_if e given reason when now s) ∙ h in
    let (t, _, passed, stored) =
      claim_if-true (test_of e given) (write_of e reason when now) given.id
        (get given.id s.transactions) s s' claimed in
    let refused = test_of-write_of e e' given again reason when now t passed in
    finish-claim_if e' again reason' when' now' s'
    ∙ claim_if-false (test_of e' again) (write_of e' reason' when' now') again.id
        (get again.id s'.transactions) s' (write_of e reason when now t) (rw i stored) refused

-- A payment, a fulfillment and a recovery are each claimed at most once.
pub claim_operation_once :
    (op : Operation) (id when when' now now' : ℕ) (s s' : TopUpStore)
    → claim_operation now id op when s ≡ (ok true, s')
    → claim_operation now' id op when' s' ≡ (ok false, s')
unfolding claim_operation
claim_operation_once op id when when' now now' s s' h =
    let (t, _, _, stored) = claim_if-true _ _ id (get id s.transactions) s s' h in
    claim_if-false _ _ id (get id s'.transactions) s' _ stored (started op t)
  where
    started :
        (op : Operation) (t : Transaction)
        → (not (has_value (started_at op (record (start op when t) { updated_at = now })))
            && may_start op (record (start op when t) { updated_at = now }))
          ≡ false
    started payment t = refl
    started fulfillment t = refl
    started recovery t = refl
