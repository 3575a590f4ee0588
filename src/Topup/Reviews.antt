-- ===== src/Topup/Reviews.antt =====
-- What the evidence of a payment decides (apps/api/src/topup/fraud-policy.ts).
use ticash.Prelude.{
  ℕ, ◌⊎◌, ◌≤◌, ◌≡◌, ◌≢◌, ◌↔◌, refl, arith, max, true, false, none, some, List, [], ◌∷◌, err, inl,
  inr, Option-cases,
}
use ticash.Prelude.Lists.{In, All, find}
use ticash.Topup.Errors.{MobileTopUpError}
use ticash.Topup.PurchaseLimits.{temporary_purchase_access}
use ticash.Topup.Evidence.{
  PaymentEvidence, normal, Reason, is_passed_check, is_failed_check, is_allowed_authentication,
  is_authenticated, is_downgraded, is_absent, automatic_security_refund_reason,
  payment_review_reason, is_change_amount, retry_of, latest_retry, throw_purchase_blocks,
}

-- Evidence passes the review exactly when the payment is a card's, neither disputed nor refunded nor
-- under review, of normal risk, with the postal code and the security code passed, the street not failed,
-- a fingerprint, an authentication that is allowed, and no network response below it.
payment_review_reason-none :
    (e : PaymentEvidence)
    → (payment_review_reason e ≡ none) ↔ (
        (e.disputed ≡ false)
        × (e.refunded ≡ false)
        × (e.review ≡ false)
        × (e.risk ≡ normal)
        × (e.is_card ≡ true)
        × (is_passed_check e.postal_code_check ≡ true)
        × (is_passed_check e.cvc_check ≡ true)
        × (is_failed_check e.street_check ≡ false)
        × (is_absent e.fingerprint ≡ false)
        × (is_allowed_authentication e.authentication ≡ true)
        × ((is_authenticated e.authentication ≡ false)
            ⊎ (is_downgraded e.card_network e.response_eci ≡ false)))
unfolding payment_review_reason
payment_review_reason-none e = (λ h. ground arith, λ h. ground arith)

-- A payment that is refunded by itself never passes the review.
pub refund_reason-review :
    (e : PaymentEvidence) {r : Reason}
    → automatic_security_refund_reason e ≡ some r
    → payment_review_reason e ≢ none
unfolding automatic_security_refund_reason payment_review_reason
refund_reason-review e {r} h = ground arith

latest_retry-le :
    (b : MobileTopUpError) (bs : List MobileTopUpError) {t : ℕ}
    → In b bs
    → retry_of b.purchase_access ≡ some t
    → (u : ℕ) × (latest_retry bs ≡ some u) × (t ≤ u)
latest_retry-le b [] m e = absurd m
latest_retry-le b (x ∷ xs) {t} (inl same) e =
    let k : retry_of x.purchase_access ≡ some t = (rw same e) in
    elim (Option-cases (latest_retry xs)) [
      | inl alone ↦ (t, rw (k, alone) refl, omega arith)
      | inr (u, others) ↦ (max t u, rw (k, others) refl, omega arith)
    ]
latest_retry-le b (x ∷ xs) {t} (inr m) e =
    let (u, others, le) = latest_retry-le b xs {t = t} m e in
    elim (Option-cases (retry_of x.purchase_access)) [
      | inl absent ↦ (u, rw (absent, others) refl, le)
      | inr (y, k) ↦ (max y u, rw (k, others) refl, omega arith)
    ]

find-All-false :
    (bs : List MobileTopUpError)
    → All (λ (x : MobileTopUpError). is_change_amount x.purchase_access ≡ false) bs
    → find (λ (x : MobileTopUpError). is_change_amount x.purchase_access) bs ≡ none
find-All-false [] h = refl
find-All-false (x ∷ xs) h = rw (h.0, find-All-false xs h.1) refl

-- Where no block asks for another amount, the error that is thrown gives a time to retry that is no
-- earlier than that of any block.
pub throw_purchase_blocks_latest :
    (blocks : List MobileTopUpError) (b : MobileTopUpError) (now : ℕ) {t : ℕ}
    → All (λ (x : MobileTopUpError). is_change_amount x.purchase_access ≡ false) blocks
    → In b blocks
    → retry_of b.purchase_access ≡ some t
    → (e : MobileTopUpError) × (u : ℕ) × (throw_purchase_blocks blocks now ≡ err e)
      × (retry_of e.purchase_access ≡ some u)
      × (t ≤ u)
unfolding throw_purchase_blocks
throw_purchase_blocks_latest [] b now p m r = absurd m
throw_purchase_blocks_latest (x ∷ xs) b now {t} p m r =
    let (u, latest, le) = latest_retry-le b (x ∷ xs) {t = t} m r in
    let none_permanent = find-All-false (x ∷ xs) p in
    (
      record x { purchase_access = some (temporary_purchase_access u now) },
      u,
      rw (none_permanent, latest) refl,
      refl,
      le,
    )
