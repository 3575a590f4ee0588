-- ===== src/Topup/Evidence.antt =====
-- The payment evidence of apps/api/src/topup/fraud-policy.ts: when it refunds a payment by itself, when
-- it holds one for review, and `throwPurchaseBlocks`. A text is a constructor for each value that the
-- code compares it with, and one for the others; an empty text is an absent one where the code takes it
-- so.
use ticash.Prelude.{
  ℕ, max, Bool, true, false, not, ◌&&◌, ◌||◌, Option, none, some, List, [], ◌∷◌, if◌then◌else◌, ok,
  err,
}
use ticash.Prelude.Lists.{find}
use ticash.Topup.Errors.{MobileTopUpError, PurchaseAccess, change_amount, Outcome}
use ticash.Topup.PurchaseLimits.{temporary_purchase_access}

pub data Risk : Type 0 where
  normal highest other_risk : Risk

pub data Check : Type 0 where
  check_pass check_fail other_check : Check

pub data Authentication : Type 0 where
  authenticated exempted not_supported authentication_failed other_authentication : Authentication

pub data Network : Type 0 where
  visa mastercard other_network : Network

pub data Eci : Type 0 where
  eci_05 eci_02 other_eci : Eci

pub record PaymentEvidence : Type 0 where
  pub fingerprint : Option ℕ
  pub risk : Risk
  pub authentication : Option Authentication
  pub card_network : Option Network
  pub response_eci : Option Eci
  pub postal_code_check : Option Check
  pub cvc_check : Option Check
  pub street_check : Option Check
  pub is_card : Bool
  pub review : Bool
  pub disputed : Bool
  pub refunded : Bool

pub data Reason : Type 0 where
  payment_highest_risk payment_verification_failed payment_authentication_failed : Reason
  payment_reversed_or_disputed payment_risk_review payment_method_review : Reason
  payment_card_check_failed payment_street_check_failed payment_authentication_review : Reason

abbrev pub is_failed_check : Option Check → Bool
is_failed_check (some check_fail) = true
is_failed_check _ = false

abbrev pub is_passed_check : Option Check → Bool
is_passed_check (some check_pass) = true
is_passed_check _ = false

abbrev pub is_highest : Risk → Bool
is_highest highest = true
is_highest _ = false

abbrev pub is_normal : Risk → Bool
is_normal normal = true
is_normal _ = false

abbrev pub has_failed_authentication : Option Authentication → Bool
has_failed_authentication (some authentication_failed) = true
has_failed_authentication _ = false

-- `undefined`, or one of the three values that may pass.
abbrev pub is_allowed_authentication : Option Authentication → Bool
is_allowed_authentication none = true
is_allowed_authentication (some authenticated) = true
is_allowed_authentication (some exempted) = true
is_allowed_authentication (some not_supported) = true
is_allowed_authentication _ = false

abbrev pub is_authenticated : Option Authentication → Bool
is_authenticated (some authenticated) = true
is_authenticated _ = false

-- The response of the network is there, and it is not the one of a full authentication.
abbrev pub is_downgraded : Option Network → Option Eci → Bool
is_downgraded network none = false
is_downgraded (some visa) (some eci_05) = false
is_downgraded (some visa) (some _) = true
is_downgraded (some mastercard) (some eci_02) = false
is_downgraded (some mastercard) (some _) = true
is_downgraded _ (some _) = false

abbrev pub is_absent : Option ℕ → Bool
is_absent none = true
is_absent (some _) = false

unfoldable pub automatic_security_refund_reason : PaymentEvidence → Option Reason
automatic_security_refund_reason e =
    if e.disputed || e.refunded
    then none
    else if is_highest e.risk
    then some payment_highest_risk
    else if is_failed_check e.cvc_check
        || is_failed_check e.postal_code_check
        || is_failed_check e.street_check
    then some payment_verification_failed
    else if has_failed_authentication e.authentication
    then some payment_authentication_failed
    else none

unfoldable pub payment_review_reason : PaymentEvidence → Option Reason
payment_review_reason e =
    if e.disputed || e.refunded
    then some payment_reversed_or_disputed
    else if e.review || not (is_normal e.risk)
    then some payment_risk_review
    else if not e.is_card
    then some payment_method_review
    else if not (is_passed_check e.postal_code_check) || not (is_passed_check e.cvc_check)
    then some payment_card_check_failed
    else if is_failed_check e.street_check
    then some payment_street_check_failed
    else if is_absent e.fingerprint
    then some payment_authentication_review
    else if not (is_allowed_authentication e.authentication)
    then some payment_authentication_review
    else if is_authenticated e.authentication && is_downgraded e.card_network e.response_eci
    then some payment_authentication_review
    else none

abbrev pub is_change_amount : Option PurchaseAccess → Bool
is_change_amount none = false
is_change_amount (some a) = elim a.mode [ change_amount ↦ true | _ ↦ false ]

abbrev pub retry_of : Option PurchaseAccess → Option ℕ
retry_of none = none
retry_of (some a) = a.retry_at

abbrev pub later_of : Option ℕ → Option ℕ → Option ℕ
later_of none y = y
later_of (some x) none = some x
later_of (some x) (some y) = some (max x y)

-- `Math.max(…)` of the times to retry that are there.
abbrev pub latest_retry : List MobileTopUpError → Option ℕ
latest_retry [] = none
latest_retry (b ∷ bs) = later_of (retry_of b.purchase_access) (latest_retry bs)

abbrev pub blocked_access :
    Option MobileTopUpError → MobileTopUpError → Option ℕ → ℕ → Option PurchaseAccess
blocked_access (some permanent) first retry now = permanent.purchase_access
blocked_access none first (some retry) now = some (temporary_purchase_access retry now)
blocked_access none first none now = first.purchase_access

abbrev pub first_block : Option MobileTopUpError → MobileTopUpError → MobileTopUpError
first_block (some permanent) b = permanent
first_block none b = b

unfoldable pub throw_purchase_blocks : List MobileTopUpError → ℕ → Outcome (Unit {0})
throw_purchase_blocks [] now = ok tt
throw_purchase_blocks (b ∷ bs) now =
    let permanent = find (λ (x : MobileTopUpError). is_change_amount x.purchase_access) (b ∷ bs) in
    err (record (first_block permanent b) {
      purchase_access = blocked_access permanent b (latest_retry (b ∷ bs)) now;
    })
