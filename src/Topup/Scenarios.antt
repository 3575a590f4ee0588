-- ===== src/Topup/Scenarios.antt =====
-- Purchases and references of the tests (apps/api/src/topup/fraud-policy.ts and provider-identity.ts).
use ticash.Prelude.{
  ℕ, ◌+◌, ◌*◌, ◌≤◌, ◌<◌, ◌≡◌, ◌≢◌, ◌↔◌, refl, arith, true, false, Option, none, some, List, [], ◌∷◌,
  ok, err, inl, inr,
}
use ticash.Topup.Errors.{MobileTopUpError, PurchaseAccess, recharge_limit_reached}
use ticash.Topup.PurchaseLimits.{
  PurchaseHistory, over_limits, retry_at, assert_purchase_limits, temporary_purchase_access,
}
use ticash.Topup.Retries.{assert_purchase_limits_retry}
use ticash.Topup.Evidence.{
  PaymentEvidence, normal, authenticated, visa, eci_05, check_pass, check_fail, other_check,
  payment_verification_failed, automatic_security_refund_reason, payment_review_reason, retry_of,
  throw_purchase_blocks,
}
use ticash.Topup.Reviews.{refund_reason-review, throw_purchase_blocks_latest}
use ticash.Topup.Identity.{
  dtone, ding, slot_size, slot_of, encode_operator_id, decode_operator_id, Text,
  encode_transaction_reference, decode_transaction_reference,
}
use ticash.Topup.RoundTrips.{encode_operator_id_iff, decode_operator_id_iff, decode-encode}

abbrev purchase_at : ℕ → PurchaseHistory
purchase_at t = record {
  created_at = t;
  total_charge_cents = 1170;
  is_failed = false;
  attempt_exempt = false;
}

-- Three purchases within the hour.
abbrev busy_hour : List PurchaseHistory
busy_hour = purchase_at 100000000 ∷ purchase_at 100600000 ∷ purchase_at 101200000 ∷ []

abbrev refusal : MobileTopUpError
refusal = record {
  code = recharge_limit_reached;
  status_code = 429;
  purchase_access = some (temporary_purchase_access 103600001 101800000);
}

busy_hour_refused : assert_purchase_limits 1000 busy_hour 101800000 ≡ err refusal
unfolding assert_purchase_limits over_limits retry_at
busy_hour_refused = refl

assert_purchase_limits_retry_example :
    (access : PurchaseAccess) × (t : ℕ) × (refusal.purchase_access ≡ some access)
    × (access.retry_at ≡ some t)
    × (101800000 < t)
    × (assert_purchase_limits 1000 busy_hour (t + 60000) ≡ ok tt)
assert_purchase_limits_retry_example =
    assert_purchase_limits_retry 1000 busy_hour 101800000 60000 (ground arith) busy_hour_refused

abbrev clear_evidence : PaymentEvidence
clear_evidence = record {
  fingerprint = some 1;
  risk = normal;
  authentication = some authenticated;
  card_network = some visa;
  response_eci = some eci_05;
  postal_code_check = some check_pass;
  cvc_check = some check_pass;
  street_check = some other_check;
  is_card = true;
  review = false;
  disputed = false;
  refunded = false;
}

abbrev wrong_code : PaymentEvidence
wrong_code = record clear_evidence { cvc_check = some check_fail }

wrong_code_refunded : automatic_security_refund_reason wrong_code ≡ some payment_verification_failed
unfolding automatic_security_refund_reason
wrong_code_refunded = refl

refund_reason-review_example : payment_review_reason wrong_code ≢ none
refund_reason-review_example = refund_reason-review wrong_code wrong_code_refunded

abbrev later_refusal : MobileTopUpError
later_refusal = record refusal {
  purchase_access = some (temporary_purchase_access 187600001 101800000);
}

throw_purchase_blocks_latest_example :
    (e : MobileTopUpError) × (u : ℕ) × (throw_purchase_blocks
        (refusal ∷ later_refusal ∷ [])
        101800000
      ≡ err e)
    × (retry_of e.purchase_access ≡ some u)
    × (187600001 ≤ u)
throw_purchase_blocks_latest_example =
    throw_purchase_blocks_latest (refusal ∷ later_refusal ∷ []) later_refusal 101800000
      (refl, (refl, tt)) (inr (inl refl)) refl

encode_operator_id_iff_example : (encode_operator_id ding 42 ≡ ok 1400000042) ↔ (
    (1 ≤ 42)
    × (42 < slot_size)
    × (slot_of ding * slot_size + 42 ≡ 1400000042)
    × (1400000042 ≤ 2147483647))
encode_operator_id_iff_example = encode_operator_id_iff ding 42 1400000042

decode_operator_id_iff_example :
    (decode_operator_id 1400000042 ≡ ok (record { provider = ding; raw_id = 42 }))
    ↔ (encode_operator_id ding 42 ≡ ok 1400000042)
decode_operator_id_iff_example = decode_operator_id_iff 1400000042 42 ding

-- Escapes nothing, as for a text of digits.
abbrev digits_only : Text → Option Text
digits_only t = some t

decode-encode_example :
    decode_transaction_reference digits_only digits_only
      (68 ∷ 84 ∷ 79 ∷ 78 ∷ 69 ∷ 58 ∷ 49 ∷ 50 ∷ [])
    ≡ ok (record { provider = dtone; id = 49 ∷ 50 ∷ [] })
unfolding encode_transaction_reference
decode-encode_example =
    decode-encode digits_only digits_only dtone (49 ∷ 50 ∷ [])
      (68 ∷ 84 ∷ 79 ∷ 78 ∷ 69 ∷ 58 ∷ 49 ∷ 50 ∷ []) (λ t u e. ground arith) refl
