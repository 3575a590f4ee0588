-- ===== src/Topup/Service/Sessions.antt =====
-- Sequences of calls of `MobileTopUpService` (apps/api/src/topup/service.ts) that fulfil or release
-- recharges, take the provider's results or give payments back.
use ticash.Prelude.{ℕ, ◌≤◌, ◌≡◌, inl, inr, refl, arith, Bool, []}
use mathlib.Core.Path.{subst}
use ticash.Topup.Service.Environment.{RechargeEnv, RechargeState, ProviderTopUpResult}
use ticash.Topup.Service.Recovery.{recover_payment}
use ticash.Topup.Service.Results.{apply_provider_result}
use ticash.Topup.Service.Fulfillment.{fulfill_paid_recharge, review_held_recharge}
use ticash.Topup.Service.Frames.{IsQuiet, endings, EndedOnce, EndedOnce-IsStable}
use ticash.Topup.Service.Endings.{recover_payment-Keeps, apply_provider_result-Keeps}
use ticash.Topup.Service.Releases.{fulfill_paid_recharge-Keeps, review_held_recharge-Keeps}

-- A call with its arguments and the clock.
pub data RechargeStep : Type 0 where
  fulfill_call : (now id : ℕ) → RechargeStep
  review_call : (now id actor note : ℕ) → RechargeStep
  result_call : (now id : ℕ) (r : ProviderTopUpResult) (external : Bool) → RechargeStep
  recover_call : (now id : ℕ) (reversed external : Bool) → RechargeStep

-- The state that a call leaves behind, whether it returns or throws.
abbrev pub perform : RechargeEnv → RechargeStep → RechargeState → RechargeState
perform env (fulfill_call now id) s = (fulfill_paid_recharge env now id s).1
perform env (review_call now id actor note) s = (review_held_recharge env now id actor note s).1
perform env (result_call now id r external) s = (apply_provider_result env now id r external s).1
perform env (recover_call now id reversed external) s =
    (recover_payment env now id reversed external s).1

-- The answers from outside, and so the environment, may be others at each call.
pub data Session (s : RechargeState) : RechargeState → Type 0 where
  opened : Session s s
  called :
      {t u : RechargeState}
      → Session s t
      → (env : RechargeEnv) (c : RechargeStep) → IsQuiet env
      → perform env c t ≡ u
      → Session s u

module _ (id : ℕ) where
  perform-EndedOnce :
      (env : RechargeEnv) (c : RechargeStep)
      → IsQuiet env
      → (s : RechargeState) → EndedOnce id s
      → EndedOnce id (perform env c s)
  perform-EndedOnce env (fulfill_call now j) q = (fulfill_paid_recharge-Keeps id env q now j).run
  perform-EndedOnce env (review_call now j actor note) q =
      (review_held_recharge-Keeps id env q now j actor note).run
  perform-EndedOnce env (result_call now j r external) q =
      (apply_provider_result-Keeps id (EndedOnce id) (EndedOnce-IsStable id) env q now j r
        external).run
  perform-EndedOnce env (recover_call now j reversed external) q =
      (recover_payment-Keeps id (EndedOnce id) (EndedOnce-IsStable id) env q now j reversed
        external).run

  Session-EndedOnce : {s t : RechargeState} → Session s t → EndedOnce id s → EndedOnce id t
  Session-EndedOnce opened once = once
  Session-EndedOnce (called {t} r env c q e) once =
      subst (EndedOnce id) e (perform-EndedOnce env c q t (Session-EndedOnce r once))

  -- From a state in which no call was made, over every sequence of calls that fulfil or review recharges,
  -- take a provider's result or give a payment back, one after another, with whatever answers from outside,
  -- a store balance that makes no orders and forgets no claim, and whatever changes of other calls during a
  -- recovery that forget no claim, at most one order at the provider or refund for security is made for a
  -- recharge.
  pub endings-le-one : {s t : RechargeState} → s.calls ≡ [] → Session s t → endings id t.calls ≤ 1
  endings-le-one nothing r = elim (Session-EndedOnce r (inl (rw nothing refl))) [
    | inl n ↦ omega arith
    | inr (n, b) ↦ omega arith
  ]
