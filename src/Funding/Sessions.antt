-- ===== src/Funding/Sessions.antt =====
-- Sequences of calls of `FundingService` (apps/api/src/funding/service.ts).
use ticash.Prelude.{ℕ, ◌≤◌, ◌≡◌, inl, arith, Bool, []}
use mathlib.Core.Path.{subst, ap}
use ticash.Funding.Provider.{
  FundingEnv, ServiceState, DwollaCustomerInput, BankInput, DwollaWebhookEnvelope,
}
use ticash.Funding.Sources.{
  create_customer, list_funding_sources, create_funding_source, initiate_micro_deposits,
}
use ticash.Funding.Verification.{
  verify_micro_deposits, set_default_funding_source, remove_funding_source,
}
use ticash.Funding.Requests.{FundingInput, initiate_funding, get_funding, cancel_funding}
use ticash.Funding.Notices.{process_webhook}
use ticash.Funding.Sending.{sends, SentOnce}
use ticash.Funding.Frames.{IsQuiet}
use ticash.Funding.SourceCalls.{
  create_customer-Keeps, list_funding_sources-Keeps, create_funding_source-Keeps,
  initiate_micro_deposits-Keeps, verify_micro_deposits-Keeps, set_default_funding_source-Keeps,
  remove_funding_source-Keeps,
}
use ticash.Funding.SingleSends.{get_funding-Keeps, cancel_funding-Keeps, process_webhook-Keeps}
use ticash.Funding.Initiations.{IsFresh, SentOnce-IsStable, initiate_funding_leads}

-- A call with its arguments, a new identifier and the clock.
pub data ServiceCall : Type 0 where
  customer_call : (uuid user : ℕ) (input : DwollaCustomerInput) → ServiceCall
  list_call : (now user : ℕ) → ServiceCall
  source_call : (uuid now user : ℕ) (input : BankInput) → ServiceCall
  deposits_call default_call remove_call : (now user id : ℕ) → ServiceCall
  verify_call : (now user id amount1 amount2 : ℕ) → ServiceCall
  initiate_call : (uuid now : ℕ) (input : FundingInput) → ServiceCall
  get_call : (now user id : ℕ) (refresh : Bool) → ServiceCall
  cancel_call : (now user id : ℕ) → ServiceCall
  webhook_call : (uuid now : ℕ) (envelope : DwollaWebhookEnvelope) (hash : ℕ) → ServiceCall

-- A funding gets an identifier that is not taken.
abbrev pub MayCall : ServiceCall → ServiceState → Type 0
MayCall (initiate_call uuid now input) s = IsFresh uuid s
MayCall _ s = Unit

-- The state that a call leaves behind, whether it returns or throws.
abbrev pub perform : FundingEnv → ServiceCall → ServiceState → ServiceState
perform env (customer_call uuid user input) s = (create_customer env uuid user input s).1
perform env (list_call now user) s = (list_funding_sources env now user s).1
perform env (source_call uuid now user input) s =
    (create_funding_source env uuid now user input s).1
perform env (deposits_call now user id) s = (initiate_micro_deposits env now user id s).1
perform env (default_call now user id) s = (set_default_funding_source env now user id s).1
perform env (remove_call now user id) s = (remove_funding_source env now user id s).1
perform env (verify_call now user id a b) s = (verify_micro_deposits env now user id a b s).1
perform env (initiate_call uuid now input) s = (initiate_funding env uuid now input s).1
perform env (get_call now user id refresh) s = (get_funding env now user id refresh s).1
perform env (cancel_call now user id) s = (cancel_funding env now user id s).1
perform env (webhook_call uuid now envelope hash) s =
    (process_webhook env uuid now envelope hash s).1

-- The provider's answers, and so the environment, may be others at each call.
pub data Session (s : ServiceState) : ServiceState → Type 0 where
  opened : Session s s
  called :
      {t u : ServiceState}
      → Session s t
      → (env : FundingEnv) (c : ServiceCall) → IsQuiet env
      → MayCall c t
      → perform env c t ≡ u
      → Session s u

module _ (user_id key : ℕ) where
  perform-SentOnce :
      (env : FundingEnv) (c : ServiceCall)
      → IsQuiet env
      → (s : ServiceState) → MayCall c s
      → SentOnce user_id key s
      → SentOnce user_id key (perform env c s)
  perform-SentOnce env (customer_call uuid user input) q s m =
      (create_customer-Keeps user_id key _ (SentOnce-IsStable user_id key) env uuid user input).run
        s
  perform-SentOnce env (list_call now user) q s m =
      (list_funding_sources-Keeps user_id key _ (SentOnce-IsStable user_id key) env now user).run s
  perform-SentOnce env (source_call uuid now user input) q s m =
      (create_funding_source-Keeps user_id key _ (SentOnce-IsStable user_id key) env uuid now user
          input).run
        s
  perform-SentOnce env (deposits_call now user id) q s m =
      (initiate_micro_deposits-Keeps user_id key _ (SentOnce-IsStable user_id key) env now user
          id).run
        s
  perform-SentOnce env (default_call now user id) q s m =
      (set_default_funding_source-Keeps user_id key _ (SentOnce-IsStable user_id key) env now user
          id).run
        s
  perform-SentOnce env (remove_call now user id) q s m =
      (remove_funding_source-Keeps user_id key _ (SentOnce-IsStable user_id key) env now user
          id).run
        s
  perform-SentOnce env (verify_call now user id a b) q s m =
      (verify_micro_deposits-Keeps user_id key _ (SentOnce-IsStable user_id key) env now user id a
          b).run
        s
  perform-SentOnce env (initiate_call uuid now input) q s m =
      λ once. (initiate_funding_leads user_id key env q uuid now input).run s (once, m)
  perform-SentOnce env (get_call now user id refresh) q s m =
      (get_funding-Keeps user_id key _ (SentOnce-IsStable user_id key) env q now user id
          refresh).run
        s
  perform-SentOnce env (cancel_call now user id) q s m =
      (cancel_funding-Keeps user_id key _ (SentOnce-IsStable user_id key) env q now user id).run s
  perform-SentOnce env (webhook_call uuid now envelope hash) q s m =
      (process_webhook-Keeps user_id key _ (SentOnce-IsStable user_id key) env q uuid now envelope
          hash).run
        s

  Session-SentOnce :
      {s t : ServiceState} → Session s t → SentOnce user_id key s → SentOnce user_id key t
  Session-SentOnce opened once = once
  Session-SentOnce (called {t} r env c q m e) once =
      subst (SentOnce user_id key) e (perform-SentOnce env c q t m (Session-SentOnce r once))

  -- From a state in which no call was made, over every sequence of calls of the service, with whatever
  -- answers and errors of the provider and the audit writer, the provider is asked to start at most one
  -- transfer for a user under an idempotency key. Each funding gets an identifier that is not taken, and
  -- the listener on status changes starts no transfer and leaves the recorded fundings alone.
  pub sends-le-one :
      {s t : ServiceState} → s.calls ≡ [] → Session s t → sends user_id key t.calls ≤ 1
  sends-le-one {s} {t} e r =
      let once : SentOnce user_id key s = inl (ap (sends user_id key) e) in
      let last = Session-SentOnce r once in ground arith
