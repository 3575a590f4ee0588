-- ===== src/Funding/Initiations.antt =====
-- `initiateFunding` of apps/api/src/funding/service.ts sends a funding to the provider once.
use ticash.Prelude.{
  ℕ, ◌≡◌, inl, inr, refl, arith, false, none, ◌==◌, ◌&&◌, Option-cases, Bool-cases,
}
use mathlib.Core.Path.{sym, ◌∙◌}
use ticash.Prelude.Lists.{find}
use ticash.Prelude.Maps.{get, put, values, get-put_ne, get-put_self}
use ticash.Prelude.Keeps.{
  Leads, Keeps, pure-Keeps, lift-Keeps, bind_leads, bind_keeps, attempt_leads, or_raise-Keeps,
  raise_if-Keeps,
}
use ticash.Funding.Types.{FundingSourceRecord, FundingTransactionRecord, FundingStore, Outcome}
use ticash.Funding.Repository.{is_replay, new_transaction, reserve_transaction}
use ticash.Funding.Provider.{
  TransferInput, DwollaTransfer, starts_transfer, FundingEnv, ServiceState, DwollaFundingProvider,
  ask, require_provider, query,
}
use ticash.Funding.Requests.{
  FundingInput, request_of, send_reserved, reserve_and_send, initiate_funding,
}
use ticash.Funding.Sending.{
  sends, Requested, SentOnce, first-not-Requested, attach_provider_transfer-Requested,
}
use ticash.Funding.Frames.{IsQuiet, IsStable, repo-Keeps, audit-Keeps, notify-Keeps}
use ticash.Funding.SingleSends.{replayed-Keeps, send_failed-Keeps}

-- A funding is recorded under the key, and nothing is sent yet.
abbrev Ready : ℕ → ℕ → ServiceState → Type 0
Ready user_id key s = Requested user_id key s.store × (sends user_id key s.calls ≡ 0)

-- No funding is recorded under the identifier.
abbrev pub IsFresh : ℕ → ServiceState → Type 0
IsFresh uuid s = get uuid s.store.transactions ≡ none

pub SentOnce-IsStable : (user_id key : ℕ) → IsStable user_id key (SentOnce user_id key)
SentOnce-IsStable user_id key s s' e f (inl n) = inl (e ∙ n)
SentOnce-IsStable user_id key s s' e f (inr (n, r)) = inr (e ∙ n, f r)

module _ (user_id key : ℕ) (env : FundingEnv) (quiet : IsQuiet env) where
  -- Starting the transfer of the input leads from `P` to at most one transfer.
  abbrev StartsOnce : (ServiceState → Type 0) → FundingInput → Type 0
  StartsOnce P input =
      (sent : TransferInput) (r : Outcome DwollaTransfer)
      → sent.user_id ≡ input.user_id
      → sent.idempotency_key ≡ input.idempotency_key
      → Leads P (ask (starts_transfer sent) r) (SentOnce user_id key)

  send_reserved_leads :
      (P : ServiceState → Type 0) (now url : ℕ) (input : FundingInput) (p : DwollaFundingProvider)
      (x : FundingSourceRecord) (t : FundingTransactionRecord)
      → StartsOnce P input
      → Leads P (send_reserved env now url input p x t) (SentOnce user_id key)
  send_reserved_leads P now url input p x t starts =
      let stable = SentOnce-IsStable user_id key in
      search
        (
          bind_leads,
          attempt_leads,
          lift-Keeps,
          pure-Keeps,
          starts,
          send_failed-Keeps user_id key (SentOnce user_id key) stable env quiet,
          repo-Keeps user_id key (SentOnce user_id key) stable,
          attach_provider_transfer-Requested,
          notify-Keeps user_id key (SentOnce user_id key) stable,
          audit-Keeps user_id key (SentOnce user_id key) stable,
        )
        depth 14

  starts_other :
      (input : FundingInput)
      → (input.user_id == user_id && input.idempotency_key == key) ≡ false
      → StartsOnce (SentOnce user_id key) input
  starts_other input other sent r u k = record {
    run = λ s q.
        SentOnce-IsStable user_id key s (ask (starts_transfer sent) r s).1 (ground arith) (λ x. x)
          q;
  }

  starts-Ready : (input : FundingInput) → StartsOnce (Ready user_id key) input
  starts-Ready input sent r u k = record {
    run = λ s q. elim (Bool-cases (sent.user_id == user_id && sent.idempotency_key == key)) [
      | inl same ↦ inr (ground (arith, q.1), q.0)
      | inr other ↦ inl (ground (arith, q.1))
    ];
  }

  put_fresh :
      (uuid : ℕ) (t : FundingTransactionRecord) (s : FundingStore)
      → get uuid s.transactions ≡ none
      → Requested user_id key s
      → Requested user_id key (record s { transactions = put uuid t s.transactions })
  put_fresh uuid t s fresh (id, t1, g, u, k) =
      (id, t1, get-put_ne id uuid t s.transactions (λ e. cc (sym (rw e at g) ∙ fresh)) ∙ g, u, k)

  not-Requested :
      (uuid : ℕ) (input : FundingInput) (s : ServiceState)
      → find (is_replay (request_of env uuid input)) (values s.store.transactions) ≡ none
      → input.user_id ≡ user_id
      → input.idempotency_key ≡ key
      → Requested user_id key s.store
      → ⊥
  not-Requested uuid input s new e f (id, t, g, u, k) =
      first-not-Requested (request_of env uuid input) s.store new (id, t, g, u ∙ sym e, k ∙ sym f)

  nothing_sent :
      (s : ServiceState)
      → SentOnce user_id key s
      → (Requested user_id key s.store → ⊥)
      → sends user_id key s.calls ≡ 0
  nothing_sent s (inl n) h = n
  nothing_sent s (inr (n, r)) h = absurd (h r)

  -- The store after the first reservation of a request.
  abbrev reserved_state : ℕ → ℕ → FundingInput → ServiceState → ServiceState
  reserved_state uuid now input s = record s {
    store = record s.store {
      transactions =
          put uuid (new_transaction now (request_of env uuid input)) s.store.transactions;
    };
  }

  first_leads :
      (uuid now url : ℕ) (input : FundingInput) (p : DwollaFundingProvider)
      (x : FundingSourceRecord) (s : ServiceState)
      → SentOnce user_id key s
      → IsFresh uuid s
      → find (is_replay (request_of env uuid input)) (values s.store.transactions) ≡ none
      → SentOnce user_id key
          (send_reserved env now url input p x
            (new_transaction now (request_of env uuid input))
            (reserved_state uuid now input s)).1
  first_leads uuid now url input p x s once fresh new =
      let t = new_transaction now (request_of env uuid input) in
      let s' = reserved_state uuid now input s in
      let kept = put_fresh uuid t s.store fresh in
      elim (Bool-cases (input.user_id == user_id && input.idempotency_key == key)) [
        | inr other ↦
            (send_reserved_leads (SentOnce user_id key) now url input p x t
                (starts_other input other)).run
              s' (SentOnce-IsStable user_id key s s' refl kept once)
        | inl same ↦
            let e : input.user_id ≡ user_id = (ground (arith, same)) in
            let f : input.idempotency_key ≡ key = (ground (arith, same)) in
            let nothing = not-Requested uuid input s new e f in
            (send_reserved_leads (Ready user_id key) now url input p x t (starts-Ready input)).run
              s'
              (
                (uuid, t, get-put_self uuid t s.store.transactions, e, f),
                nothing_sent s once nothing,
              )
      ]

  once_of :
      (uuid : ℕ) (s : ServiceState)
      → SentOnce user_id key s × IsFresh uuid s
      → SentOnce user_id key s
  once_of uuid s h = h.0

  same_query : {A : Type 0} (P : ServiceState → Type 0) (f : FundingStore → A) → Keeps P (query f)
  same_query P f = record { run = λ s p. p }

  same_provider : (P : ServiceState → Type 0) → Keeps P (require_provider env)
  same_provider P = record { run = λ s p. p }

  -- From a fresh identifier, whatever was sent before.
  reserved_leads :
      (uuid now url : ℕ) (input : FundingInput) (p : DwollaFundingProvider)
      (x : FundingSourceRecord)
      → Leads
          (λ s. SentOnce user_id key s × IsFresh uuid s)
          (reserve_and_send env uuid now url input p x)
          (SentOnce user_id key)
  unfolding reserve_transaction
  reserved_leads uuid now url input p x = record {
    run = λ s (once, fresh).
        elim (Option-cases
          (find (is_replay (request_of env uuid input)) (values s.store.transactions))) [
            | inr (t, replay) ↦
                rw (replay, reserve_transaction)
                  ((replayed-Keeps user_id key (SentOnce user_id key)
                      (SentOnce-IsStable user_id key) env quiet _ t).run
                    s once)
            | inl new ↦
                rw (new, reserve_transaction) (first_leads uuid now url input p x s once fresh new)
          ];
  }

  pub initiate_funding_leads :
      (uuid now : ℕ) (input : FundingInput)
      → Leads
          (λ s. SentOnce user_id key s × IsFresh uuid s)
          (initiate_funding env uuid now input)
          (SentOnce user_id key)
  unfolding initiate_funding
  initiate_funding_leads uuid now input =
      search
        (
          bind_keeps, or_raise-Keeps, raise_if-Keeps, reserved_leads, once_of, same_provider,
          same_query,
        )
        depth 14
