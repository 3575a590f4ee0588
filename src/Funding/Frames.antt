-- ===== src/Funding/Frames.antt =====
-- What the methods of `FundingService` (apps/api/src/funding/service.ts) keep true, where it depends
-- on the transfers that were started and the fundings that are recorded only.
use Prim.Native.String.{String}
use ticash.Prelude.{ℕ, ◌≡◌, refl, arith}
use ticash.Prelude.Keeps.{Keeps}
use ticash.Funding.Types.{
  FundingError, FundingStore, FundingTransactionRecord, FundingCustomerRecord, FundingSourceRecord,
  Outcome,
}
use ticash.Funding.Repository.{
  Method, save_customer, save_source, update_source, set_default_source,
}
use ticash.Funding.Webhooks.{reserve_webhook, complete_webhook, fail_webhook}
use ticash.Funding.Provider.{
  Call, audits, AuditAction, FundingEnv, ServiceState, repo, query, ask, require_provider,
  write_audit,
}
use ticash.Funding.Sending.{is_send, sends, Requested, Requested-same}

-- The listener on status changes starts no transfer and leaves the recorded fundings and the webhook
-- events alone.
pub record IsQuiet (env : FundingEnv) : Type 0 where
  pub no_calls :
      (t : FundingTransactionRecord) (s : ServiceState)
      → (env.on_status_changed t s).1.calls ≡ s.calls
  pub no_fundings :
      (t : FundingTransactionRecord) (s : ServiceState)
      → (env.on_status_changed t s).1.store.transactions ≡ s.store.transactions
  pub no_events :
      (t : FundingTransactionRecord) (s : ServiceState)
      → (env.on_status_changed t s).1.store.webhook_events ≡ s.store.webhook_events

-- The predicate survives what sends nothing under the key and forgets no funding.
abbrev pub IsStable : ℕ → ℕ → (ServiceState → Type 0) → Type 0
IsStable user_id key P =
    (s s' : ServiceState)
    → sends user_id key s'.calls ≡ sends user_id key s.calls
    → (Requested user_id key s.store → Requested user_id key s'.store)
    → P s
    → P s'

-- The method leaves the recorded fundings alone.
abbrev pub LeavesFundings : {A : Type 0} → Method A → Type 0
LeavesFundings m = (s : FundingStore) → (m s).1.transactions ≡ s.transactions

module _ (user_id key : ℕ) (P : ServiceState → Type 0) (stable : IsStable user_id key P) where
  pub repo-Keeps :
      {A : Type 0} (m : Method A)
      → ((s : FundingStore) → Requested user_id key s → Requested user_id key (m s).1)
      → Keeps P (repo m)
  repo-Keeps m h = record { run = λ s p. stable s _ refl (h s.store) p }

  pub repo_same : {A : Type 0} (m : Method A) → LeavesFundings m → Keeps P (repo m)
  repo_same m h = repo-Keeps m (λ s. Requested-same user_id key s (m s).1 (h s))

  pub ask-Keeps :
      {A : Type 0} (c : Call) (r : Outcome A) → is_send user_id key c ≡ 0 → Keeps P (ask c r)
  ask-Keeps c r h = record { run = λ s p. stable s _ (omega (arith, h)) (λ x. x) p }

  pub query-Keeps : {A : Type 0} (f : FundingStore → A) → Keeps P (query f)
  query-Keeps f = record { run = λ s p. p }

  pub provider-Keeps : (env : FundingEnv) → Keeps P (require_provider env)
  provider-Keeps env = record { run = λ s p. p }

  pub audit-Keeps :
      (env : FundingEnv) (user : ℕ) (a : AuditAction) (id : ℕ) → Keeps P (write_audit env user a id)
  audit-Keeps env user a id = ask-Keeps (audits user a id) (env.audit user a id) refl

  pub notify-Keeps :
      (env : FundingEnv) (t : FundingTransactionRecord)
      → IsQuiet env
      → Keeps P (env.on_status_changed t)
  notify-Keeps env t q = record {
    run = λ s p.
        stable s (env.on_status_changed t s).1 (rw (q.no_calls t s))
          (Requested-same user_id key s.store (env.on_status_changed t s).1.store
            (q.no_fundings t s))
          p;
  }

pub save_customer-LeavesFundings :
    (uuid : ℕ) (c : FundingCustomerRecord) → LeavesFundings (save_customer uuid c)
unfolding save_customer
save_customer-LeavesFundings uuid c s = refl

pub save_source-LeavesFundings :
    (uuid now : ℕ) (x : FundingSourceRecord) → LeavesFundings (save_source uuid now x)
unfolding save_source
save_source-LeavesFundings uuid now x s = refl

pub update_source-LeavesFundings :
    (now user id : ℕ) (f : FundingSourceRecord → FundingSourceRecord)
    → LeavesFundings (update_source now user id f)
unfolding update_source
update_source-LeavesFundings now user id f s = ground arith

pub set_default_source-LeavesFundings :
    (now user id : ℕ) → LeavesFundings (set_default_source now user id)
unfolding set_default_source
set_default_source-LeavesFundings now user id s = ground arith

pub reserve_webhook-LeavesFundings :
    (uuid k : ℕ) (topic : String) (hash : ℕ) → LeavesFundings (reserve_webhook uuid k topic hash)
unfolding reserve_webhook
reserve_webhook-LeavesFundings uuid k topic hash s = ground arith

pub complete_webhook-LeavesFundings : (id : ℕ) → LeavesFundings (complete_webhook id)
unfolding complete_webhook
complete_webhook-LeavesFundings id s = refl

pub fail_webhook-LeavesFundings : (id : ℕ) (e : FundingError) → LeavesFundings (fail_webhook id e)
unfolding fail_webhook
fail_webhook-LeavesFundings id e s = refl
