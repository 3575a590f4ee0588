-- ===== src/Funding/Deliveries.antt =====
-- A webhook event of apps/api/src/funding/service.ts is processed once.
use Prim.Native.String.{String}
use ticash.Prelude.{
  ℕ, ◌≡◌, refl, arith, Bool, true, false, Option, none, some, if◌then◌else◌, ok, err, Result,
  Result-cases, inl, inr, Bool-cases,
}
use mathlib.Core.Path.{subst, ap, ◌∙◌}
use ticash.Prelude.Actions.{rescue, attempt, pure, ◌>>=◌, ◌>>◌}
use ticash.Prelude.Keeps.{Keeps, pure-Keeps, lift-Keeps, when-Keeps, bind_leads}
use ticash.Prelude.Triples.{Triple, bind_rule}
use ticash.Funding.Types.{
  FundingError, FundingStatus, FundingSourceRecord, FundingTransactionRecord, FundingStore,
  WebhookEvent, Outcome, event_processed,
}
use ticash.Funding.Repository.{Method, update_source, set_default_source}
use ticash.Funding.Settlement.{apply_provider_status}
use ticash.Funding.Webhooks.{reserve_webhook, complete_webhook, fail_webhook}
use ticash.Funding.Events.{IsKnown, get-mark_events, reserve_webhook-IsKnown}
use ticash.Funding.Provider.{
  Call, audits, AuditAction, FundingEnv, ServiceState, Service, DwollaFundingProvider,
  DwollaTransfer, DwollaFundingSource, DwollaWebhookEnvelope, repo, query, ask, provider_of,
  write_audit,
}
use ticash.Funding.Notices.{
  Processed, apply_source_report, source_notice, apply_transfer_report, notice, notice_failed,
  process_webhook,
}
use ticash.Funding.Frames.{IsQuiet}

-- The method leaves the webhook events alone.
abbrev LeavesEvents : {A : Type 0} → Method A → Type 0
LeavesEvents m = (s : FundingStore) → (m s).1.webhook_events ≡ s.webhook_events

update_source-LeavesEvents :
    (now user id : ℕ) (f : FundingSourceRecord → FundingSourceRecord)
    → LeavesEvents (update_source now user id f)
unfolding update_source
update_source-LeavesEvents now user id f s = ground arith

set_default_source-LeavesEvents : (now user id : ℕ) → LeavesEvents (set_default_source now user id)
unfolding set_default_source
set_default_source-LeavesEvents now user id s = ground arith

apply_provider_status-LeavesEvents :
    (now id : ℕ) (status : FundingStatus) (failure : Option FundingError)
    → LeavesEvents (apply_provider_status now id status failure)
unfolding apply_provider_status
apply_provider_status-LeavesEvents now id status failure s = ground arith

module _ (key id hash : ℕ) where
  -- The event is known under its key, identifier and payload; and it is processed.
  abbrev Known : ServiceState → Type 0
  Known s = (e : WebhookEvent) × IsKnown key id hash e s.store

  abbrev Done : ServiceState → Type 0
  Done s = (e : WebhookEvent) × IsKnown key id hash e s.store × (e.status ≡ event_processed)

  Known-same :
      (s s' : ServiceState) → s'.store.webhook_events ≡ s.store.webhook_events → Known s → Known s'
  Known-same s s' e (w, (g, i, h)) = (w, (rw e g, i, h))

  repo-Known : {A : Type 0} (m : Method A) → LeavesEvents m → Keeps Known (repo m)
  repo-Known m h = record { run = λ s p. Known-same s (repo m s).1 (h s.store) p }

  ask-Known : {A : Type 0} (c : Call) (r : Outcome A) → Keeps Known (ask c r)
  ask-Known c r = record { run = λ s p. p }

  query-Known : {A : Type 0} (f : FundingStore → A) → Keeps Known (query f)
  query-Known f = record { run = λ s p. p }

  audit-Known :
      (env : FundingEnv) (user : ℕ) (a : AuditAction) (i : ℕ)
      → Keeps Known (write_audit env user a i)
  audit-Known env user a i = ask-Known (audits user a i) (env.audit user a i)

  notify-Known :
      (env : FundingEnv) (t : FundingTransactionRecord)
      → IsQuiet env
      → Keeps Known (env.on_status_changed t)
  notify-Known env t q = record {
    run = λ s p. Known-same s (env.on_status_changed t s).1 (q.no_events t s) p;
  }

  -- A run that returns has marked the event.
  abbrev Ends : Service Processed → Type 0
  Ends m = Triple Known m (λ _ s. Done s)

  Keeps-first :
      {A : Type 0} {m : Service A} {f : A → Service Processed}
      → Keeps Known m
      → ((a : A) → Ends (f a))
      → Ends (m >>= f)
  Keeps-first k l = bind_rule (record { run = λ s a p _. k.run s p }) l

  complete-Ends : (r : Processed) → Ends (repo (complete_webhook id) >> pure r)
  unfolding complete_webhook
  complete-Ends r = record {
    run = λ s a (w, (g, i, h)) _.
        let marked =
          get-mark_events key id (λ e. record e { status = event_processed }) s.store.webhook_events
            g in
        (record w { status = event_processed }, (marked ∙ ground arith, i, h), refl);
  }

  if_Ends : (b : Bool) {m n : Service Processed} → Ends m → Ends n → Ends (if b then m else n)
  if_Ends true k l = k
  if_Ends false k l = l

  apply_source_report-Known :
      (env : FundingEnv) (now : ℕ) (topic : String) (r : DwollaFundingSource)
      (o : Option FundingSourceRecord)
      → Keeps Known (apply_source_report env now topic r o)
  apply_source_report-Known env now topic r none = pure-Keeps Known _
  apply_source_report-Known env now topic r (some x) =
      search
        (
          bind_leads, when-Keeps, pure-Keeps, repo-Known, update_source-LeavesEvents,
          set_default_source-LeavesEvents, query-Known, audit-Known,
        )
        depth 18

  source_notice-Ends :
      (env : FundingEnv) (now : ℕ) (topic : String) (url : ℕ) (p : DwollaFundingProvider)
      → Ends (source_notice env now id topic url p)
  source_notice-Ends env now topic url p =
      search
        (Keeps-first, lift-Keeps, ask-Known, query-Known, apply_source_report-Known, complete-Ends)
        depth 14

  apply_transfer_report-Ends :
      (env : FundingEnv) (now : ℕ) (r : DwollaTransfer) (o : Option FundingTransactionRecord)
      → IsQuiet env
      → Ends (apply_transfer_report env now id r o)
  apply_transfer_report-Ends env now r none q = complete-Ends _
  apply_transfer_report-Ends env now r (some t) q =
      search
        (
          Keeps-first, lift-Keeps, repo-Known, apply_provider_status-LeavesEvents, notify-Known,
          audit-Known, complete-Ends,
        )
        depth 14

  notice-Ends :
      (env : FundingEnv) (now : ℕ) (topic : String) (url : Option ℕ) (p : DwollaFundingProvider)
      → IsQuiet env
      → Ends (notice env now id topic url p)
  notice-Ends env now topic none p q = complete-Ends _
  notice-Ends env now topic (some url) p q =
      search
        (
          if_Ends, source_notice-Ends, Keeps-first, lift-Keeps, ask-Known, query-Known,
          apply_transfer_report-Ends, complete-Ends,
        )
        depth 14

  -- A run of the handler that returns has processed the event.
  handled :
      (env : FundingEnv) (now : ℕ) (topic : String) (url : Option ℕ) (p : DwollaFundingProvider)
      (s : ServiceState) {r : Processed}
      → IsQuiet env
      → Known s
      → (attempt (notice env now id topic url p) (notice_failed env id) s).0 ≡ ok r
      → Done (attempt (notice env now id topic url p) (notice_failed env id) s).1
  unfolding fail_webhook
  handled env now topic url p s {r} q k e =
      rescued (notice env now id topic url p s) env e
        (λ a. (notice-Ends env now topic url p q).run s a k)
    where
      rescued :
          (x : Result FundingError Processed × ServiceState) (env : FundingEnv)
          → (rescue x (notice_failed env id)).0 ≡ ok r
          → ((a : Processed) → x.0 ≡ ok a → Done x.1)
          → Done (rescue x (notice_failed env id)).1
      rescued (ok a, s) env e d = d a refl
      rescued (err b, s) env e d = absurd (cc)

reserved_again :
    (uuid key : ℕ) (topic : String) (id hash : ℕ) (e : WebhookEvent) (s : FundingStore)
    → IsKnown key id hash e s
    → e.status ≡ event_processed
    → reserve_webhook uuid key topic hash s ≡ (ok (record { duplicate = true; event_id = id }), s)
unfolding reserve_webhook
reserved_again uuid key topic id hash e s (g, i, k) done = rw (g, reserve_webhook) (ground arith)

-- A call that took the event and returned, from its first step on.
taken :
    (env : FundingEnv) (uuid now : ℕ) (envelope : DwollaWebhookEnvelope) (hash : ℕ)
    (s s' : ServiceState) {r : Processed}
    → IsQuiet env
    → process_webhook env uuid now envelope hash s ≡ (ok r, s')
    → r.duplicate ≡ false
    → (id : ℕ) × Done envelope.id id hash s'
unfolding process_webhook
taken env uuid now envelope hash s s' {r} q h fresh =
    elim (Result-cases (provider_of env.config.enabled env.provider)) [
      | inr (e, no_provider) ↦ absurd (let k = rw no_provider at h in cc)
      | inl (p, found) ↦
          let h1 = rw found at h in
          elim (Result-cases (reserve_webhook uuid envelope.id envelope.topic hash s.store).0) [
            | inr (e, refused) ↦ absurd (let k = rw refused at h1 in cc)
            | inl (w, reserved) ↦
                let h2 = rw reserved at h1 in
                elim (Bool-cases w.duplicate) [
                  | inl again ↦ absurd (let k = rw again at h2 in ground arith)
                  | inr new ↦
                      let h3 = rw new at h2 in
                      let known =
                        reserve_webhook-IsKnown uuid envelope.id envelope.topic hash s.store
                          reserved new in
                      let done =
                        handled envelope.id w.event_id hash env now envelope.topic
                          envelope.resource_url p _ q (_, known) (ap (λ x. x.0) h3) in
                      (w.event_id, subst (Done envelope.id w.event_id hash) (ap (λ x. x.1) h3) done)
                ]
          ]
    ]

-- Once a webhook event was taken and the call returned, the same event is reported as a duplicate, at
-- every later time and by every provider, and nothing is stored or called. The listener on status
-- changes leaves the webhook events alone.
pub process_webhook_once :
    (env env' : FundingEnv) (uuid uuid' now now' : ℕ) (envelope : DwollaWebhookEnvelope) (hash : ℕ)
    (s s' : ServiceState) {r : Processed} {p : DwollaFundingProvider}
    → IsQuiet env
    → process_webhook env uuid now envelope hash s ≡ (ok r, s')
    → r.duplicate ≡ false
    → env'.config.enabled ≡ true
    → env'.provider ≡ some p
    → process_webhook env' uuid' now' envelope hash s'
      ≡ (ok (record { duplicate = true; ignored = false }), s')
unfolding process_webhook
process_webhook_once env env' uuid uuid' now now' envelope hash s s' {p} q h fresh on found =
    let (id, (e, (g, i, k), done)) = taken env uuid now envelope hash s s' q h fresh in
    let known = reserved_again uuid' envelope.id envelope.topic id hash e s'.store (g, i, k) done in
    let available : provider_of env'.config.enabled env'.provider ≡ ok p = (rw (on, found) refl) in
    rw (available, known) refl
