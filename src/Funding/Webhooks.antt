-- ===== src/Funding/Webhooks.antt =====
-- The webhook events of `MemoryFundingRepository` (apps/api/src/funding/repository.ts).
use ticash.Prelude.{ℕ, Bool, true, false, none, some, ◌==◌, ok, err, [], ◌∷◌, if◌then◌else◌}
use Prim.Native.String.{String}
use ticash.Prelude.Maps.{Map, get, put}
use ticash.Funding.Types.{
  FundingError, webhook_event_conflict, WebhookStatus, event_processing, event_processed,
  event_failed, WebhookEvent, FundingStore,
}
use ticash.Funding.Repository.{Method}

pub record WebhookReservation : Type 0 where
  pub duplicate : Bool
  pub event_id : ℕ

-- The status test of an event that is known under the same payload.
abbrev reserve_known :
    ℕ → WebhookEvent → WebhookStatus → FundingStore → WebhookReservation × FundingStore
reserve_known key e event_failed s = (
  record { duplicate = false; event_id = e.id },
  record s {
    webhook_events =
        put key (record e { status = event_processing; error_code = none }) s.webhook_events;
  },
)
reserve_known key e _ s = (record { duplicate = true; event_id = e.id }, s)

unfoldable pub reserve_webhook : ℕ → ℕ → String → ℕ → Method WebhookReservation
reserve_webhook uuid key topic payload_hash s = elim (get key s.webhook_events) [
  | some e ↦
      if e.payload_hash == payload_hash
      then (let (r, s') = reserve_known key e e.status s in (ok r, s'))
      else (err webhook_event_conflict, s)
  | none ↦
      let e : WebhookEvent = record {
        id = uuid;
        topic = topic;
        payload_hash = payload_hash;
        status = event_processing;
        error_code = none;
      } in
      (
        ok (record { duplicate = false; event_id = uuid }),
        record s { webhook_events = put key e s.webhook_events },
      )
]

-- The loops of `completeWebhook` and `failWebhook` over the map.
abbrev pub mark_events : ℕ → (WebhookEvent → WebhookEvent) → Map WebhookEvent → Map WebhookEvent
mark_events event_id f [] = []
mark_events event_id f ((k, e) ∷ m) =
    (k, if e.id == event_id then f e else e) ∷ mark_events event_id f m

unfoldable pub complete_webhook : ℕ → Method (Unit {0})
complete_webhook event_id s = (
  ok tt,
  record s {
    webhook_events =
        mark_events event_id (λ e. record e { status = event_processed }) s.webhook_events;
  },
)

unfoldable pub fail_webhook : ℕ → FundingError → Method (Unit {0})
fail_webhook event_id code s = (
  ok tt,
  record s {
    webhook_events =
        mark_events event_id (λ e. record e { status = event_failed; error_code = some code })
          s.webhook_events;
  },
)
