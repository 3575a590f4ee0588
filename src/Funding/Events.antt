-- ===== src/Funding/Events.antt =====
-- What the webhook events of the repository promise: each is processed once.
use ticash.Prelude.{
  ℕ, ◌≡◌, ◌≢◌, refl, arith, true, false, Option, none, some, [], ◌∷◌, ◌==◌, Bool-cases,
  Option-cases, inl, inr, ok, err, if◌then◌else◌,
}
use Prim.Native.String.{String}
use ticash.Prelude.Maps.{Map, get, get-put_self}
use ticash.Funding.Types.{
  FundingError, FundingStore, WebhookEvent, event_failed, event_processed, event_processing,
  webhook_event_conflict,
}
use ticash.Funding.Webhooks.{
  reserve_webhook, complete_webhook, fail_webhook, mark_events, WebhookReservation,
}

-- The event is known under the key, with this identifier and payload.
abbrev pub IsKnown : ℕ → ℕ → ℕ → WebhookEvent → FundingStore → Type 0
IsKnown key id payload_hash e s =
    (get key s.webhook_events ≡ some e) × (e.id ≡ id) × (e.payload_hash ≡ payload_hash)

pub get-mark_events :
    (k id : ℕ) (f : WebhookEvent → WebhookEvent) (m : Map WebhookEvent) {e : WebhookEvent}
    → get k m ≡ some e
    → get k (mark_events id f m) ≡ some (if e.id == id then f e else e)
get-mark_events k id f [] g = cc
get-mark_events k id f ((j, y) ∷ m) {e} g = elim (Bool-cases (k == j)) [
  | inl here_ ↦ let same : y ≡ e = ground arith in rw (here_, same)
  | inr other ↦ rw other (get-mark_events k id f m {e = e} (rw other at g))
]

-- The event as it is stored once it is handed out.
abbrev pub handed_out : ℕ → String → ℕ → Option WebhookEvent → WebhookEvent
handed_out uuid topic payload_hash none = record {
  id = uuid;
  topic = topic;
  payload_hash = payload_hash;
  status = event_processing;
  error_code = none;
}
handed_out uuid topic payload_hash (some e) = record e {
  status = event_processing;
  error_code = none;
}

module _ (uuid key : ℕ) (topic : String) (payload_hash : ℕ) (s : FundingStore) where
  -- The store after a reservation that hands the event out.
  pub reserve_webhook-IsKnown :
      {r : WebhookReservation}
      → (reserve_webhook uuid key topic payload_hash s).0 ≡ ok r
      → r.duplicate ≡ false
      → IsKnown key r.event_id payload_hash
          (handed_out uuid topic payload_hash (get key s.webhook_events))
          (reserve_webhook uuid key topic payload_hash s).1
  unfolding reserve_webhook
  reserve_webhook-IsKnown {r} h fresh = elim (Option-cases (get key s.webhook_events)) [
    | inl new ↦
        let h' = rw (new, reserve_webhook) at h in
        rw (new, reserve_webhook) (get-put_self key _ _, ground arith, refl)
    | inr (e, known) ↦
        let stored =
          get-put_self key (record e { status = event_processing; error_code = none })
            s.webhook_events in
        ground arith
  ]

-- An event that was handed out and then completed is a duplicate whenever it comes again with the same
-- payload, and nothing is stored.
pub reserve_webhook_completed :
    (uuid later key : ℕ) (topic : String) (payload_hash : ℕ) (s : FundingStore)
    {r : WebhookReservation}
    → (reserve_webhook uuid key topic payload_hash s).0 ≡ ok r
    → r.duplicate ≡ false
    → let s1 = (reserve_webhook uuid key topic payload_hash s).1 in
      let s2 = (complete_webhook r.event_id s1).1 in
      reserve_webhook later key topic payload_hash s2
      ≡ (ok (record { duplicate = true; event_id = r.event_id }), s2)
unfolding complete_webhook reserve_webhook
reserve_webhook_completed uuid later key topic payload_hash s {r} h fresh =
    let (g, i, p) = reserve_webhook-IsKnown uuid key topic payload_hash s h fresh in
    let s1 = (reserve_webhook uuid key topic payload_hash s).1 in
    let marked =
      get-mark_events key r.event_id (λ e. record e { status = event_processed }) s1.webhook_events
        g in
    ground arith

-- An event that was handed out and then failed is handed out again, under the identifier that it has.
pub reserve_webhook_failed :
    (uuid later key : ℕ) (topic : String) (payload_hash : ℕ) (code : FundingError)
    (s : FundingStore) {r : WebhookReservation}
    → (reserve_webhook uuid key topic payload_hash s).0 ≡ ok r
    → r.duplicate ≡ false
    → let s1 = (reserve_webhook uuid key topic payload_hash s).1 in
      let s2 = (fail_webhook r.event_id code s1).1 in
      (reserve_webhook later key topic payload_hash s2).0
      ≡ ok (record { duplicate = false; event_id = r.event_id })
unfolding fail_webhook reserve_webhook
reserve_webhook_failed uuid later key topic payload_hash code s {r} h fresh =
    let (g, i, p) = reserve_webhook-IsKnown uuid key topic payload_hash s h fresh in
    let s1 = (reserve_webhook uuid key topic payload_hash s).1 in
    let marked =
      get-mark_events key r.event_id
        (λ e. record e { status = event_failed; error_code = some code }) s1.webhook_events g in
    ground arith

-- The key of an event that was handed out is refused for any other payload, with the store unchanged.
pub reserve_webhook_conflict :
    (uuid later key : ℕ) (topic : String) (payload_hash other : ℕ) (s : FundingStore)
    {r : WebhookReservation}
    → (reserve_webhook uuid key topic payload_hash s).0 ≡ ok r
    → r.duplicate ≡ false
    → other ≢ payload_hash
    → let s1 = (reserve_webhook uuid key topic payload_hash s).1 in
      reserve_webhook later key topic other s1 ≡ (err webhook_event_conflict, s1)
unfolding reserve_webhook
reserve_webhook_conflict uuid later key topic payload_hash other s {r} h fresh ne =
    let (g, i, p) = reserve_webhook-IsKnown uuid key topic payload_hash s h fresh in ground arith
