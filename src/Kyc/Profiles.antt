-- ===== src/Kyc/Profiles.antt =====
-- `MemoryKycRepository` of apps/api/src/kyc/repository.ts, with the readers and writers of users that
-- apps/api/src/app.ts gives it. `now` and `uuid` are the clock and the new identifier.
use ticash.Prelude.{
  ℕ, Bool, true, false, not, ◌&&◌, Option, none, some, [], ◌∷◌, ◌==◌, leb, if◌then◌else◌, ok, err,
}
use ticash.Prelude.Maps.{Map, get, put}
use ticash.Prelude.Actions.{Action}
use ticash.Kyc.Types.{
  KycStatus, approved, KycError, user_not_found, kyc_session_conflict, kyc_vendor_mismatch,
  kyc_webhook_event_conflict, KycUser, MemoryProfile, KycUserRecord, EventStatus, event_processing,
  event_processed, event_failed, KycEvent, KycStore, failure_reason_for,
}

abbrev pub Method : Type 0 → Type 0
Method A = Action KycStore KycError A

unfoldable pub reset_kyc_store : KycStore → KycStore
reset_kyc_store s = record s { profiles = []; webhook_events = [] }

-- The two closures over the application's users.
abbrev pub read_user : ℕ → KycStore → Option KycUser
read_user user_id s = get user_id s.users

abbrev pub write_found : ℕ → KycStatus → Option KycUser → KycStore → KycStore
write_found user_id status none s = s
write_found user_id status (some u) s = record s {
  users = put user_id (record u { status = status }) s.users;
}

abbrev pub write_status : ℕ → KycStatus → KycStore → KycStore
write_status user_id status s = write_found user_id status (get user_id s.users) s

abbrev pub empty_profile : MemoryProfile
empty_profile = record {
  didit_session_id = none;
  kyc_started_at = none;
  kyc_verified_at = none;
  kyc_failure_reason = none;
  didit_status_updated_at = none;
}

abbrev profile_or_empty : Option MemoryProfile → MemoryProfile
profile_or_empty none = empty_profile
profile_or_empty (some p) = p

abbrev with_profile : Option KycUser → Option MemoryProfile → Option KycUserRecord
with_profile none p = none
with_profile (some u) p = some (record { user = u; profile = profile_or_empty p })

unfoldable pub get_user : ℕ → KycStore → Option KycUserRecord
get_user user_id s = with_profile (read_user user_id s) (get user_id s.profiles)

abbrev pub is_session : Option ℕ → ℕ → Bool
is_session none id = false
is_session (some i) id = i == id

-- `[...entries()].find(([, profile]) => profile.diditSessionId === sessionId)`
abbrev pub find_session : ℕ → Map MemoryProfile → Option (ℕ × MemoryProfile)
find_session session_id [] = none
find_session session_id ((k, p) ∷ m) =
    let rest = find_session session_id m in
    if is_session p.didit_session_id session_id then some (k, p) else rest

-- The owner other than the user.
abbrev pub find_owner : ℕ → ℕ → Map MemoryProfile → Option (ℕ × MemoryProfile)
find_owner user_id session_id [] = none
find_owner user_id session_id ((k, p) ∷ m) =
    let rest = find_owner user_id session_id m in
    if not (k == user_id) && is_session p.didit_session_id session_id then some (k, p) else rest

abbrev pub new_profile : ℕ → ℕ → MemoryProfile
new_profile session_id now = record empty_profile {
  didit_session_id = some session_id;
  kyc_started_at = some now;
}

-- `(await this.getUser(userId))!`: the user is there, since its status is written only.
abbrev pub save_known :
    ℕ → ℕ → ℕ → KycStatus → Option KycUser → Option (ℕ × MemoryProfile) → Method (Unit {0})
save_known now user_id session_id status none owner s = (err user_not_found, s)
save_known now user_id session_id status (some u) (some owner) s = (err kyc_session_conflict, s)
save_known now user_id session_id status (some u) none s = (
  ok tt,
  write_status user_id status
      (record s { profiles = put user_id (new_profile session_id now) s.profiles }),
)

-- The record that is returned, the callers drop.
unfoldable pub save_session : ℕ → ℕ → ℕ → KycStatus → Method (Unit {0})
save_session now user_id session_id status s =
    save_known now user_id session_id status (read_user user_id s)
      (find_owner user_id session_id s.profiles) s

pub record ProviderReport : Type 0 where
  pub session_id : ℕ
  pub vendor_data : Option ℕ
  pub status : KycStatus
  pub provider_updated_at : ℕ

abbrev pub is_foreign : Option ℕ → ℕ → Bool
is_foreign none user_id = false
is_foreign (some v) user_id = not (v == user_id)

-- A report that is no later than the last one.
abbrev pub is_stale : ℕ → Option ℕ → Bool
is_stale at none = false
is_stale at (some last) = leb at last

abbrev is_approved : KycStatus → Bool
is_approved approved = true
is_approved _ = false

abbrev first_time : Option ℕ → ℕ → ℕ
first_time none at = at
first_time (some t) at = t

abbrev pub reported_profile : ProviderReport → MemoryProfile → MemoryProfile
reported_profile r p = record p {
  didit_status_updated_at = some r.provider_updated_at;
  kyc_verified_at =
      if is_approved r.status
      then some (first_time p.kyc_verified_at r.provider_updated_at)
      else none;
  kyc_failure_reason = failure_reason_for r.status;
}

abbrev pub report_found :
    ProviderReport → Option (ℕ × MemoryProfile) → Method (Option KycUserRecord)
report_found r none s = (ok none, s)
report_found r (some (user_id, p)) s =
    if is_foreign r.vendor_data user_id
    then (err kyc_vendor_mismatch, s)
    else if is_stale r.provider_updated_at p.didit_status_updated_at
    then (ok (get_user user_id s), s)
    else let s' =
        write_status user_id r.status
          (record s { profiles = put user_id (reported_profile r p) s.profiles }) in
      (ok (get_user user_id s'), s')

unfoldable pub apply_provider_status : ProviderReport → Method (Option KycUserRecord)
apply_provider_status r s = report_found r (find_session r.session_id s.profiles) s

pub record KycWebhookReservation : Type 0 where
  pub duplicate : Bool
  pub event_id : ℕ

abbrev pub reserve_known : ℕ → KycEvent → EventStatus → KycStore → KycWebhookReservation × KycStore
reserve_known key e event_failed s = (
  record { duplicate = false; event_id = e.id },
  record s { webhook_events = put key (record e { status = event_processing }) s.webhook_events },
)
reserve_known key e _ s = (record { duplicate = true; event_id = e.id }, s)

abbrev pub reserve_found : ℕ → ℕ → ℕ → Option KycEvent → Method KycWebhookReservation
reserve_found uuid key payload_hash none s = (
  ok (record { duplicate = false; event_id = uuid }),
  record s {
    webhook_events =
        put key (record { id = uuid; status = event_processing; payload_hash = payload_hash })
          s.webhook_events;
  },
)
reserve_found uuid key payload_hash (some e) s =
    if e.payload_hash == payload_hash
    then (ok (reserve_known key e e.status s).0, (reserve_known key e e.status s).1)
    else (err kyc_webhook_event_conflict, s)

unfoldable pub reserve_webhook : ℕ → ℕ → ℕ → Method KycWebhookReservation
reserve_webhook uuid key payload_hash s =
    reserve_found uuid key payload_hash (get key s.webhook_events) s

-- The loops of `completeWebhook` and `failWebhook` over the map.
abbrev pub mark_events : ℕ → EventStatus → Map KycEvent → Map KycEvent
mark_events event_id status [] = []
mark_events event_id status ((k, e) ∷ m) =
    (k, if e.id == event_id then record e { status = status } else e)
    ∷ mark_events event_id status m

unfoldable pub complete_webhook : ℕ → Method (Unit {0})
complete_webhook event_id s =
    (ok tt, record s { webhook_events = mark_events event_id event_processed s.webhook_events })

unfoldable pub fail_webhook : ℕ → Method (Unit {0})
fail_webhook event_id s =
    (ok tt, record s { webhook_events = mark_events event_id event_failed s.webhook_events })
