-- ===== src/Kyc/Service.antt =====
-- `KycService` of apps/api/src/kyc/service.ts. Didit, the audit writer and their answers are parameters.
use Prim.Native.String.{String}
use text.Mathlib.Text.{◌==◌ as str_eq}
use ticash.Prelude.{
  ℕ, ◌*◌, Bool, true, false, not, ◌&&◌, ◌||◌, Option, none, some, ◌==◌, if◌then◌else◌, ok, err,
}
use ticash.Prelude.Actions.{pure, throw, lift, gets, or_raise, raise_if, attempt, ◌>>=◌, ◌>>◌}
use ticash.Kyc.Types.{
  KycStatus, approved, KycError, kyc_disabled, kyc_configuration_error, user_not_found,
  kyc_already_approved, didit_session_mismatch, FailureReason, KycUserRecord, Outcome,
  map_didit_status,
}
use ticash.Kyc.Profiles.{
  Method, get_user, save_session, apply_provider_status, reserve_webhook, complete_webhook,
  fail_webhook,
}

pub record DiditSession : Type 0 where
  pub session_id : ℕ
  pub session_token : ℕ
  pub status : String

pub record DiditDecision : Type 0 where
  pub session_id : ℕ
  pub status : String

-- `createSession` of a workflow for a user, and `getDecision` of a session.
pub record DiditProvider : Type 0 where
  pub create_session : ℕ → ℕ → Outcome DiditSession
  pub get_decision : ℕ → Outcome DiditDecision

pub record DiditWebhookEvent : Type 0 where
  pub event_id : ℕ
  pub webhook_type : String
  -- seconds
  pub created_at : ℕ
  pub session_id : Option ℕ
  pub session_kind : Option String
  pub vendor_data : Option ℕ
  pub status : String

pub data AuditAction : Type 0 where
  session_created : AuditAction
  status_reported : KycStatus → AuditAction

-- What the service is made with.
pub record KycEnv : Type 0 where
  pub enabled : Bool
  pub workflow_id : Option ℕ
  pub provider : Option DiditProvider
  pub audit : ℕ → AuditAction → ℕ → Outcome (Unit {0})

pub record CreatedSession : Type 0 where
  pub session_id : ℕ
  pub session_token : ℕ
  pub status : KycStatus

pub record KycView : Type 0 where
  pub status : KycStatus
  pub started_at : Option ℕ
  pub verified_at : Option ℕ
  pub failure_reason : Option FailureReason

pub record Processed : Type 0 where
  pub duplicate : Bool
  pub applied : Bool

abbrev pub is_approved : KycStatus → Bool
is_approved approved = true
is_approved _ = false

-- `requireProvider`
abbrev pub provider_of : Bool → Option DiditProvider → Option ℕ → Outcome (DiditProvider × ℕ)
provider_of false p w = err kyc_disabled
provider_of true (some p) (some w) = ok (p, w)
provider_of true _ _ = err kyc_configuration_error

abbrev pub view_of : KycUserRecord → KycView
view_of u = record {
  status = u.user.status;
  started_at = u.profile.kyc_started_at;
  verified_at = u.profile.kyc_verified_at;
  failure_reason = u.profile.kyc_failure_reason;
}

abbrev pub or_same : Option KycUserRecord → KycUserRecord → KycUserRecord
or_same none u = u
or_same (some v) u = v

abbrev pub is_business : Option String → Bool
is_business none = false
is_business (some kind) = str_eq kind "business"

abbrev pub is_status_event : String → Bool
is_status_event type_ = str_eq type_ "status.updated" || str_eq type_ "data.updated"

module _ (env : KycEnv) where
  unfoldable pub create_session : ℕ → ℕ → Method CreatedSession
  create_session now user_id = do
    used ← lift (provider_of env.enabled env.provider env.workflow_id)
    found ← gets (get_user user_id)
    user ← or_raise found user_not_found
    raise_if (is_approved user.user.status) kyc_already_approved
    session ← lift (used.0.create_session used.1 user_id)
    status ← lift (map_didit_status session.status)
    save_session now user_id session.session_id status
    lift (env.audit user_id session_created session.session_id)
    pure (record {
      session_id = session.session_id;
      session_token = session.session_token;
      status = status;
    })

  -- `refreshFromProvider && …`, with the provider and the session that the test has found.
  abbrev pub refresh :
      ℕ → ℕ → KycUserRecord → Bool → Option DiditProvider → Option ℕ → Method KycUserRecord
  refresh now user_id user true (some provider) (some session_id) = do
    decision ← lift (provider.get_decision session_id)
    raise_if (not (decision.session_id == session_id)) didit_session_mismatch
    status ← lift (map_didit_status decision.status)
    latest ← apply_provider_status (record {
      session_id = decision.session_id;
      vendor_data = some user_id;
      status = status;
      provider_updated_at = now;
    })
    pure (or_same latest user)
  refresh now user_id user wanted provider session_id = pure user

  unfoldable pub get_status : ℕ → ℕ → Bool → Method KycView
  get_status now user_id refresh_from_provider = do
    found ← gets (get_user user_id)
    user ← or_raise found user_not_found
    latest ←
        refresh now user_id user
          (refresh_from_provider && env.enabled && not (is_approved user.user.status)) env.provider
          user.profile.didit_session_id
    pure (view_of latest)

  abbrev pub audit_report : ℕ → KycStatus → Option KycUserRecord → Method Processed
  audit_report session_id status none = pure (record { duplicate = false; applied = false })
  audit_report session_id status (some u) = do
    lift (env.audit u.user.user_id (status_reported status) session_id)
    pure (record { duplicate = false; applied = true })

  abbrev pub ignored_event : ℕ → Method Processed
  ignored_event event_id = do
    complete_webhook event_id
    pure (record { duplicate = false; applied = false })

  abbrev pub report_event : ℕ → DiditWebhookEvent → ℕ → Method Processed
  report_event event_id event session_id = do
    status ← lift (map_didit_status event.status)
    user ← apply_provider_status (record {
      session_id = session_id;
      vendor_data = event.vendor_data;
      status = status;
      provider_updated_at = event.created_at * 1000;
    })
    complete_webhook event_id
    audit_report session_id status user

  -- The `try` of `processWebhook`.
  abbrev pub handle : ℕ → DiditWebhookEvent → Option ℕ → Method Processed
  handle event_id event none = ignored_event event_id
  handle event_id event (some session_id) =
      if not (is_status_event event.webhook_type) || is_business event.session_kind
      then ignored_event event_id
      else report_event event_id event session_id

  -- The memory repository does not keep the code of the error.
  abbrev pub handle_failed : ℕ → KycError → Method Processed
  handle_failed event_id error = do fail_webhook event_id; throw error

  unfoldable pub process_webhook : ℕ → DiditWebhookEvent → ℕ → Method Processed
  process_webhook uuid event payload_hash = do
    reservation ← reserve_webhook uuid event.event_id payload_hash
    if reservation.duplicate
        then pure (record { duplicate = true; applied = false })
        else attempt (handle reservation.event_id event event.session_id)
            (handle_failed reservation.event_id)
