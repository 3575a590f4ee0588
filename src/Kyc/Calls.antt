-- ===== src/Kyc/Calls.antt =====
-- Sequences of calls of `KycService` (apps/api/src/kyc/service.ts).
use ticash.Prelude.{
  ℕ, ◌≡◌, ◌≢◌, Bool-cases, inl, inr, Bool, true, false, Option, none, some, List, [], ◌∷◌,
}
use ticash.Prelude.Maps.{get}
use ticash.Prelude.Keeps.{
  Keeps, pure-Keeps, throw-Keeps, lift-Keeps, or_raise-Keeps, raise_if-Keeps, if_leads, bind_leads,
  attempt_leads,
}
use ticash.Kyc.Types.{KycStatus, KycError, KycUserRecord, MemoryProfile, KycStore}
use ticash.Kyc.Profiles.{is_session}
use ticash.Kyc.Service.{
  KycEnv, DiditProvider, DiditWebhookEvent, create_session, refresh, get_status, audit_report,
  handle, handle_failed, process_webhook,
}
use ticash.Kyc.Exclusion.{IsExclusive}
use ticash.Kyc.Ownership.{
  save_session-Keeps, apply_provider_status-Keeps, reserve_webhook-Keeps, complete_webhook-Keeps,
  fail_webhook-Keeps, gets-Keeps,
}

ruleset service_steps = (
  bind_leads, attempt_leads, if_leads, pure-Keeps, throw-Keeps, lift-Keeps, or_raise-Keeps,
  raise_if-Keeps, gets-Keeps, save_session-Keeps, apply_provider_status-Keeps,
  reserve_webhook-Keeps, complete_webhook-Keeps, fail_webhook-Keeps,
)

module _ (env : KycEnv) where
  create_session-Keeps : (now user_id : ℕ) → Keeps IsExclusive (create_session env now user_id)
  unfolding create_session
  create_session-Keeps now user_id = search service_steps depth 18

  refresh-Keeps :
      (now user_id : ℕ) (u : KycUserRecord) (wanted : Bool) (p : Option DiditProvider)
      (session_id : Option ℕ)
      → Keeps IsExclusive (refresh env now user_id u wanted p session_id)
  refresh-Keeps now user_id u true (some p) (some session_id) = search service_steps depth 14
  refresh-Keeps now user_id u true (some p) none = pure-Keeps IsExclusive _
  refresh-Keeps now user_id u true none session_id = pure-Keeps IsExclusive _
  refresh-Keeps now user_id u false p session_id = pure-Keeps IsExclusive _

  get_status-Keeps :
      (now user_id : ℕ) (wanted : Bool) → Keeps IsExclusive (get_status env now user_id wanted)
  unfolding get_status
  get_status-Keeps now user_id wanted = search (service_steps, refresh-Keeps) depth 14

  audit_report-Keeps :
      (session_id : ℕ) (status : KycStatus) (u : Option KycUserRecord)
      → Keeps IsExclusive (audit_report env session_id status u)
  audit_report-Keeps session_id status none = pure-Keeps IsExclusive _
  audit_report-Keeps session_id status (some u) = search service_steps depth 9

  handle-Keeps :
      (event_id : ℕ) (event : DiditWebhookEvent) (session_id : Option ℕ)
      → Keeps IsExclusive (handle env event_id event session_id)
  handle-Keeps event_id event none = search service_steps depth 9
  handle-Keeps event_id event (some session_id) =
      search (service_steps, audit_report-Keeps) depth 14

  handle_failed-Keeps :
      (event_id : ℕ) (e : KycError) → Keeps IsExclusive (handle_failed env event_id e)
  handle_failed-Keeps event_id e = search service_steps depth 9

  process_webhook-Keeps :
      (uuid : ℕ) (event : DiditWebhookEvent) (hash : ℕ)
      → Keeps IsExclusive (process_webhook env uuid event hash)
  unfolding process_webhook
  process_webhook-Keeps uuid event hash =
      search (service_steps, handle-Keeps, handle_failed-Keeps) depth 14

-- A call with its arguments, and what Didit and the audit writer answer to it.
pub data KycCall : Type 0 where
  create_call : (env : KycEnv) (now user_id : ℕ) → KycCall
  status_call : (env : KycEnv) (now user_id : ℕ) (wanted : Bool) → KycCall
  webhook_call : (env : KycEnv) (uuid : ℕ) (event : DiditWebhookEvent) (hash : ℕ) → KycCall

-- The state that a call leaves behind, whether it returns or throws.
abbrev pub perform : KycCall → KycStore → KycStore
perform (create_call env now user_id) s = (create_session env now user_id s).1
perform (status_call env now user_id wanted) s = (get_status env now user_id wanted s).1
perform (webhook_call env uuid event hash) s = (process_webhook env uuid event hash s).1

abbrev pub perform_all : List KycCall → KycStore → KycStore
perform_all [] s = s
perform_all (c ∷ cs) s = perform_all cs (perform c s)

perform-IsExclusive : (c : KycCall) (s : KycStore) → IsExclusive s → IsExclusive (perform c s)
perform-IsExclusive (create_call env now user_id) = (create_session-Keeps env now user_id).run
perform-IsExclusive (status_call env now user_id wanted) =
    (get_status-Keeps env now user_id wanted).run
perform-IsExclusive (webhook_call env uuid event hash) =
    (process_webhook-Keeps env uuid event hash).run

perform_all-IsExclusive :
    (cs : List KycCall) (s : KycStore) → IsExclusive s → IsExclusive (perform_all cs s)
perform_all-IsExclusive [] s x = x
perform_all-IsExclusive (c ∷ cs) s x =
    perform_all-IsExclusive cs (perform c s) (perform-IsExclusive c s x)

-- Over every sequence of calls of the service, whatever Didit answers, a verification session of one
-- user is not the session of another, if that is so in the state before and no key occurs twice in the
-- map of profiles there.
pub session_of_one :
    (cs : List KycCall) (s : KycStore) (i j session_id : ℕ) (p q : MemoryProfile)
    → IsExclusive s
    → get i (perform_all cs s).profiles ≡ some p
    → get j (perform_all cs s).profiles ≡ some q
    → is_session p.didit_session_id session_id ≡ true
    → i ≢ j
    → is_session q.didit_session_id session_id ≡ false
session_of_one cs s i j session_id p q x g h own other =
    elim (Bool-cases (is_session q.didit_session_id session_id)) [
      | inl same ↦
          absurd (other ((perform_all-IsExclusive cs s x).1 i j session_id p q g h own same))
      | inr differs ↦ differs
    ]
