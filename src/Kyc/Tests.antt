-- ===== src/Kyc/Tests.antt =====
-- Runs of the identity verification (apps/api/src/kyc) with a provider of the tests.
use ticash.Prelude.{◌+◌, ◌≡◌, ◌⊎◌, refl, arith, true, false, none, some, [], ◌∷◌, ok, err}
use ticash.Prelude.Lists.{All, In}
use ticash.Kyc.Types.{
  pending, in_review, approved, unknown_didit_status, kyc_session_conflict, KycUser, MemoryProfile,
  KycStore, map_didit_status,
}
use ticash.Kyc.Profiles.{
  empty_profile, is_session, get_user, save_session, ProviderReport, apply_provider_status,
  reserve_webhook, complete_webhook,
}
use ticash.Kyc.Service.{KycEnv, DiditProvider, DiditWebhookEvent, create_session, process_webhook}
use ticash.Kyc.Reports.{
  Register, Holds, IsCovered, IsNoEarlier, of_report, report_all, report_all_latest,
}
use ticash.Kyc.Exclusion.{IsExclusive}
use ticash.Kyc.Calls.{create_call, webhook_call, session_of_one}

abbrev user : KycUser
user = record {
  user_id = 7;
  email = 1;
  phone = none;
  first_name = none;
  last_name = none;
  status = pending;
}

abbrev profile : MemoryProfile
profile = record empty_profile { didit_session_id = some 20; kyc_started_at = some 100 }

abbrev store : KycStore
store = record {
  users = (7, user) ∷ (8, record user { user_id = 8 }) ∷ [];
  profiles = (7, profile) ∷ [];
  webhook_events = [];
}

store-IsExclusive : IsExclusive store
store-IsExclusive = ((tt, tt), λ i j session_id p q gi gj hp hq. ground arith)

abbrev late : ProviderReport
late = record {
  session_id = 20;
  vendor_data = some 7;
  status = approved;
  provider_updated_at = 300;
}

abbrev early : ProviderReport
early = record {
  session_id = 20;
  vendor_data = none;
  status = in_review;
  provider_updated_at = 200;
}

abbrev before : Register
before = record { at = none; status = pending }

-- The early report comes late.
report_all_latest_example :
    (w : Register) × Holds 20 7 w (report_all (late ∷ early ∷ []) store)
    × All (IsCovered w) (late ∷ early ∷ [])
    × IsNoEarlier none w.at
    × ((w ≡ before) ⊎ ((r : ProviderReport) × In r (late ∷ early ∷ []) × (w ≡ of_report r)))
report_all_latest_example =
    report_all_latest 20 7 before (late ∷ early ∷ []) store
      (profile, user, refl, refl, refl, refl, refl) ((refl, refl), ((refl, refl), tt))

stays_approved :
    get_user 7 (report_all (late ∷ early ∷ []) store)
    ≡ some (record {
      user = record user { status = approved };
      profile = record profile { didit_status_updated_at = some 300; kyc_verified_at = some 300 };
    })
unfolding get_user apply_provider_status
stays_approved = refl

abbrev didit : DiditProvider
didit = record {
  create_session = λ _ user_id.
      ok (record { session_id = user_id + 14; session_token = 1; status = "Not Started" });
  get_decision = λ session_id. ok (record { session_id = session_id; status = "Approved" });
}

abbrev env : KycEnv
env = record { enabled = true; workflow_id = some 3; provider = some didit; audit = λ _ _ _. ok tt }

abbrev event : DiditWebhookEvent
event = record {
  event_id = 50;
  webhook_type = "status.updated";
  created_at = 2;
  session_id = some 22;
  session_kind = none;
  vendor_data = some 8;
  status = " IN_REVIEW ";
}

abbrev second_profile : MemoryProfile
second_profile = record empty_profile {
  didit_session_id = some 22;
  kyc_started_at = some 150;
  didit_status_updated_at = some 2000;
}

session_of_one_example : is_session profile.didit_session_id 22 ≡ false
unfolding create_session process_webhook get_user save_session apply_provider_status reserve_webhook
    complete_webhook map_didit_status
session_of_one_example =
    session_of_one (create_call env 150 8 ∷ webhook_call env 60 event 61 ∷ []) store 8 7 22
      second_profile profile store-IsExclusive refl refl refl (ground arith)

unknown_status : map_didit_status "KYC  expired" ≡ err unknown_didit_status
unfolding map_didit_status
unknown_status = refl

-- A session of another user is refused.
taken_session : (save_session 400 8 20 pending store).0 ≡ err kyc_session_conflict
unfolding save_session
taken_session = refl
