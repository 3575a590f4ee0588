-- ===== src/Kyc/Ownership.antt =====
-- A verification session of apps/api/src/kyc belongs to one user at most: what the
-- repository does to it.

use ticash.Prelude.{
  ℕ, ◌≡◌, inl, inr, arith, true, false, Option, none, some, ◌==◌, Bool-cases, Option-cases,
}
use mathlib.Core.Path.{sym, ◌∙◌}
use ticash.Prelude.Maps.{Map, get, put, put-IsDistinct}
use ticash.Prelude.Actions.{gets}
use ticash.Prelude.Keeps.{Keeps}
use ticash.Kyc.Types.{KycStatus, KycError, KycUser, MemoryProfile, KycStore}
use ticash.Kyc.Profiles.{
  is_session, find_session, find_owner, new_profile, reported_profile, is_foreign, is_stale,
  save_known, save_session, ProviderReport, report_found, apply_provider_status, reserve_webhook,
  complete_webhook, fail_webhook, write_status,
}
use ticash.Kyc.Exclusion.{IsExclusive, find_owner-none, find_session-get, put-Exclusive}

write_status-profiles :
    (user_id : ℕ) (status : KycStatus) (s : KycStore)
    → (write_status user_id status s).profiles ≡ s.profiles
write_status-profiles user_id status s = ground arith

IsExclusive-same : (s s' : KycStore) → s'.profiles ≡ s.profiles → IsExclusive s → IsExclusive s'
IsExclusive-same s s' e x = rw e x

new_profile_unique :
    (now user_id session_id : ℕ) (m : Map MemoryProfile)
    → find_owner user_id session_id m ≡ none
    → (j other : ℕ) (q : MemoryProfile) → get j m ≡ some q
    → is_session q.didit_session_id other ≡ true
    → is_session (new_profile session_id now).didit_session_id other ≡ true
    → j ≡ user_id
new_profile_unique now user_id session_id m none_ j other q g hq hp =
    let same : session_id ≡ other = (ground arith) in
    elim (Bool-cases (j == user_id)) [
      | inl own ↦ ground arith
      | inr foreign ↦ absurd (
          let k : is_session q.didit_session_id session_id ≡ false =
            (find_owner-none user_id session_id j m none_ g (ground arith)) in
          let b : true ≡ false = (sym hq ∙ rw (← same) k) in cc)
    ]

save_known-IsExclusive :
    (now user_id session_id : ℕ) (status : KycStatus) (o : Option KycUser) (s : KycStore)
    → IsExclusive s
    → IsExclusive
        (save_known now user_id session_id status o (find_owner user_id session_id s.profiles) s).1
save_known-IsExclusive now user_id session_id status none s x = x
save_known-IsExclusive now user_id session_id status (some u) s x =
    elim (Option-cases (find_owner user_id session_id s.profiles)) [
      | inr (owner, found) ↦ rw found x
      | inl none_ ↦
          let p = new_profile session_id now in
          let s1 = record s { profiles = put user_id p s.profiles } in
          rw none_ (
            IsExclusive-same s1 (write_status user_id status s1)
              (write_status-profiles user_id status s1)
              (
                put-IsDistinct user_id p s.profiles x.0,
                put-Exclusive user_id p s.profiles
                    (new_profile_unique now user_id session_id s.profiles none_) x.1,
              ))
    ]

pub save_session-Keeps :
    (now user_id session_id : ℕ) (status : KycStatus)
    → Keeps IsExclusive (save_session now user_id session_id status)
unfolding save_session
save_session-Keeps now user_id session_id status = record {
  run = λ s x. save_known-IsExclusive now user_id session_id status (get user_id s.users) s x;
}

report_found-IsExclusive :
    (r : ProviderReport) (k : ℕ) (p : MemoryProfile) (s : KycStore)
    → get k s.profiles ≡ some p
    → IsExclusive s
    → IsExclusive (report_found r (some (k, p)) s).1
report_found-IsExclusive r k p s g x =
    let p' = reported_profile r p in
    let s1 = record s { profiles = put k p' s.profiles } in
    let written : IsExclusive (write_status k r.status s1) =
      (IsExclusive-same s1 (write_status k r.status s1) (write_status-profiles k r.status s1) (
        put-IsDistinct k p' s.profiles x.0,
        put-Exclusive k p' s.profiles (λ j id q gq hq hp. x.1 j k id q p gq g hq hp) x.1,
      )) in
    elim (Bool-cases (is_foreign r.vendor_data k)) [
      | inl foreign ↦ rw foreign x
      | inr own ↦ elim (Bool-cases (is_stale r.provider_updated_at p.didit_status_updated_at)) [
        | inl stale ↦ rw (own, stale) x
        | inr new ↦ rw (own, new) written
      ]
    ]

pub apply_provider_status-Keeps : (r : ProviderReport) → Keeps IsExclusive (apply_provider_status r)
unfolding apply_provider_status
apply_provider_status-Keeps r = record {
  run = λ s x. elim (Option-cases (find_session r.session_id s.profiles)) [
    | inl missing ↦ rw missing x
    | inr ((k, p), found) ↦
        rw found
          (report_found-IsExclusive r k p s (find_session-get r.session_id s.profiles x.0 found) x)
  ];
}

-- The webhook events have nothing to do with it.
pub reserve_webhook-Keeps : (uuid key hash : ℕ) → Keeps IsExclusive (reserve_webhook uuid key hash)
unfolding reserve_webhook
reserve_webhook-Keeps uuid key hash = record {
  run = λ s x. IsExclusive-same s (reserve_webhook uuid key hash s).1 (ground arith) x;
}

pub complete_webhook-Keeps : (id : ℕ) → Keeps IsExclusive (complete_webhook id)
unfolding complete_webhook
complete_webhook-Keeps id = record { run = λ s x. x }

pub fail_webhook-Keeps : (id : ℕ) → Keeps IsExclusive (fail_webhook id)
unfolding fail_webhook
fail_webhook-Keeps id = record { run = λ s x. x }

pub gets-Keeps : {A : Type 0} (f : KycStore → A) → Keeps {E = KycError} IsExclusive (gets f)
gets-Keeps f = record { run = λ s x. x }
