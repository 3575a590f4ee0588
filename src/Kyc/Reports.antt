-- ===== src/Kyc/Reports.antt =====
-- What `applyProviderStatus` of apps/api/src/kyc/repository.ts promises: the memory repository refines a
-- register that keeps the latest report of a session, in whatever order the reports come.
use ticash.Prelude.{
  ℕ, ◌≡◌, ◌≤◌, ◌⊎◌, inl, inr, refl, arith, true, false, Option, none, some, List, [], ◌∷◌,
  if◌then◌else◌, Bool-cases,
}
use mathlib.Core.Path.{ap, ◌∙◌}
use ticash.Prelude.Lists.{All, In}
use ticash.Prelude.Maps.{Map, get, put, get-put_self}
use ticash.Kyc.Types.{KycStatus, KycUser, MemoryProfile, KycStore}
use ticash.Kyc.Profiles.{
  find_session, is_session, is_foreign, is_stale, reported_profile, ProviderReport, report_found,
  apply_provider_status,
}

-- The status of the session's user, and the time of the report that it comes from.
pub record Register : Type 0 where
  pub at : Option ℕ
  pub status : KycStatus

abbrev pub of_report : ProviderReport → Register
of_report r = record { at = some r.provider_updated_at; status = r.status }

-- A later report is taken, any other is dropped.
abbrev pub take : Register → ProviderReport → Register
take v r = if is_stale r.provider_updated_at v.at then v else of_report r

abbrev pub take_all : Register → List ProviderReport → Register
take_all v [] = v
take_all v (r ∷ rs) = take_all (take v r) rs

-- The session is the user's, and the store says what the register says.
abbrev pub Holds : ℕ → ℕ → Register → KycStore → Type 0
Holds session_id user_id v s =
    (p : MemoryProfile) × (u : KycUser) × (find_session session_id s.profiles ≡ some (user_id, p))
    × (is_session p.didit_session_id session_id ≡ true)
    × (get user_id s.users ≡ some u)
    × (p.didit_status_updated_at ≡ v.at)
    × (u.status ≡ v.status)

-- A report on the session that names no other user.
abbrev pub Concerns : ℕ → ℕ → ProviderReport → Type 0
Concerns session_id user_id r =
    (r.session_id ≡ session_id) × (is_foreign r.vendor_data user_id ≡ false)

abbrev pub report_all : List ProviderReport → KycStore → KycStore
report_all [] s = s
report_all (r ∷ rs) s = report_all rs (apply_provider_status r s).1

find_session-put :
    (session_id k : ℕ) (p p' : MemoryProfile) (m : Map MemoryProfile)
    → find_session session_id m ≡ some (k, p)
    → is_session p'.didit_session_id session_id ≡ true
    → find_session session_id (put k p' m) ≡ some (k, p')
find_session-put session_id k p p' [] f h = absurd (cc)
find_session-put session_id k p p' ((j, x) ∷ m) f h =
    ground (arith, find_session-put session_id k p p' m)

found-Holds :
    (session_id user_id : ℕ) (v : Register) (r : ProviderReport) (s : KycStore) (p : MemoryProfile)
    (u : KycUser)
    → is_foreign r.vendor_data user_id ≡ false
    → find_session session_id s.profiles ≡ some (user_id, p)
    → is_session p.didit_session_id session_id ≡ true
    → get user_id s.users ≡ some u
    → p.didit_status_updated_at ≡ v.at
    → u.status ≡ v.status
    → Holds session_id user_id (take v r) (report_found r (some (user_id, p)) s).1
found-Holds session_id user_id v r s p u own f h g a b =
    elim (Bool-cases (is_stale r.provider_updated_at p.didit_status_updated_at)) [
      | inl stale ↦
          let stale_ : is_stale r.provider_updated_at v.at ≡ true = (rw (← a) stale) in
          rw (own, stale, stale_) (p, u, f, h, g, a, b)
      | inr new ↦
          let new_ : is_stale r.provider_updated_at v.at ≡ false = (rw (← a) new) in
          let p' = reported_profile r p in
          rw (own, new, new_, g)
            (
              p',
              record u { status = r.status },
              find_session-put session_id user_id p p' s.profiles f h,
              h,
              get-put_self user_id (record u { status = r.status }) s.users,
              refl,
              refl,
            )
    ]

apply_provider_status-Holds :
    (session_id user_id : ℕ) (v : Register) (r : ProviderReport) (s : KycStore)
    → Concerns session_id user_id r
    → Holds session_id user_id v s
    → Holds session_id user_id (take v r) (apply_provider_status r s).1
unfolding apply_provider_status
apply_provider_status-Holds session_id user_id v r s (i, own) (p, u, f, h, g, a, b) =
    let found : find_session r.session_id s.profiles ≡ some (user_id, p) =
      (ap (λ n. find_session n s.profiles) i ∙ f) in
    rw found (found-Holds session_id user_id v r s p u own f h g a b)

report_all-Holds :
    (session_id user_id : ℕ) (v : Register) (rs : List ProviderReport) (s : KycStore)
    → All (Concerns session_id user_id) rs
    → Holds session_id user_id v s
    → Holds session_id user_id (take_all v rs) (report_all rs s)
report_all-Holds session_id user_id v [] s c h = h
report_all-Holds session_id user_id v (r ∷ rs) s c h =
    report_all-Holds session_id user_id (take v r) rs (apply_provider_status r s).1 c.1
      (apply_provider_status-Holds session_id user_id v r s c.0 h)

-- The register's time is at that time or later.
abbrev pub IsAtLeast : Option ℕ → ℕ → Type 0
IsAtLeast none at = ⊥
IsAtLeast (some last) at = at ≤ last

-- The report is no later than what the register has.
abbrev pub IsCovered : Register → ProviderReport → Type 0
IsCovered w r = IsAtLeast w.at r.provider_updated_at

-- A register that had a time has no earlier one.
abbrev pub IsNoEarlier : Option ℕ → Option ℕ → Type 0
IsNoEarlier none later = Unit
IsNoEarlier (some at) later = IsAtLeast later at

take_covers : (v : Register) (r q : ProviderReport) → IsCovered v q → IsCovered (take v r) q
take_covers v r q h = ground arith

take_self : (v : Register) (r : ProviderReport) → IsCovered (take v r) r
take_self v r = ground arith

take_all_covers :
    (v : Register) (rs : List ProviderReport) (q : ProviderReport)
    → IsCovered v q
    → IsCovered (take_all v rs) q
take_all_covers v [] q h = h
take_all_covers v (r ∷ rs) q h = take_all_covers (take v r) rs q (take_covers v r q h)

take_all_latest : (v : Register) (rs : List ProviderReport) → All (IsCovered (take_all v rs)) rs
take_all_latest v [] = tt
take_all_latest v (r ∷ rs) =
    (take_all_covers (take v r) rs r (take_self v r), take_all_latest (take v r) rs)

take_keeps :
    (v : Register) (r : ProviderReport) (at : ℕ) → IsAtLeast v.at at → IsAtLeast (take v r).at at
take_keeps v r at h = ground arith

take_all_keeps :
    (v : Register) (rs : List ProviderReport) (at : ℕ)
    → IsAtLeast v.at at
    → IsAtLeast (take_all v rs).at at
take_all_keeps v [] at h = h
take_all_keeps v (r ∷ rs) at h = take_all_keeps (take v r) rs at (take_keeps v r at h)

take_all_later :
    (v : Register) (rs : List ProviderReport) (o : Option ℕ)
    → v.at ≡ o
    → IsNoEarlier o (take_all v rs).at
take_all_later v rs none e = tt
take_all_later v rs (some at) e = take_all_keeps v rs at (rw e (ground arith))

take_stale :
    (v : Register) (r : ProviderReport) → is_stale r.provider_updated_at v.at ≡ true → take v r ≡ v
take_stale v r h = rw h refl

take_new :
    (v : Register) (r : ProviderReport)
    → is_stale r.provider_updated_at v.at ≡ false
    → take v r ≡ of_report r
take_new v r h = rw h refl

take_all_of :
    (v : Register) (rs : List ProviderReport)
    → (take_all v rs ≡ v) ⊎ ((r : ProviderReport) × In r rs × (take_all v rs ≡ of_report r))
take_all_of v [] = inl refl
take_all_of v (r ∷ rs) = elim (take_all_of (take v r) rs) [
  | inr (q, m, e) ↦ inr (q, inr m, e)
  | inl e ↦ elim (Bool-cases (is_stale r.provider_updated_at v.at)) [
    | inl stale ↦ inl (e ∙ take_stale v r stale)
    | inr new ↦ inr (r, inl refl, e ∙ take_new v r new)
  ]
]

-- Of reports on a user's session that name no other user, in whatever order they come, the latest one is
-- what the user's status and the time of the last report say in the end: that time is no earlier than
-- the time of any of the reports and than the time from before, and the two are those of one of the
-- reports, or those from before.
pub report_all_latest :
    (session_id user_id : ℕ) (v : Register) (rs : List ProviderReport) (s : KycStore)
    → Holds session_id user_id v s
    → All (Concerns session_id user_id) rs
    → (w : Register) × Holds session_id user_id w (report_all rs s)
      × All (IsCovered w) rs
      × IsNoEarlier v.at w.at
      × ((w ≡ v) ⊎ ((r : ProviderReport) × In r rs × (w ≡ of_report r)))
report_all_latest session_id user_id v rs s h c = (
  take_all v rs,
  report_all-Holds session_id user_id v rs s c h,
  take_all_latest v rs,
  take_all_later v rs v.at refl,
  take_all_of v rs,
)
