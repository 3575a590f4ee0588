-- ===== src/Kyc/Exclusion.antt =====
-- Profiles of apps/api/src/kyc/repository.ts that share no session.

use ticash.Prelude.{
  ℕ, ◌≡◌, ◌≢◌, inl, inr, arith, true, false, none, some, [], ◌∷◌, ◌==◌, Bool-cases,
}
use mathlib.Core.Path.{sym, ◌∙◌}
use ticash.Prelude.Maps.{Map, get, put, get-put, IsAbsent, IsDistinct}
use ticash.Kyc.Types.{MemoryProfile, KycStore}
use ticash.Kyc.Profiles.{is_session, find_session, find_owner}

-- No two users hold one session, and the profiles are a map.
abbrev pub Exclusive : Map MemoryProfile → Type 0
Exclusive m =
    (i j session_id : ℕ) (p q : MemoryProfile)
    → get i m ≡ some p
    → get j m ≡ some q
    → is_session p.didit_session_id session_id ≡ true
    → is_session q.didit_session_id session_id ≡ true
    → i ≡ j

abbrev pub IsExclusive : KycStore → Type 0
IsExclusive s = IsDistinct s.profiles × Exclusive s.profiles

pub find_owner-none :
    (user_id session_id k : ℕ) (m : Map MemoryProfile) {p : MemoryProfile}
    → find_owner user_id session_id m ≡ none
    → get k m ≡ some p
    → k ≢ user_id
    → is_session p.didit_session_id session_id ≡ false
find_owner-none user_id session_id k [] f g h = absurd (cc)
find_owner-none user_id session_id k ((j, x) ∷ m) {p} f g h =
    ground (arith, find_owner-none user_id session_id k m {p = p})

find_session-absent :
    (session_id j : ℕ) (m : Map MemoryProfile) {k : ℕ} {p : MemoryProfile}
    → IsAbsent j m
    → find_session session_id m ≡ some (k, p)
    → k ≢ j
find_session-absent session_id j [] a f = absurd (cc)
find_session-absent session_id j ((i, x) ∷ m) {k} {p} a f =
    ground (arith, find_session-absent session_id j m {k = k} {p = p})

-- What is found stands in the map, and has the session.
pub find_session-get :
    (session_id : ℕ) (m : Map MemoryProfile) {k : ℕ} {p : MemoryProfile}
    → IsDistinct m
    → find_session session_id m ≡ some (k, p)
    → get k m ≡ some p
find_session-get session_id [] d f = absurd (cc)
find_session-get session_id ((i, x) ∷ m) {k} {p} d f = ground (
  arith,
  find_session-get session_id m {k = k} {p = p},
  find_session-absent session_id i m {k = k} {p = p},
)

-- A profile that takes a session which no other user holds, or keeps the one that it has.
pub put-Exclusive :
    (k : ℕ) (p : MemoryProfile) (m : Map MemoryProfile)
    → ((j session_id : ℕ) (q : MemoryProfile)
        → get j m ≡ some q
        → is_session q.didit_session_id session_id ≡ true
        → is_session p.didit_session_id session_id ≡ true
        → j ≡ k)
    → Exclusive m
    → Exclusive (put k p m)
put-Exclusive k p m other e i j session_id x y gi gj hx hy =
    let pi = sym (get-put i k p m) ∙ gi in
    let pj = sym (get-put j k p m) ∙ gj in
    elim (Bool-cases (i == k)) [
      | inl ik ↦ elim (Bool-cases (j == k)) [
        | inl jk ↦ ground arith
        | inr jk ↦
            let ex : p ≡ x = (ground (arith, rw ik at pi)) in
            let ji = other j session_id y (rw jk at pj) hy (rw ex hx) in ground arith
      ]
      | inr ik ↦ elim (Bool-cases (j == k)) [
        | inl jk ↦
            let ey : p ≡ y = (ground (arith, rw jk at pj)) in
            let ij = other i session_id x (rw ik at pi) hx (rw ey hy) in ground arith
        | inr jk ↦ e i j session_id x y (rw ik at pi) (rw jk at pj) hx hy
      ]
    ]
