-- ===== src/Topup/Retries.antt =====
-- The time to retry that a purchase limit of apps/api/src/topup/fraud-policy.ts gives.
use ticash.Prelude.{
  ℕ, ◌⊎◌, ◌+◌, ◌≤◌, ◌<◌, ◌≡◌, refl, arith, max, true, false, not, ◌&&◌, some, List, [], ◌∷◌, ltb,
  ok, err, inl, inr, lt→ltb, Bool-cases, Option-cases,
}
use mathlib.Core.Path.{subst, sym, ◌∙◌}
use ticash.Prelude.Lists.{length, find, In, find-some, find-none, All-In}
use ticash.Topup.Errors.{MobileTopUpError, PurchaseAccess}
use ticash.Topup.PurchaseLimits.{
  PurchaseHistory, day_ms, day_of, attempts_of, hour_of, charged, failed_of, over_limits, blocked,
  window_ends, insert, sort, retry_at, access_of, assert_purchase_limits,
}

-- The end of the last day window.
latest : List PurchaseHistory → ℕ
latest [] = 0
latest (r ∷ rs) = max (r.created_at + day_ms + 1) (latest rs)

latest-In :
    (history : List PurchaseHistory)
    → 0 < latest history
    → In (latest history) (window_ends history)
unfolding latest
latest-In [] h = ground arith
latest-In (r ∷ rs) h = ground (arith, latest-In rs)

day_of-empty :
    (history : List PurchaseHistory) (at : ℕ) → latest history ≤ at → day_of at history ≡ []
unfolding latest
day_of-empty [] at h = refl
day_of-empty (r ∷ rs) at h = ground (arith, day_of-empty rs at)

insert-In : (x y : ℕ) (ys : List ℕ) → (x ≡ y) ⊎ In y ys → In y (insert x ys)
insert-In x y [] h = ground arith
insert-In x y (z ∷ zs) h = ground (arith, insert-In x y zs)

sort-In : (y : ℕ) (xs : List ℕ) → In y xs → In y (sort xs)
sort-In y [] m = absurd m
sort-In y (x ∷ xs) (inl e) = insert-In x y (sort xs) (inl e)
sort-In y (x ∷ xs) (inr m) = insert-In x y (sort xs) (inr (sort-In y xs m))

-- With an empty day a purchase of at most $100 passes.
blocked-empty :
    (amount : ℕ) (history : List PurchaseHistory) (at : ℕ)
    → amount ≤ 10000
    → day_of at history ≡ []
    → blocked amount history at ≡ false
unfolding over_limits
blocked-empty amount history at small h =
    subst (λ day. over_limits amount at day ≡ false) (sym h) (ground arith)

module _ (t t' : ℕ) (h : t ≤ t') where
  charged_mono :
      (history : List PurchaseHistory) → charged (day_of t' history) ≤ charged (day_of t history)
  charged_mono [] = omega arith
  charged_mono (r ∷ rs) = ground (arith, charged_mono rs)

  attempts_mono :
      (history : List PurchaseHistory)
      → length (attempts_of (day_of t' history)) ≤ length (attempts_of (day_of t history))
  attempts_mono [] = omega arith
  attempts_mono (r ∷ rs) = ground (arith, attempts_mono rs)

  hour_mono :
      (history : List PurchaseHistory)
      → length (hour_of t' (day_of t' history)) ≤ length (hour_of t (day_of t history))
  hour_mono [] = omega arith
  hour_mono (r ∷ rs) = ground (arith, hour_mono rs)

  failed_mono :
      (history : List PurchaseHistory)
      → length (failed_of (hour_of t' (day_of t' history)))
        ≤ length (failed_of (hour_of t (day_of t history)))
  failed_mono [] = omega arith
  failed_mono (r ∷ rs) = ground (arith, failed_mono rs)

-- A purchase that would pass at some time passes at any later one.
blocked_later :
    (amount : ℕ) (history : List PurchaseHistory) (t t' : ℕ)
    → t ≤ t'
    → blocked amount history t ≡ false
    → blocked amount history t' ≡ false
unfolding over_limits
blocked_later amount history t t' h b =
    let c = charged_mono t t' h history in
    let a = attempts_mono t t' h history in
    let o = hour_mono t t' h history in let f = failed_mono t t' h history in ground arith

retry_at-some :
    (amount : ℕ) (history : List PurchaseHistory) (now : ℕ) {t : ℕ}
    → retry_at amount history now ≡ some t
    → (now < t) × (blocked amount history t ≡ false)
unfolding retry_at
retry_at-some amount history now {t} h = elim (Bool-cases (ltb 10000 amount)) [
  | inl large ↦ absurd (let e = rw large at h in cc)
  | inr small ↦
      let passes = λ (at : ℕ). ltb now at && not (blocked amount history at) in
      let found = (find-some passes (sort (window_ends history)) (rw small at h)).1 in
      (ground arith, ground arith)
]

retry_at-exists :
    (amount : ℕ) (history : List PurchaseHistory) (now : ℕ)
    → amount ≤ 10000
    → blocked amount history now ≡ true
    → (t : ℕ) × (retry_at amount history now ≡ some t)
unfolding retry_at
retry_at-exists amount history now small b =
    let passes = λ (at : ℕ). ltb now at && not (blocked amount history at) in
    let in_grid : ltb 10000 amount ≡ false = (ground arith) in
    let later : now < latest history = (not_empty (Bool-cases (ltb now (latest history)))) in
    let last =
      sort-In (latest history) (window_ends history) (latest-In history (omega (arith, later))) in
    elim (Option-cases (find passes (sort (window_ends history)))) [
      | inl never ↦
          let fails =
            All-In (λ x. passes x ≡ false) (sort (window_ends history))
              (find-none passes (sort (window_ends history)) never) last in
          let free =
            blocked-empty amount history (latest history) small
              (day_of-empty history (latest history) (omega arith)) in
          absurd (let k = rw (lt→ltb now (latest history) later, free) at fails in cc)
      | inr (t, e) ↦ (t, rw in_grid e)
    ]
  where
    not_empty :
        (ltb now (latest history) ≡ true) ⊎ (ltb now (latest history) ≡ false)
        → now < latest history
    not_empty (inl e) = ground arith
    not_empty (inr e) =
        let free =
          blocked-empty amount history now small (day_of-empty history now (ground arith)) in
        absurd (let k = sym b ∙ free in cc)

-- Whoever is refused a purchase of at most $100 is told a later time to retry, and at that time and at
-- every time after it, by any delay, the purchase passes, where nothing else was bought.
pub assert_purchase_limits_retry :
    (amount : ℕ) (history : List PurchaseHistory) (now delay : ℕ) {e : MobileTopUpError}
    → amount ≤ 10000
    → assert_purchase_limits amount history now ≡ err e
    → (access : PurchaseAccess) × (t : ℕ) × (e.purchase_access ≡ some access)
      × (access.retry_at ≡ some t)
      × (now < t)
      × (assert_purchase_limits amount history (t + delay) ≡ ok tt)
unfolding assert_purchase_limits
assert_purchase_limits_retry amount history now delay {e} small h =
    elim (Bool-cases (blocked amount history now)) [
      | inl b ↦
          let (t, r) = retry_at-exists amount history now small b in
          let (after, free) = retry_at-some amount history now r in
          let stays = blocked_later amount history t (t + delay) (omega arith) free in
          (
            access_of now (some t),
            t,
            (let k = rw (b, r) at h in ground arith),
            refl,
            after,
            rw stays refl,
          )
      | inr free ↦ absurd (let k = rw free at h in cc)
    ]
