-- ===== src/Security/Lockouts.antt =====
-- When the sign-in protection of apps/api/src/security.ts locks an identity, and for how long.
use ticash.Prelude.{
  ℕ, ◌+◌, ◌*◌, ◌<◌, ◌≡◌, refl, arith, true, false, none, some, List, [], ◌∷◌, ltb, leb,
  if◌then◌else◌, ok, err,
}
use ticash.Prelude.Lists.{length}
use ticash.Prelude.Maps.{get, get-put_self}
use ticash.Security.Logins.{
  account_temporarily_locked, Protector, assert_allowed, record_failure, record_failures,
  failure_state, counted,
}

module _ (max_failures lock_minutes : ℕ) where
  record_failures-counted :
      (times : List ℕ) (identity n : ℕ) (states : Protector)
      → n + length times < max_failures
      → ((now : ℕ) → counted now (get identity states) ≡ n)
      → (now : ℕ)
      → counted now (get identity (record_failures max_failures lock_minutes times identity states))
        ≡ n + length times
  unfolding record_failure
  record_failures-counted [] identity n states b h now = ground (arith, h now)
  record_failures-counted (t ∷ ts) identity n states b h now =
      let states' = (record_failure max_failures lock_minutes t identity states).1 in
      let stored : get identity states' ≡ some (failure_state max_failures lock_minutes t (n + 1)) =
        (rw (← h t) (get-put_self identity _ states)) in
      let open_ : leb max_failures (n + 1) ≡ false = (ground arith) in
      let ih =
        record_failures-counted ts identity (n + 1) states' (omega arith)
          (λ later. rw (stored, open_) refl) now in
      ground (arith, ih)

  -- After one failure less than the maximum, at whatever times, from an identity without failures, the next
  -- failure locks it: until the lock's time is over every sign-in is refused, and from then on allowed.
  pub record_failure_locks :
      (times : List ℕ) (now later identity : ℕ) (states : Protector)
      → get identity states ≡ none
      → length times + 1 ≡ max_failures
      → let before = record_failures max_failures lock_minutes times identity states in
        let locked = (record_failure max_failures lock_minutes now identity before).1 in
        assert_allowed max_failures lock_minutes later identity locked
        ≡ (if ltb later (now + lock_minutes * 60000) then err account_temporarily_locked else ok tt)
  unfolding record_failure assert_allowed
  record_failure_locks times now later identity states fresh b =
      let c =
        record_failures-counted times identity 0 states (omega arith) (λ now. rw fresh refl) now in
      let full : leb max_failures (
            counted now
              (get identity (record_failures max_failures lock_minutes times identity states))
            + 1)
          ≡ true =
        (ground (arith, c)) in
      rw (get-put_self identity _ _, full) (ground arith)
