-- ===== src/Security/Logins.antt =====
-- `MemoryLoginProtector` of apps/api/src/security.ts. Identities are numbers and times milliseconds; the
-- clock is the argument `now`.
use ticash.Prelude.{
  ℕ, ◌+◌, ◌*◌, Bool, false, not, ◌&&◌, Option, none, some, List, [], ◌∷◌, ◌==◌, ltb, leb,
  if◌then◌else◌, ok, err, Result,
}
use ticash.Prelude.Maps.{Map, get, put, delete}

pub record LoginAttemptState : Type 0 where
  pub failed_count : ℕ
  pub locked_until : Option ℕ

pub data SecurityError : Type 0 where
  account_temporarily_locked per_transaction_limit_exceeded daily_limit_exceeded : SecurityError
  weekly_limit_exceeded monthly_limit_exceeded : SecurityError

-- `state?.lockedUntil && state.lockedUntil > now`
abbrev pub is_locked : ℕ → Option LoginAttemptState → Bool
is_locked now none = false
is_locked now (some state) = elim state.locked_until [
  | none ↦ false
  | some until ↦ not (until == 0) && ltb now until
]

-- `current?.lockedUntil && current.lockedUntil <= now ? 0 : current?.failedCount ?? 0`
abbrev pub counted : ℕ → Option LoginAttemptState → ℕ
counted now none = 0
counted now (some state) = elim state.locked_until [
  | none ↦ state.failed_count
  | some until ↦ if not (until == 0) && leb until now then 0 else state.failed_count
]

abbrev pub Protector : Type 0
Protector = Map LoginAttemptState

-- `loginMaxFailures` and `loginLockMinutes` of the configuration.
module _ (max_failures lock_minutes : ℕ) where
  unfoldable pub assert_allowed : ℕ → ℕ → Protector → Result SecurityError (Unit {0})
  assert_allowed now identity states =
      if is_locked now (get identity states) then err account_temporarily_locked else ok tt

  abbrev pub failure_state : ℕ → ℕ → LoginAttemptState
  failure_state now failed_count = record {
    failed_count = failed_count;
    locked_until =
        if leb max_failures failed_count then some (now + lock_minutes * 60000) else none;
  }

  unfoldable pub record_failure : ℕ → ℕ → Protector → LoginAttemptState × Protector
  record_failure now identity states =
      let state = failure_state now (counted now (get identity states) + 1) in
      (state, put identity state states)

  unfoldable pub clear : ℕ → Protector → Protector
  clear identity states = delete identity states

  -- Failures at these times, one after another.
  abbrev pub record_failures : List ℕ → ℕ → Protector → Protector
  record_failures [] identity states = states
  record_failures (now ∷ rest) identity states =
      record_failures rest identity (record_failure now identity states).1
