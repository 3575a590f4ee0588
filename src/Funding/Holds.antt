-- ===== src/Funding/Holds.antt =====
-- The amounts that transfers hold from the wallets of apps/api/src/funding/repository.ts: what the calls of
-- `reserveWalletForTransfer` and `releaseWalletForTransfer` add up to, told from the calls alone.
use ticash.Prelude.{ℕ, ◌≡◌, Bool, false, not, ◌&&◌, ◌||◌, List, [], ◌∷◌, ◌==◌, if◌then◌else◌}
use ticash.Prelude.Int.{ℤ, pos, ◌+ℤ◌, ◌-ℤ◌}
use ticash.Funding.Types.{Reference, reserve_reference, release_reference, has_reference}

-- A call that returned, with its user, transfer and amount.
pub data WalletCall : Type 0 where
  reserved_call released_call : (user_id transfer_id amount : ℕ) → WalletCall

-- The latest call comes first.
abbrev pub was_reserved : ℕ → List WalletCall → Bool
was_reserved i [] = false
was_reserved i (reserved_call u j a ∷ log) = j == i || was_reserved i log
was_reserved i (released_call u j a ∷ log) = was_reserved i log

-- A release takes effect after a reservation only.
abbrev pub was_released : ℕ → List WalletCall → Bool
was_released i [] = false
was_released i (reserved_call u j a ∷ log) = was_released i log
was_released i (released_call u j a ∷ log) = j == i && was_reserved i log || was_released i log

-- What is held from the user's wallet: each transfer's first reservation, less its first release.
abbrev pub held : ℕ → List WalletCall → ℤ
held user_id [] = pos 0
held user_id (reserved_call u j a ∷ log) =
    let rest = held user_id log in
    if user_id == u && not (was_reserved j log) then rest +ℤ pos a else rest
held user_id (released_call u j a ∷ log) =
    let rest = held user_id log in
    if user_id == u && was_reserved j log && not (was_released j log) then rest -ℤ pos a else rest

-- The ledger shows the reservations and releases of the calls.
pub record IsTracked (log : List WalletCall) (refs : List Reference) : Type 0 where
  pub reserves : (i : ℕ) → has_reference refs (reserve_reference i) ≡ was_reserved i log
  pub releases : (i : ℕ) → has_reference refs (release_reference i) ≡ was_released i log
