-- ===== src/Prelude/Doubles.antt =====
-- JavaScript's doubles where the source multiplies and divides whole numbers of cents
-- (`storeCommission` of apps/api/src/flupflap/store-policy.ts, `promoterRewardCents` of
-- marketing-policy.ts): from 2 ^ 53 on, a result is rounded to 53 binary digits, a half to even.
use Prim.Native.Nat.{ℕ, zero, suc, ◌+◌, ◌*◌, ◌/◌, ◌%◌, ◌≤◌}
use mathlib.Core.Path.{◌≡◌, refl}
use mathlib.Core.Bool.{◌&&◌, ◌||◌}
use native.Mathlib.Omega.{arith}
use ticash.Prelude.Tests.{ltb, ◌==◌, if◌then◌else◌, lt→ltb}

-- `n / d` to the nearest whole number, a half to the even one.
abbrev round_half_even : ℕ → ℕ → ℕ
round_half_even n d =
    let q = n / d in
    let twice = 2 * (n % d) in if ltb d twice || ((twice == d) && (q % 2 == 1)) then q + 1 else q

-- `n / d` to a multiple of the least power of two that leaves at most 53 binary digits; each turn halves
-- what is left, so 64 turns are enough below 2 ^ 117.
abbrev coarse : ℕ → ℕ → ℕ → ℕ
coarse zero n d = round_half_even n d
coarse (suc fuel) n d =
    let rest = 2 * coarse fuel n (2 * d) in
    if ltb n (9007199254740992 * d) then round_half_even n d else rest

-- A whole number as a double.
unfoldable pub double : ℕ → ℕ
double n = if ltb n 9007199254740992 then n else coarse 64 n 1

-- The whole part of `n / d` at 53 binary digits, `scale` being what `n` was multiplied with. A value from
-- 2 ^ 53 on needs fewer than 53 doublings for any `d` below 2 ^ 53.
abbrev fine : ℕ → ℕ → ℕ → ℕ → ℕ
fine zero n d scale = round_half_even n d / scale
fine (suc fuel) n d scale =
    let rest = fine fuel (2 * n) d (2 * scale) in
    if ltb (2 * n) (9007199254740992 * d) then rest else round_half_even n d / scale

-- `Math.floor(n / d)` for a double `n` and a `d` of at most 10000: below 2 ^ 53 the quotient is rounded by
-- less than the `1 / d` that is between it and the next whole number.
unfoldable pub floor_quotient : ℕ → ℕ → ℕ
floor_quotient n d = if ltb n 9007199254740992 then n / d else fine 53 n d 1

pub double-small : (n : ℕ) → n ≤ 9007199254740991 → double n ≡ n
unfolding double
double-small n h = rw (lt→ltb n 9007199254740992 (omega (arith, h))) refl

pub floor_quotient-small : (n d : ℕ) → n ≤ 9007199254740991 → floor_quotient n d ≡ n / d
unfolding floor_quotient
floor_quotient-small n d h = rw (lt→ltb n 9007199254740992 (omega (arith, h))) refl
