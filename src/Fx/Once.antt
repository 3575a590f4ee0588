-- ===== src/Fx/Once.antt =====
-- An exchange quote of apps/api/src/fx/service.ts is consumed once.
use ticash.Prelude.{ℕ, ◌≡◌, arith, true, false, some, ok, inl, inr, Bool-cases, Option-cases}
use mathlib.Core.Path.{ap, subst}
use ticash.Prelude.Maps.{get, put, get-put_self}
use ticash.Fx.Quotes.{FxStore, may_consume, consume}

-- A quote that was consumed is refused from then on, to every user and at every time, and the store
-- stays as it is.
pub consume_once :
    (id user_id user_id' now now' : ℕ) (s s' : FxStore)
    → consume id user_id now s ≡ (ok true, s')
    → consume id user_id' now' s' ≡ (ok false, s')
unfolding consume
consume_once id user_id user_id' now now' s s' h = elim (Option-cases (get id s)) [
  | inl missing ↦
      absurd (let k = rw missing at h in let b : false ≡ true = (ground (arith, k)) in cc)
  | inr (q, found) ↦
      let k = rw found at h in
      elim (Bool-cases (may_consume user_id now q)) [
        | inl passed ↦
            let k2 = rw passed at k in
            let used = record q { consumed_at = some now } in
            let after : put id used s ≡ s' = (ap (λ x. x.1) k2) in
            let stored : get id s' ≡ some used =
              (subst (λ (z : FxStore). get id z ≡ some used) after (get-put_self id used s)) in
            rw stored (ground arith)
        | inr other ↦
            absurd (let k2 = rw other at k in let b : false ≡ true = (ground (arith, k2)) in cc)
      ]
]
