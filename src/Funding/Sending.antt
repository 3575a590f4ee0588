-- ===== src/Funding/Sending.antt =====
-- What a funding request has sent to the provider of apps/api/src/funding/service.ts.
use ticash.Prelude.{
  ℕ, ◌+◌, ◌≡◌, ◌⊎◌, inl, inr, refl, arith, false, ◌&&◌, Option, none, some, List, [], ◌∷◌, ◌==◌,
  if◌then◌else◌, Option-cases, Bool-cases,
}
use mathlib.Core.Path.{ap}
use ticash.Prelude.Maps.{Map, get, put, values, get-put, get-put_self}
use ticash.Prelude.Lists.{find, In, All-In, find-none}
use ticash.Funding.Types.{
  FundingStatus, FundingError, FundingTransactionRecord, FundingStore, has_reference,
  settled_reference,
}
use ticash.Funding.Repository.{FundingRequest, is_replay, attach_provider_transfer}
use ticash.Funding.Settlement.{apply_provider_status, final_status}
use ticash.Funding.Conservation.{posted, posted-transactions}
use ticash.Funding.Provider.{Call, starts_transfer, ServiceState}

-- A transfer that was started for the user under the key.
abbrev pub is_send : ℕ → ℕ → Call → ℕ
is_send user_id key (starts_transfer t) =
    if t.user_id == user_id && t.idempotency_key == key then 1 else 0
is_send user_id key _ = 0

-- How often.
abbrev pub sends : ℕ → ℕ → List Call → ℕ
sends user_id key [] = 0
sends user_id key (c ∷ cs) = is_send user_id key c + sends user_id key cs

-- A funding of the user is recorded under the key.
abbrev pub Requested : ℕ → ℕ → FundingStore → Type 0
Requested user_id key s =
    (id : ℕ) × (t : FundingTransactionRecord) × (get id s.transactions ≡ some t)
    × (t.user_id ≡ user_id)
    × (t.idempotency_key ≡ key)

-- Nothing was sent under the key, or one transfer and the funding is recorded.
abbrev pub SentOnce : ℕ → ℕ → ServiceState → Type 0
SentOnce user_id key s =
    (sends user_id key s.calls ≡ 0)
    ⊎ ((sends user_id key s.calls ≡ 1) × Requested user_id key s.store)

get-In :
    (k : ℕ) (m : Map FundingTransactionRecord) {t : FundingTransactionRecord}
    → get k m ≡ some t
    → In t (values m)
get-In k [] h = absurd (cc)
get-In k ((j, x) ∷ m) {t} h = elim (Bool-cases (k == j)) [
  | inl here_ ↦ inl (ground arith)
  | inr other ↦ inr (get-In k m (rw other at h))
]

-- A request that finds no earlier one is the first under its key.
pub first-not-Requested :
    (input : FundingRequest) (s : FundingStore)
    → find (is_replay input) (values s.transactions) ≡ none
    → Requested input.user_id input.idempotency_key s
    → ⊥
first-not-Requested input s h (id, t, g, u, k) =
    let other =
      All-In (λ x. is_replay input x ≡ false) (values s.transactions) (find-none _ _ h)
        (get-In id s.transactions g) in
    ground arith

module _ (user_id key : ℕ) where
  -- A change of a record that keeps its user and key.
  pub Requested-put :
      (s : FundingStore) (id : ℕ) (t t' : FundingTransactionRecord)
      → get id s.transactions ≡ some t
      → t'.user_id ≡ t.user_id
      → t'.idempotency_key ≡ t.idempotency_key
      → Requested user_id key s
      → Requested user_id key (record s { transactions = put id t' s.transactions })
  Requested-put s id t t' g u k (id1, t1, g1, u1, k1) = elim (Bool-cases (id1 == id)) [
    | inl same ↦
        let e : id1 ≡ id = (ground arith) in
        let q : t1 ≡ t = (ground (arith, rw e at g1)) in
        (id, t', get-put_self id t' s.transactions, rw u (rw (← q) u1), rw k (rw (← q) k1))
    | inr other ↦ (id1, t1, rw (get-put id1 id t' s.transactions) (rw other g1), u1, k1)
  ]

  pub Requested-same :
      (s s' : FundingStore)
      → s'.transactions ≡ s.transactions
      → Requested user_id key s
      → Requested user_id key s'
  Requested-same s s' e (id, t, g, u, k) = (id, t, rw e g, u, k)

  pub apply_provider_status-Requested :
      (now id : ℕ) (status : FundingStatus) (failure : Option FundingError) (s : FundingStore)
      → Requested user_id key s
      → Requested user_id key (apply_provider_status now id status failure s).1
  unfolding apply_provider_status
  apply_provider_status-Requested now id status failure s r =
      elim (Option-cases (get id s.transactions)) [
        | inl missing ↦ rw (missing, apply_provider_status) r
        | inr (t, found) ↦
            rw (found, apply_provider_status)
              (let f =
                  final_status (has_reference s.ledger_references (settled_reference id)) t.status
                    status in
                let t' = record t { status = f; failure_code = failure; updated_at = now } in
                Requested-same (record s { transactions = put id t' s.transactions })
                  (record (posted id t f s) {
                    transactions = put id t' (posted id t f s).transactions;
                  })
                  (ap (put id t') (posted-transactions id t f s))
                  (Requested-put s id t t' found refl refl r))
      ]

  pub attach_provider_transfer-Requested :
      (now id transfer_id url : ℕ) (status : FundingStatus) (s : FundingStore)
      → Requested user_id key s
      → Requested user_id key (attach_provider_transfer now id transfer_id url status s).1
  unfolding attach_provider_transfer
  attach_provider_transfer-Requested now id transfer_id url status s r =
      elim (Option-cases (get id s.transactions)) [
        | inl missing ↦ rw (missing, attach_provider_transfer) r
        | inr (t, found) ↦
            rw (found, attach_provider_transfer) (Requested-put s id t _ found refl refl r)
      ]
