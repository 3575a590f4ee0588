-- ===== src/Topup/Service/Orders.antt =====
-- An order of a recharge at the provider follows its claim (apps/api/src/topup/service.ts).
use ticash.Prelude.{
  ℕ, ◌≡◌, inl, inr, refl, arith, true, false, not, ◌&&◌, Option, none, some, ◌==◌, Option-cases,
  Bool-cases,
}
use mathlib.Core.Path.{subst, ◌∙◌}
use ticash.Prelude.Maps.{get, put, get-put_self}
use ticash.Prelude.Keeps.{
  Leads, Keeps, pure-Keeps, throw-Keeps, or_raise-Keeps, when-Keeps, bind_leads, bind_keeps,
  attempt_leads,
}
use ticash.Topup.Errors.{Outcome, MobileTopUpError}
use ticash.Topup.Repository.Types.{Transaction, has_value}
use ticash.Topup.Repository.Claims.{claim_operation, fulfillment, may_start, start}
use ticash.Topup.Service.Environment.{
  RechargeCall, checks_product, submits, RechargeState, RechargeEnv, ProviderTopUpResult, ask,
}
use ticash.Topup.Service.Fulfillment.{
  submit_order, submission_failed, use_recipient, after_order, submit_claimed, submit,
}
use ticash.Topup.Service.Frames.{
  put-Begun, IsStable, IsQuiet, EndedOnce, EndedOnce-IsStable, Begun, begun, endings, is_ending,
  repo-Keeps, ask-Keeps, audit-Keeps, update_transaction-KeepsBegun,
  update_recipient_last_used-KeepsBegun,
}
use ticash.Topup.Service.Endings.{recover_payment-Keeps, apply_provider_result-Keeps}

-- The recharge is claimed, and nothing was ordered or refunded yet.
abbrev pub Ready : ℕ → RechargeState → Type 0
Ready id s = (endings id s.calls ≡ 0) × Begun id s.store

Ready-IsStable : (id : ℕ) → IsStable id (Ready id)
Ready-IsStable id s s' e f (n, b) = (e ∙ n, f b)

Ready-once : (id : ℕ) (s : RechargeState) → Ready id s → EndedOnce id s
Ready-once id s (n, b) = inl n

-- The call ends the recharge `id` at most once from `P`.
abbrev pub EndsOnce : Type 0 → ℕ → (RechargeState → Type 0) → RechargeCall → Type 0
EndsOnce A id P c = (r : Outcome A) → Leads P (ask c r) (EndedOnce id)

pub Ready-ends :
    (A : Type 0) (id : ℕ) (c : RechargeCall) → is_ending id c ≡ 1 → EndsOnce A id (Ready id) c
Ready-ends A id c h r = record { run = λ s (n, b). inr (omega (arith, h, n), b) }

pub other_ends :
    (A : Type 0) (id : ℕ) (c : RechargeCall) → is_ending id c ≡ 0 → EndsOnce A id (EndedOnce id) c
other_ends A id c h r = ask-Keeps id (EndedOnce id) (EndedOnce-IsStable id) c r h

-- A record that is not begun is claimed.
pub claimed-Ready :
    (id j : ℕ) (t t' : Transaction) (s : RechargeState)
    → get j s.store.transactions ≡ some t
    → begun t ≡ false
    → begun t' ≡ true
    → (j == id) ≡ true
    → EndedOnce id s
    → Ready id
        (record s { store = record s.store { transactions = put j t' s.store.transactions } })
claimed-Ready id j t t' s found new done same once =
    let i : j ≡ id = (ground arith) in
    let claimed =
      subst (λ k. get k (put j t' s.store.transactions) ≡ some t') i
        (get-put_self j t' s.store.transactions) in
    elim once [
      | inl n ↦ (n, (t', claimed, done))
      | inr (n, (u, g, b)) ↦
          let g2 : get j s.store.transactions ≡ some u = (rw i g) in absurd (ground arith)
    ]

module _ (id : ℕ) (env : RechargeEnv) (quiet : IsQuiet env) (now : ℕ) where
  submission_failed-Keeps :
      (j : ℕ) (t : Transaction) (e : MobileTopUpError)
      → Keeps (EndedOnce id) (submission_failed env now j t e)
  submission_failed-Keeps j t e =
      let stable = EndedOnce-IsStable id in
      search
        (
          bind_leads,
          when-Keeps,
          pure-Keeps,
          throw-Keeps,
          update_transaction-KeepsBegun,
          repo-Keeps id (EndedOnce id) stable,
          audit-Keeps id (EndedOnce id) stable,
          recover_payment-Keeps id (EndedOnce id) stable env quiet,
        )
        depth 16

  use_recipient-Keeps :
      (j : ℕ) (t : Transaction) (x : Option ℕ) → Keeps (EndedOnce id) (use_recipient env now j t x)
  use_recipient-Keeps j t none = pure-Keeps _ _
  use_recipient-Keeps j t (some x) =
      repo-Keeps id (EndedOnce id) (EndedOnce-IsStable id) _
        (update_recipient_last_used-KeepsBegun now t.user_id x t.product_id t.product_name)

  submit_order_leads :
      (P : RechargeState → Type 0) (j : ℕ) (t : Transaction)
      → IsStable id P
      → ((s : RechargeState) → P s → EndedOnce id s)
      → EndsOnce ProviderTopUpResult id P (submits j)
      → Leads P (submit_order env now j t) (EndedOnce id)
  submit_order_leads P j t stable weak ends =
      bind_keeps weak
        (ask-Keeps id P stable (checks_product j) (env.revalidate_quote_product t) refl)
        (λ _. ends (env.submit_top_up t))

  -- What follows an order.
  submitted-Keeps :
      (j : ℕ) (t : Transaction) (r : ProviderTopUpResult)
      → Keeps (EndedOnce id) (after_order env now j t r)
  submitted-Keeps j t r =
      let stable = EndedOnce-IsStable id in
      search
        (
          bind_leads,
          pure-Keeps,
          or_raise-Keeps,
          use_recipient-Keeps,
          audit-Keeps id (EndedOnce id) stable,
          apply_provider_result-Keeps id (EndedOnce id) stable env quiet,
        )
        depth 16

  submit_claimed_leads :
      (P : RechargeState → Type 0) (j : ℕ) (t : Transaction)
      → IsStable id P
      → ((s : RechargeState) → P s → EndedOnce id s)
      → EndsOnce ProviderTopUpResult id P (submits j)
      → Leads P (submit_claimed env now j t) (EndedOnce id)
  submit_claimed_leads P j t stable weak ends =
      let order = submit_order_leads P j t stable weak ends in
      bind_keeps weak (audit-Keeps id P stable env _ j) (λ _.
        bind_leads (attempt_leads order (submission_failed-Keeps j t)) (λ r. submitted-Keeps j t r))

  pub submit-Keeps : (j : ℕ) (t : Transaction) → Keeps (EndedOnce id) (submit env now j t)
  unfolding claim_operation
  submit-Keeps j t = record {
    run = λ s once. elim (Option-cases (get j s.store.transactions)) [
      | inl missing ↦ rw missing once
      | inr (t0, found) ↦
          let may = not (has_value t0.fulfillment_started_at) && may_start fulfillment t0 in
          let t1 = record (start fulfillment now t0) { updated_at = now } in
          let s' = record s {
            store = record s.store { transactions = put j t1 s.store.transactions };
          } in
          elim (Bool-cases may) [
            | inr refused ↦ rw (found, refused) once
            | inl passed ↦ elim (Bool-cases (j == id)) [
              | inl same ↦
                  rw (found, passed)
                    ((submit_claimed_leads (Ready id) j t (Ready-IsStable id) (Ready-once id)
                        (Ready-ends _ id (submits j) (rw same refl))).run
                      s' (claimed-Ready id j t0 t1 s found (ground arith) refl same once))
              | inr other ↦
                  rw (found, passed)
                    ((submit_claimed_leads (EndedOnce id) j t (EndedOnce-IsStable id) (λ s p. p)
                        (other_ends _ id (submits j) (rw other refl))).run
                      s'
                      (EndedOnce-IsStable id s s' refl
                        (put-Begun id j t0 t1 s.store s'.store found (λ b. refl) refl) once))
            ]
          ]
    ];
  }
