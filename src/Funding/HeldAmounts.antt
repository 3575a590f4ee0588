-- ===== src/Funding/HeldAmounts.antt =====
-- `reserveWalletForTransfer` and `releaseWalletForTransfer` of apps/api/src/funding/repository.ts keep the
-- wallets and the ledger in agreement with what transfers hold.
use ticash.Prelude.{ℕ, ◌≡◌, refl, arith, ◌∷◌, inl, inr, List, not, ◌||◌, ok, Bool-cases}
use ticash.Prelude.Int.{pos, int_laws}
use ticash.Funding.Holds.{WalletCall, reserved_call, released_call}
use ticash.Funding.Types.{has_reference, reserve_reference, release_reference, FundingStore}
use ticash.Funding.Settlement.{
  wallet_balance, is_short, add_reference, reserve_wallet_for_transfer, release_wallet_for_transfer,
}
use ticash.Funding.Conservation.{wallet_balance-same, wallet_balance-credit, wallet_balance-debit}
use ticash.Funding.Reports.{IsLedgered}

pub reserve-IsLedgered :
    (log : List WalletCall) (u i a : ℕ) (s : FundingStore)
    → (reserve_wallet_for_transfer u i a s).0 ≡ ok tt
    → IsLedgered log s
    → IsLedgered (reserved_call u i a ∷ log) (reserve_wallet_for_transfer u i a s).1
unfolding reserve_wallet_for_transfer
reserve-IsLedgered log u i a s done v =
    let seen = v.tracked.reserves i in
    elim (Bool-cases (has_reference s.ledger_references (reserve_reference i))) [
      | inl old ↦ rw old (record {
        distinct = v.distinct;
        reversals_show = v.reversals_show;
        references_known = v.references_known;
        tracked = record {
          reserves = λ j. ground (arith, v.tracked.reserves j, seen);
          releases = v.tracked.releases;
        };
        balanced = λ w. ground (arith, seen, v.balanced w);
      })
      | inr new ↦ elim (Bool-cases (is_short (wallet_balance u s) a)) [
        | inl short ↦ absurd (let e = rw (new, short) at done in cc)
        | inr enough ↦
            rw (new, enough)
              (record {
                distinct = v.distinct;
                reversals_show = v.reversals_show;
                references_known = v.references_known;
                tracked = record {
                  reserves = λ j. ground (arith, v.tracked.reserves j);
                  releases = v.tracked.releases;
                };
                balanced = λ w.
                    let s0 = add_reference (reserve_reference i) s in
                    grind (
                      int_laws,
                      seen,
                      v.balanced w,
                      wallet_balance-debit w u (pos a) s0,
                      wallet_balance-same w s0 s refl,
                    );
              })
      ]
    ]

pub release-IsLedgered :
    (log : List WalletCall) (u i a : ℕ) (s : FundingStore)
    → IsLedgered log s
    → IsLedgered (released_call u i a ∷ log) (release_wallet_for_transfer u i a s).1
unfolding release_wallet_for_transfer
release-IsLedgered log u i a s v =
    let refs = s.ledger_references in
    let seen = v.tracked.reserves i in
    let gone = v.tracked.releases i in
    let skipped =
      not (has_reference refs (reserve_reference i)) || has_reference refs (release_reference i) in
    elim (Bool-cases skipped) [
      | inl k ↦ rw k (record {
        distinct = v.distinct;
        reversals_show = v.reversals_show;
        references_known = v.references_known;
        tracked = record {
          reserves = v.tracked.reserves;
          releases = λ j. ground (arith, v.tracked.releases j, v.tracked.reserves j, seen, gone);
        };
        balanced = λ w. ground (arith, seen, gone, v.balanced w);
      })
      | inr k ↦ rw k (record {
        distinct = v.distinct;
        reversals_show = v.reversals_show;
        references_known = v.references_known;
        tracked = record {
          reserves = v.tracked.reserves;
          releases = λ j. ground (arith, v.tracked.releases j, v.tracked.reserves j, seen, gone);
        };
        balanced = λ w.
            let s0 = add_reference (release_reference i) s in
            grind (
              int_laws,
              seen,
              gone,
              v.balanced w,
              wallet_balance-credit w u (pos a) s0,
              wallet_balance-same w s0 s refl,
            );
      })
    ]
