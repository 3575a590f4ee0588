-- ===== src/Lib.antt =====
-- The core of Ticash and FlupFlap, the API under apps/api/src: money that is held for users and stores,
-- and the prices of mobile recharges.
--
-- How the parts interact: an HTTP application (app.ts and the routers) calls services; a service calls
-- outside providers and a repository, which keeps the records. A recharge has a price (topup), is paid
-- by card or from a store's balance (flupflap), and a user's wallet is funded from a bank (funding).
--
-- The files:
-- - Prelude: booleans, lists, maps, signed integers, results, stateful actions and their Hoare triples,
--   and the rounding of doubles (Doubles).
-- - Topup: apps/api/src/topup. Topup/FeeGrid models recharge-fee-grid.ts, function by function under its
--   name (`flupFlapRechargePrice` is `flup_flap_recharge_price`); Topup/FeeGrid/Laws proves what the
--   prices are, for amounts in units of 10^-8 dollars. Topup/PurchaseLimits and Evidence model
--   fraud-policy.ts, with proofs in Retries and Reviews; Topup/Identity models provider-identity.ts, with
--   proofs in RoundTrips.
--   Topup/Repository models `MemoryMobileTopUpRepository` (repository.ts): Types has its records, Quotes
--   the quotes and reservations, Claims the claims, Updates the updates of transactions and the ledger,
--   PaymentEvents the payment events and the recipients; the proofs are in Exclusion and Submissions.
--   Topup/Service models the methods of `MobileTopUpService` (service.ts) that carry out a paid recharge:
--   Environment has its parameters and the calls that it makes (`RechargeState` is the store and these
--   calls), Recovery `recoverPayment`, Results `applyProviderResult`, SecurityRefunds
--   `refundConfirmedSecurityFailure`, Fulfillment `fulfillPaidRecharge` and `reviewHeldRecharge`.
--   Frames, Endings, Orders, Releases and Sessions are about what is ordered and refunded, Loops about the
--   loop of `recoverPayment`.
--   Topup/Notifications models receiver-notification.ts, with proofs in Topup/Messages; an amount of a
--   receiver is whole units of 10^-8.
-- - Funding: apps/api/src/funding/repository.ts. `MemoryFundingRepository` and the maps it shares are the
--   record `FundingStore`; a method is a function from the store to a result and the next store, in
--   Funding/Repository (customers, sources, transactions), Funding/Settlement (`applyProviderStatus` and
--   the wallets) and Funding/Webhooks. Funding/Conservation, Holds, Reports, HeldAmounts, OtherCalls and
--   Wallets prove what the wallets hold, Funding/Laws and Limits the single calls, Funding/Events the
--   webhook events.
--   `FundingService` of apps/api/src/funding/service.ts works on that store and on the list of the calls
--   that it made (`ServiceState` of Funding/Provider); its methods are in Funding/Sources (customers and
--   bank accounts), Verification (micro-deposits, defaults, removal), Requests (fundings) and Notices
--   (webhooks). The provider, the audit writer, the listener on status changes (app.ts gives it), the hash
--   and the parsing of addresses are the parameter `FundingEnv`. Funding/Sending, Frames, SourceCalls,
--   SingleSends, Initiations and Sessions are about what is sent to the provider, Deliveries about webhook
--   events that come again.
-- - Stores: apps/api/src/flupflap/stores.ts and store-policy.ts over the tables of schema.prisma. The
--   record `Database` of Stores/Types has the tables; Stores/Ledger has the private steps (`atomic`,
--   `lock`, `movement`, `journal`), Stores/Applications, Deposits and Orders the operations. Stores/Books
--   says what the books must be; Postings, Settlements, Sellers, Authorizations, Reviews, Returns and
--   Openings prove what each operation does to them, Stores/History combines them over sequences of
--   calls, Stores/Once is about a settlement that is called again, and Stores/Payouts
--   about what a settlement pays.
-- - Marketing: apps/api/src/flupflap/marketing-policy.ts, the functions in Marketing/Policy, with proofs in
--   Prices and Rewards.
-- - Security: `MemoryLoginProtector` (Security/Logins, Lockouts) and `enforceTransactionLimits`
--   (Security/Transfers, Limits) of apps/api/src/security.ts.
-- - Fx: `consumeQuote` of apps/api/src/fx/service.ts over the memory repository (Fx/Quotes, Once).
-- - Kyc: apps/api/src/kyc/service.ts over the memory repository (repository.ts) and the users that app.ts
--   gives it: Kyc/Types, Profiles (the repository) and Service. Kyc/Reports is about the order of the
--   provider's reports, Exclusion, Ownership and Calls about the owners of sessions. Didit and the audit
--   writer are the parameter `KycEnv`.
-- - The Tests of each part (and Topup/Scenarios, Topup/MessageTests, Topup/Service/Tests,
--   Funding/ServiceTests): concrete runs, and the theorems at concrete inputs.
--
-- Representation: identifiers and texts that the code only copies and compares are natural numbers;
-- times are milliseconds; a new identifier and the clock are arguments. Money is whole cents, but for
-- the amounts of recharges before their prices are found and what receivers get, which are in units of
-- 10^-8. The code keeps dollars as doubles where it compares with a tolerance (the wallets, the limits
-- on transfers): the tolerance there takes up the rounding of amounts that are whole cents, and is less
-- than a cent, so that on whole cents the comparison is the exact one. An amount that a user enters for
-- a recharge has at most eight decimals, and the tolerance of 10^-7 cents tells whole cents from all
-- others of these. The rounding that a long sequence of sums of dollars could add up to beyond the
-- tolerance is not modelled.
--
-- A product of cents and basis points that may leave 2^53 is rounded as a double (Prelude/Doubles): 64
-- halvings are enough for the products of two safe integers, and 53 doublings for the quotients. Other
-- sums of cents stay far below 2^53. A store's balance is a column of 32 bits, which refuses a value
-- that does not fit.
--
-- A transaction of stores.ts is one step: it commits as a whole or leaves the state as it was. That
-- serializable transactions behave as if they ran one after another is the database's promise. The
-- journals of the test mode and the live ones have accounts of their own; what is said of an account's
-- total is said of both modes together, as of the stores' balances.
--
-- The models have no loops but recursion on lists, and the loop of `recoverPayment`, which repeats
-- while other calls change the payment between its read and its compare-and-set: these changes are a
-- list of the environment (`meanwhile`), arbitrary functions on the store, and the loop is recursion on
-- it. The other calls run one after another.
--
-- Not modelled: the HTTP layer, the clients of outside services, queries that change nothing, the zod
-- schemas (an operation takes the input that has passed them), the Prisma variants of the repositories,
-- the other methods of the service of recharges (quotes, purchases, payment events, the reconciliation
-- and cancellation), the check of a product against the provider's catalog, whose answer is a parameter,
-- and the creation of exchange quotes.
pub mod Funding
pub mod Fx
pub mod Kyc
pub mod Marketing
pub mod Prelude
pub mod Security
pub mod Stores
pub mod Topup
