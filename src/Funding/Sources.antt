-- ===== src/Funding/Sources.antt =====
-- The customers and bank accounts of `FundingService` (apps/api/src/funding/service.ts). A method reads
-- the clock once, as `now`; `uuid` is the identifier that the repository draws.
use ticash.Prelude.{
  ℕ, ◌-◌, suc, zero, Bool, true, false, not, ◌&&◌, ◌||◌, Option, none, some, List, [], ◌∷◌, ◌==◌,
  if◌then◌else◌, map,
}
use ticash.Prelude.Lists.{length, find, any}
use ticash.Prelude.Actions.{pure, throw, or_raise, when, ◌>>=◌, ◌>>◌}
use ticash.Funding.Types.{
  FundingSourceStatus, unverified, verified, source_failed, removed, funding_source_not_found,
  funding_source_not_verifiable, dwolla_customer_required, FundingCustomerRecord,
  FundingSourceRecord,
}
use ticash.Funding.Repository.{
  get_customer, save_customer, list_sources, get_source, save_source, update_source,
  set_default_source,
}
use ticash.Funding.Provider.{
  FundingEnv, DwollaFundingProvider, DwollaCustomerInput, DwollaCustomer, DwollaFundingSource,
  BankInput, Service, repo, query, ask, require_provider, write_audit, asks_customer, asks_source,
  lists_sources, starts_deposits, customer_created, source_created, micro_deposits_initiated,
}

pub data PublicStatus : Type 0 where
  public_pending public_verified public_failed public_removed : PublicStatus

pub record PublicFundingSource : Type 0 where
  pub id : ℕ
  pub name : ℕ
  pub bank_name : Option ℕ
  pub last_four : List ℕ
  pub bank_account_type : ℕ
  pub status : PublicStatus
  pub is_default : Bool
  pub micro_deposits_initiated_at : Option ℕ
  pub verification_attempts : ℕ
  pub created_at : ℕ
  pub updated_at : ℕ

abbrev pub public_status : FundingSourceStatus → PublicStatus
public_status unverified = public_pending
public_status verified = public_verified
public_status source_failed = public_failed
public_status removed = public_removed

abbrev pub public_source : FundingSourceRecord → PublicFundingSource
public_source x = record {
  id = x.id;
  name = x.name;
  bank_name = x.bank_name;
  last_four = x.last_four;
  bank_account_type = x.bank_account_type;
  status = public_status x.status;
  is_default = x.is_default;
  micro_deposits_initiated_at = x.micro_deposits_initiated_at;
  verification_attempts = x.verification_attempts;
  created_at = x.created_at;
  updated_at = x.updated_at;
}

abbrev pub is_verified : FundingSourceStatus → Bool
is_verified verified = true
is_verified _ = false

abbrev pub is_removed : FundingSourceStatus → Bool
is_removed removed = true
is_removed _ = false

abbrev pub is_failed : FundingSourceStatus → Bool
is_failed source_failed = true
is_failed _ = false

abbrev pub has_value : {A : Type 0} → Option A → Bool
has_value none = false
has_value (some _) = true

abbrev pub is_verified_default : FundingSourceRecord → Bool
is_verified_default x = x.is_default && is_verified x.status

pub record CreatedCustomer : Type 0 where
  pub customer : FundingCustomerRecord
  pub created : Bool

-- The record to save; `save_customer` gives it its own `id`.
abbrev customer_record : ℕ → DwollaCustomer → FundingCustomerRecord
customer_record user_id c = record {
  id = 0;
  user_id = user_id;
  provider_customer_id = c.id;
  provider_customer_url = c.url;
  status = c.status;
}

abbrev drop : ℕ → List ℕ → List ℕ
drop zero xs = xs
drop (suc n) [] = []
drop (suc n) (_ ∷ xs) = drop n xs

-- `slice(-4)`
abbrev last_digits : List ℕ → List ℕ
last_digits ds = drop (length ds - 4) ds

-- The record to save; `save_source` gives it its own `id` and times.
abbrev source_record :
    ℕ → FundingCustomerRecord → List ℕ → DwollaFundingSource → FundingSourceRecord
source_record user_id customer account_number source = record {
  id = 0;
  user_id = user_id;
  provider_customer_id = customer.provider_customer_id;
  provider_funding_source_id = source.id;
  provider_funding_source_url = source.url;
  name = source.name;
  bank_name = source.bank_name;
  last_four = last_digits account_number;
  bank_account_type = source.bank_account_type;
  status = source.status;
  is_default = false;
  micro_deposits_initiated_at = none;
  verification_attempts = 0;
  verification_failure_code = none;
  removed_at = none;
  created_at = 0;
  updated_at = 0;
}

-- What the provider says of a source that is known here.
abbrev refreshed :
    ℕ → FundingSourceRecord → DwollaFundingSource → FundingSourceRecord → FundingSourceRecord
refreshed now local remote x = record x {
  name = remote.name;
  bank_name = remote.bank_name;
  bank_account_type = remote.bank_account_type;
  status = if is_failed local.status then source_failed else remote.status;
  removed_at = if is_removed remote.status then some now else none;
}

pub record Initiated : Type 0 where
  pub funding_source : PublicFundingSource
  pub already_initiated : Bool

module _ (env : FundingEnv) where
  abbrev pub own_source : ℕ → ℕ → Service FundingSourceRecord
  own_source user_id id = do
    found ← query (get_source user_id id)
    or_raise found funding_source_not_found

  abbrev pub create_new_customer :
      ℕ
      → ℕ
      → DwollaCustomerInput
      → DwollaFundingProvider
      → Option FundingCustomerRecord
      → Service CreatedCustomer
  create_new_customer uuid user_id input provider (some existing) =
      pure (record { customer = existing; created = false })
  create_new_customer uuid user_id input provider none = do
    customer ← ask (asks_customer input) (provider.create_customer input)
    saved ← repo (save_customer uuid (customer_record user_id customer))
    write_audit env user_id customer_created saved.id
    pure (record { customer = saved; created = true })

  unfoldable pub create_customer : ℕ → ℕ → DwollaCustomerInput → Service CreatedCustomer
  create_customer uuid user_id input = do
    provider ← require_provider env
    existing ← query (get_customer user_id)
    create_new_customer uuid user_id input provider existing

  -- The body of the loop over the provider's sources.
  abbrev pub refresh_local :
      ℕ → ℕ → DwollaFundingSource → Option FundingSourceRecord → Service (Unit {0})
  refresh_local now user_id remote none = pure tt
  refresh_local now user_id remote (some local) = do
    _ ← repo (update_source now user_id local.id (refreshed now local remote))
    pure tt

  abbrev pub refresh_all :
      ℕ → ℕ → List FundingSourceRecord → List DwollaFundingSource → Service (Unit {0})
  refresh_all now user_id locals [] = pure tt
  refresh_all now user_id locals (remote ∷ rest) = do
    refresh_local now user_id remote
        (find (λ (x : FundingSourceRecord). x.provider_funding_source_id == remote.id) locals)
    refresh_all now user_id locals rest

  -- `if (verified) …`
  abbrev pub choose_default : ℕ → ℕ → Option FundingSourceRecord → Service (Unit {0})
  choose_default now user_id none = pure tt
  choose_default now user_id (some x) = do _ ← repo (set_default_source now user_id x.id); pure tt

  abbrev pub list_of_customer :
      ℕ
      → ℕ
      → DwollaFundingProvider
      → Option FundingCustomerRecord
      → Service (List PublicFundingSource)
  list_of_customer now user_id provider none = pure []
  list_of_customer now user_id provider (some customer) = do
    locals ← query (list_sources user_id)
    remotes ←
        ask (lists_sources customer.provider_customer_url)
          (provider.list_funding_sources customer.provider_customer_url)
    refresh_all now user_id locals remotes
    sources ← query (list_sources user_id)
    when (not (any is_verified_default sources)) (
        choose_default now user_id
          (find (λ (x : FundingSourceRecord). is_verified x.status) sources))
    final ← query (list_sources user_id)
    pure (map public_source final)

  unfoldable pub list_funding_sources : ℕ → ℕ → Service (List PublicFundingSource)
  list_funding_sources now user_id = do
    provider ← require_provider env
    customer ← query (get_customer user_id)
    list_of_customer now user_id provider customer

  unfoldable pub create_funding_source : ℕ → ℕ → ℕ → BankInput → Service PublicFundingSource
  create_funding_source uuid now user_id input = do
    provider ← require_provider env
    found ← query (get_customer user_id)
    customer ← or_raise found dwolla_customer_required
    source ←
        ask (asks_source customer.provider_customer_url input)
          (provider.create_funding_source customer.provider_customer_url input)
    saved ← repo (save_source uuid now (source_record user_id customer input.account_number source))
    write_audit env user_id source_created saved.id
    pure (public_source saved)

  abbrev pub already : FundingSourceRecord → Service Initiated
  already x = pure (record { funding_source = public_source x; already_initiated = true })

  abbrev pub start_deposits :
      ℕ → ℕ → DwollaFundingProvider → FundingSourceRecord → Service Initiated
  start_deposits now user_id provider source = do
    ask (starts_deposits source.provider_funding_source_url)
        (provider.initiate_micro_deposits source.provider_funding_source_url)
    updated ← repo (
        update_source now user_id source.id
          (λ x. record x { micro_deposits_initiated_at = some now }))
    write_audit env user_id micro_deposits_initiated source.id
    pure (record { funding_source = public_source updated; already_initiated = false })

  unfoldable pub initiate_micro_deposits : ℕ → ℕ → ℕ → Service Initiated
  initiate_micro_deposits now user_id id = do
    provider ← require_provider env
    source ← own_source user_id id
    if is_verified source.status
        then already source
        else if is_removed source.status || is_failed source.status
        then throw funding_source_not_verifiable
        else if has_value source.micro_deposits_initiated_at
        then already source
        else start_deposits now user_id provider source
