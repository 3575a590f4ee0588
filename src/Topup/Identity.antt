-- ===== src/Topup/Identity.antt =====
-- apps/api/src/topup/provider-identity.ts: operator identifiers and transaction references that name
-- their provider. A text is the list of its character codes; identifiers are natural numbers.
use ticash.Prelude.{
  ℕ, ◌+◌, ◌*◌, ◌/◌, ◌%◌, Bool, true, false, not, ◌&&◌, ◌||◌, Option, none, some, List, [], ◌∷◌,
  ◌++◌, ◌==◌, ltb, if◌then◌else◌, ok, ◌>>=◌, ◌>>◌, throw_if, or_throw,
}
use ticash.Prelude.Lists.{length}
use ticash.Topup.Errors.{
  Outcome, fail_with, invalid_operator_id, invalid_provider_response, invalid_transaction_reference,
  uri_error,
}

pub data Provider : Type 0 where
  reloadly dtone ding : Provider

abbrev pub slot_size : ℕ
slot_size = 700000000

-- `providers.indexOf(provider)`
abbrev pub slot_of : Provider → ℕ
slot_of reloadly = 0
slot_of dtone = 1
slot_of ding = 2

-- `providers[slot]`
abbrev pub provider_at : ℕ → Option Provider
provider_at slot =
    if slot == 0
    then some reloadly
    else if slot == 1
    then some dtone
    else if slot == 2
    then some ding
    else none

unfoldable pub encode_operator_id : Provider → ℕ → Outcome ℕ
encode_operator_id provider raw_id = do
  throw_if (ltb raw_id 1 || not (ltb raw_id slot_size)) (fail_with invalid_operator_id 400)
  let id = slot_of provider * slot_size + raw_id
  throw_if (ltb 2147483647 id) (fail_with invalid_operator_id 400)
  ok id

pub record OperatorId : Type 0 where
  pub provider : Provider
  pub raw_id : ℕ

-- `encodeOperatorId(provider, rawId) !== id`, which throws where the encoding does.
abbrev pub check_operator_id : ℕ → ℕ → Provider → Outcome OperatorId
check_operator_id id raw_id provider = do
  again ← encode_operator_id provider raw_id
  throw_if (not (again == id)) (fail_with invalid_operator_id 400)
  ok (record { provider = provider; raw_id = raw_id })

unfoldable pub decode_operator_id : ℕ → Outcome OperatorId
decode_operator_id id = do
  provider ← or_throw (provider_at (id / slot_size)) (fail_with invalid_operator_id 400)
  check_operator_id id (id % slot_size) provider

abbrev pub Text : Type 0
Text = List ℕ

-- The character `:`.
abbrev pub colon : ℕ
colon = 58

abbrev pub name_of : Provider → Text
name_of reloadly = 82 ∷ 69 ∷ 76 ∷ 79 ∷ 65 ∷ 68 ∷ 76 ∷ 89 ∷ []
name_of dtone = 68 ∷ 84 ∷ 79 ∷ 78 ∷ 69 ∷ []
name_of ding = 68 ∷ 73 ∷ 78 ∷ 71 ∷ []

abbrev pub same_text : Text → Text → Bool
same_text [] [] = true
same_text (x ∷ xs) (y ∷ ys) = x == y && same_text xs ys
same_text _ _ = false

-- The provider of that name, `providers.includes(provider)`.
abbrev pub provider_named : Text → Option Provider
provider_named name =
    if same_text name (name_of reloadly)
    then some reloadly
    else if same_text name (name_of dtone)
    then some dtone
    else if same_text name (name_of ding)
    then some ding
    else none

-- The texts before and after the first `:`, by `indexOf` and `slice`.
abbrev pub split_at_colon : Text → Option (Text × Text)
split_at_colon [] = none
split_at_colon (c ∷ cs) =
    let rest = split_at_colon cs in
    if c == colon
    then some ([], cs)
    else elim rest [ none ↦ none | some (before, after) ↦ some (c ∷ before, after) ]

pub record Reference : Type 0 where
  pub provider : Provider
  pub id : Text

abbrev pub is_bad_id : Text → Bool
is_bad_id id = length id == 0 || ltb 512 (length id)

-- JavaScript's `encodeURIComponent` and `decodeURIComponent`; none is a throw.
module _ (encode_uri_component decode_uri_component : Text → Option Text) where
  unfoldable pub encode_transaction_reference : Provider → Text → Outcome Text
  encode_transaction_reference provider id = do
    throw_if (is_bad_id id) (fail_with invalid_provider_response 502)
    encoded ← or_throw (encode_uri_component id) (fail_with uri_error 500)
    ok (name_of provider ++ colon ∷ encoded)

  abbrev pub decode_parts : Text → Text → Outcome Reference
  decode_parts name rest = do
    id ← or_throw (decode_uri_component rest) (fail_with invalid_transaction_reference 502)
    provider ← or_throw (provider_named name) (fail_with invalid_transaction_reference 502)
    throw_if (is_bad_id id) (fail_with invalid_transaction_reference 502)
    ok (record { provider = provider; id = id })

  abbrev pub decode_split : Text → Option (Text × Text) → Outcome Reference
  decode_split reference none = ok (record { provider = reloadly; id = reference })
  decode_split reference (some (name, rest)) = decode_parts name rest

  unfoldable pub decode_transaction_reference : Text → Outcome Reference
  decode_transaction_reference reference = decode_split reference (split_at_colon reference)
