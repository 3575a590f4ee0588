-- ===== src/Topup/RoundTrips.antt =====
-- Encoding and decoding in apps/api/src/topup/provider-identity.ts.
use ticash.Prelude.{
  ℕ, ◌+◌, ◌*◌, ◌≤◌, ◌<◌, ◌≡◌, ◌↔◌, refl, arith, Option, some, ◌∷◌, ◌++◌, ok, inl, inr, Bool-cases,
  Option-cases,
}
use ticash.Topup.Identity.{
  Provider, reloadly, dtone, ding, slot_size, slot_of, encode_operator_id, decode_operator_id, Text,
  encode_transaction_reference, decode_transaction_reference, is_bad_id, name_of, colon,
  split_at_colon, provider_named,
}

-- An operator of a provider is encoded as `id` exactly when its own identifier lies between 1 and the
-- slot size and `id` is its place in the provider's slot; the bound of the storage is never exceeded.
pub encode_operator_id_iff :
    (p : Provider) (raw id : ℕ)
    → (encode_operator_id p raw ≡ ok id)
      ↔ ((1 ≤ raw) × (raw < slot_size) × (slot_of p * slot_size + raw ≡ id) × (id ≤ 2147483647))
unfolding encode_operator_id
encode_operator_id_iff reloadly raw id = (λ h. ground arith, λ h. ground arith)
encode_operator_id_iff dtone raw id = (λ h. ground arith, λ h. ground arith)
encode_operator_id_iff ding raw id = (λ h. ground arith, λ h. ground arith)

-- Decoding undoes encoding, and what decodes is what was encoded: an identifier decodes to an operator
-- exactly when that operator encodes to it.
pub decode_operator_id_iff :
    (id raw : ℕ) (p : Provider)
    → (decode_operator_id id ≡ ok (record { provider = p; raw_id = raw }))
      ↔ (encode_operator_id p raw ≡ ok id)
unfolding decode_operator_id encode_operator_id
decode_operator_id_iff id raw reloadly = (λ h. ground arith, λ h. ground arith)
decode_operator_id_iff id raw dtone = (λ h. ground arith, λ h. ground arith)
decode_operator_id_iff id raw ding = (λ h. ground arith, λ h. ground arith)

split_at_colon-name :
    (p : Provider) (rest : Text)
    → split_at_colon (name_of p ++ colon ∷ rest) ≡ some (name_of p, rest)
split_at_colon-name reloadly rest = refl
split_at_colon-name dtone rest = refl
split_at_colon-name ding rest = refl

provider_named-name : (p : Provider) → provider_named (name_of p) ≡ some p
provider_named-name reloadly = refl
provider_named-name dtone = refl
provider_named-name ding = refl

-- A reference that was encoded decodes to the provider and the identifier it was made of, where decoding
-- a URI component undoes encoding it.
pub decode-encode :
    (encode_uri decode_uri : Text → Option Text) (p : Provider) (id reference : Text)
    → ((t u : Text) → encode_uri t ≡ some u → decode_uri u ≡ some t)
    → encode_transaction_reference encode_uri decode_uri p id ≡ ok reference
    → decode_transaction_reference encode_uri decode_uri reference
      ≡ ok (record { provider = p; id = id })
unfolding encode_transaction_reference decode_transaction_reference
decode-encode encode_uri decode_uri p id reference undo h = elim (Bool-cases (is_bad_id id)) [
  | inl bad ↦ absurd (let k = rw bad at h in cc)
  | inr fine ↦ elim (Option-cases (encode_uri id)) [
    | inl throws ↦ absurd (let k = rw (fine, throws) at h in cc)
    | inr (u, e) ↦
        let k : name_of p ++ colon ∷ u ≡ reference =
          (let k = rw (fine, e) at h in ground (arith, k)) in
        rw (← k, split_at_colon-name p u, undo id u e, provider_named-name p, fine) refl
  ]
]
