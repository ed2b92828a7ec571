-- ===== src/Access/ApiKeys.antt =====
-- src/service-identities/service-identities.service.ts: API keys `<id>.<secret>`.
pub mod RoundTrip
use iam_access_control_servi.Prelude.{◌||◌}
use iam_access_control_servi.Prelude.{
  zero, suc, ◌+◌, String, ◌≡◌, refl, Bool, true, not, Option, none, some, some-inj, [], ◌∷◌, concat,
  is_blank, Bool-cases, Option-cases, inl, inr, if◌then◌else◌,
}
use iam_access_control_servi.Domain.Models.{ServiceIdentity}
use iam_access_control_servi.Access.Contracts.{ServicePrincipal}
use iam_access_control_servi.Access.Texts.{split_first}

-- The key that `create` returns.
unfoldable pub api_key : ServiceIdentity → String → String
api_key identity secret = concat (identity.id ∷ "." ∷ secret ∷ [])

-- The id and the secret of a raw key, both not empty.
unfoldable pub key_parts : String → Option (String × String)
unfolding split_first
key_parts raw = elim (split_first b'.' raw) [
  | none ↦ none
  | some parts ↦ if is_blank parts.0 || is_blank parts.1 then none else some parts
]

abbrev pub principal_of : ServiceIdentity → ServicePrincipal
principal_of identity = record {
  id = identity.id;
  tenant_id = identity.tenant_id;
  name = identity.name;
}

-- `find_identity` is `findUnique` by id over all tenants; `compare` is bcrypt's.
module _ (find_identity : String → Option ServiceIdentity) (compare : String → String → Bool) where
  unfoldable pub check_secret : String → ServiceIdentity → Option ServicePrincipal
  check_secret secret identity =
      if not identity.enabled
      then none
      else if not (compare secret identity.api_key_hash)
      then none
      else some (principal_of identity)

  unfoldable pub check_parts : Option (String × String) → Option ServicePrincipal
  unfolding check_secret
  check_parts none = none
  check_parts (some (id, secret)) = elim (find_identity id) [
    | none ↦ none
    | some identity ↦ check_secret secret identity
  ]

  -- `validateApiKey`
  unfoldable pub validate_api_key : String → Option ServicePrincipal
  unfolding check_parts key_parts
  validate_api_key raw = check_parts (key_parts raw)

  -- What a key must be for a principal to come of it.
  pub record IsIssued (raw : String) (p : ServicePrincipal) : Type 0 where
    pub id : String
    pub secret : String
    pub parts : key_parts raw ≡ some (id, secret)
    pub identity : ServiceIdentity
    pub found : find_identity id ≡ some identity
    pub enabled : identity.enabled ≡ true
    pub compared : compare secret identity.api_key_hash ≡ true
    pub principal : p ≡ principal_of identity

  check_secret_sound :
      (secret : String) (identity : ServiceIdentity) (p : ServicePrincipal)
      → check_secret secret identity ≡ some p
      → (identity.enabled ≡ true)
        × (compare secret identity.api_key_hash ≡ true)
        × (p ≡ principal_of identity)
  unfolding check_secret
  check_secret_sound secret identity p h = elim (Bool-cases identity.enabled) [
    | inr off ↦ cc (rw off at h)
    | inl on ↦ elim (Bool-cases (compare secret identity.api_key_hash)) [
      | inr wrong ↦ cc (rw (on, wrong) at h)
      | inl right ↦ (on, right, cc (some-inj (rw (on, right) at h)))
    ]
  ]

  check_parts_sound :
      (raw : String) (o : Option (String × String)) (p : ServicePrincipal)
      → key_parts raw ≡ o
      → check_parts o ≡ some p
      → IsIssued raw p
  unfolding check_parts
  check_parts_sound raw none p e h = cc
  check_parts_sound raw (some (id, secret)) p e h = elim (Option-cases (find_identity id)) [
    | inl missing ↦ cc (rw (missing, check_parts) at h)
    | inr (identity, found) ↦
        let (on, right, same) =
          check_secret_sound secret identity p (rw (found, check_parts) at h) in
        record {
          id = id;
          secret = secret;
          parts = e;
          identity = identity;
          found = found;
          enabled = on;
          compared = right;
          principal = same;
        }
  ]

  -- A principal comes only of a key whose id names an enabled identity and whose secret has the
  -- identity's hash; the principal is that identity with its tenant.
  pub validate_api_key_sound :
      (raw : String) (p : ServicePrincipal) → validate_api_key raw ≡ some p → IsIssued raw p
  unfolding validate_api_key
  validate_api_key_sound raw p h = check_parts_sound raw (key_parts raw) p refl h
