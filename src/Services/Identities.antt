-- ===== src/Services/Identities.antt =====
-- src/service-identities: the creation and the listing of service identities. The random secret
-- is an argument, since `randomBytes` gives it; `hash` and `compare` are bcrypt's.
use iam_access_control_servi.Prelude.{
  ℕ, String, ◌≡◌, ◌≢◌, sym, ap, ◌∙◌, subst, Bool, true, Option, some, List, map, str_eq,
}
use iam_access_control_servi.Outcome.{Outcome, ok, ◌>>=◌, >>=-eq-ok, ok-inj}
use iam_access_control_servi.Domain.Models.{ServiceIdentity}
use iam_access_control_servi.Access.Contracts.{ServicePrincipal}
use iam_access_control_servi.Access.Texts.{IsFree}
use iam_access_control_servi.Access.ApiKeys.{api_key, principal_of, validate_api_key}
use iam_access_control_servi.Access.ApiKeys.RoundTrip.{validate_api_key-api_key}
use iam_access_control_servi.Requests.Pagination.{PaginationArgs}
use iam_access_control_servi.Services.Entities.{Listing}
use iam_access_control_servi.Services.Roles.{listing}

-- What the service uses of its table. A row that is inserted can be found by its id, which the
-- database makes: a UUID, not empty and without dots.
pub record Identities (Db : Type 0) : Type 0 where
  pub find_unique : String → Db → Option ServiceIdentity
  pub find_many : (ServiceIdentity → Bool) → Option Listing → Db → List ServiceIdentity
  -- The tenant, the name and the hash of the key; `enabled` is true by default.
  pub create : String → String → String → Db → Outcome (ServiceIdentity × Db)
  pub create_found :
      (tenant_id name key_hash : String) (db db' : Db) (row : ServiceIdentity)
      → create tenant_id name key_hash db ≡ ok (row, db')
      → find_unique row.id db' ≡ some row
  pub create_row :
      (tenant_id name key_hash : String) (db db' : Db) (row : ServiceIdentity)
      → create tenant_id name key_hash db ≡ ok (row, db')
      → (row.tenant_id ≡ tenant_id)
        × (row.name ≡ name)
        × (row.api_key_hash ≡ key_hash)
        × (row.enabled ≡ true)
  pub create_id :
      (tenant_id name key_hash : String) (db db' : Db) (row : ServiceIdentity)
      → create tenant_id name key_hash db ≡ ok (row, db')
      → IsFree b'.' row.id × (row.id ≢ "")

-- The identity of the API: the row without its hash.
pub record IdentityEntity : Type 0 where
  pub id : String
  pub tenant_id : String
  pub name : String
  pub enabled : Bool
  pub created_at : ℕ

pub record IdentityWithKey : Type 0 where
  pub service_identity : IdentityEntity
  pub key : String

-- `ServiceIdentityMapper.toEntity`
unfoldable pub identity_entity : ServiceIdentity → IdentityEntity
identity_entity model = record {
  id = model.id;
  tenant_id = model.tenant_id;
  name = model.name;
  enabled = model.enabled;
  created_at = model.created_at;
}

named_principal :
    (row : ServiceIdentity) (t n : String)
    → row.tenant_id ≡ t
    → row.name ≡ n
    → some (principal_of row) ≡ some (record { id = row.id; tenant_id = t; name = n })
named_principal row t n same_tenant same_name =
    λ i. some (record { id = row.id; tenant_id = same_tenant i; name = same_name i })

module _ {Db : Type 0} (table : Identities Db) where
  -- `ServiceIdentitiesService.create`
  unfoldable pub create_identity :
      (String → String) → String → String → String → Db → Outcome (IdentityWithKey × Db)
  unfolding identity_entity api_key
  create_identity hash tenant_id name secret db = do
    created ← table.create tenant_id name (hash secret) db
    ok (
      record { service_identity = identity_entity created.0; key = api_key created.0 secret },
      created.1,
    )

  -- `ServiceIdentitiesService.findAll`, with the repository's `where` and order.
  unfoldable pub all_identities : String → Option PaginationArgs → Db → List IdentityEntity
  unfolding identity_entity
  all_identities tenant_id pagination db =
      map identity_entity
        (table.find_many (λ r. str_eq r.tenant_id tenant_id) (listing pagination "name") db)

  -- The validation of keys against a state of the table.
  abbrev pub validate : (String → String → Bool) → Db → String → Option ServicePrincipal
  validate compare db = validate_api_key (λ id. table.find_unique id db) compare

  -- The key that a creation returns authenticates as the new identity, in the tenant that it was
  -- created for, where bcrypt accepts what it hashed and the secret is not empty.
  pub create_identity-validate :
      (hash : String → String) (compare : String → String → Bool) (tenant_id name secret : String)
      (db db' : Db) (made : IdentityWithKey)
      → compare secret (hash secret) ≡ true
      → secret ≢ ""
      → create_identity hash tenant_id name secret db ≡ ok (made, db')
      → validate compare db' made.key
        ≡ some (record { id = made.service_identity.id; tenant_id = tenant_id; name = name })
  unfolding create_identity identity_entity
  create_identity-validate hash compare t n secret db db' made accepts filled h =
      let ((row, db_1), e, rest) = >>=-eq-ok (table.create t n (hash secret) db) _ h in
      let made_eq = sym (ap (λ (p : IdentityWithKey × Db). p.0) (ok-inj rest)) in
      let db_eq = ap (λ (p : IdentityWithKey × Db). p.1) (ok-inj rest) in
      let inserted = e ∙ ap (λ x. ok (row, x)) db_eq in
      let (same_tenant, same_name, same_hash, on) =
        table.create_row t n (hash secret) db db' row inserted in
      let (free, named) = table.create_id t n (hash secret) db db' row inserted in
      let valid =
        validate_api_key-api_key (λ id. table.find_unique id db') compare row secret free named
          filled (table.create_found t n (hash secret) db db' row inserted) on
          (rw same_hash accepts) in
      subst
        (λ (m : IdentityWithKey).
          validate compare db' m.key
          ≡ some (record { id = m.service_identity.id; tenant_id = t; name = n }))
        (sym made_eq) (valid ∙ named_principal row t n same_tenant same_name)
