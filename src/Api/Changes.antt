-- ===== src/Api/Changes.antt =====
-- What a request that created a policy or an API key rests on, and what it did.
use text.Mathlib.Text.{starts_with}
use iam_access_control_servi.Prelude.{
  ℕ, String, ◌≡◌, ◌≢◌, inl, inr, refl, sym, ap, subst, true, none, some, List, [], ◌∷◌, In,
  if◌then◌else◌,
}
use iam_access_control_servi.Outcome.{Outcome, ok-inj, ok, throw}
use iam_access_control_servi.Domain.Models.{Policy}
use iam_access_control_servi.Cache.{Cache}
use iam_access_control_servi.Cache.Keys.{policies_tenant_prefix}
use iam_access_control_servi.Cache.Laws.{visible}
use iam_access_control_servi.Authorization.{World}
use iam_access_control_servi.Access.Contracts.{AuthContext}
use iam_access_control_servi.Access.Guards.{HasPermission}
use iam_access_control_servi.Access.Jwt.{Headers, IsVerified}
use iam_access_control_servi.Services.Policies.{CreatePolicyInput, policy_data}
use iam_access_control_servi.Services.Identities.{
  IdentityWithKey, create_identity, create_identity-validate, validate,
}
use iam_access_control_servi.Api.Calls.{Call, IdentitiesCall, marks}
use iam_access_control_servi.Api.Backend.{Answer, Backend, Outside, Reply, auth_services, writing}
use iam_access_control_servi.Api.Resolvers.{handle, identities_resolver}
use iam_access_control_servi.Api.Admission.{serve}
use iam_access_control_servi.Api.Effects.{serve_answered}

module _ {Db : Type 0} (b : Backend Db) (outside : Outside Db) where
  -- What the creation of a policy through the API rests on, and what it did.
  pub record IsCreated (headers : Headers) (input : CreatePolicyInput) (w w' : World Db)
      : Type 0 where
    pub ctx : AuthContext
    pub verified :
        IsVerified (auth_services b w.db).validate_api_key (auth_services b w.db).verify headers ctx
    pub has_permission : HasPermission ctx.permissions ("policy.manage" ∷ [])
    pub row : Policy
    pub written : b.policies.create ctx.tenant_id (policy_data input) w.db ≡ ok (row, w'.db)
    pub invalidated :
        (now : ℕ) (key : String)
        → visible now w'.cache key ≡ (
            if starts_with key (policies_tenant_prefix ctx.tenant_id)
            then none
            else visible now w.cache key)

  writing_ok :
      {A : Type 0} (reply : A → Reply) (w w' : World Db) (o : Outcome (A × Db)) (r : Reply)
      → writing reply w o ≡ (ok r, w')
      → (a : A) × (o ≡ ok (a, w'.db)) × (r ≡ reply a)
  writing_ok reply w w' (throw e) r h = cc
  writing_ok reply w w' (ok (a, db)) r h =
      let same = ap (λ (x : Answer Db). x.1) h in
      (a, (λ i. ok (a, (same i).db)), sym (ok-inj (ap (λ (x : Answer Db). x.0) h)))

  -- What a new API key that the API returned rests on, and what it is good for.
  pub record IsProvisioned (headers : Headers) (name : String) (made : IdentityWithKey)
      (w w' : World Db) : Type 0 where
    pub ctx : AuthContext
    pub verified :
        IsVerified (auth_services b w.db).validate_api_key (auth_services b w.db).verify headers ctx
    pub is_admin : In "Admin" ctx.roles
    pub authenticates :
        validate b.identities (b.services w.db).compare w'.db made.key
        ≡ some (record { id = made.service_identity.id; tenant_id = ctx.tenant_id; name = name })

  identity_reply-inj :
      (x y : IdentityWithKey) → Reply.identity_reply x ≡ Reply.identity_reply y → y ≡ x
  identity_reply-inj x y h = cc

  only_admin :
      (roles : List String)
      → (role : String) × In role ("Admin" ∷ []) × In role roles
      → In "Admin" roles
  only_admin roles (role, inr nowhere, mine) = absurd nowhere
  only_admin roles (role, inl same, mine) = subst (λ r. In r roles) (sym same) mine

  -- An API key that the API returned was asked for by a verified principal with the role "Admin",
  -- and authenticates as the new identity in that principal's tenant, where bcrypt accepts what it
  -- hashed and the secret is not empty.
  pub serve_create_identity :
      (headers : Headers) (name : String) (made : IdentityWithKey) (w w' : World Db)
      → (b.services w.db).compare outside.secret (b.hash outside.secret) ≡ true
      → outside.secret ≢ ""
      → serve b outside headers (Call.of_identities (IdentitiesCall.create_service_identity name)) w
        ≡ (ok (Reply.identity_reply made), w')
      → IsProvisioned headers name made w w'
  unfolding handle identities_resolver marks
  serve_create_identity headers name made w w' accepts not_empty h =
      let call = Call.of_identities (IdentitiesCall.create_service_identity name) in
      let (ctx, admitted, handled) =
        serve_answered b outside headers call w (Reply.identity_reply made) w' refl h in
      let (key, created, answer) =
        writing_ok Reply.identity_reply w w'
          (create_identity b.identities b.hash ctx.tenant_id name outside.secret w.db)
          (Reply.identity_reply made) handled in
      let same = identity_reply-inj made key answer in
      let made_ok =
        subst
          (λ k.
            create_identity b.identities b.hash ctx.tenant_id name outside.secret w.db
            ≡ ok (k, w'.db))
          same created in
      record {
        ctx = ctx;
        verified = admitted.verified;
        is_admin = only_admin ctx.roles (admitted.entitled "Admin" [] refl);
        authenticates =
            create_identity-validate b.identities b.hash (b.services w.db).compare ctx.tenant_id
              name outside.secret w.db w'.db made accepts not_empty made_ok;
      }
