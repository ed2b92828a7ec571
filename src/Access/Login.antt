-- ===== src/Access/Login.antt =====
-- src/auth/auth.service.ts: login, refresh and the tokens of services.
use iam_access_control_servi.Prelude.{
  String, ◌≡◌, refl, sym, Bool, true, false, Option, none, some, List, [], ◌∷◌, text_instance,
}
use iam_access_control_servi.Outcome.{
  Outcome, ok, unauthorized, ◌>>=◌, >>=-eq-ok, ok-inj, expect, expect-eq-ok, require, require-eq-ok,
}
use iam_access_control_servi.Domain.Enums.{
  EmploymentStatus, TenantStatus, employment_status_eq, tenant_status_eq,
}
use iam_access_control_servi.Domain.Models.{Tenant, User, UserRole}
use iam_access_control_servi.Authorization.Facts.{add_name, collect_names, where_grant}
use iam_access_control_servi.Access.Contracts.{
  AuthPayload, JwtPayload, LoginInput, ServiceAuthPayload, ServicePrincipal, TokenType,
}
use iam_access_control_servi.Access.Jwt.{filled}

-- What one call of the service uses from outside: the database, bcrypt, the JWT library and the
-- settings, each at the moment of that call.
pub record Services : Type 0 where
  -- `tenant.findUnique({ where: { slug } })`
  pub find_tenant : String → Option Tenant
  -- `user.findUnique` by tenant and email
  pub find_by_email : String → String → Option User
  -- `user.findFirst({ where: { id, tenantId } })`
  pub find_user : String → String → Option User
  pub find_user_roles : (UserRole → Bool) → List UserRole
  pub compare : String → String → Bool
  -- `verifyAsync`, none where it throws, as for a token that has expired by the moment of the call
  pub verify : String → Option JwtPayload
  -- `signAsync`, with the `expiresIn` given to it; the library adds the moment of signing and of
  -- expiry, so that a call at another moment has another `sign`
  pub sign : JwtPayload → Option String → String
  -- `config.get(name, fallback)`
  pub setting : String → String → String
  pub validate_api_key : String → Option ServicePrincipal

unfoldable pub role_names : List UserRole → List String → List String
role_names [] ns = ns
role_names (row ∷ rows) ns = role_names rows (add_name row.role_name ns)

module _ (s : Services) where
  -- `resolveAuthorities`
  unfoldable pub resolve_authorities : String → String → List String × List String
  unfolding role_names collect_names
  resolve_authorities tenant_id user_id =
      let rows = s.find_user_roles (where_grant tenant_id user_id) in
      (role_names rows [], collect_names rows [])

  abbrev pub token_payload :
      String → String → String → List String → List String → TokenType → JwtPayload
  token_payload user_id tenant_id email roles permissions kind = record {
    sub = user_id;
    tenant_id = tenant_id;
    email = some email;
    roles = some roles;
    permissions = some permissions;
    is_service = some false;
    token_type = some kind;
  }

  -- `issueTokens`
  unfoldable pub issue_tokens : String → String → String → List String → List String → AuthPayload
  issue_tokens user_id tenant_id email roles permissions = record {
    access_token =
        s.sign (token_payload user_id tenant_id email roles permissions TokenType.access_token)
          none;
    refresh_token =
        s.sign (token_payload user_id tenant_id email [] [] TokenType.refresh_token)
          (some (s.setting "JWT_REFRESH_EXPIRES_IN" "7d"));
    expires_in = s.setting "JWT_EXPIRES_IN" "1h";
    user_id = user_id;
    tenant_id = tenant_id;
    email = email;
    roles = roles;
    permissions = permissions;
  }

  -- The last two lines of `login` and of `refresh`.
  unfoldable pub tokens_of : String → User → AuthPayload
  unfolding resolve_authorities issue_tokens
  tokens_of tenant_id user =
      let (roles, permissions) = resolve_authorities tenant_id user.id in
      issue_tokens user.id tenant_id user.email roles permissions

  -- `login`
  unfoldable pub login : LoginInput → Outcome AuthPayload
  unfolding expect require tokens_of
  login input = do
    tenant ← expect (unauthorized "Invalid credentials") (s.find_tenant input.tenant_slug)
    active ←
        require (unauthorized "Invalid credentials")
          (tenant_status_eq tenant.status TenantStatus.active)
    user ← expect (unauthorized "Invalid credentials") (s.find_by_email tenant.id input.email)
    hash ← expect (unauthorized "Invalid credentials") (filled user.password_hash)
    password_ok ← require (unauthorized "Invalid credentials") (s.compare input.password hash)
    employed ←
        require (unauthorized "Account is not active")
          (employment_status_eq user.employment_status EmploymentStatus.active)
    ok (tokens_of tenant.id user)

  abbrev is_refresh : Option TokenType → Bool
  is_refresh (some TokenType.refresh_token) = true
  is_refresh (some TokenType.access_token) = false
  is_refresh none = false

  -- `refresh`
  unfoldable pub refresh : String → Outcome AuthPayload
  unfolding expect require tokens_of
  refresh refresh_token = do
    payload ← expect (unauthorized "Invalid or expired refresh token") (s.verify refresh_token)
    fits ←
        require (unauthorized "Provided token is not a refresh token")
          (is_refresh payload.token_type)
    user ← expect (unauthorized "Account is not active") (s.find_user payload.tenant_id payload.sub)
    employed ←
        require (unauthorized "Account is not active")
          (employment_status_eq user.employment_status EmploymentStatus.active)
    ok (tokens_of payload.tenant_id user)

  -- `issueServiceToken`
  unfoldable pub issue_service_token : String → Outcome ServiceAuthPayload
  unfolding expect
  issue_service_token api_key = do
    principal ← expect (unauthorized "Invalid service API key") (s.validate_api_key api_key)
    ok (record {
      access_token =
          s.sign
            (record {
              sub = principal.id;
              tenant_id = principal.tenant_id;
              email = none;
              roles = some ("service" ∷ []);
              permissions = some ("*" ∷ []);
              is_service = some true;
              token_type = some TokenType.access_token;
            })
            none;
      expires_in = s.setting "JWT_EXPIRES_IN" "1h";
      tenant_id = principal.tenant_id;
      service_name = principal.name;
    })

  -- What a login rests on.
  pub record IsLoggedIn (input : LoginInput) (payload : AuthPayload) : Type 0 where
    pub tenant : Tenant
    pub tenant_found : s.find_tenant input.tenant_slug ≡ some tenant
    pub tenant_active : tenant_status_eq tenant.status TenantStatus.active ≡ true
    pub user : User
    pub user_found : s.find_by_email tenant.id input.email ≡ some user
    pub user_active : employment_status_eq user.employment_status EmploymentStatus.active ≡ true
    pub hash : String
    pub hash_set : filled user.password_hash ≡ some hash
    pub password : s.compare input.password hash ≡ true
    pub tokens : payload ≡ tokens_of tenant.id user

  -- A login that returns tokens found an active tenant by its slug and in it an active user by
  -- the email, whose password hash the password matches; the tokens are that user's.
  pub login-IsLoggedIn :
      (input : LoginInput) (payload : AuthPayload)
      → login input ≡ ok payload
      → IsLoggedIn input payload
  unfolding login
  login-IsLoggedIn input payload h =
      let (tenant, e1, h1) = >>=-eq-ok (expect _ (s.find_tenant input.tenant_slug)) _ h in
      let (b2, e2, h2) =
        >>=-eq-ok (require _ (tenant_status_eq tenant.status TenantStatus.active)) _ h1 in
      let (user, e3, h3) = >>=-eq-ok (expect _ (s.find_by_email tenant.id input.email)) _ h2 in
      let (hash, e4, h4) = >>=-eq-ok (expect _ (filled user.password_hash)) _ h3 in
      let (b5, e5, h5) = >>=-eq-ok (require _ (s.compare input.password hash)) _ h4 in
      let (b6, e6, h6) =
        >>=-eq-ok (require _ (employment_status_eq user.employment_status EmploymentStatus.active))
          _ h5 in
      record {
        tenant = tenant;
        tenant_found = expect-eq-ok _ (s.find_tenant input.tenant_slug) e1;
        tenant_active = require-eq-ok _ (tenant_status_eq tenant.status TenantStatus.active) e2;
        user = user;
        user_found = expect-eq-ok _ (s.find_by_email tenant.id input.email) e3;
        user_active =
            require-eq-ok _ (employment_status_eq user.employment_status EmploymentStatus.active)
              e6;
        hash = hash;
        hash_set = expect-eq-ok _ (filled user.password_hash) e4;
        password = require-eq-ok _ (s.compare input.password hash) e5;
        tokens = sym (ok-inj h6);
      }

  -- What a refresh rests on.
  pub record IsRefreshed (token : String) (payload : AuthPayload) : Type 0 where
    pub held : JwtPayload
    pub verified : s.verify token ≡ some held
    pub kind : held.token_type ≡ some TokenType.refresh_token
    pub user : User
    pub user_found : s.find_user held.tenant_id held.sub ≡ some user
    pub user_active : employment_status_eq user.employment_status EmploymentStatus.active ≡ true
    pub tokens : payload ≡ tokens_of held.tenant_id user

  is_refresh_eq : (k : Option TokenType) → is_refresh k ≡ true → k ≡ some TokenType.refresh_token
  is_refresh_eq (some TokenType.refresh_token) h = refl
  is_refresh_eq (some TokenType.access_token) h = cc
  is_refresh_eq none h = cc

  -- A refresh that returns tokens was given a verified refresh token whose user is there and
  -- active in the token's tenant; the roles and permissions are read anew.
  pub refresh-IsRefreshed :
      (token : String) (payload : AuthPayload)
      → refresh token ≡ ok payload
      → IsRefreshed token payload
  unfolding refresh
  refresh-IsRefreshed token payload h =
      let (held, e1, h1) = >>=-eq-ok (expect _ (s.verify token)) _ h in
      let (b2, e2, h2) = >>=-eq-ok (require _ (is_refresh held.token_type)) _ h1 in
      let (user, e3, h3) = >>=-eq-ok (expect _ (s.find_user held.tenant_id held.sub)) _ h2 in
      let (b4, e4, h4) =
        >>=-eq-ok (require _ (employment_status_eq user.employment_status EmploymentStatus.active))
          _ h3 in
      record {
        held = held;
        verified = expect-eq-ok _ (s.verify token) e1;
        kind = is_refresh_eq held.token_type (require-eq-ok _ (is_refresh held.token_type) e2);
        user = user;
        user_found = expect-eq-ok _ (s.find_user held.tenant_id held.sub) e3;
        user_active =
            require-eq-ok _ (employment_status_eq user.employment_status EmploymentStatus.active)
              e4;
        tokens = sym (ok-inj h4);
      }
