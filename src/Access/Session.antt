-- ===== src/Access/Session.antt =====
-- The tokens of a login against the guard and the refresh: they fit together.
use iam_access_control_servi.Prelude.{
  String, ◌≡◌, ◌≢◌, refl, sym, ◌∙◌, subst, true, false, Option, none, some, [], ◌∷◌, concat, str_eq,
  eq_iff, arith,
}
use text.Mathlib.TextLemmas.{
  append-ne-nil_of_right_ne-nil, append-nil, cons-ne-nil, cons-append, nil-append,
}
use iam_access_control_servi.Outcome.{ok, throw, unauthorized, ◌>>=◌, expect, require}
use iam_access_control_servi.Domain.Models.{User}
use iam_access_control_servi.Domain.Enums.{
  EmploymentStatus, employment_status_eq, employment_status_eq_iff,
}
use iam_access_control_servi.Access.Contracts.{
  AuthContext, AuthPayload, JwtPayload, LoginInput, ServicePrincipal, TokenType,
}
use iam_access_control_servi.Access.Texts.{
  IsFree, before_first, second_part, split_first, split_first-append, split_first-IsFree, to_lower,
}
use iam_access_control_servi.Access.Jwt.{
  Headers, authenticate, bearer_value, by_token, extract_token, of_payload,
}
use iam_access_control_servi.Access.Authorities.{AreAuthorities, resolve-AreAuthorities}
use iam_access_control_servi.Access.Login.{
  Services, login, login-IsLoggedIn, issue_tokens, refresh, tokens_of,
}

-- `Bearer <token>`
abbrev pub bearer : String → String
bearer token = concat ("Bearer" ∷ " " ∷ token ∷ [])

-- A request with nothing but a bearer token.
abbrev pub token_headers : String → Option String → Headers
token_headers token correlation_id = record {
  api_key = none;
  authorization = some (bearer token);
  correlation_id = correlation_id;
}

-- The principal that a login's payload tells of.
abbrev pub payload_context : AuthPayload → Option String → AuthContext
payload_context payload correlation_id = record {
  user_id = payload.user_id;
  tenant_id = payload.tenant_id;
  email = some payload.email;
  roles = payload.roles;
  permissions = payload.permissions;
  is_service = false;
  correlation_id = correlation_id;
}

bearer_split : (token : String) → split_first b' ' (bearer token) ≡ some ("Bearer", token)
bearer_split token =
    rw (append-nil token, cons-append " " "" token, nil-append token)
      (split_first-append b' ' " " "Bearer" token refl (omega arith))

bearer_not_blank : (token : String) → bearer token ≢ ""
bearer_not_blank token e =
    append-ne-nil_of_right_ne-nil "Bearer"
      (λ h.
        cons-ne-nil " " (concat ("" ∷ token ∷ []))
          (sym (cons-append " " "" (concat (token ∷ []))) ∙ h))
      e

bearer_filled : (token : String) → str_eq (bearer token) "" ≡ false
bearer_filled token = ground (arith, eq_iff (bearer token) "", bearer_not_blank token)

before_first-bearer : (token : String) → before_first b' ' (bearer token) ≡ "Bearer"
unfolding before_first
before_first-bearer token = rw (bearer_split token, before_first) refl

second_part-bearer :
    (token : String) → IsFree b' ' token → second_part b' ' (bearer token) ≡ some token
unfolding second_part before_first
second_part-bearer token free =
    rw (bearer_split token, second_part)
      (rw (split_first-IsFree b' ' token free, before_first) refl)

-- The guard reads the token of the header.
pub extract_token-bearer :
    (token : String) → IsFree b' ' token → extract_token (some (bearer token)) ≡ some token
unfolding extract_token bearer_value to_lower
extract_token-bearer token free =
    rw (bearer_filled token, extract_token)
      (rw (before_first-bearer token, bearer_value, second_part-bearer token free) refl)

-- The JWT library on one payload: `verify` accepts what `sign` made of it and gives it back, and
-- a token is made of base64 letters and dots.
pub record IsSigned (s : Services) (p : JwtPayload) (expires : Option String) : Type 0 where
  pub verified : s.verify (s.sign p expires) ≡ some p
  pub free : IsFree b' ' (s.sign p expires)
  pub filled : s.sign p expires ≢ ""

-- What the two tokens of a payload hold.
abbrev pub access_claims : AuthPayload → JwtPayload
access_claims p = record {
  sub = p.user_id;
  tenant_id = p.tenant_id;
  email = some p.email;
  roles = some p.roles;
  permissions = some p.permissions;
  is_service = some false;
  token_type = some TokenType.access_token;
}

abbrev pub refresh_claims : AuthPayload → JwtPayload
refresh_claims p = record {
  sub = p.user_id;
  tenant_id = p.tenant_id;
  email = some p.email;
  roles = some [];
  permissions = some [];
  is_service = some false;
  token_type = some TokenType.refresh_token;
}

abbrev pub IsSignedAccess : Services → AuthPayload → Type 0
IsSignedAccess s p = IsSigned s (access_claims p) none

abbrev pub IsSignedRefresh : Services → AuthPayload → Type 0
IsSignedRefresh s p = IsSigned s (refresh_claims p) (some (s.setting "JWT_REFRESH_EXPIRES_IN" "7d"))

module _ (s : Services) where
  refresh_ok :
      (token : String) (held : JwtPayload) (user : User)
      → s.verify token ≡ some held
      → held.token_type ≡ some TokenType.refresh_token
      → s.find_user held.tenant_id held.sub ≡ some user
      → employment_status_eq user.employment_status EmploymentStatus.active ≡ true
      → refresh s token ≡ ok (tokens_of s held.tenant_id user)
  unfolding refresh expect require
  refresh_ok token held user verified kind found active =
      rw (verified, expect) (rw (kind) (rw (found, expect) (rw (active, require) refl)))

-- A token that verifies, sent as a bearer token.
module _ (validate : String → Option ServicePrincipal) (verify : String → Option JwtPayload) where
  authenticate-bearer :
      (token : String) (held : JwtPayload) (correlation_id : Option String)
      → IsFree b' ' token
      → token ≢ ""
      → verify token ≡ some held
      → authenticate validate verify false (token_headers token correlation_id)
        ≡ of_payload correlation_id held.token_type held >>= λ ctx. ok (some ctx)
  unfolding authenticate by_token expect
  authenticate-bearer token held correlation_id free not_blank verified =
      let kept : str_eq token "" ≡ false = ground (arith, eq_iff token "") in
      rw (extract_token-bearer token free, authenticate, by_token)
        (rw (kept, expect) (rw (verified, expect) refl))

module _ (s : Services) where
  signed_tokens :
      (t : String) (user : User) (payload : AuthPayload)
      → payload ≡ tokens_of s t user
      → IsSignedRefresh s payload
      → IsSignedRefresh s (tokens_of s t user)
  signed_tokens t user payload same signed = subst (IsSignedRefresh s) same signed

  refresh_token-login :
      (input : LoginInput) (payload : AuthPayload)
      → login s input ≡ ok payload
      → payload.refresh_token
        ≡ s.sign (refresh_claims payload) (some (s.setting "JWT_REFRESH_EXPIRES_IN" "7d"))
  unfolding tokens_of issue_tokens
  refresh_token-login input payload h =
      let logged = login-IsLoggedIn s input payload h in rw (logged.tokens) refl

-- What a refresh gives for a user: fresh tokens of the moment of the refresh, for the tenant of the
-- payload and with the roles and the permissions that the user has then.
pub record IsRenewed (later : Services) (payload : AuthPayload) (user : User) : Type 0 where
  pub fresh : AuthPayload
  pub given : refresh later payload.refresh_token ≡ ok fresh
  pub user_id : fresh.user_id ≡ user.id
  pub tenant_id : fresh.tenant_id ≡ payload.tenant_id
  pub email : fresh.email ≡ user.email
  pub authorities : AreAuthorities later payload.tenant_id user.id fresh.roles fresh.permissions
  pub access_token : fresh.access_token ≡ later.sign (access_claims fresh) none
  pub refresh_token :
      fresh.refresh_token
      ≡ later.sign (refresh_claims fresh) (some (later.setting "JWT_REFRESH_EXPIRES_IN" "7d"))

module _ (s later : Services) where
  -- The refresh token of a login is good for a refresh at a later moment, where the JWT library
  -- still accepts the token and the user is still found and active: it gives fresh tokens for that
  -- user and the tenant of the login, with the roles and the permissions of that moment.
  pub refresh-login :
      (input : LoginInput) (payload : AuthPayload) (user : User)
      → later.verify
          (s.sign (refresh_claims payload) (some (s.setting "JWT_REFRESH_EXPIRES_IN" "7d")))
        ≡ some (refresh_claims payload)
      → login s input ≡ ok payload
      → later.find_user payload.tenant_id payload.user_id ≡ some user
      → user.employment_status ≡ EmploymentStatus.active
      → IsRenewed later payload user
  unfolding tokens_of issue_tokens
  refresh-login input payload user verified h found active = record {
    fresh = tokens_of later payload.tenant_id user;
    given =
        refresh_ok later payload.refresh_token (refresh_claims payload) user
          (rw (refresh_token-login s input payload h) verified) refl found
          ((employment_status_eq_iff user.employment_status EmploymentStatus.active).1 active);
    user_id = refl;
    tenant_id = refl;
    email = refl;
    authorities = resolve-AreAuthorities later payload.tenant_id user.id;
    access_token = refl;
    refresh_token = refl;
  }

module _ (s : Services) (validate : String → Option ServicePrincipal) where
  -- The access token of a login, sent as a bearer token, is the logged-in user's principal with
  -- the roles and the permissions of the payload, where the JWT library accepts its own token.
  pub authenticate-login :
      (input : LoginInput) (payload : AuthPayload) (correlation_id : Option String)
      → IsSignedAccess s payload
      → login s input ≡ ok payload
      → authenticate validate s.verify false (token_headers payload.access_token correlation_id)
        ≡ ok (some (payload_context payload correlation_id))
  unfolding tokens_of issue_tokens of_payload
  authenticate-login input payload correlation_id signed h =
      let logged = login-IsLoggedIn s input payload h in
      let made = tokens_of s logged.tenant.id logged.user in
      let sound = subst (IsSignedAccess s) logged.tokens signed in
      rw (logged.tokens) (
        authenticate-bearer validate s.verify made.access_token (access_claims made) correlation_id
          sound.free sound.filled sound.verified)

  -- The refresh token of a login, sent as a bearer token, is refused.
  pub authenticate-refresh_token :
      (input : LoginInput) (payload : AuthPayload) (correlation_id : Option String)
      → IsSignedRefresh s payload
      → login s input ≡ ok payload
      → authenticate validate s.verify false (token_headers payload.refresh_token correlation_id)
        ≡ throw (unauthorized "Refresh tokens cannot be used to authorize requests")
  unfolding tokens_of issue_tokens of_payload
  authenticate-refresh_token input payload correlation_id signed h =
      let logged = login-IsLoggedIn s input payload h in
      let made = tokens_of s logged.tenant.id logged.user in
      let sound = signed_tokens s logged.tenant.id logged.user payload logged.tokens signed in
      rw (logged.tokens) (
        authenticate-bearer validate s.verify made.refresh_token (refresh_claims made)
          correlation_id sound.free sound.filled sound.verified)
