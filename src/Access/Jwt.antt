-- ===== src/Access/Jwt.antt =====
-- src/common/guards/jwt-auth.guard.ts: how a request gets its principal.
use iam_access_control_servi.Prelude.{
  String, ◌≡◌, ◌≢◌, Bool, true, false, Option, none, some, some-inj, List, [], ◌∷◌, arith,
  Option-cases, inl, inr, if◌then◌else◌, str_eq, sym, ap, ◌∙◌,
}
use iam_access_control_servi.Outcome.{
  Outcome, ok, throw, unauthorized, ◌>>=◌, >>=-eq-ok, ok-inj, expect, expect-eq-ok,
}
use iam_access_control_servi.Access.Contracts.{AuthContext, JwtPayload, ServicePrincipal, TokenType}
use iam_access_control_servi.Access.Texts.{before_first, second_part, to_lower}

-- The headers that the guard reads; a missing header is none.
pub record Headers : Type 0 where
  pub api_key : Option String
  pub authorization : Option String
  pub correlation_id : Option String

-- `if (!value)` on a text that may be missing.
abbrev pub filled : Option String → Option String
filled none = none
filled (some s) = if str_eq s "" then none else some s

-- `extractToken`, on a header that is not empty.
unfoldable pub bearer_value : String → Option String
unfolding before_first second_part to_lower
bearer_value header =
    if str_eq (to_lower (before_first b' ' header)) "bearer" then second_part b' ' header else none

unfoldable pub extract_token : Option String → Option String
unfolding bearer_value
extract_token authorization = elim (filled authorization) [
  | none ↦ none
  | some header ↦ bearer_value header
]

-- `x ?? []`
abbrev pub list_or : Option (List String) → List String
list_or none = []
list_or (some xs) = xs

abbrev pub flag_or : Option Bool → Bool
flag_or none = false
flag_or (some b) = b

abbrev pub service_context : Option String → ServicePrincipal → AuthContext
service_context correlation_id p = record {
  user_id = p.id;
  tenant_id = p.tenant_id;
  email = none;
  roles = "service" ∷ [];
  permissions = "*" ∷ [];
  is_service = true;
  correlation_id = correlation_id;
}

abbrev pub token_context : Option String → JwtPayload → AuthContext
token_context correlation_id payload = record {
  user_id = payload.sub;
  tenant_id = payload.tenant_id;
  email = payload.email;
  roles = list_or payload.roles;
  permissions = list_or payload.permissions;
  is_service = flag_or payload.is_service;
  correlation_id = correlation_id;
}

-- `payload.type === 'refresh'` throws.
unfoldable pub of_payload : Option String → Option TokenType → JwtPayload → Outcome AuthContext
of_payload correlation_id (some TokenType.refresh_token) payload =
    throw (unauthorized "Refresh tokens cannot be used to authorize requests")
of_payload correlation_id (some TokenType.access_token) payload =
    ok (token_context correlation_id payload)
of_payload correlation_id none payload = ok (token_context correlation_id payload)

-- `validate` is `ServiceIdentitiesService.validateApiKey`; `verify` is `JwtService.verifyAsync`,
-- none where it throws.
module _ (validate : String → Option ServicePrincipal) (verify : String → Option JwtPayload) where
  unfoldable pub by_api_key : Headers → String → Outcome AuthContext
  by_api_key headers api_key = do
    principal ← expect (unauthorized "Invalid service API key") (validate api_key)
    ok (service_context headers.correlation_id principal)

  unfoldable pub by_token : Headers → Outcome AuthContext
  unfolding extract_token of_payload
  by_token headers = do
    token ←
        expect (unauthorized "Missing bearer token or API key")
          (filled (extract_token headers.authorization))
    payload ← expect (unauthorized "Invalid or expired token") (verify token)
    of_payload headers.correlation_id payload.token_type payload

  -- `JwtAuthGuard.canActivate`: the principal that it attaches, none for a public operation.
  unfoldable pub authenticate : Bool → Headers → Outcome (Option AuthContext)
  unfolding by_api_key by_token
  authenticate true headers = ok none
  authenticate false headers = do
    ctx ← elim (filled headers.api_key) [
      | some api_key ↦ by_api_key headers api_key
      | none ↦ by_token headers
    ]
    ok (some ctx)

  -- Where a principal comes from: a valid API key, or a verified token that is no refresh token.
  pub data IsVerified (headers : Headers) (ctx : AuthContext) : Type 0 where
    from_api_key :
        (api_key : String) (p : ServicePrincipal)
        → headers.api_key ≡ some api_key
        → validate api_key ≡ some p
        → ctx ≡ service_context headers.correlation_id p
        → IsVerified headers ctx
    from_token :
        (token : String) (payload : JwtPayload)
        → extract_token headers.authorization ≡ some token
        → verify token ≡ some payload
        → payload.token_type ≢ some TokenType.refresh_token
        → ctx ≡ token_context headers.correlation_id payload
        → IsVerified headers ctx

  filled-some : (o : Option String) {s : String} → filled o ≡ some s → o ≡ some s
  filled-some none h = cc
  filled-some (some s) h = ground arith

  of_payload_ok :
      (correlation_id : Option String) (kind : Option TokenType) (payload : JwtPayload)
      {ctx : AuthContext}
      → of_payload correlation_id kind payload ≡ ok ctx
      → (kind ≢ some TokenType.refresh_token) × (ctx ≡ token_context correlation_id payload)
  unfolding of_payload
  of_payload_ok c (some TokenType.refresh_token) payload h = cc
  of_payload_ok c (some TokenType.access_token) payload h = (λ e. cc, cc)
  of_payload_ok c none payload h = (λ e. cc, cc)

  by_api_key-IsVerified :
      (headers : Headers) (api_key : String) (ctx : AuthContext)
      → filled headers.api_key ≡ some api_key
      → by_api_key headers api_key ≡ ok ctx
      → IsVerified headers ctx
  unfolding by_api_key
  by_api_key-IsVerified headers api_key ctx e h =
      let (p, expected, rest) = >>=-eq-ok (expect _ (validate api_key)) _ h in
      IsVerified.from_api_key api_key p (filled-some headers.api_key e)
        (expect-eq-ok _ (validate api_key) expected) (sym (ok-inj rest))

  by_token-IsVerified :
      (headers : Headers) (ctx : AuthContext) → by_token headers ≡ ok ctx → IsVerified headers ctx
  unfolding by_token
  by_token-IsVerified headers ctx h =
      let (token, extracted, rest) =
        >>=-eq-ok (expect _ (filled (extract_token headers.authorization))) _ h in
      let (payload, verified, last) = >>=-eq-ok (expect _ (verify token)) _ rest in
      let (no_refresh, same) =
        of_payload_ok headers.correlation_id payload.token_type payload last in
      IsVerified.from_token token payload
        (filled-some (extract_token headers.authorization)
          (expect-eq-ok _ (filled (extract_token headers.authorization)) extracted))
        (expect-eq-ok _ (verify token) verified) no_refresh same

  -- A principal that the guard attaches comes of a valid API key or of a verified token that is
  -- no refresh token, and has the tenant, the roles and the permissions of that credential.
  pub authenticate-IsVerified :
      (headers : Headers) (ctx : AuthContext)
      → authenticate false headers ≡ ok (some ctx)
      → IsVerified headers ctx
  unfolding authenticate
  authenticate-IsVerified headers ctx h = elim (Option-cases (filled headers.api_key)) [
    | inr (api_key, e) ↦
        let (c, made, rest) =
          >>=-eq-ok (by_api_key headers api_key) _ (rw (e, authenticate) at h) in
        by_api_key-IsVerified headers api_key ctx e (made ∙ ap ok (some-inj (ok-inj rest)))
    | inl e ↦
        let (c, made, rest) = >>=-eq-ok (by_token headers) _ (rw (e, authenticate) at h) in
        by_token-IsVerified headers ctx (made ∙ ap ok (some-inj (ok-inj rest)))
  ]

  -- Where a public operation is not asked for, the guard attaches a principal or throws.
  pub authenticate-some :
      (headers : Headers) {user : Option AuthContext}
      → authenticate false headers ≡ ok user
      → (ctx : AuthContext) × (user ≡ some ctx)
  unfolding authenticate
  authenticate-some headers h =
      let (ctx, made, rest) =
        >>=-eq-ok
          (elim (filled headers.api_key) [
            | some api_key ↦ by_api_key headers api_key
            | none ↦ by_token headers
          ])
          _ h in
      (ctx, sym (ok-inj rest))
