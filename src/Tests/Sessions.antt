-- ===== src/Tests/Sessions.antt =====
-- A login, its tokens and a new API key at concrete inputs.
use iam_access_control_servi.Prelude.{
  String, ◌≡◌, refl, true, false, Option, List, none, some, Bool, [], ◌∷◌, arith, concat,
  if◌then◌else◌, str_eq,
}
use iam_access_control_servi.Outcome.{ok, throw, unauthorized}
use iam_access_control_servi.Domain.Models.{ServiceIdentity, User}
use iam_access_control_servi.Access.Contracts.{
  AuthPayload, JwtPayload, LoginInput, ServicePrincipal, TokenType,
}
use iam_access_control_servi.Access.Jwt.{authenticate}
use iam_access_control_servi.Access.Login.{Services, login}
use iam_access_control_servi.Access.Session.{
  IsRenewed, IsSigned, authenticate-login, authenticate-refresh_token, payload_context,
  refresh-login, token_headers,
}
use iam_access_control_servi.Services.Identities.{IdentityWithKey, create_identity}
use iam_access_control_servi.Services.Memory.{identities, new_row}
use iam_access_control_servi.Tests.Samples.{tenant, user}

abbrev compare : String → String → Bool
compare plain hash = str_eq (concat ("#" ∷ plain ∷ [])) hash

abbrev member : User
member = record (user "ann") { password_hash = some "#x"; email = "a@t" }

abbrev claims : TokenType → JwtPayload
claims kind = record {
  sub = "ann";
  tenant_id = "t";
  email = some "a@t";
  roles = some [];
  permissions = some [];
  is_service = some false;
  token_type = some kind;
}

abbrev sign : JwtPayload → Option String → String
sign payload none = "access"
sign payload (some expires) = "refresh"

abbrev verify : String → Option JwtPayload
verify token =
    if str_eq token "access"
    then some (claims TokenType.access_token)
    else if str_eq token "refresh"
    then some (claims TokenType.refresh_token)
    else none

abbrev services : Services
services = record {
  find_tenant = λ slug. if str_eq slug "tee" then some tenant else none;
  find_by_email = λ t email. some member;
  find_user = λ t id. some member;
  find_user_roles = λ p. [];
  compare = compare;
  verify = verify;
  sign = sign;
  setting = λ name fallback. fallback;
  validate_api_key = λ key. none;
}

abbrev credentials : LoginInput
credentials = record { tenant_slug = "tee"; email = "a@t"; password = "x" }

abbrev payload : AuthPayload
payload = record {
  access_token = "access";
  refresh_token = "refresh";
  expires_in = "1h";
  user_id = "ann";
  tenant_id = "t";
  email = "a@t";
  roles = [];
  permissions = [];
}

logged_in : login services credentials ≡ ok payload
unfolding login
logged_in = refl

IsSigned-access : IsSigned services (claims TokenType.access_token) none
IsSigned-access = record {
  verified = refl;
  free =
      (omega arith, (omega arith, (omega arith, (omega arith, (omega arith, (omega arith, tt))))));
  filled = λ e. cc;
}

IsSigned-refresh : IsSigned services (claims TokenType.refresh_token) (some "7d")
IsSigned-refresh = record {
  verified = refl;
  free = (
    omega arith,
    (omega arith, (omega arith, (omega arith, (omega arith, (omega arith, (omega arith, tt)))))),
  );
  filled = λ e. cc;
}

-- At a later moment the library signs other tokens.
abbrev sign_later : JwtPayload → Option String → String
sign_later _ none = "access-2"
sign_later _ (some expires) = "refresh-2"

abbrev later : Services
later = record services { sign = sign_later }

refresh-login_example : IsRenewed later payload member
refresh-login_example =
    refresh-login services later credentials payload member refl logged_in refl refl

abbrev no_keys : String → Option ServicePrincipal
no_keys key = none

authenticate-login_example :
    authenticate no_keys verify false (token_headers "access" (some "c-1"))
    ≡ ok (some (payload_context payload (some "c-1")))
authenticate-login_example =
    authenticate-login services no_keys credentials payload (some "c-1") IsSigned-access logged_in

authenticate-refresh_token_example :
    authenticate no_keys verify false (token_headers "refresh" (some "c-1"))
    ≡ throw (unauthorized "Refresh tokens cannot be used to authorize requests")
authenticate-refresh_token_example =
    authenticate-refresh_token services no_keys credentials payload (some "c-1") IsSigned-refresh
      logged_in

abbrev hash : String → String
hash plain = concat ("#" ∷ plain ∷ [])

abbrev issued : IdentityWithKey
issued = record {
  service_identity = record {
    id = "i";
    tenant_id = "t";
    name = "payroll";
    enabled = true;
    created_at = 0;
  };
  key = "i.s3";
}

abbrev table : List ServiceIdentity
table = new_row "t" "payroll" "#s3" [] ∷ []

created : create_identity identities hash "t" "payroll" "s3" [] ≡ ok (issued, table)
unfolding create_identity
created = refl
