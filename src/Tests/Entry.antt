-- ===== src/Tests/Entry.antt =====
-- Credentials, guards, pages and errors at concrete inputs.
use iam_access_control_servi.Prelude.{
  String, ◌≡◌, ◌↔◌, refl, true, false, Option, none, some, Bool, [], ◌∷◌, str_eq, if◌then◌else◌,
  concat, ◌≢◌,
}
use iam_access_control_servi.Outcome.{expect, ok}
use iam_access_control_servi.Domain.Models.{ServiceIdentity, User}
use iam_access_control_servi.Access.Contracts.{
  AuthContext, JwtPayload, LoginInput, ServicePrincipal, TokenType,
}
use iam_access_control_servi.Access.Texts.{split_first}
use iam_access_control_servi.Access.ApiKeys.{
  IsIssued, check_parts, check_secret, key_parts, principal_of, validate_api_key,
  validate_api_key_sound,
}
use iam_access_control_servi.Access.Guards.{
  HasPermission, IsNamed, permissions_guard, permissions_guard_iff, tenant_guard, tenant_guard_iff,
}
use iam_access_control_servi.Access.Jwt.{
  Headers, IsVerified, authenticate, authenticate-IsVerified, service_context,
}
use iam_access_control_servi.Access.Login.{
  IsLoggedIn, IsRefreshed, Services, login, login-IsLoggedIn, refresh, refresh-IsRefreshed,
  tokens_of,
}
use iam_access_control_servi.Requests.Pagination.{ℤ, PaginationArgs, to_prisma_pagination}
use iam_access_control_servi.Tests.Samples.{tenant, user}

abbrev identity : ServiceIdentity
identity = record {
  id = "svc";
  tenant_id = "t";
  name = "payroll";
  api_key_hash = "#x";
  enabled = true;
  created_at = 0;
}

abbrev find_identity : String → Option ServiceIdentity
find_identity id = if str_eq id "svc" then some identity else none

abbrev compare : String → String → Bool
compare plain hash = str_eq (concat ("#" ∷ plain ∷ [])) hash

valid_key : validate_api_key find_identity compare "svc.x" ≡ some (principal_of identity)
unfolding validate_api_key key_parts check_parts check_secret split_first
valid_key = refl

validate_api_key_sound_example : IsIssued find_identity compare "svc.x" (principal_of identity)
validate_api_key_sound_example =
    validate_api_key_sound find_identity compare "svc.x" (principal_of identity) valid_key

abbrev principal : AuthContext
principal = record {
  user_id = "ann";
  tenant_id = "t";
  email = none;
  roles = "admin" ∷ [];
  permissions = "role.*" ∷ [];
  is_service = false;
  correlation_id = none;
}

permissions_guard_iff_example :
    (permissions_guard (some ("role.create" ∷ [])) (some principal) ≡ ok true)
    ↔ HasPermission ("role.*" ∷ []) ("role.create" ∷ [])
permissions_guard_iff_example = permissions_guard_iff "role.create" [] principal

tenant_guard_iff_example :
    (tenant_guard (some principal) true (some "t") (some "u") ≡ ok true)
    ↔ ((x : String) → IsNamed (some "t") (some "u") x → x ≢ "" → x ≡ "t")
tenant_guard_iff_example = tenant_guard_iff principal (some "t") (some "u")

abbrev headers : Headers
headers = record { api_key = some "k"; authorization = none; correlation_id = none }

abbrev validate : String → Option ServicePrincipal
validate key = if str_eq key "k" then some (principal_of identity) else none

abbrev no_tokens : String → Option JwtPayload
no_tokens token = none

by_key :
    authenticate validate no_tokens false headers
    ≡ ok (some (service_context none (principal_of identity)))
unfolding authenticate expect
by_key = refl

authenticate-IsVerified_example :
    IsVerified validate no_tokens headers (service_context none (principal_of identity))
authenticate-IsVerified_example =
    authenticate-IsVerified validate no_tokens headers
      (service_context none (principal_of identity)) by_key

abbrev member : User
member = record (user "ann") { password_hash = some "#x"; email = "a@t" }

abbrev held : JwtPayload
held = record {
  sub = "ann";
  tenant_id = "t";
  email = some "a@t";
  roles = some [];
  permissions = some [];
  is_service = some false;
  token_type = some TokenType.refresh_token;
}

abbrev services : Services
services = record {
  find_tenant = λ slug. if str_eq slug "tee" then some tenant else none;
  find_by_email = λ t email. some member;
  find_user = λ t id. some member;
  find_user_roles = λ p. [];
  compare = compare;
  verify = λ token. if str_eq token "r" then some held else none;
  sign = λ payload expires. "signed";
  setting = λ name fallback. fallback;
  validate_api_key = λ key. none;
}

abbrev credentials : LoginInput
credentials = record { tenant_slug = "tee"; email = "a@t"; password = "x" }

logged_in : login services credentials ≡ ok (tokens_of services "t" member)
unfolding login
logged_in = refl

login-IsLoggedIn_example : IsLoggedIn services credentials (tokens_of services "t" member)
login-IsLoggedIn_example =
    login-IsLoggedIn services credentials (tokens_of services "t" member) logged_in

refreshed : refresh services "r" ≡ ok (tokens_of services "t" member)
unfolding refresh
refreshed = refl

refresh-IsRefreshed_example : IsRefreshed services "r" (tokens_of services "t" member)
refresh-IsRefreshed_example =
    refresh-IsRefreshed services "r" (tokens_of services "t" member) refreshed

abbrev greedy : PaginationArgs
greedy = record { take = some (ℤ.pos 5000); skip = some (ℤ.negsuc 2) }

greedy_test : to_prisma_pagination greedy ≡ record { take = 200; skip = 0 }
unfolding to_prisma_pagination
greedy_test = refl
