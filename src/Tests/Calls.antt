-- ===== src/Tests/Calls.antt =====
-- Requests to the API over the backend in memory.
use iam_access_control_servi.Domain.Enums.{AccessDecision}
use iam_access_control_servi.Services.Identities.{IdentityWithKey}
use iam_access_control_servi.Api.Calls.{IdentitiesCall, PoliciesCall}
use iam_access_control_servi.Api.Effects.{}
use iam_access_control_servi.Api.Changes.{IsProvisioned, serve_create_identity}
use iam_access_control_servi.Services.Policies.{CreatePolicyInput}
use iam_access_control_servi.Tests.Samples.{condition}
use iam_access_control_servi.Services.Identities.{create_identity}
use iam_access_control_servi.Services.Policies.{create_policy}
use iam_access_control_servi.Prelude.{
  String, ◌≡◌, ◌⊎◌, refl, true, false, Option, none, some, Bool, [], ◌∷◌, concat, if◌then◌else◌,
  str_eq,
}
use iam_access_control_servi.Outcome.{Exception, Outcome, expect, ok, throw}
use iam_access_control_servi.Domain.Contracts.{Attributes, AuthorizationDecision}
use iam_access_control_servi.Authorization.{World}
use iam_access_control_servi.Access.Contracts.{AuthContext, JwtPayload, TokenType}
use iam_access_control_servi.Access.Jwt.{Headers, authenticate}
use iam_access_control_servi.Access.Login.{Services}
use iam_access_control_servi.Services.Directory.{CheckAccessInput, access_request}
use iam_access_control_servi.Services.Memory.{new_row}
use iam_access_control_servi.Api.Calls.{Call, RolesCall, marks}
use iam_access_control_servi.Api.Backend.{Answer, Backend, Outside, Reply}
use iam_access_control_servi.Api.Resolvers.{handle}
use iam_access_control_servi.Api.Admission.{
  IsAdmitted, principal_of_request, serve, serve-IsAdmitted,
}
use iam_access_control_servi.Api.Effects.{IsAllowed, IsOpen, serve_check_access, serve-IsOpen}
use iam_access_control_servi.Api.Memory.{Company, Shelf, backend}
use iam_access_control_servi.Authorization.{
  run_pipeline, validate_tenant, validate_subject, validate_status, validate_resource, decide,
  finalize, evaluation_context, policy_context, subject_facts,
}
use iam_access_control_servi.Authorization.Facts.{
  resolve_resource, find_applicable, permission_names_for_user, load_policies, collect_names,
  resource_facts, load_permission_names,
}
use iam_access_control_servi.Evaluators.PolicyEngine.{
  evaluate, combine, tally_policies, count_policy, matches,
}
use iam_access_control_servi.Evaluators.Abac.{
  abac_evaluate, departments_clause, employment_clause, locations_clause, max_sensitivity_clause,
  min_clearance_clause,
}
use iam_access_control_servi.Evaluators.Rbac.{granted, rbac_evaluate}
use iam_access_control_servi.Evaluators.Rebac.{rebac_resolve, satisfies}
use iam_access_control_servi.Clearance.{meets_clearance}
use iam_access_control_servi.Cache.{wrap, get, map_get, map_set, set}
use iam_access_control_servi.Cache.Keys.{permissions_key, policies_key}
use iam_access_control_servi.Hierarchy.{get_relationship}
use iam_access_control_servi.Authorization.Memory.{
  create_log, find, hierarchy_db, insert_audit, prisma_db, tenant_by_id,
}
use iam_access_control_servi.Access.ApiKeys.{check_parts, check_secret, key_parts, validate_api_key}
use iam_access_control_servi.Access.Texts.{split_first}
use iam_access_control_servi.Access.Guards.{tenant_guard}
use iam_access_control_servi.Repository.Memory.{first_row}
use iam_access_control_servi.Authorization.Memory.{beside, put}
use iam_access_control_servi.Api.Memory.{identities_beside, prisma_beside}
use iam_access_control_servi.Tests.Samples.{
  department, directory, own_docs, permission, role, tenant, user,
}

abbrev compare : String → String → Bool
compare plain hash = str_eq (concat ("#" ∷ plain ∷ [])) hash

abbrev claims : JwtPayload
claims = record {
  sub = "ann";
  tenant_id = "t";
  email = some "a@t";
  roles = some ("Admin" ∷ []);
  permissions = some [];
  is_service = some false;
  token_type = some TokenType.access_token;
}

abbrev services : Company → Services
services db = record {
  find_tenant = λ slug. if str_eq slug "tee" then some tenant else none;
  find_by_email = λ t email. none;
  find_user = λ t id. none;
  find_user_roles = λ p. [];
  compare = compare;
  verify = λ token. if str_eq token "adm" then some claims else none;
  sign = λ payload expires. "signed";
  setting = λ name fallback. fallback;
  validate_api_key = λ key. none;
}

abbrev no_json : String → Option Attributes
no_json text = none

abbrev company : Backend Company
company =
    backend (user "new") role permission own_docs department services (λ s. concat ("#" ∷ s ∷ []))
      no_json

abbrev shelf : Shelf
shelf = record {
  people = user "ann" ∷ [];
  roles = role ∷ [];
  permissions = permission ∷ [];
  departments = department ∷ [];
}

abbrev db : Company
db = ((directory (tenant ∷ []), shelf), new_row "t" "payroll" "#s3" [] ∷ [])

abbrev world : World Company
world = record { db = db; cache = record { store = []; recorded = [] }; decisions = [] }

abbrev outside : Outside Company
outside = record {
  run = record {
    decision_id = "d1";
    started_ns = 0;
    finished_ns = 2000000;
    permissions_now = 10;
    permissions_later = 11;
    policies_now = 12;
    policies_later = 13;
    seen = λ stage. db;
  };
  secret = "s4";
}

-- A service with its API key, and a bearer of a token.
abbrev service : Headers
service = record { api_key = some "i.s3"; authorization = none; correlation_id = none }

abbrev bearer : Headers
bearer = record { api_key = none; authorization = some "Bearer adm"; correlation_id = none }

abbrev input : CheckAccessInput
input = record {
  tenant_id = "t";
  subject_user_id = "ann";
  action = "doc.read";
  resource_type = "doc";
  resource_id = "memo";
  resource_attributes = none;
  subject_attributes = none;
}

abbrev asked : Answer Company
asked = serve company outside service (Call.check_access input) world

abbrev refused : AuthorizationDecision
refused = record {
  decision_id = "";
  allowed = false;
  effect = AccessDecision.deny;
  reason = "";
  matched_policies = [];
  evaluation_trace = [];
}

abbrev decision_in : Outcome Reply → AuthorizationDecision
decision_in (ok (Reply.decision_reply d)) = d
decision_in _ = refused

abbrev identity_in : Outcome Reply → IdentityWithKey
identity_in (ok (Reply.identity_reply made)) = made
identity_in _ = record {
  service_identity = record { id = ""; tenant_id = ""; name = ""; enabled = false; created_at = 0 };
  key = "";
}

-- An answer that allows is a decision.
decision_in-eq :
    (a : Answer Company)
    → (decision_in a.0).allowed ≡ true
    → a ≡ (ok (Reply.decision_reply (decision_in a.0)), a.1)
decision_in-eq (ok (Reply.decision_reply d), w) h = refl
decision_in-eq (_, w) h = cc

identity_in-eq :
    (a : Answer Company)
    → (identity_in a.0).service_identity.enabled ≡ true
    → a ≡ (ok (Reply.identity_reply (identity_in a.0)), a.1)
identity_in-eq (ok (Reply.identity_reply d), w) h = refl
identity_in-eq (_, w) h = cc

abbrev decision : AuthorizationDecision
decision = decision_in asked.0

asked_allowed : decision.allowed ≡ true
unfolding serve backend authenticate expect validate_api_key access_request key_parts check_parts
    check_secret split_first identities_beside first_row tenant_guard beside prisma_beside put
    run_pipeline prisma_db hierarchy_db validate_tenant validate_subject validate_status
    validate_resource resolve_resource decide finalize evaluate combine tally_policies count_policy
    find_applicable wrap permission_names_for_user permissions_key policies_key load_policies
    collect_names resource_facts load_permission_names create_log find insert_audit tenant_by_id
    evaluation_context policy_context subject_facts get map_get map_set set meets_clearance
    abac_evaluate departments_clause employment_clause locations_clause max_sensitivity_clause
    min_clearance_clause matches granted rbac_evaluate rebac_resolve satisfies get_relationship
asked_allowed = refl

serve_check_access_example : IsAllowed company outside service input world
serve_check_access_example =
    serve_check_access company outside service input world asked.1 decision
      (decision_in-eq asked asked_allowed) asked_allowed

serve-IsAdmitted_example :
    ((e : Exception) × (asked ≡ (throw e, world)))
    ⊎ ((ctx : AuthContext) × IsAdmitted company service (Call.check_access input) world ctx
        × (asked ≡ handle company outside ctx (Call.check_access input) world))
serve-IsAdmitted_example =
    serve-IsAdmitted company outside service (Call.check_access input) world (unfold marks in refl)

abbrev provision : Call
provision = Call.of_identities (IdentitiesCall.create_service_identity "billing")

abbrev provided : Answer Company
provided = serve company outside bearer provision world

provided_key : (identity_in provided.0).service_identity.enabled ≡ true
unfolding serve backend authenticate expect create_identity
provided_key = refl

serve_create_identity_example :
    IsProvisioned company outside bearer "billing" (identity_in provided.0) world provided.1
serve_create_identity_example =
    serve_create_identity company outside bearer "billing" (identity_in provided.0) world provided.1
      (unfold backend in refl) (λ e. cc) (identity_in-eq provided provided_key)

abbrev policy_input : CreatePolicyInput
policy_input = record {
  name = "own docs";
  description = none;
  effect = own_docs.effect;
  action = "doc.read";
  resource_type = none;
  priority = none;
  enabled = none;
  conditions = condition;
}

abbrev managing : Answer Company
managing =
    serve company outside service (Call.of_policies (PoliciesCall.create_policy policy_input)) world

abbrev reply_in : Outcome Reply → Reply
reply_in (ok r) = r
reply_in (throw e) = Reply.users_reply []

abbrev is_ok : Outcome Reply → Bool
is_ok (ok r) = true
is_ok (throw e) = false

-- A service gives a role to a user.
abbrev assignment : Call
assignment = Call.of_roles (RolesCall.assign_role (record { user_id = "ann"; role_id = "r" }))

abbrev payroll : AuthContext
payroll = record {
  user_id = "i";
  tenant_id = "t";
  email = none;
  roles = "service" ∷ [];
  permissions = "*" ∷ [];
  is_service = true;
  correlation_id = none;
}

by_service : principal_of_request company service assignment world ≡ ok (some payroll)
unfolding backend authenticate marks expect validate_api_key
by_service = refl

serve-IsOpen_example :
    serve company outside service assignment world ≡ handle company outside payroll assignment world
unfolding marks
serve-IsOpen_example =
    serve-IsOpen company outside service assignment world payroll (IsOpen.on_roles _) by_service
