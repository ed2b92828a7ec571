-- ===== src/Api/Effects.antt =====
-- What a request for a decision rests on, and what the operations without guards of their own ask
-- for.
use iam_access_control_servi.Prelude.{
  String, Option, ◌≡◌, ◌≢◌, inl, inr, refl, sym, ap, ◌∙◌, true, false, some,
}
use iam_access_control_servi.Outcome.{Outcome, Outcome-cases, ok, throw}
use iam_access_control_servi.Domain.Contracts.{AuthorizationDecision, AuthorizationRequest}
use iam_access_control_servi.Authorization.{World, run_pipeline}
use iam_access_control_servi.Authorization.Allow.{IsPermitted, run_pipeline_allow}
use iam_access_control_servi.Access.Contracts.{AuthContext}
use iam_access_control_servi.Access.Jwt.{Headers, IsVerified, authenticate}
use iam_access_control_servi.Services.Directory.{
  Asks, CheckAccessInput, access_request, access_request-Asks,
}
use iam_access_control_servi.Api.Calls.{
  Call, DepartmentsCall, IdentitiesCall, PermissionsCall, PoliciesCall, RolesCall, TenantsCall,
  UsersCall, marks, unmarked,
}
use iam_access_control_servi.Requests.Pagination.{ℤ, PaginationArgs}
use iam_access_control_servi.Api.Backend.{Answer, Backend, Outside, Reply, auth_services}
use iam_access_control_servi.Api.Resolvers.{check_access_resolver, decided, handle}
use iam_access_control_servi.Api.Admission.{
  IsAdmitted, pass_guards, resolve, serve, serve-IsAdmitted,
}

module _ {Db : Type 0} (b : Backend Db) (outside : Outside Db) where
  -- A request that is answered was admitted.
  pub serve_answered :
      (headers : Headers) (call : Call) (w : World Db) (reply : Reply) (w' : World Db)
      → (marks call).is_public ≡ false
      → serve b outside headers call w ≡ (ok reply, w')
      → (ctx : AuthContext) × IsAdmitted b headers call w ctx
        × (handle b outside ctx call w ≡ (ok reply, w'))
  serve_answered headers call w reply w' private h =
      elim (serve-IsAdmitted b outside headers call w private) [
        | inl (e, refused) ↦ let bad = ap (λ (a : Answer Db). a.0) (sym refused ∙ h) in cc
        | inr (ctx, admitted, same) ↦ (ctx, admitted, sym same ∙ h)
      ]

  -- What an access that the API allows rests on.
  pub record IsAllowed (headers : Headers) (input : CheckAccessInput) (w : World Db) : Type 0 where
    pub ctx : AuthContext
    pub verified :
        IsVerified (auth_services b w.db).validate_api_key (auth_services b w.db).verify headers ctx
    pub own_tenant : input.tenant_id ≢ "" → input.tenant_id ≡ ctx.tenant_id
    pub request : AuthorizationRequest
    pub asked : Asks b.parse ctx input request
    pub permitted : IsPermitted b.prisma b.hierarchy request outside.run w

  decided_ok :
      (o : Outcome AuthorizationDecision × World Db) (d : AuthorizationDecision) (w' : World Db)
      → decided b o ≡ (ok (Reply.decision_reply d), w')
      → o ≡ (ok d, w')
  decided_ok (throw e, after) d w' h = cc
  decided_ok (ok x, after) d w' h = cc

  check_access_answered :
      (ctx : AuthContext) (input : CheckAccessInput) (w w' : World Db) (d : AuthorizationDecision)
      → check_access_resolver b outside ctx input w ≡ (ok (Reply.decision_reply d), w')
      → (request : AuthorizationRequest) × (access_request b.parse ctx input ≡ ok request)
        × (run_pipeline b.prisma b.hierarchy request outside.run w ≡ (ok d, w'))
  unfolding check_access_resolver
  check_access_answered ctx input w w' d h =
      elim (Outcome-cases (access_request b.parse ctx input)) [
        | inl (e, refused) ↦
            let bad = ap (λ (a : Answer Db). a.0) (rw (refused, check_access_resolver) at h) in cc
        | inr (request, made) ↦ (
          request,
          made,
          decided_ok (run_pipeline b.prisma b.hierarchy request outside.run w) d w'
              (rw (made, check_access_resolver) at h),
        )
      ]

  -- An access that the API allows was asked for with a verified credential, in the tenant of that
  -- credential, which the input names if it names one; and the pipeline had the grounds to allow the
  -- subject, the action, the resource and the attributes that the input asks for.
  pub serve_check_access :
      (headers : Headers) (input : CheckAccessInput) (w w' : World Db) (d : AuthorizationDecision)
      → serve b outside headers (Call.check_access input) w ≡ (ok (Reply.decision_reply d), w')
      → d.allowed ≡ true
      → IsAllowed headers input w
  unfolding handle marks
  serve_check_access headers input w w' d h allowed =
      let (ctx, admitted, handled) =
        serve_answered headers (Call.check_access input) w (Reply.decision_reply d) w' refl h in
      let (request, made, ran) = check_access_answered ctx input w w' d handled in
      record {
        ctx = ctx;
        verified = admitted.verified;
        own_tenant = admitted.own_tenant refl input.tenant_id refl;
        request = request;
        asked = access_request-Asks b.parse ctx input request made;
        permitted =
            run_pipeline_allow b.prisma b.hierarchy request outside.run w d
              (ap (λ (r : Outcome AuthorizationDecision × World Db). r.0) ran) allowed;
      }

-- The operations that any principal may call: all on users, roles, permissions and departments,
-- their mutations included, and the queries on policies, the tenant, the service identities, the
-- hierarchy and the audit log.
pub data IsOpen : Call → Type 0 where
  on_users : (call : UsersCall) → IsOpen (Call.of_users call)
  on_roles : (call : RolesCall) → IsOpen (Call.of_roles call)
  on_permissions : (call : PermissionsCall) → IsOpen (Call.of_permissions call)
  on_departments : (call : DepartmentsCall) → IsOpen (Call.of_departments call)
  policies :
      (pagination : PaginationArgs) → IsOpen (Call.of_policies (PoliciesCall.policies pagination))
  tenant : IsOpen (Call.of_tenants TenantsCall.tenant)
  service_identities :
      (pagination : PaginationArgs)
      → IsOpen (Call.of_identities (IdentitiesCall.service_identities pagination))
  hierarchy : (user_id : String) → IsOpen (Call.organization_hierarchy user_id)
  audit :
      (take : Option ℤ) (subject_user_id : Option String)
      → IsOpen (Call.audit_logs take subject_user_id)

IsOpen-unmarked : {call : Call} → IsOpen call → marks call ≡ unmarked
unfolding marks
IsOpen-unmarked (on_users call) = refl
IsOpen-unmarked (on_roles call) = refl
IsOpen-unmarked (on_permissions call) = refl
IsOpen-unmarked (on_departments call) = refl
IsOpen-unmarked (policies pagination) = refl
IsOpen-unmarked tenant = refl
IsOpen-unmarked (service_identities pagination) = refl
IsOpen-unmarked (hierarchy user_id) = refl
IsOpen-unmarked (audit take subject_user_id) = refl

module _ {Db : Type 0} (b : Backend Db) (outside : Outside Db) where
  -- The operations on users, roles, permissions and departments, and the queries on policies, the
  -- tenant, the service identities, the hierarchy and the audit log, are refused to no principal:
  -- whatever roles and permissions it has, the request is answered by the resolver for it. The
  -- assignment of a role and the grant of a permission are among them.
  pub serve-IsOpen :
      (headers : Headers) (call : Call) (w : World Db) (ctx : AuthContext)
      → IsOpen call
      → authenticate
          (auth_services b w.db).validate_api_key
          (auth_services b w.db).verify
          false
          headers
        ≡ ok (some ctx)
      → serve b outside headers call w ≡ handle b outside ctx call w
  unfolding serve pass_guards resolve
  serve-IsOpen headers call w ctx open_ known =
      let plain = IsOpen-unmarked open_ in
      rw (plain, serve) (rw (known) (rw (plain, pass_guards) refl))
