-- ===== src/Api/Resolvers.antt =====
-- The resolvers of src: each hands the tenant of the principal and the arguments to a service.
use iam_access_control_servi.Requests.Pagination.{ℤ}
use iam_access_control_servi.Prelude.{Option}
use iam_access_control_servi.Prelude.{String, some}
use iam_access_control_servi.Outcome.{Outcome, ok, throw}
use iam_access_control_servi.Cache.{Cache}
use iam_access_control_servi.Domain.Contracts.{AuthorizationDecision}
use iam_access_control_servi.Authorization.{World, run_pipeline}
use iam_access_control_servi.Authorization.Facts.{Cached}
use iam_access_control_servi.Authorization.Trail.{all_logs}
use iam_access_control_servi.Hierarchy.Listings.{organization_hierarchy}
use iam_access_control_servi.Access.Contracts.{AuthContext}
use iam_access_control_servi.Access.Login.{issue_service_token, login, refresh}
use iam_access_control_servi.Services.Roles.{
  all_permissions, all_roles, assign_permission, assign_role, create_permission, create_role,
  find_role,
}
use iam_access_control_servi.Services.Policies.{all_policies, create_policy}
use iam_access_control_servi.Services.Users.{
  Change, UserData, all_users, assign_user_manager, create_user, find_user, update_user,
}
use iam_access_control_servi.Services.Directory.{
  CheckAccessInput, access_request, all_departments, create_department, find_department,
  find_tenant_by_id,
}
use iam_access_control_servi.Services.Identities.{all_identities, create_identity}
use iam_access_control_servi.Api.Calls.{
  AuthCall, Call, DepartmentsCall, IdentitiesCall, PermissionsCall, PoliciesCall, RolesCall,
  TenantsCall, UpdateUserInput, UsersCall,
}
use iam_access_control_servi.Api.Backend.{
  Answer, Backend, Outside, Reply, auth_services, keeping, reading, writing,
}

-- `const { id, ...changes } = input`
abbrev pub user_changes : UpdateUserInput → UserData
user_changes input = record {
  email = input.email;
  password_hash = Change.keep;
  department_id = input.department_id;
  designation = input.designation;
  clearance_level = input.clearance_level;
  location = input.location;
  employment_status = input.employment_status;
}

module _ {Db : Type 0} (b : Backend Db) where
  -- A call that writes to the database and to the cache.
  abbrev pub caching :
      {A : Type 0} → (A → Reply) → World Db → Outcome (A × Db × Cache Cached) → Answer Db
  caching reply w (throw e) = (throw e, w)
  caching reply w (ok (a, db, cache)) = (ok (reply a), record w { db = db; cache = cache })

  unfoldable pub users_resolver : AuthContext → UsersCall → World Db → Answer Db
  users_resolver p (UsersCall.users pagination) w = (
    ok (
        Reply.users_reply
          (all_users b.users b.hierarchy b.hash p.tenant_id (some pagination) w.db)),
    w,
  )
  users_resolver p (UsersCall.user id) w =
      reading Reply.user_reply w (find_user b.users b.hierarchy b.hash p.tenant_id id w.db)
  users_resolver p (UsersCall.create_user input) w =
      keeping Reply.user_reply w (create_user b.users b.hierarchy b.hash p.tenant_id input w.db)
  users_resolver p (UsersCall.update_user input) w =
      keeping Reply.user_reply w
        (update_user b.users b.hierarchy b.hash p.tenant_id input.id (user_changes input) w.db)
  users_resolver p (UsersCall.assign_manager input) w = keeping Reply.user_reply w (
      assign_user_manager b.users b.hierarchy b.hash p.tenant_id input.user_id input.manager_id
        w.db)

  unfoldable pub roles_resolver : AuthContext → RolesCall → World Db → Answer Db
  roles_resolver p (RolesCall.roles pagination) w = (
    ok (
        Reply.roles_reply
          (all_roles b.roles b.users b.assign_role_row p.tenant_id (some pagination) w.db)),
    w,
  )
  roles_resolver p (RolesCall.role id) w =
      reading Reply.role_reply w (find_role b.roles b.users b.assign_role_row p.tenant_id id w.db)
  roles_resolver p (RolesCall.create_role input) w =
      writing Reply.role_reply w
        (create_role b.roles b.users b.assign_role_row p.tenant_id input w.db)
  roles_resolver p (RolesCall.assign_role input) w = caching Reply.role_reply w (
      assign_role b.roles b.users b.assign_role_row p.tenant_id input.user_id input.role_id w.db
        w.cache)

  unfoldable pub permissions_resolver : AuthContext → PermissionsCall → World Db → Answer Db
  permissions_resolver p (PermissionsCall.permissions pagination) w = (
    ok (
        Reply.permissions_reply (
          all_permissions b.permissions b.assign_permission_row p.tenant_id (some pagination)
            w.db)),
    w,
  )
  permissions_resolver p (PermissionsCall.create_permission input) w =
      writing Reply.permission_reply w
        (create_permission b.permissions b.assign_permission_row p.tenant_id input w.db)
  permissions_resolver p (PermissionsCall.assign_permission input) w =
      caching Reply.permission_reply w (
        assign_permission b.permissions b.assign_permission_row p.tenant_id input.role_id
          input.permission_id w.db w.cache)

  unfoldable pub policies_resolver : AuthContext → PoliciesCall → World Db → Answer Db
  policies_resolver p (PoliciesCall.policies pagination) w =
      (ok (Reply.policies_reply (all_policies b.policies p.tenant_id (some pagination) w.db)), w)
  policies_resolver p (PoliciesCall.create_policy input) w =
      caching Reply.policy_reply w (create_policy b.policies p.tenant_id input w.db w.cache)

  unfoldable pub departments_resolver : AuthContext → DepartmentsCall → World Db → Answer Db
  departments_resolver p (DepartmentsCall.departments pagination) w = (
    ok (Reply.departments_reply (all_departments b.departments p.tenant_id (some pagination) w.db)),
    w,
  )
  departments_resolver p (DepartmentsCall.department id) w =
      reading Reply.department_reply w (find_department b.departments p.tenant_id id w.db)
  departments_resolver p (DepartmentsCall.create_department input) w =
      writing Reply.department_reply w (create_department b.departments p.tenant_id input w.db)

  -- The input of `createTenant` is for no tenant that is there.
  unfoldable pub tenants_resolver : AuthContext → TenantsCall → World Db → Answer Db
  tenants_resolver p TenantsCall.tenant w =
      reading Reply.tenant_reply w
        (find_tenant_by_id (λ id. b.tenants.find_by_id id w.db) p.tenant_id)
  tenants_resolver p (TenantsCall.create_tenant input) w =
      writing Reply.tenant_reply w (b.tenants.create input.name input.slug w.db)

  unfoldable pub identities_resolver : String → AuthContext → IdentitiesCall → World Db → Answer Db
  identities_resolver secret p (IdentitiesCall.service_identities pagination) w = (
    ok (Reply.identities_reply (all_identities b.identities p.tenant_id (some pagination) w.db)),
    w,
  )
  identities_resolver secret p (IdentitiesCall.create_service_identity name) w =
      writing Reply.identity_reply w
        (create_identity b.identities b.hash p.tenant_id name secret w.db)

  -- The operations of `auth` have no principal.
  unfoldable pub auth_resolver : AuthCall → World Db → Answer Db
  auth_resolver (AuthCall.login input) w =
      reading Reply.auth_reply w (login (auth_services b w.db) input)
  auth_resolver (AuthCall.refresh_token token) w =
      reading Reply.auth_reply w (refresh (auth_services b w.db) token)
  auth_resolver (AuthCall.issue_service_token api_key) w =
      reading Reply.service_reply w (issue_service_token (auth_services b w.db) api_key)

  abbrev pub decided : Outcome AuthorizationDecision × World Db → Answer Db
  decided (throw e, after) = (throw e, after)
  decided (ok d, after) = (ok (Reply.decision_reply d), after)

  -- `checkAccess`: the arguments are parsed before the pipeline runs.
  unfoldable pub check_access_resolver :
      Outside Db → AuthContext → CheckAccessInput → World Db → Answer Db
  check_access_resolver outside p input w = elim (access_request b.parse p input) [
    | throw e ↦ (throw e, w)
    | ok request ↦ decided (run_pipeline b.prisma b.hierarchy request outside.run w)
  ]

  unfoldable pub audit_resolver : AuthContext → Option ℤ → Option String → World Db → Answer Db
  audit_resolver p take subject_user_id w =
      (ok (Reply.logs_reply (all_logs b.prisma b.audit p.tenant_id take subject_user_id w.db)), w)

  -- An operation for a principal.
  unfoldable pub handle : Outside Db → AuthContext → Call → World Db → Answer Db
  unfolding users_resolver roles_resolver permissions_resolver policies_resolver
      departments_resolver tenants_resolver identities_resolver auth_resolver check_access_resolver
      audit_resolver
  handle outside p (Call.of_users call) w = users_resolver p call w
  handle outside p (Call.of_roles call) w = roles_resolver p call w
  handle outside p (Call.of_permissions call) w = permissions_resolver p call w
  handle outside p (Call.of_policies call) w = policies_resolver p call w
  handle outside p (Call.of_departments call) w = departments_resolver p call w
  handle outside p (Call.of_tenants call) w = tenants_resolver p call w
  handle outside p (Call.of_identities call) w = identities_resolver outside.secret p call w
  handle outside p (Call.of_auth call) w = auth_resolver call w
  handle outside p (Call.check_access input) w = check_access_resolver outside p input w
  handle outside p (Call.organization_hierarchy user_id) w = (
    ok (
        Reply.hierarchy_reply
          (organization_hierarchy b.hierarchy b.depth_order p.tenant_id user_id w.db)),
    w,
  )
  handle outside p (Call.audit_logs take subject_user_id) w =
      audit_resolver p take subject_user_id w
