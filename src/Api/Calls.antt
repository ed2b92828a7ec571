-- ===== src/Api/Calls.antt =====
-- The operations of src/*/*.resolver.ts with their arguments, and the marks that the decorators of
-- src/common/decorators put on them.
use iam_access_control_servi.Prelude.{String, Bool, true, false, Option, none, some, List, [], ◌∷◌}
use iam_access_control_servi.Domain.Enums.{ClearanceLevel, EmploymentStatus}
use iam_access_control_servi.Access.Contracts.{LoginInput}
use iam_access_control_servi.Requests.Pagination.{ℤ, PaginationArgs}
use iam_access_control_servi.Services.Roles.{PermissionData, RoleData}
use iam_access_control_servi.Services.Policies.{CreatePolicyInput}
use iam_access_control_servi.Services.Users.{Change, CreateUserInput}
use iam_access_control_servi.Services.Directory.{CheckAccessInput, DepartmentData}

pub record AssignManagerInput : Type 0 where
  pub user_id : String
  pub manager_id : String

pub record AssignRoleInput : Type 0 where
  pub user_id : String
  pub role_id : String

pub record AssignPermissionInput : Type 0 where
  pub role_id : String
  pub permission_id : String

pub record CreateTenantInput : Type 0 where
  pub name : String
  pub slug : String

-- The fields of a patch; the password and the manager are not among them.
pub record UpdateUserInput : Type 0 where
  pub id : String
  pub email : Change String
  pub department_id : Change String
  pub designation : Change String
  pub clearance_level : Change ClearanceLevel
  pub location : Change String
  pub employment_status : Change EmploymentStatus

pub data UsersCall : Type 0 where
  users : PaginationArgs → UsersCall
  user : String → UsersCall
  create_user : CreateUserInput → UsersCall
  update_user : UpdateUserInput → UsersCall
  assign_manager : AssignManagerInput → UsersCall

pub data RolesCall : Type 0 where
  roles : PaginationArgs → RolesCall
  role : String → RolesCall
  create_role : RoleData → RolesCall
  assign_role : AssignRoleInput → RolesCall

pub data PermissionsCall : Type 0 where
  permissions : PaginationArgs → PermissionsCall
  create_permission : PermissionData → PermissionsCall
  assign_permission : AssignPermissionInput → PermissionsCall

pub data PoliciesCall : Type 0 where
  policies : PaginationArgs → PoliciesCall
  create_policy : CreatePolicyInput → PoliciesCall

pub data DepartmentsCall : Type 0 where
  departments : PaginationArgs → DepartmentsCall
  department : String → DepartmentsCall
  create_department : DepartmentData → DepartmentsCall

pub data TenantsCall : Type 0 where
  tenant : TenantsCall
  create_tenant : CreateTenantInput → TenantsCall

pub data IdentitiesCall : Type 0 where
  service_identities : PaginationArgs → IdentitiesCall
  -- The name of the new identity.
  create_service_identity : String → IdentitiesCall

pub data AuthCall : Type 0 where
  login : LoginInput → AuthCall
  refresh_token : String → AuthCall
  issue_service_token : String → AuthCall

pub data Call : Type 0 where
  of_users : UsersCall → Call
  of_roles : RolesCall → Call
  of_permissions : PermissionsCall → Call
  of_policies : PoliciesCall → Call
  of_departments : DepartmentsCall → Call
  of_tenants : TenantsCall → Call
  of_identities : IdentitiesCall → Call
  of_auth : AuthCall → Call
  check_access : CheckAccessInput → Call
  organization_hierarchy : String → Call
  audit_logs : Option ℤ → Option String → Call

-- `@Public`, `@RequirePermission` with its guard, `@Roles` with its guard, and the `TenantGuard`.
pub record Marks : Type 0 where
  pub is_public : Bool
  pub required_permissions : Option (List String)
  pub required_roles : Option (List String)
  pub has_tenant_guard : Bool

abbrev pub unmarked : Marks
unmarked = record {
  is_public = false;
  required_permissions = none;
  required_roles = none;
  has_tenant_guard = false;
}

abbrev pub for_admins : Marks
for_admins = record unmarked { required_roles = some ("Admin" ∷ []) }

abbrev pub policies_marks : PoliciesCall → Marks
policies_marks (policies pagination) = unmarked
policies_marks (create_policy input) = record unmarked {
  required_permissions = some ("policy.manage" ∷ []);
}

abbrev pub tenants_marks : TenantsCall → Marks
tenants_marks tenant = unmarked
tenants_marks (create_tenant input) = for_admins

abbrev pub identities_marks : IdentitiesCall → Marks
identities_marks (service_identities pagination) = unmarked
identities_marks (create_service_identity name) = for_admins

unfoldable pub marks : Call → Marks
marks (of_users call) = unmarked
marks (of_roles call) = unmarked
marks (of_permissions call) = unmarked
marks (of_policies call) = policies_marks call
marks (of_departments call) = unmarked
marks (of_tenants call) = tenants_marks call
marks (of_identities call) = identities_marks call
marks (of_auth call) = record unmarked { is_public = true }
marks (check_access input) = record unmarked { has_tenant_guard = true }
marks (organization_hierarchy user_id) = unmarked
marks (audit_logs take subject_user_id) = unmarked
