-- ===== src/Seed/TenantB.antt =====
-- prisma/seed.ts: `seedTenantB`.
use iam_access_control_servi.Services.Entities.{Department}
use iam_access_control_servi.Seed.Tenants.{department_row}
use iam_access_control_servi.Prelude.{String, true, none, some, List, [], ◌∷◌}
use iam_access_control_servi.Domain.Enums.{ClearanceLevel, PolicyEffect}
use iam_access_control_servi.Domain.Models.{Policy, Resource, Tenant}
use iam_access_control_servi.Seed.Policies.{own_line, policy_row, unconditional}
use iam_access_control_servi.Seed.Tenants.{
  PermissionDef, RoleDef, RolePermissionRow, SeedUser, UserRoleRow, active_tenant, resource_row,
  role_id_by_name,
}

abbrev pub tenant_b : Tenant
tenant_b = active_tenant "tenant-b" "Globex Inc"

abbrev pub users_b : List SeedUser
users_b =
    record {
      id = "ceo-b";
      email = "ceo@tenant-b.com";
      designation = "CEO";
      department_id = none;
      manager_id = none;
      clearance_level = ClearanceLevel.top_secret;
      location = "HQ";
      roles = "Admin" ∷ "Executive" ∷ [];
    }
    ∷ record {
      id = "employee-b1";
      email = "employee1@tenant-b.com";
      designation = "Engineer";
      department_id = some "dept-eng-b";
      manager_id = some "ceo-b";
      clearance_level = ClearanceLevel.internal;
      location = "HQ";
      roles = "Employee" ∷ [];
    }
    ∷ []

abbrev pub roles_b : List RoleDef
roles_b =
    record { id = "role-admin-b"; name = "Admin"; description = none }
    ∷ record { id = "role-exec-b"; name = "Executive"; description = none }
    ∷ record { id = "role-employee-b"; name = "Employee"; description = none }
    ∷ []

abbrev pub permissions_b : List PermissionDef
permissions_b =
    record {
      id = "perm-perf-b";
      name = "employee.performance.view";
      resource = "employee";
      action = "performance.view";
    }
    ∷ record { id = "perm-wildcard-b"; name = "*"; resource = "*"; action = "*" }
    ∷ []

unfoldable pub role_permissions_b : List RolePermissionRow
unfolding role_id_by_name
role_permissions_b =
    record {
      tenant_id = "tenant-b";
      role_id = role_id_by_name roles_b "Admin";
      permission_id = some "perm-wildcard-b";
    }
    ∷ record {
      tenant_id = "tenant-b";
      role_id = role_id_by_name roles_b "Executive";
      permission_id = some "perm-perf-b";
    }
    ∷ []

abbrev pub role_of_b : String → String → UserRoleRow
unfolding role_id_by_name
role_of_b user_id name = record {
  tenant_id = "tenant-b";
  user_id = user_id;
  role_id = role_id_by_name roles_b name;
}

unfoldable pub user_roles_b : List UserRoleRow
user_roles_b =
    role_of_b "ceo-b" "Admin"
    ∷ role_of_b "ceo-b" "Executive"
    ∷ role_of_b "employee-b1" "Employee"
    ∷ []

abbrev pub resources_b : List Resource
resources_b =
    resource_row "tenant-b" "employee-b1" "employee" (some "employee-b1") (some "dept-eng-b")
      ClearanceLevel.confidential
    ∷ []

abbrev pub policies_b : List Policy
policies_b =
    record (policy_row "tenant-b" "allow-performance-view" "" PolicyEffect.allow
      "employee.performance.view" "employee" 100
      (record unconditional { relationships = some own_line; require_permission = some true })) {
        description = none;
      }
    ∷ []

abbrev pub departments_b : List Department
departments_b = department_row "tenant-b" "dept-eng-b" "Engineering" ∷ []
