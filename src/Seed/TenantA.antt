-- ===== src/Seed/TenantA.antt =====
-- prisma/seed.ts: `seedTenantA`.
use iam_access_control_servi.Services.Entities.{Department}
use iam_access_control_servi.Seed.Tenants.{department_row}
use iam_access_control_servi.Domain.Models.{ServiceIdentity}
use iam_access_control_servi.Prelude.{true}
use iam_access_control_servi.Prelude.{String, none, some, List, [], ◌∷◌}
use iam_access_control_servi.Domain.Enums.{ClearanceLevel}
use iam_access_control_servi.Domain.Models.{Policy, Resource, Tenant}
use iam_access_control_servi.Seed.Policies.{tenant_policies}
use iam_access_control_servi.Seed.Tenants.{
  PermissionDef, RoleDef, SeedUser, active_tenant, resource_row,
}

abbrev pub tenant_a : Tenant
tenant_a = active_tenant "tenant-a" "Acme Corporation"

abbrev pub users_a : List SeedUser
users_a =
    record {
      id = "ceo-a";
      email = "ceo@tenant-a.com";
      designation = "CEO";
      department_id = none;
      manager_id = none;
      clearance_level = ClearanceLevel.top_secret;
      location = "HQ";
      roles = "Admin" ∷ "Executive" ∷ [];
    }
    ∷ record {
      id = "director-a";
      email = "director@tenant-a.com";
      designation = "Engineering Director";
      department_id = some "dept-eng-a";
      manager_id = some "ceo-a";
      clearance_level = ClearanceLevel.secret;
      location = "HQ";
      roles = "Director" ∷ [];
    }
    ∷ record {
      id = "manager-a";
      email = "manager-a@tenant-a.com";
      designation = "Engineering Manager A";
      department_id = some "dept-eng-a";
      manager_id = some "director-a";
      clearance_level = ClearanceLevel.confidential;
      location = "HQ";
      roles = "Manager" ∷ [];
    }
    ∷ record {
      id = "manager-b";
      email = "manager-b@tenant-a.com";
      designation = "Engineering Manager B";
      department_id = some "dept-eng-a";
      manager_id = some "director-a";
      clearance_level = ClearanceLevel.confidential;
      location = "Remote";
      roles = "Manager" ∷ [];
    }
    ∷ record {
      id = "employee-a";
      email = "employee-a@tenant-a.com";
      designation = "Software Engineer";
      department_id = some "dept-eng-a";
      manager_id = some "manager-a";
      clearance_level = ClearanceLevel.internal;
      location = "HQ";
      roles = "Employee" ∷ [];
    }
    ∷ record {
      id = "employee-b";
      email = "employee-b@tenant-a.com";
      designation = "Software Engineer";
      department_id = some "dept-eng-a";
      manager_id = some "manager-b";
      clearance_level = ClearanceLevel.internal;
      location = "Remote";
      roles = "Employee" ∷ [];
    }
    ∷ record {
      id = "finance-admin-a";
      email = "finance@tenant-a.com";
      designation = "Finance Administrator";
      department_id = some "dept-fin-a";
      manager_id = some "ceo-a";
      clearance_level = ClearanceLevel.confidential;
      location = "HQ";
      roles = "Finance" ∷ [];
    }
    ∷ record {
      id = "hr-admin-a";
      email = "hr@tenant-a.com";
      designation = "HR Administrator";
      department_id = some "dept-hr-a";
      manager_id = some "ceo-a";
      clearance_level = ClearanceLevel.confidential;
      location = "HQ";
      roles = "HR" ∷ [];
    }
    ∷ []

abbrev pub role_def : String → String → String → RoleDef
role_def id name description = record { id = id; name = name; description = some description }

abbrev pub roles_a : List RoleDef
roles_a =
    role_def "role-admin-a" "Admin" "Platform administrator"
    ∷ role_def "role-exec-a" "Executive" "C-level executive"
    ∷ role_def "role-director-a" "Director" "Department director"
    ∷ role_def "role-manager-a" "Manager" "People manager"
    ∷ role_def "role-finance-a" "Finance" "Finance department"
    ∷ role_def "role-hr-a" "HR" "Human resources department"
    ∷ role_def "role-employee-a" "Employee" "Standard employee"
    ∷ []

abbrev pub permission_def : String → String → String → String → PermissionDef
permission_def id name resource action = record {
  id = id;
  name = name;
  resource = resource;
  action = action;
}

abbrev pub permissions_a : List PermissionDef
permissions_a =
    permission_def "perm-perf-a" "employee.performance.view" "employee" "performance.view"
    ∷ permission_def "perm-salary-a" "employee.salary.view" "employee" "salary.view"
    ∷ permission_def "perm-payroll-a" "payroll.view" "payroll" "view"
    ∷ permission_def "perm-expense-a" "expense.approve" "expense" "approve"
    ∷ permission_def "perm-wildcard-a" "*" "*" "*"
    ∷ []

abbrev pub grants_a : List (String × List String)
grants_a =
    ("Admin", "*" ∷ [])
    ∷ (
      "Executive",
      "employee.performance.view" ∷ "employee.salary.view" ∷ "payroll.view" ∷ "expense.approve"
          ∷ [],
    )
    ∷ ("Director", "employee.performance.view" ∷ "employee.salary.view" ∷ [])
    ∷ ("Manager", "employee.performance.view" ∷ "employee.salary.view" ∷ [])
    ∷ ("Finance", "expense.approve" ∷ [])
    ∷ ("HR", "payroll.view" ∷ [])
    ∷ ("Employee", [])
    ∷ []

abbrev pub resources_a : List Resource
resources_a =
    resource_row "tenant-a" "employee-a" "employee" (some "employee-a") (some "dept-eng-a")
      ClearanceLevel.confidential
    ∷ resource_row "tenant-a" "employee-b" "employee" (some "employee-b") (some "dept-eng-a")
        ClearanceLevel.confidential
    ∷ resource_row "tenant-a" "payroll-june" "payroll" none (some "dept-hr-a")
        ClearanceLevel.confidential
    ∷ resource_row "tenant-a" "expense-1" "expense" none (some "dept-fin-a") ClearanceLevel.internal
    ∷ []

unfoldable pub policies_a : List Policy
unfolding tenant_policies
policies_a = tenant_policies (record {
  tenant_id = "tenant-a";
  hr_department_id = "dept-hr-a";
  finance_department_id = "dept-fin-a";
})

abbrev pub departments_a : List Department
departments_a =
    department_row "tenant-a" "dept-eng-a" "Engineering"
    ∷ department_row "tenant-a" "dept-fin-a" "Finance"
    ∷ department_row "tenant-a" "dept-hr-a" "Human Resources"
    ∷ []

-- The demo service identity; `hash` is bcrypt's.
abbrev pub identity_a : (String → String) → ServiceIdentity
identity_a hash = record {
  id = "svc-expense-a";
  tenant_id = "tenant-a";
  name = "expense-service";
  api_key_hash = hash "demo-secret-please-rotate";
  enabled = true;
  created_at = 0;
}
