-- ===== src/Seed/Tenants.antt =====
-- prisma/seed.ts: what the seeding of a tenant makes of its definitions of users, roles and grants.
use iam_access_control_servi.Services.Entities.{Department}
use iam_access_control_servi.Prelude.{
  String, Option, none, some, List, [], ◌∷◌, ◌++◌, str_eq, if◌then◌else◌,
}
use iam_access_control_servi.Domain.Enums.{ClearanceLevel, EmploymentStatus, TenantStatus}
use iam_access_control_servi.Domain.Models.{Permission, Resource, Tenant, User, UserRole}
use iam_access_control_servi.Seed.Closure.{SeedNode}

pub record SeedUser : Type 0 where
  pub id : String
  pub email : String
  pub designation : String
  pub department_id : Option String
  pub manager_id : Option String
  pub clearance_level : ClearanceLevel
  pub location : String
  pub roles : List String

pub record RoleDef : Type 0 where
  pub id : String
  pub name : String
  pub description : Option String

pub record PermissionDef : Type 0 where
  pub id : String
  pub name : String
  pub resource : String
  pub action : String

-- The rows of the two join tables; an id is none where the name of a grant is not defined.
pub record RolePermissionRow : Type 0 where
  pub tenant_id : String
  pub role_id : Option String
  pub permission_id : Option String

pub record UserRoleRow : Type 0 where
  pub tenant_id : String
  pub user_id : String
  pub role_id : Option String

abbrev pub seed_node : SeedUser → SeedNode
seed_node u = record { id = u.id; manager_id = u.manager_id }

-- The `data` of `user.createMany`
unfoldable pub seed_user_row : String → String → SeedUser → User
seed_user_row tenant_id password_hash u = record {
  id = u.id;
  tenant_id = tenant_id;
  department_id = u.department_id;
  manager_id = u.manager_id;
  email = u.email;
  password_hash = some password_hash;
  designation = some u.designation;
  clearance_level = u.clearance_level;
  location = some u.location;
  employment_status = EmploymentStatus.active;
  created_at = 0;
  updated_at = 0;
}

-- `roleIdByName.get(name)`, `permIdByName.get(name)`: the last definition of a name counts.
unfoldable pub role_id_by_name : List RoleDef → String → Option String
role_id_by_name [] name = none
role_id_by_name (r ∷ rs) name = elim (role_id_by_name rs name) [
  | some id ↦ some id
  | none ↦ if str_eq r.name name then some r.id else none
]

unfoldable pub permission_id_by_name : List PermissionDef → String → Option String
permission_id_by_name [] name = none
permission_id_by_name (p ∷ ps) name = elim (permission_id_by_name ps name) [
  | some id ↦ some id
  | none ↦ if str_eq p.name name then some p.id else none
]

module _ (tenant_id : String) (roles : List RoleDef) (permissions : List PermissionDef) where
  -- The rows of one role, and the two loops over `grants`.
  unfoldable pub granted_rows : String → List String → List RolePermissionRow
  unfolding role_id_by_name permission_id_by_name
  granted_rows role_name [] = []
  granted_rows role_name (name ∷ names) =
      record {
        tenant_id = tenant_id;
        role_id = role_id_by_name roles role_name;
        permission_id = permission_id_by_name permissions name;
      }
      ∷ granted_rows role_name names

  unfoldable pub role_permission_rows : List (String × List String) → List RolePermissionRow
  unfolding granted_rows
  role_permission_rows [] = []
  role_permission_rows ((role_name, names) ∷ grants) =
      granted_rows role_name names ++ role_permission_rows grants

  -- The rows of one user, and the two loops over the users.
  unfoldable pub assigned_rows : String → List String → List UserRoleRow
  unfolding role_id_by_name
  assigned_rows user_id [] = []
  assigned_rows user_id (name ∷ names) =
      record { tenant_id = tenant_id; user_id = user_id; role_id = role_id_by_name roles name }
      ∷ assigned_rows user_id names

  unfoldable pub user_role_rows : List SeedUser → List UserRoleRow
  unfolding assigned_rows
  user_role_rows [] = []
  user_role_rows (u ∷ users) = assigned_rows u.id u.roles ++ user_role_rows users

-- The join that `include` makes of the rows: the permissions of a role by their ids.
permission_rows : String → String → List PermissionDef → List Permission
permission_rows tenant_id id [] = []
permission_rows tenant_id id (p ∷ ps) =
    let rest = permission_rows tenant_id id ps in
    if str_eq p.id id
    then record {
      id = p.id;
      tenant_id = tenant_id;
      name = p.name;
      resource = p.resource;
      action = p.action;
      created_at = 0;
      updated_at = 0;
    }
      ∷ rest
    else rest

joined_permissions : List PermissionDef → String → List RolePermissionRow → List Permission
unfolding permission_rows
joined_permissions permissions role_id [] = []
joined_permissions permissions role_id (row ∷ rows) =
    let rest = joined_permissions permissions role_id rows in
    elim row.role_id [
      | none ↦ rest
      | some r ↦ elim row.permission_id [
        | none ↦ rest
        | some p ↦
            if str_eq r role_id then permission_rows row.tenant_id p permissions ++ rest else rest
      ]
    ]

role_name_of : List RoleDef → String → String
role_name_of [] id = ""
role_name_of (r ∷ rs) id = let rest = role_name_of rs id in if str_eq r.id id then r.name else rest

unfoldable pub joined_roles :
    List RoleDef → List PermissionDef → List RolePermissionRow → List UserRoleRow → List UserRole
unfolding joined_permissions role_name_of
joined_roles roles permissions granted [] = []
joined_roles roles permissions granted (row ∷ rows) =
    let rest = joined_roles roles permissions granted rows in
    elim row.role_id [
      | none ↦ rest
      | some id ↦
          record {
            tenant_id = row.tenant_id;
            user_id = row.user_id;
            role_id = id;
            role_name = role_name_of roles id;
            role_permissions = joined_permissions permissions id granted;
          }
          ∷ rest
    ]

abbrev pub active_tenant : String → String → Tenant
active_tenant id name = record {
  id = id;
  name = name;
  slug = id;
  status = TenantStatus.active;
  created_at = 0;
  updated_at = 0;
}

abbrev pub resource_row :
    String → String → String → Option String → Option String → ClearanceLevel → Resource
resource_row tenant_id external_id type_name owner department sensitivity = record {
  id = external_id;
  tenant_id = tenant_id;
  external_id = external_id;
  type_name = type_name;
  owner_user_id = owner;
  department_id = department;
  sensitivity = sensitivity;
  attributes = none;
}

abbrev pub department_row : String → String → String → Department
department_row tenant_id id name = record {
  id = id;
  tenant_id = tenant_id;
  name = name;
  parent_department_id = none;
  created_at = 0;
  updated_at = 0;
}
