-- ===== src/Api/Backend.antt =====
-- What the resolvers reach behind them: the tables, bcrypt, JSON and the JWT library.
use iam_access_control_servi.Prelude.{String, Option, List}
use iam_access_control_servi.Outcome.{Outcome, ok, throw}
use iam_access_control_servi.Domain.Contracts.{Attributes, AuthorizationDecision}
use iam_access_control_servi.Domain.Models.{Permission, Policy, Tenant, User}
use iam_access_control_servi.Hierarchy.Store.{HierarchyDb}
use iam_access_control_servi.Hierarchy.Listings.{DepthOrder, OrganizationHierarchy}
use iam_access_control_servi.Authorization.{Run, World}
use iam_access_control_servi.Authorization.Database.{Prisma}
use iam_access_control_servi.Authorization.Trail.{AccessAuditLog, AuditTable}
use iam_access_control_servi.Access.Contracts.{AuthPayload, ServiceAuthPayload}
use iam_access_control_servi.Access.Login.{Services}
use iam_access_control_servi.Repository.{Delegate}
use iam_access_control_servi.Services.Entities.{Department, Listing, PolicyEntity, Role, UserEntity}
use iam_access_control_servi.Services.Roles.{PermissionData, RoleData}
use iam_access_control_servi.Services.Policies.{PolicyData}
use iam_access_control_servi.Services.Users.{UserData}
use iam_access_control_servi.Services.Directory.{DepartmentData}
use iam_access_control_servi.Services.Identities.{
  Identities, IdentityEntity, IdentityWithKey, validate,
}

-- A delegate whose queries take an order and a page.
abbrev pub Listed : Type 0 → Type 0 → Type 0 → Type 0
Listed Db T Data = Delegate Db T Data (Option Listing)

-- `TenantsRepository`, whose table is no tenant's.
pub record Tenants (Db : Type 0) : Type 0 where
  pub create : String → String → Db → Outcome (Tenant × Db)
  pub find_by_id : String → Db → Option Tenant

pub record Backend (Db : Type 0) : Type 0 where
  pub users : Listed Db User UserData
  pub roles : Listed Db Role RoleData
  pub permissions : Listed Db Permission PermissionData
  pub policies : Listed Db Policy PolicyData
  pub departments : Listed Db Department DepartmentData
  pub tenants : Tenants Db
  pub identities : Identities Db
  pub hierarchy : HierarchyDb Db
  pub depth_order : DepthOrder hierarchy
  pub prisma : Prisma Db
  pub audit : AuditTable prisma
  -- The upserts of a role of a user and of a permission of a role.
  pub assign_role_row : String → String → String → Db → Outcome Db
  pub assign_permission_row : String → String → String → Db → Outcome Db
  -- bcrypt
  pub hash : String → String
  -- `JSON.parse`, none where it throws
  pub parse : String → Option Attributes
  -- What the authentication reads of a state of the database.
  pub services : Db → Services

-- What a request takes from outside: the clocks and the id of a decision, and a random secret.
pub record Outside (Db : Type 0) : Type 0 where
  pub run : Run Db
  pub secret : String

-- The services of the authentication, whose API keys the service identities validate.
abbrev pub auth_services : {Db : Type 0} → Backend Db → Db → Services
auth_services backend db = record (backend.services db) {
  validate_api_key = validate backend.identities (backend.services db).compare db;
}

-- What an operation answers.
pub data Reply : Type 0 where
  user_reply : UserEntity → Reply
  -- The user after `assignManager`, none where it is not found again.
  users_reply : List UserEntity → Reply
  role_reply : Role → Reply
  roles_reply : List Role → Reply
  permission_reply : Permission → Reply
  permissions_reply : List Permission → Reply
  policy_reply : PolicyEntity → Reply
  policies_reply : List PolicyEntity → Reply
  department_reply : Department → Reply
  departments_reply : List Department → Reply
  tenant_reply : Tenant → Reply
  identity_reply : IdentityWithKey → Reply
  identities_reply : List IdentityEntity → Reply
  auth_reply : AuthPayload → Reply
  service_reply : ServiceAuthPayload → Reply
  decision_reply : AuthorizationDecision → Reply
  hierarchy_reply : OrganizationHierarchy → Reply
  logs_reply : List AccessAuditLog → Reply

-- What a request comes to: an answer or an exception, and the state after it.
abbrev pub Answer : Type 0 → Type 0
Answer Db = Outcome Reply × World Db

module _ {Db A : Type 0} (reply : A → Reply) (w : World Db) where
  -- A call that only reads.
  abbrev pub reading : Outcome A → Answer Db
  reading (throw e) = (throw e, w)
  reading (ok a) = (ok (reply a), w)

  -- A call that writes to the database, and nothing if it throws.
  abbrev pub writing : Outcome (A × Db) → Answer Db
  writing (throw e) = (throw e, w)
  writing (ok (a, db)) = (ok (reply a), record w { db = db })

  -- A call that may throw after it has written.
  abbrev pub keeping : Outcome A × Db → Answer Db
  keeping (throw e, db) = (throw e, record w { db = db })
  keeping (ok a, db) = (ok (reply a), record w { db = db })
