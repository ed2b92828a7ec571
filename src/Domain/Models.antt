-- ===== src/Domain/Models.antt =====
-- The rows of prisma/schema.prisma. Times are milliseconds.
use iam_access_control_servi.Prelude.{ℕ, String, Bool, Option, List}
use iam_access_control_servi.Domain.Enums.{
  TenantStatus, EmploymentStatus, ClearanceLevel, PolicyEffect, AccessDecision,
}
use iam_access_control_servi.Domain.Contracts.{Attributes, PolicyCondition}

pub record Tenant : Type 0 where
  pub id : String
  pub name : String
  pub slug : String
  pub status : TenantStatus
  pub created_at : ℕ
  pub updated_at : ℕ

pub record User : Type 0 where
  pub id : String
  pub tenant_id : String
  pub department_id : Option String
  pub manager_id : Option String
  pub email : String
  pub password_hash : Option String
  pub designation : Option String
  pub clearance_level : ClearanceLevel
  pub location : Option String
  pub employment_status : EmploymentStatus
  pub created_at : ℕ
  pub updated_at : ℕ

pub record Permission : Type 0 where
  pub id : String
  pub tenant_id : String
  pub name : String
  pub resource : String
  pub action : String
  pub created_at : ℕ
  pub updated_at : ℕ

-- A row of `user_roles` with what the queries include: its role and that role's permissions.
pub record UserRole : Type 0 where
  pub tenant_id : String
  pub user_id : String
  pub role_id : String
  pub role_name : String
  pub role_permissions : List Permission

pub record Resource : Type 0 where
  pub id : String
  pub tenant_id : String
  pub external_id : String
  pub type_name : String
  pub owner_user_id : Option String
  pub department_id : Option String
  pub sensitivity : ClearanceLevel
  pub attributes : Option Attributes

pub record Policy : Type 0 where
  pub id : String
  pub tenant_id : String
  pub name : String
  pub description : Option String
  pub effect : PolicyEffect
  pub action : String
  pub resource_type : String
  pub conditions : Option PolicyCondition
  pub priority : ℕ
  pub enabled : Bool
  pub created_at : ℕ
  pub updated_at : ℕ

-- A row of `organization_hierarchy_closure`.
pub record ClosureRow : Type 0 where
  pub tenant_id : String
  pub ancestor_user_id : String
  pub descendant_user_id : String
  pub depth : ℕ

pub record ServiceIdentity : Type 0 where
  pub id : String
  pub tenant_id : String
  pub name : String
  pub api_key_hash : String
  pub enabled : Bool
  pub created_at : ℕ

-- The `data` of an insert into `access_audit_logs`.
pub record AuditRecordInput : Type 0 where
  pub tenant_id : String
  pub decision_id : String
  pub subject_user_id : Option String
  pub action : String
  pub resource_type : String
  pub resource_id : Option String
  pub decision : AccessDecision
  pub reason : String
  pub matched_policies : List String
  pub evaluation_trace : List String
  pub correlation_id : Option String
  pub latency_ms : Option ℕ
