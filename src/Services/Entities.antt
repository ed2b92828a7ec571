-- ===== src/Services/Entities.antt =====
-- The mappers from rows to what the API returns (src/*/*.mapper.ts), and the arguments of lists.
use iam_access_control_servi.Prelude.{ℕ, String, Bool, Option}
use iam_access_control_servi.Domain.Enums.{ClearanceLevel, EmploymentStatus, PolicyEffect}
use iam_access_control_servi.Domain.Contracts.{PolicyCondition}
use iam_access_control_servi.Domain.Models.{Policy, User}
use iam_access_control_servi.Evaluators.PolicyEngine.{condition_of}
use iam_access_control_servi.Requests.Pagination.{Page}

-- `{ take, skip, orderBy }`; `none` is `{}`.
pub record Listing : Type 0 where
  pub page : Page
  pub order_by : String

pub record Role : Type 0 where
  pub id : String
  pub tenant_id : String
  pub name : String
  pub description : Option String
  pub created_at : ℕ
  pub updated_at : ℕ

pub record Department : Type 0 where
  pub id : String
  pub tenant_id : String
  pub name : String
  pub parent_department_id : Option String
  pub created_at : ℕ
  pub updated_at : ℕ

-- The user of the API: the row without its password hash.
pub record UserEntity : Type 0 where
  pub id : String
  pub tenant_id : String
  pub department_id : Option String
  pub manager_id : Option String
  pub email : String
  pub designation : Option String
  pub clearance_level : ClearanceLevel
  pub location : Option String
  pub employment_status : EmploymentStatus
  pub created_at : ℕ
  pub updated_at : ℕ

-- `UserMapper.toEntity`
unfoldable pub user_entity : User → UserEntity
user_entity model = record {
  id = model.id;
  tenant_id = model.tenant_id;
  department_id = model.department_id;
  manager_id = model.manager_id;
  email = model.email;
  designation = model.designation;
  clearance_level = model.clearance_level;
  location = model.location;
  employment_status = model.employment_status;
  created_at = model.created_at;
  updated_at = model.updated_at;
}

pub record PolicyEntity : Type 0 where
  pub id : String
  pub tenant_id : String
  pub name : String
  pub description : Option String
  pub effect : PolicyEffect
  pub action : String
  pub resource_type : String
  pub priority : ℕ
  pub enabled : Bool
  pub conditions : PolicyCondition
  pub created_at : ℕ
  pub updated_at : ℕ

-- `PolicyMapper.toEntity`
unfoldable pub policy_entity : Policy → PolicyEntity
policy_entity model = record {
  id = model.id;
  tenant_id = model.tenant_id;
  name = model.name;
  description = model.description;
  effect = model.effect;
  action = model.action;
  resource_type = model.resource_type;
  priority = model.priority;
  enabled = model.enabled;
  conditions = condition_of model;
  created_at = model.created_at;
  updated_at = model.updated_at;
}
