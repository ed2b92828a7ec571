-- ===== src/Domain/Contracts.antt =====
-- src/authorization/contracts/authorization.contracts.ts and
-- src/policies/contracts/policy-condition.contract.ts.
use iam_access_control_servi.Prelude.{String, Bool, Option, List}
use iam_access_control_servi.Domain.Enums.{
  EmploymentStatus, ClearanceLevel, AccessDecision, RelationshipType,
}

-- The members of an object, with their values as texts.
abbrev pub Members : Type 0
Members = List (String × String)

-- `Record<string, unknown>`, which `JSON.parse` and a JSON column fill with any JSON value: an
-- object, null, or another value by its text, with the members that a spread of it has (those of
-- an array or a text stand under their indices; a number and a Boolean have none).
pub data Attributes : Type 0 where
  object : Members → Attributes
  null : Attributes
  other : String → Members → Attributes

pub record PolicyCondition : Type 0 where
  pub relationships : Option (List RelationshipType)
  pub departments : Option (List String)
  pub locations : Option (List String)
  pub employment_statuses : Option (List EmploymentStatus)
  pub max_sensitivity : Option ClearanceLevel
  pub min_clearance : Option ClearanceLevel
  pub require_permission : Option Bool

pub record AuthorizationRequest : Type 0 where
  pub tenant_id : String
  pub subject_user_id : String
  pub action : String
  pub resource_type : String
  pub resource_id : String
  pub resource_attributes : Option Attributes
  pub subject_attributes : Option Attributes
  pub correlation_id : Option String

pub record SubjectFacts : Type 0 where
  pub user_id : String
  pub department_id : Option String
  pub location : Option String
  pub clearance_level : ClearanceLevel
  pub employment_status : EmploymentStatus
  pub permission_names : List String
  pub role_names : List String
  pub attributes : Attributes

pub record ResourceFacts : Type 0 where
  pub resource_type : String
  pub resource_id : String
  pub owner_user_id : Option String
  pub department_id : Option String
  pub sensitivity : ClearanceLevel
  pub attributes : Attributes

pub record EvaluationContext : Type 0 where
  pub request : AuthorizationRequest
  pub subject : SubjectFacts
  pub resource : ResourceFacts
  pub relationship : RelationshipType
  pub has_rbac_permission : Bool
  pub trace : List String

pub record AuthorizationDecision : Type 0 where
  pub decision_id : String
  pub allowed : Bool
  pub effect : AccessDecision
  pub reason : String
  pub matched_policies : List String
  pub evaluation_trace : List String
