-- ===== src/Tests/Samples.antt =====
-- Data for the tests: two active users of a tenant, one of them with a policy and a permission.
use iam_access_control_servi.Domain.Models.{Permission}
use iam_access_control_servi.Services.Entities.{Department, Role}
use iam_access_control_servi.Domain.Contracts.{Attributes}
use iam_access_control_servi.Prelude.{String, true, none, some, List, [], ◌∷◌}
use iam_access_control_servi.Domain.Enums.{
  ClearanceLevel, EmploymentStatus, PolicyEffect, RelationshipType, TenantStatus,
}
use iam_access_control_servi.Domain.Contracts.{
  AuthorizationRequest, EvaluationContext, PolicyCondition,
}
use iam_access_control_servi.Domain.Models.{Policy, Resource, Tenant, User, UserRole}
use iam_access_control_servi.Hierarchy.Memory.{MemoryDb}
use iam_access_control_servi.Authorization.{Run, World}
use iam_access_control_servi.Authorization.Memory.{Directory}

abbrev pub user : String → User
user id = record {
  id = id;
  tenant_id = "t";
  department_id = some "hr";
  manager_id = none;
  email = "";
  password_hash = none;
  designation = none;
  clearance_level = ClearanceLevel.secret;
  location = none;
  employment_status = EmploymentStatus.active;
  created_at = 0;
  updated_at = 0;
}

abbrev pub hired : MemoryDb
hired = record {
  rows = [];
  users = user "ann" ∷ user "bob" ∷ user "cyd" ∷ [];
  tenants = "t" ∷ [];
  unique = λ r s at. absurd at;
  ends = λ r at. absurd at;
}

abbrev pub tenant : Tenant
tenant = record {
  id = "t";
  name = "T";
  slug = "tee";
  status = TenantStatus.active;
  created_at = 0;
  updated_at = 0;
}

-- Only for the department "hr", up to secret documents.
abbrev pub condition : PolicyCondition
condition = record {
  relationships = some (RelationshipType.self ∷ []);
  departments = some ("hr" ∷ []);
  locations = none;
  employment_statuses = none;
  max_sensitivity = some ClearanceLevel.secret;
  min_clearance = none;
  require_permission = none;
}

abbrev pub policy : String → PolicyEffect → Policy
policy name effect = record {
  id = name;
  tenant_id = "t";
  name = name;
  description = none;
  effect = effect;
  action = "doc.read";
  resource_type = "doc";
  conditions = some condition;
  priority = 100;
  enabled = true;
  created_at = 0;
  updated_at = 0;
}

abbrev pub own_docs : Policy
own_docs = policy "own docs" PolicyEffect.allow

abbrev pub document : Resource
document = record {
  id = "1";
  tenant_id = "t";
  external_id = "memo";
  type_name = "doc";
  owner_user_id = some "ann";
  department_id = none;
  sensitivity = ClearanceLevel.confidential;
  attributes = none;
}

abbrev pub reader : UserRole
reader = record {
  tenant_id = "t";
  user_id = "ann";
  role_id = "r";
  role_name = "reader";
  role_permissions =
      record {
        id = "p";
        tenant_id = "t";
        name = "doc.read";
        resource = "doc";
        action = "read";
        created_at = 0;
        updated_at = 0;
      }
      ∷ [];
}

abbrev pub directory : List Tenant → Directory
directory tenants = (
  hired,
  record {
    tenants = tenants;
    user_roles = reader ∷ [];
    resources = document ∷ [];
    policies = own_docs ∷ [];
    audit_logs = [];
  },
)

-- A request to read the document "memo".
abbrev pub request_of : String → AuthorizationRequest
request_of subject_user_id = record {
  tenant_id = "t";
  subject_user_id = subject_user_id;
  action = "doc.read";
  resource_type = "doc";
  resource_id = "memo";
  resource_attributes = none;
  subject_attributes = none;
  correlation_id = none;
}

abbrev pub run_on : Directory → Run Directory
run_on db = record {
  decision_id = "d1";
  started_ns = 0;
  finished_ns = 2000000;
  permissions_now = 10;
  permissions_later = 11;
  policies_now = 12;
  policies_later = 13;
  seen = λ stage. db;
}

abbrev pub world_of : Directory → World Directory
world_of db = record { db = db; cache = record { store = []; recorded = [] }; decisions = [] }

abbrev pub context : EvaluationContext
context = record {
  request = request_of "ann";
  subject = record {
    user_id = "ann";
    department_id = some "hr";
    location = none;
    clearance_level = ClearanceLevel.secret;
    employment_status = EmploymentStatus.active;
    permission_names = "doc.read" ∷ [];
    role_names = [];
    attributes = Attributes.object [];
  };
  resource = record {
    resource_type = "doc";
    resource_id = "memo";
    owner_user_id = some "ann";
    department_id = none;
    sensitivity = ClearanceLevel.confidential;
    attributes = Attributes.object [];
  };
  relationship = RelationshipType.self;
  has_rbac_permission = true;
  trace = [];
}

abbrev pub role : Role
role = record {
  id = "r";
  tenant_id = "t";
  name = "reader";
  description = none;
  created_at = 0;
  updated_at = 0;
}

abbrev pub permission : Permission
permission = record {
  id = "p";
  tenant_id = "t";
  name = "doc.read";
  resource = "doc";
  action = "read";
  created_at = 0;
  updated_at = 0;
}

abbrev pub department : Department
department = record {
  id = "hr";
  tenant_id = "t";
  name = "HR";
  parent_department_id = none;
  created_at = 0;
  updated_at = 0;
}
