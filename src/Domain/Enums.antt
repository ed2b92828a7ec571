-- ===== src/Domain/Enums.antt =====
-- The enums of prisma/schema.prisma and src/common/enums, with the texts that a template literal
-- prints and the equality that `===` and `includes` use.
use iam_access_control_servi.Prelude.{ℕ, String, ◌≡◌, ◌↔◌, Bool, arith, Eq, nat_eq}

pub data TenantStatus : Type 0 where
  active suspended disabled : TenantStatus

pub data EmploymentStatus : Type 0 where
  active on_leave suspended terminated : EmploymentStatus

pub data ClearanceLevel : Type 0 where
  public internal confidential secret top_secret : ClearanceLevel

pub data PolicyEffect : Type 0 where
  allow deny : PolicyEffect

pub data AccessDecision : Type 0 where
  allow deny : AccessDecision

-- `no_relation` is the source's `NONE`.
pub data RelationshipType : Type 0 where
  self direct_manager ancestor sibling no_relation : RelationshipType

abbrev pub tenant_status_text : TenantStatus → String
tenant_status_text TenantStatus.active = "ACTIVE"
tenant_status_text TenantStatus.suspended = "SUSPENDED"
tenant_status_text TenantStatus.disabled = "DISABLED"

abbrev pub employment_status_text : EmploymentStatus → String
employment_status_text EmploymentStatus.active = "ACTIVE"
employment_status_text EmploymentStatus.on_leave = "ON_LEAVE"
employment_status_text EmploymentStatus.suspended = "SUSPENDED"
employment_status_text EmploymentStatus.terminated = "TERMINATED"

abbrev pub clearance_text : ClearanceLevel → String
clearance_text ClearanceLevel.public = "PUBLIC"
clearance_text ClearanceLevel.internal = "INTERNAL"
clearance_text ClearanceLevel.confidential = "CONFIDENTIAL"
clearance_text ClearanceLevel.secret = "SECRET"
clearance_text ClearanceLevel.top_secret = "TOP_SECRET"

abbrev pub effect_text : PolicyEffect → String
effect_text PolicyEffect.allow = "ALLOW"
effect_text PolicyEffect.deny = "DENY"

abbrev pub decision_text : AccessDecision → String
decision_text AccessDecision.allow = "ALLOW"
decision_text AccessDecision.deny = "DENY"

abbrev pub relationship_text : RelationshipType → String
relationship_text RelationshipType.self = "SELF"
relationship_text RelationshipType.direct_manager = "DIRECT_MANAGER"
relationship_text RelationshipType.ancestor = "ANCESTOR"
relationship_text RelationshipType.sibling = "SIBLING"
relationship_text RelationshipType.no_relation = "NONE"

abbrev tenant_status_code : TenantStatus → ℕ
tenant_status_code TenantStatus.active = 0
tenant_status_code TenantStatus.suspended = 1
tenant_status_code TenantStatus.disabled = 2

abbrev employment_status_code : EmploymentStatus → ℕ
employment_status_code EmploymentStatus.active = 0
employment_status_code EmploymentStatus.on_leave = 1
employment_status_code EmploymentStatus.suspended = 2
employment_status_code EmploymentStatus.terminated = 3

abbrev relationship_code : RelationshipType → ℕ
relationship_code RelationshipType.self = 0
relationship_code RelationshipType.direct_manager = 1
relationship_code RelationshipType.ancestor = 2
relationship_code RelationshipType.sibling = 3
relationship_code RelationshipType.no_relation = 4

abbrev pub tenant_status_eq : TenantStatus → TenantStatus → Bool
tenant_status_eq a b = nat_eq (tenant_status_code a) (tenant_status_code b)

abbrev pub employment_status_eq : EmploymentStatus → EmploymentStatus → Bool
employment_status_eq a b = nat_eq (employment_status_code a) (employment_status_code b)

abbrev pub relationship_eq : RelationshipType → RelationshipType → Bool
relationship_eq a b = nat_eq (relationship_code a) (relationship_code b)

pub tenant_status_eq_iff : (a b : TenantStatus) → (tenant_status_eq a b ≡ Bool.true) ↔ (a ≡ b)
tenant_status_eq_iff a b = ground arith

pub employment_status_eq_iff :
    (a b : EmploymentStatus) → (employment_status_eq a b ≡ Bool.true) ↔ (a ≡ b)
employment_status_eq_iff a b = ground arith

pub relationship_eq_iff : (a b : RelationshipType) → (relationship_eq a b ≡ Bool.true) ↔ (a ≡ b)
relationship_eq_iff a b = ground arith

instance abbrev pub tenant_status_instance : Eq TenantStatus
tenant_status_instance = record { agrees = tenant_status_eq; agrees_iff = tenant_status_eq_iff }

instance abbrev pub employment_status_instance : Eq EmploymentStatus
employment_status_instance = record {
  agrees = employment_status_eq;
  agrees_iff = employment_status_eq_iff;
}

instance abbrev pub relationship_instance : Eq RelationshipType
relationship_instance = record { agrees = relationship_eq; agrees_iff = relationship_eq_iff }
