-- ===== src/Seed/Policies.antt =====
-- prisma/fixtures/tenant-policies.fixture.ts: the demo policies, and what they come to.
use iam_access_control_servi.Prelude.{
  ℕ, String, ◌≡◌, ◌↔◌, inl, inr, refl, sym, ap, subst, true, none, some, some-inj, List, [], ◌∷◌,
  select, In, eq_refl, arith,
}
use iam_access_control_servi.Domain.Enums.{
  AccessDecision, ClearanceLevel, PolicyEffect, RelationshipType,
}
use iam_access_control_servi.Domain.Contracts.{EvaluationContext, PolicyCondition}
use iam_access_control_servi.Domain.Models.{Policy}
use iam_access_control_servi.Clearance.{IsDominated}
use iam_access_control_servi.Evaluators.Abac.Laws.{AttributesHold}
use iam_access_control_servi.Evaluators.Rebac.{RelationshipClause}
use iam_access_control_servi.Evaluators.PolicyEngine.{evaluate}
use iam_access_control_servi.Evaluators.PolicyEngine.Matching.{Applies, NeedsPermission}
use iam_access_control_servi.Evaluators.PolicyEngine.DenyOverride.{evaluate_allow_iff}
use iam_access_control_servi.Authorization.Facts.{where_applicable}

pub record TenantPolicyFixtureParams : Type 0 where
  pub tenant_id : String
  pub hr_department_id : String
  pub finance_department_id : String

-- `{}`
abbrev pub unconditional : PolicyCondition
unconditional = record {
  relationships = none;
  departments = none;
  locations = none;
  employment_statuses = none;
  max_sensitivity = none;
  min_clearance = none;
  require_permission = none;
}

-- A row as the insert makes it: enabled by default, with the name for the id that the database
-- would give.
abbrev pub policy_row :
    String → String → String → PolicyEffect → String → String → ℕ → PolicyCondition → Policy
policy_row tenant_id name description effect action resource_type priority conditions = record {
  id = name;
  tenant_id = tenant_id;
  name = name;
  description = some description;
  effect = effect;
  action = action;
  resource_type = resource_type;
  conditions = some conditions;
  priority = priority;
  enabled = true;
  created_at = 0;
  updated_at = 0;
}

-- SELF, DIRECT_MANAGER and ANCESTOR.
abbrev pub own_line : List RelationshipType
own_line = RelationshipType.self ∷ RelationshipType.direct_manager ∷ RelationshipType.ancestor ∷ []

abbrev pub line_condition : PolicyCondition
line_condition = record unconditional {
  relationships = some own_line;
  max_sensitivity = some ClearanceLevel.confidential;
  require_permission = some true;
}

abbrev pub allow_performance : String → Policy
allow_performance tenant_id =
    policy_row tenant_id "allow-performance-view"
      "Managers/ancestors (and self) may view employee performance." PolicyEffect.allow
      "employee.performance.view" "employee" 100 line_condition

abbrev pub allow_salary : String → Policy
allow_salary tenant_id =
    policy_row tenant_id "allow-salary-view"
      "Managers/ancestors (and self) may view employee salary." PolicyEffect.allow
      "employee.salary.view" "employee" 100 line_condition

abbrev pub deny_salary : String → Policy
deny_salary tenant_id =
    policy_row tenant_id "deny-salary-non-manager"
      "Explicitly deny salary access to unrelated or sibling users." PolicyEffect.deny
      "employee.salary.view" "employee" 10
      (record unconditional {
        relationships = some (RelationshipType.sibling ∷ RelationshipType.no_relation ∷ []);
      })

abbrev pub allow_payroll : TenantPolicyFixtureParams → Policy
allow_payroll p =
    policy_row p.tenant_id "allow-payroll-view"
      "HR department may view payroll (requires payroll.view permission)." PolicyEffect.allow
      "payroll.view" "payroll" 100
      (record unconditional {
        departments = some (p.hr_department_id ∷ []);
        max_sensitivity = some ClearanceLevel.confidential;
        require_permission = some true;
      })

abbrev pub allow_expense : TenantPolicyFixtureParams → Policy
allow_expense p =
    policy_row p.tenant_id "allow-expense-approve" "Finance department may approve expenses."
      PolicyEffect.allow "expense.approve" "expense" 100
      (record unconditional {
        departments = some (p.finance_department_id ∷ []);
        require_permission = some true;
      })

-- `tenantPolicies`
unfoldable pub tenant_policies : TenantPolicyFixtureParams → List Policy
tenant_policies p =
    allow_performance p.tenant_id
    ∷ allow_salary p.tenant_id
    ∷ deny_salary p.tenant_id
    ∷ allow_payroll p
    ∷ allow_expense p
    ∷ []

-- The policies of the fixture on an action of employees.
abbrev pub on_employee : TenantPolicyFixtureParams → String → List Policy
on_employee p action = select (where_applicable p.tenant_id action "employee") (tenant_policies p)

salary_policies :
    (p : TenantPolicyFixtureParams)
    → on_employee p "employee.salary.view" ≡ allow_salary p.tenant_id ∷ deny_salary p.tenant_id ∷ []
unfolding tenant_policies
salary_policies p = rw (eq_refl p.tenant_id) refl

-- Whom the allowing policy on salaries is for.
abbrev pub MayView : EvaluationContext → Type 0
MayView ctx =
    In ctx.relationship own_line
    × IsDominated ctx.resource.sensitivity ClearanceLevel.confidential
    × IsDominated ctx.resource.sensitivity ctx.subject.clearance_level
    × (ctx.has_rbac_permission ≡ true)

allow_salary_iff :
    (t : String) (ctx : EvaluationContext) → Applies (allow_salary t) ctx ↔ MayView ctx
allow_salary_iff t ctx = (
  λ h. elim (h.relationship line_condition refl) [
    | inl empty ↦ cc
    | inr related ↦
        let within = (h.attributes line_condition refl).sensitivity in
        (
          related,
          within.0,
          within.1,
          h.permission (NeedsPermission.demanded line_condition refl refl),
        )
  ],
  λ (related, ceiling, clearance, permission). record {
    relationship = λ c is.
        subst (λ (x : PolicyCondition). RelationshipClause x.relationships ctx.relationship)
          (some-inj is) (inr related);
    attributes = λ c is.
        subst (λ x. AttributesHold x ctx.subject ctx.resource) (some-inj is)
          (record {
            departments = tt;
            locations = tt;
            employment = tt;
            clearance = tt;
            sensitivity = (ceiling, clearance);
          });
    permission = λ e. permission;
  },
)

unrelated :
    (r : RelationshipType)
    → In r own_line
    → ¬ In r (RelationshipType.sibling ∷ RelationshipType.no_relation ∷ [])
unrelated RelationshipType.self at = λ h. ground arith
unrelated RelationshipType.direct_manager at = λ h. ground arith
unrelated RelationshipType.ancestor at = λ h. ground arith
unrelated RelationshipType.sibling at = λ h. ground arith
unrelated RelationshipType.no_relation at = λ h. ground arith

deny_salary_not :
    (t : String) (ctx : EvaluationContext)
    → In ctx.relationship own_line
    → ¬ Applies (deny_salary t) ctx
deny_salary_not t ctx related h = elim (h.relationship _ refl) [
  | inl empty ↦ cc
  | inr other ↦ unrelated ctx.relationship related other
]

-- The fixture's policies allow viewing a salary exactly to the person, to managers and to those
-- above them, with the RBAC permission, up to confidential resources and within the clearance.
pub salary_iff :
    (p : TenantPolicyFixtureParams) (ctx : EvaluationContext)
    → ((evaluate (on_employee p "employee.salary.view") ctx).0.effect ≡ AccessDecision.allow)
      ↔ MayView ctx
salary_iff p ctx =
    let t = p.tenant_id in
    let (to, from) = evaluate_allow_iff ctx (allow_salary t ∷ deny_salary t ∷ []) in
    rw (salary_policies p) (
      λ h.
          let (q, at, effect, applies) = (to h).0 in
          elim at [
            | inl here ↦ (allow_salary_iff t ctx).0 (subst (λ x. Applies x ctx) (sym here) applies)
            | inr (inl here) ↦ let wrong = ap (λ (x : Policy). x.effect) here in cc
            | inr (inr nowhere) ↦ absurd nowhere
          ],
      λ may. from (
        (allow_salary t, inl refl, refl, (allow_salary_iff t ctx).1 may),
        λ q at effect applies. elim at [
          | inl here ↦ let wrong = ap (λ (x : Policy). x.effect) here in cc
          | inr (inl here) ↦
              deny_salary_not t ctx may.0 (subst (λ x. Applies x ctx) (sym here) applies)
          | inr (inr nowhere) ↦ nowhere
        ],
      ),
    )
