-- ===== src/Evaluators/PolicyEngine/Matching.antt =====
-- When a policy matches a request.
use iam_access_control_servi.Prelude.{
  ◌≡◌, refl, ap, subst, ◌↔◌, Bool, true, false, ◌&&◌, not, arith, Option, none, some, some-inj,
}
use iam_access_control_servi.Domain.Enums.{PolicyEffect}
use iam_access_control_servi.Domain.Models.{Policy}
use iam_access_control_servi.Domain.Contracts.{EvaluationContext, PolicyCondition}
use iam_access_control_servi.Evaluators.Abac.{matched, abac_evaluate}
use iam_access_control_servi.Evaluators.Abac.Laws.{AttributesHold, abac_evaluate_iff}
use iam_access_control_servi.Evaluators.Rebac.{RelationshipClause, satisfies, satisfies_iff}
use iam_access_control_servi.Evaluators.PolicyEngine.{
  condition_of, matches, no_conditions, or_none, requires_permission,
}

-- A policy needs the subject's permission: its conditions demand it, or they say nothing of it
-- and the policy allows.
pub data NeedsPermission (conditions : Option PolicyCondition) (effect : PolicyEffect)
    : Type 0 where
  demanded :
      (c : PolicyCondition)
      → conditions ≡ some c
      → c.require_permission ≡ some true
      → NeedsPermission conditions effect
  by_default :
      effect ≡ PolicyEffect.allow
      → ((c : PolicyCondition) → conditions ≡ some c → c.require_permission ≡ none)
      → NeedsPermission conditions effect

-- A policy applies to a context: the relationship and the attribute clauses of its conditions
-- hold, where it has conditions, and where it needs a permission the subject has one.
pub record Applies (policy : Policy) (ctx : EvaluationContext) : Type 0 where
  pub relationship :
      (c : PolicyCondition)
      → policy.conditions ≡ some c
      → RelationshipClause c.relationships ctx.relationship
  pub attributes :
      (c : PolicyCondition) → policy.conditions ≡ some c → AttributesHold c ctx.subject ctx.resource
  pub permission : NeedsPermission policy.conditions policy.effect → ctx.has_rbac_permission ≡ true

-- What holds of no conditions holds of the conditions exactly when it does of those given.
given_iff :
    (P : PolicyCondition → Type 0) (conditions : Option PolicyCondition)
    → P no_conditions
    → P (or_none conditions) ↔ ((c : PolicyCondition) → conditions ≡ some c → P c)
given_iff P none bare = (λ h c is. cc, λ h. bare)
given_iff P (some c) bare = (λ h d is. subst P (some-inj is) h, λ h. h c refl)

needs_some_iff :
    (c : PolicyCondition) (required : Option Bool) (effect : PolicyEffect)
    → c.require_permission ≡ required
    → (requires_permission required effect ≡ true) ↔ NeedsPermission (some c) effect
needs_some_iff c none PolicyEffect.allow e = (
  λ h.
      NeedsPermission.by_default refl
        (λ d is. subst (λ (x : PolicyCondition). x.require_permission ≡ none) (some-inj is) e),
  λ h. refl,
)
needs_some_iff c none PolicyEffect.deny e = (
  λ h. cc,
  λ h. elim h [
    | demanded d is f ↦ cc (e, f, ap (λ (x : PolicyCondition). x.require_permission) (some-inj is))
    | by_default f all ↦ cc
  ],
)
needs_some_iff c (some true) effect e = (λ h. NeedsPermission.demanded c refl e, λ h. refl)
needs_some_iff c (some false) effect e = (
  λ h. cc,
  λ h. elim h [
    | demanded d is f ↦ cc (e, f, ap (λ (x : PolicyCondition). x.require_permission) (some-inj is))
    | by_default f all ↦ cc (e, all c refl)
  ],
)

needs_iff :
    (conditions : Option PolicyCondition) (effect : PolicyEffect)
    → (requires_permission (or_none conditions).require_permission effect ≡ true)
      ↔ NeedsPermission conditions effect
needs_iff none PolicyEffect.allow = (λ h. NeedsPermission.by_default refl (λ c is. cc), λ h. refl)
needs_iff none PolicyEffect.deny =
    (λ h. cc, λ h. elim h [ demanded c is e ↦ cc | by_default e all ↦ cc ])
needs_iff (some c) effect = needs_some_iff c c.require_permission effect refl

matches_parts :
    (policy : Policy) (ctx : EvaluationContext)
    → (matches policy (condition_of policy) ctx ≡ matched) ↔ (
        (satisfies (condition_of policy).relationships ctx.relationship ≡ true)
        × (abac_evaluate (condition_of policy) ctx ≡ matched)
        × ((requires_permission (condition_of policy).require_permission policy.effect
              && not ctx.has_rbac_permission)
            ≡ false))
unfolding matches
matches_parts policy ctx = ground arith

implies_iff : (a b : Bool) → ((a && not b) ≡ false) ↔ (a ≡ true → b ≡ true)
implies_iff true true = ground arith
implies_iff true false = (λ h. cc, λ h. cc (h refl))
implies_iff false b = (λ h e. cc, λ h. refl)

-- The engine finds a match exactly when the policy applies: the relationship and the attributes fit
-- the conditions, where the policy has some, and where it needs a permission the subject has it.
pub matches_iff :
    (policy : Policy) (ctx : EvaluationContext)
    → (matches policy (condition_of policy) ctx ≡ matched) ↔ Applies policy ctx
matches_iff policy ctx =
    let (to, from) = matches_parts policy ctx in
    let related = satisfies_iff (condition_of policy).relationships ctx.relationship in
    let attributes = abac_evaluate_iff (condition_of policy) ctx in
    let permitted =
      implies_iff (requires_permission (condition_of policy).require_permission policy.effect)
        ctx.has_rbac_permission in
    let needs = needs_iff policy.conditions policy.effect in
    let relationship =
      given_iff (λ c. RelationshipClause c.relationships ctx.relationship) policy.conditions tt in
    let holds =
      given_iff (λ c. AttributesHold c ctx.subject ctx.resource) policy.conditions
        (record {
          departments = tt;
          locations = tt;
          employment = tt;
          clearance = tt;
          sensitivity = tt;
        }) in
    (
      λ m.
          let (r, a, p) = to m in
          record {
            relationship = relationship.0 (related.0 r);
            attributes = holds.0 (attributes.0 a);
            permission = λ need. permitted.0 p (needs.1 need);
          },
      λ h. from (
        related.1 (relationship.1 h.relationship),
        attributes.1 (holds.1 h.attributes),
        permitted.1 (λ need. h.permission (needs.0 need)),
      ),
    )
