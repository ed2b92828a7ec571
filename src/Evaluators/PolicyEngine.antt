-- ===== src/Evaluators/PolicyEngine.antt =====
-- src/authorization/evaluators/policy.evaluator.ts: which policies match, and how they combine.
pub mod Matching
pub mod DenyOverride
use iam_access_control_servi.Prelude.{
  String, Bool, true, false, not, ◌&&◌, Option, none, some, List, [], ◌∷◌, ◌++◌, concat, join,
  is_empty, map, if◌then◌else◌,
}
use iam_access_control_servi.Domain.Enums.{
  PolicyEffect, AccessDecision, RelationshipType, effect_text, relationship_text,
}
use iam_access_control_servi.Domain.Models.{Policy}
use iam_access_control_servi.Domain.Contracts.{PolicyCondition, EvaluationContext}
use iam_access_control_servi.Evaluators.Abac.{MatchResult, matched, unmatched, abac_evaluate}
use iam_access_control_servi.Evaluators.Rebac.{satisfies}

pub record PolicyDecision : Type 0 where
  pub allowed : Bool
  pub effect : AccessDecision
  pub reason : String
  pub matched_policies : List String

-- `policy.conditions ?? {}`
abbrev pub no_conditions : PolicyCondition
no_conditions = record {
  relationships = none;
  departments = none;
  locations = none;
  employment_statuses = none;
  max_sensitivity = none;
  min_clearance = none;
  require_permission = none;
}

abbrev pub or_none : Option PolicyCondition → PolicyCondition
or_none none = no_conditions
or_none (some c) = c

abbrev pub condition_of : Policy → PolicyCondition
condition_of policy = or_none policy.conditions

abbrev pub is_allow : PolicyEffect → Bool
is_allow PolicyEffect.allow = true
is_allow PolicyEffect.deny = false

abbrev pub is_deny : PolicyEffect → Bool
is_deny e = not (is_allow e)

-- `condition.requirePermission ?? policy.effect === PolicyEffect.ALLOW`
abbrev pub requires_permission : Option Bool → PolicyEffect → Bool
requires_permission none effect = is_allow effect
requires_permission (some flag) effect = flag

-- `condition.relationships?.join(', ')` inside a template literal
abbrev relationships_text : Option (List RelationshipType) → String
relationships_text none = "undefined"
relationships_text (some rs) = join ", " (map relationship_text rs)

abbrev relationship_reason : PolicyCondition → EvaluationContext → String
relationship_reason condition ctx = concat (
    "relationship \""
    ∷ relationship_text ctx.relationship
    ∷ "\" not in ["
    ∷ relationships_text condition.relationships
    ∷ "]"
    ∷ [])

-- The last two steps of `matches`, after the relationship clause.
permission_step : Policy → PolicyCondition → EvaluationContext → MatchResult
permission_step policy condition ctx =
    if requires_permission condition.require_permission policy.effect && not ctx.has_rbac_permission
    then unmatched (concat ("missing RBAC permission for \"" ∷ ctx.request.action ∷ "\"" ∷ []))
    else matched

abbrev and_then : MatchResult → MatchResult → MatchResult
and_then matched rest = rest
and_then (unmatched reason) rest = unmatched reason

-- `PolicyEvaluator.matches`
unfoldable pub matches : Policy → PolicyCondition → EvaluationContext → MatchResult
unfolding permission_step
matches policy condition ctx =
    if not (satisfies condition.relationships ctx.relationship)
    then unmatched (relationship_reason condition ctx)
    else and_then (abac_evaluate condition ctx) (permission_step policy condition ctx)

-- The state of the loop of `evaluate`.
pub record Tally : Type 0 where
  pub matched_allow : List String
  pub matched_deny : List String
  pub trace : List String

policy_line : Policy → String → String
policy_line policy tail =
    concat ("Policy \"" ∷ policy.name ∷ "\" [" ∷ effect_text policy.effect ∷ "] " ∷ tail ∷ [])

unfoldable pub count_policy : Policy → MatchResult → Tally → Tally
unfolding policy_line
count_policy policy matched t =
    if is_deny policy.effect
    then record t {
      matched_deny = t.matched_deny ++ policy.name ∷ [];
      trace = t.trace ++ policy_line policy "MATCHED" ∷ [];
    }
    else record t {
      matched_allow = t.matched_allow ++ policy.name ∷ [];
      trace = t.trace ++ policy_line policy "MATCHED" ∷ [];
    }
count_policy policy (unmatched reason) t = record t {
  trace = t.trace ++ policy_line policy (concat ("not applicable: " ∷ reason ∷ [])) ∷ [];
}

-- The loop over the policies; `matches` does not read the trace.
unfoldable pub tally_policies : EvaluationContext → List Policy → Tally → Tally
tally_policies ctx [] t = t
tally_policies ctx (policy ∷ policies) t =
    tally_policies ctx policies (count_policy policy (matches policy (condition_of policy) ctx) t)

-- The combination after the loop: deny overrides, then allow, then deny by default.
unfoldable pub combine : List String → List String → PolicyDecision
combine matched_allow matched_deny =
    if not (is_empty matched_deny)
    then record {
      allowed = false;
      effect = AccessDecision.deny;
      reason = concat ("Explicit DENY by policy: " ∷ join ", " matched_deny ∷ []);
      matched_policies = matched_deny ++ matched_allow;
    }
    else if not (is_empty matched_allow)
    then record {
      allowed = true;
      effect = AccessDecision.allow;
      reason = concat ("Allowed by policy: " ∷ join ", " matched_allow ∷ []);
      matched_policies = matched_allow;
    }
    else record {
      allowed = false;
      effect = AccessDecision.deny;
      reason = "No matching ALLOW policy — denied by default";
      matched_policies = [];
    }

-- `PolicyEvaluator.evaluate`
unfoldable pub evaluate : List Policy → EvaluationContext → PolicyDecision × EvaluationContext
evaluate policies ctx =
    let t : Tally =
      tally_policies ctx policies
        (record { matched_allow = []; matched_deny = []; trace = ctx.trace }) in
    (combine t.matched_allow t.matched_deny, record ctx { trace = t.trace })
