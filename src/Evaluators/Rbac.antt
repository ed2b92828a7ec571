-- ===== src/Evaluators/Rbac.antt =====
-- src/authorization/evaluators/rbac.evaluator.ts.
use iam_access_control_servi.Prelude.{
  String, ◌≡◌, ◌↔◌, ◌⊎◌, Bool, true, ◌||◌, List, [], ◌∷◌, ◌++◌, arith, includes, includes_iff, In,
  concat, join, if◌then◌else◌,
}
use iam_access_control_servi.Prelude.{text_instance, or_text}
use iam_access_control_servi.Domain.Contracts.{EvaluationContext}

unfoldable pub granted : List String → String → String → Bool
granted permission_names action resource_type =
    includes permission_names "*"
    || includes permission_names action
    || includes permission_names (concat (resource_type ∷ ".*" ∷ []))

unfoldable pub rbac_line : List String → String → Bool → String
rbac_line permission_names action result = concat (
    "RBAC: subject holds ["
    ∷ or_text (join ", " permission_names) "none"
    ∷ "] → "
    ∷ (if result then "PERMISSION GRANTED" else "no matching permission")
    ∷ " for \""
    ∷ action
    ∷ "\""
    ∷ [])

-- `RbacEvaluator.evaluate`: the answer, and the context whose trace has one more line.
unfoldable pub rbac_evaluate : EvaluationContext → Bool × EvaluationContext
rbac_evaluate ctx =
    let result =
      granted ctx.subject.permission_names ctx.request.action ctx.request.resource_type in
    (
      result,
      record ctx {
        trace = ctx.trace ++ rbac_line ctx.subject.permission_names ctx.request.action result ∷ [];
      },
    )

-- The permissions that grant an action on a resource type.
abbrev pub Grants : List String → String → String → Type 0
Grants names action resource_type =
    In "*" names ⊎ In action names ⊎ In (concat (resource_type ∷ ".*" ∷ [])) names

-- The evaluator grants exactly when the subject holds "*", the action itself, or the wildcard
-- of the requested resource type.
pub rbac_evaluate_iff :
    (ctx : EvaluationContext)
    → ((rbac_evaluate ctx).0 ≡ true)
      ↔ Grants ctx.subject.permission_names ctx.request.action ctx.request.resource_type
unfolding rbac_evaluate granted
rbac_evaluate_iff ctx = ground (
  arith,
  includes_iff ctx.subject.permission_names "*",
  includes_iff ctx.subject.permission_names ctx.request.action,
  includes_iff ctx.subject.permission_names (concat (ctx.request.resource_type ∷ ".*" ∷ [])),
)
