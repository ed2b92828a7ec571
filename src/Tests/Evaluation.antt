-- ===== src/Tests/Evaluation.antt =====
-- The evaluators on a request for a document: tests, and uses of the theorems.
use iam_access_control_servi.Prelude.{◌≡◌, refl, ◌↔◌, inl, inr, [], ◌∷◌, In}
use iam_access_control_servi.Domain.Enums.{AccessDecision, PolicyEffect}
use iam_access_control_servi.Domain.Models.{Policy}
use iam_access_control_servi.Evaluators.Abac.{
  abac_evaluate, matched, departments_clause, locations_clause, employment_clause,
  min_clearance_clause, max_sensitivity_clause,
}
use iam_access_control_servi.Clearance.{meets_clearance}
use iam_access_control_servi.Evaluators.Abac.Laws.{AttributesHold, abac_evaluate_iff}
use iam_access_control_servi.Evaluators.Rebac.{satisfies}
use iam_access_control_servi.Evaluators.PolicyEngine.{
  combine, count_policy, tally_policies, condition_of, evaluate, matches,
}
use iam_access_control_servi.Evaluators.PolicyEngine.Matching.{Applies, matches_iff}
use iam_access_control_servi.Evaluators.PolicyEngine.DenyOverride.{
  evaluate_allow_iff, evaluate_same_members,
}
use iam_access_control_servi.Tests.Samples.{condition, context, own_docs, policy}

abbrev never : Policy
never = policy "never" PolicyEffect.deny

allowed_test : (evaluate (own_docs ∷ []) context).0.effect ≡ AccessDecision.allow
unfolding evaluate combine tally_policies count_policy matches satisfies abac_evaluate
    departments_clause locations_clause employment_clause min_clearance_clause
    max_sensitivity_clause meets_clearance
allowed_test = refl

overridden_test :
    (evaluate (own_docs ∷ never ∷ []) context).0.matched_policies ≡ "never" ∷ "own docs" ∷ []
unfolding evaluate combine tally_policies count_policy matches satisfies abac_evaluate
    departments_clause locations_clause employment_clause min_clearance_clause
    max_sensitivity_clause meets_clearance
overridden_test = refl

abac_evaluate_iff_example :
    (abac_evaluate condition context ≡ matched)
    ↔ AttributesHold condition context.subject context.resource
abac_evaluate_iff_example = abac_evaluate_iff condition context

matches_iff_example :
    (matches own_docs (condition_of own_docs) context ≡ matched) ↔ Applies own_docs context
matches_iff_example = matches_iff own_docs context

evaluate_allow_iff_example :
    ((evaluate (own_docs ∷ never ∷ []) context).0.effect ≡ AccessDecision.allow) ↔ (
      ((p : Policy) × In p (own_docs ∷ never ∷ [])
        × (p.effect ≡ PolicyEffect.allow)
        × Applies p context)
      × ((p : Policy)
          → In p (own_docs ∷ never ∷ [])
          → p.effect ≡ PolicyEffect.deny
          → ¬ Applies p context))
evaluate_allow_iff_example = evaluate_allow_iff context (own_docs ∷ never ∷ [])

swapped : (p : Policy) → In p (own_docs ∷ never ∷ []) ↔ In p (never ∷ own_docs ∷ [])
swapped p = (
  λ h. elim h [ inl a ↦ inr (inl a) | inr (inl b) ↦ inl b | inr (inr c) ↦ absurd c ],
  λ h. elim h [ inl b ↦ inr (inl b) | inr (inl a) ↦ inl a | inr (inr c) ↦ absurd c ],
)

evaluate_same_members_example :
    (evaluate (own_docs ∷ never ∷ []) context).0.effect
    ≡ (evaluate (never ∷ own_docs ∷ []) context).0.effect
evaluate_same_members_example =
    evaluate_same_members context (own_docs ∷ never ∷ []) (never ∷ own_docs ∷ []) swapped
