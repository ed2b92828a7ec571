-- ===== src/Evaluators/Abac.antt =====
-- src/authorization/evaluators/abac.evaluator.ts: the clauses in the order of the source; the
-- first that fails gives the reason.
pub mod Laws
use iam_access_control_servi.Prelude.{
  String, Bool, true, false, not, ◌||◌, ◌&&◌, Option, none, some, List, [], ◌∷◌, includes, is_empty,
  concat, join, text_or, if◌then◌else◌,
}
use iam_access_control_servi.Prelude.{text_instance, is_blank}
use iam_access_control_servi.Domain.Enums.{
  EmploymentStatus, ClearanceLevel, employment_status_instance, employment_status_text,
  clearance_text,
}
use iam_access_control_servi.Domain.Contracts.{
  PolicyCondition, SubjectFacts, ResourceFacts, EvaluationContext,
}
use iam_access_control_servi.Clearance.{meets_clearance}

-- `{ matched: boolean; reason?: string }`
pub data MatchResult : Type 0 where
  matched : MatchResult
  unmatched : (reason : String) → MatchResult

-- `xs.includes(v)` where the value may be null or the empty string, which never matches.
unfoldable pub listed : List String → Option String → Bool
listed xs none = false
listed xs (some s) = if is_blank s then false else includes xs s

abbrev not_listed_reason : String → String → Option String → List String → String
not_listed_reason what after value allowed =
    concat (what ∷ text_or value "none" ∷ after ∷ join ", " allowed ∷ "]" ∷ [])

-- A clause gives its reason where it fails.
unfoldable pub departments_clause : Option (List String) → SubjectFacts → Option String
unfolding listed
departments_clause none subject = none
departments_clause (some allowed) subject =
    if is_empty allowed || listed allowed subject.department_id
    then none
    else some (
        not_listed_reason "ABAC: subject department \"" "\" not in [" subject.department_id allowed)

unfoldable pub locations_clause : Option (List String) → SubjectFacts → Option String
unfolding listed
locations_clause none subject = none
locations_clause (some allowed) subject =
    if is_empty allowed || listed allowed subject.location
    then none
    else some (not_listed_reason "ABAC: subject location \"" "\" not in [" subject.location allowed)

unfoldable pub employment_clause : Option (List EmploymentStatus) → SubjectFacts → Option String
employment_clause none subject = none
employment_clause (some allowed) subject =
    if is_empty allowed || includes allowed subject.employment_status
    then none
    else some (
        concat (
          "ABAC: employment status \""
          ∷ employment_status_text subject.employment_status
          ∷ "\" not permitted"
          ∷ []))

unfoldable pub min_clearance_clause : Option ClearanceLevel → SubjectFacts → Option String
min_clearance_clause none subject = none
min_clearance_clause (some required) subject =
    if meets_clearance subject.clearance_level required
    then none
    else some (
        concat (
          "ABAC: subject clearance \""
          ∷ clearance_text subject.clearance_level
          ∷ "\" below required \""
          ∷ clearance_text required
          ∷ "\""
          ∷ []))

unfoldable pub max_sensitivity_clause :
    Option ClearanceLevel → SubjectFacts → ResourceFacts → Option String
max_sensitivity_clause none subject resource = none
max_sensitivity_clause (some ceiling) subject resource =
    if not (meets_clearance ceiling resource.sensitivity)
    then some (
        concat (
          "ABAC: resource sensitivity \""
          ∷ clearance_text resource.sensitivity
          ∷ "\" exceeds policy ceiling \""
          ∷ clearance_text ceiling
          ∷ "\""
          ∷ []))
    else if not (meets_clearance subject.clearance_level resource.sensitivity)
    then some (
        concat (
          "ABAC: subject clearance \""
          ∷ clearance_text subject.clearance_level
          ∷ "\" insufficient for resource sensitivity \""
          ∷ clearance_text resource.sensitivity
          ∷ "\""
          ∷ []))
    else none

-- An early return where a clause fails, and the rest where it passes.
abbrev return_if : Option String → MatchResult → MatchResult
return_if none rest = rest
return_if (some reason) rest = unmatched reason

-- `AbacEvaluator.evaluate`
unfoldable pub abac_evaluate : PolicyCondition → EvaluationContext → MatchResult
abac_evaluate condition ctx = return_if (departments_clause condition.departments ctx.subject) (
    return_if (locations_clause condition.locations ctx.subject) (
      return_if (employment_clause condition.employment_statuses ctx.subject) (
        return_if (min_clearance_clause condition.min_clearance ctx.subject) (
          return_if (max_sensitivity_clause condition.max_sensitivity ctx.subject ctx.resource)
            matched))))
