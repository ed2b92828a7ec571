-- ===== src/Evaluators/Abac/Laws.antt =====
-- The attribute clauses of a condition as a predicate, and the evaluator against it.
use iam_access_control_servi.Prelude.{
  String, ◌≡◌, ◌≢◌, ◌↔◌, ◌⊎◌, true, none, some, Option, List, [], ◌∷◌, arith, includes_iff, In,
  eq_iff, text_instance,
}
use iam_access_control_servi.Domain.Enums.{
  EmploymentStatus, ClearanceLevel, employment_status_instance,
}
use iam_access_control_servi.Domain.Contracts.{
  PolicyCondition, SubjectFacts, ResourceFacts, EvaluationContext,
}
use iam_access_control_servi.Clearance.{IsDominated, meets_clearance_iff}
use iam_access_control_servi.Evaluators.Abac.{
  MatchResult, matched, listed, departments_clause, locations_clause, employment_clause,
  min_clearance_clause, max_sensitivity_clause, return_if, abac_evaluate,
}

-- The value is there, is not the empty text, and stands in the list.
abbrev pub IsListed : List String → Option String → Type 0
IsListed xs none = ⊥
IsListed xs (some s) = (s ≢ "") × In s xs

-- An absent clause, or one with an empty list, constrains nothing.
abbrev pub TextClause : Option (List String) → Option String → Type 0
TextClause none value = Unit
TextClause (some allowed) value = (allowed ≡ []) ⊎ IsListed allowed value

abbrev pub StatusClause : Option (List EmploymentStatus) → EmploymentStatus → Type 0
StatusClause none status = Unit
StatusClause (some allowed) status = (allowed ≡ []) ⊎ In status allowed

abbrev pub MinClause : Option ClearanceLevel → ClearanceLevel → Type 0
MinClause none level = Unit
MinClause (some required) level = IsDominated required level

abbrev pub MaxClause : Option ClearanceLevel → ClearanceLevel → ClearanceLevel → Type 0
MaxClause none sensitivity level = Unit
MaxClause (some ceiling) sensitivity level =
    IsDominated sensitivity ceiling × IsDominated sensitivity level

-- What the condition asks of the attributes of the subject and of the resource.
pub record AttributesHold (c : PolicyCondition) (s : SubjectFacts) (r : ResourceFacts)
    : Type 0 where
  pub departments : TextClause c.departments s.department_id
  pub locations : TextClause c.locations s.location
  pub employment : StatusClause c.employment_statuses s.employment_status
  pub clearance : MinClause c.min_clearance s.clearance_level
  pub sensitivity : MaxClause c.max_sensitivity r.sensitivity s.clearance_level

listed_iff :
    (xs : List String) (value : Option String) → (listed xs value ≡ true) ↔ IsListed xs value
unfolding listed
listed_iff xs none = ground arith
listed_iff xs (some s) = ground (arith, includes_iff xs s, eq_iff s "")

departments_clause_iff :
    (c : Option (List String)) (s : SubjectFacts)
    → (departments_clause c s ≡ none) ↔ TextClause c s.department_id
unfolding departments_clause
departments_clause_iff none s = ground arith
departments_clause_iff (some []) s = ground arith
departments_clause_iff (some (x ∷ xs)) s = ground (arith, listed_iff (x ∷ xs) s.department_id)

locations_clause_iff :
    (c : Option (List String)) (s : SubjectFacts)
    → (locations_clause c s ≡ none) ↔ TextClause c s.location
unfolding locations_clause
locations_clause_iff none s = ground arith
locations_clause_iff (some []) s = ground arith
locations_clause_iff (some (x ∷ xs)) s = ground (arith, listed_iff (x ∷ xs) s.location)

employment_clause_iff :
    (c : Option (List EmploymentStatus)) (s : SubjectFacts)
    → (employment_clause c s ≡ none) ↔ StatusClause c s.employment_status
unfolding employment_clause
employment_clause_iff none s = ground arith
employment_clause_iff (some []) s = ground arith
employment_clause_iff (some (x ∷ xs)) s = ground (arith, includes_iff (x ∷ xs) s.employment_status)

min_clearance_clause_iff :
    (c : Option ClearanceLevel) (s : SubjectFacts)
    → (min_clearance_clause c s ≡ none) ↔ MinClause c s.clearance_level
unfolding min_clearance_clause
min_clearance_clause_iff none s = ground arith
min_clearance_clause_iff (some r) s = ground (arith, meets_clearance_iff s.clearance_level r)

max_sensitivity_clause_iff :
    (c : Option ClearanceLevel) (s : SubjectFacts) (r : ResourceFacts)
    → (max_sensitivity_clause c s r ≡ none) ↔ MaxClause c r.sensitivity s.clearance_level
unfolding max_sensitivity_clause
max_sensitivity_clause_iff none s r = ground arith
max_sensitivity_clause_iff (some m) s r = ground (
  arith,
  meets_clearance_iff m r.sensitivity,
  meets_clearance_iff s.clearance_level r.sensitivity,
)

return_if_iff :
    (o : Option String) (rest : MatchResult)
    → (return_if o rest ≡ matched) ↔ ((o ≡ none) × (rest ≡ matched))
return_if_iff none rest = ground arith
return_if_iff (some reason) rest = ground arith

-- All five clauses pass, as the evaluator tests them.
passes_iff :
    (c : PolicyCondition) (ctx : EvaluationContext)
    → (abac_evaluate c ctx ≡ matched) ↔ (
        (departments_clause c.departments ctx.subject ≡ none)
        × (locations_clause c.locations ctx.subject ≡ none)
        × (employment_clause c.employment_statuses ctx.subject ≡ none)
        × (min_clearance_clause c.min_clearance ctx.subject ≡ none)
        × (max_sensitivity_clause c.max_sensitivity ctx.subject ctx.resource ≡ none))
unfolding abac_evaluate
passes_iff c ctx = ground arith

-- The attribute evaluator matches exactly when every clause of the condition that is present and
-- not an empty list holds of the subject and of the resource.
pub abac_evaluate_iff :
    (c : PolicyCondition) (ctx : EvaluationContext)
    → (abac_evaluate c ctx ≡ matched) ↔ AttributesHold c ctx.subject ctx.resource
abac_evaluate_iff c ctx =
    let (to, from) = passes_iff c ctx in
    let departments = departments_clause_iff c.departments ctx.subject in
    let locations = locations_clause_iff c.locations ctx.subject in
    let employment = employment_clause_iff c.employment_statuses ctx.subject in
    let clearance = min_clearance_clause_iff c.min_clearance ctx.subject in
    let sensitivity = max_sensitivity_clause_iff c.max_sensitivity ctx.subject ctx.resource in
    (
      λ m.
          let (d, l, e, k, s) = to m in
          record {
            departments = departments.0 d;
            locations = locations.0 l;
            employment = employment.0 e;
            clearance = clearance.0 k;
            sensitivity = sensitivity.0 s;
          },
      λ h. from (
        departments.1 h.departments,
        locations.1 h.locations,
        employment.1 h.employment,
        clearance.1 h.clearance,
        sensitivity.1 h.sensitivity,
      ),
    )
