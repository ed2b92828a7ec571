-- ===== src/Evaluators/Rebac.antt =====
-- src/authorization/evaluators/rebac.evaluator.ts. The hierarchy service is handed in as the
-- function `get_relationship`, already at the tenant of the request.
use iam_access_control_servi.Prelude.{
  String, ◌≡◌, ◌↔◌, ◌⊎◌, Bool, true, ◌||◌, Option, none, some, List, [], ◌∷◌, ◌++◌, arith, includes,
  includes_iff, is_empty, In, concat, is_blank, if◌then◌else◌,
}
use iam_access_control_servi.Domain.Enums.{
  RelationshipType, relationship_instance, relationship_text,
}
use iam_access_control_servi.Domain.Contracts.{EvaluationContext}

-- `RebacEvaluator.satisfies`
unfoldable pub satisfies : Option (List RelationshipType) → RelationshipType → Bool
satisfies none actual = true
satisfies (some allowed) actual = is_empty allowed || includes allowed actual

-- An absent or empty clause constrains nothing; any other lists the relationships that it allows.
abbrev pub RelationshipClause : Option (List RelationshipType) → RelationshipType → Type 0
RelationshipClause none actual = Unit
RelationshipClause (some allowed) actual = (allowed ≡ []) ⊎ In actual allowed

pub satisfies_iff :
    (allowed : Option (List RelationshipType)) (actual : RelationshipType)
    → (satisfies allowed actual ≡ true) ↔ RelationshipClause allowed actual
unfolding satisfies
satisfies_iff none actual = ground arith
satisfies_iff (some []) actual = ground arith
satisfies_iff (some (r ∷ rs)) actual = ground (arith, includes_iff (r ∷ rs) actual)

-- The owner of the resource; the empty text is falsy.
abbrev pub owner_of : Option String → Option String
owner_of none = none
owner_of (some owner_id) = if is_blank owner_id then none else some owner_id

related : EvaluationContext → String → RelationshipType → RelationshipType × EvaluationContext
related ctx owner_id relationship = (
  relationship,
  record ctx {
    trace =
        ctx.trace
        ++ concat (
            "ReBAC: subject \""
            ∷ ctx.subject.user_id
            ∷ "\" is "
            ∷ relationship_text relationship
            ∷ " of resource owner \""
            ∷ owner_id
            ∷ "\""
            ∷ [])
          ∷ [];
  },
)

unowned : EvaluationContext → RelationshipType × EvaluationContext
unowned ctx = (
  RelationshipType.no_relation,
  record ctx { trace = ctx.trace ++ "ReBAC: resource has no owner → relationship NONE" ∷ [] },
)

-- `RebacEvaluator.resolve`
unfoldable pub rebac_resolve :
    (String → String → RelationshipType) → EvaluationContext → RelationshipType × EvaluationContext
unfolding related unowned
rebac_resolve get_relationship ctx = elim (owner_of ctx.resource.owner_user_id) [
  | none ↦ unowned ctx
  | some owner_id ↦ related ctx owner_id (get_relationship ctx.subject.user_id owner_id)
]
