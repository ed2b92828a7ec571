-- ===== src/Evaluators/PolicyEngine/DenyOverride.antt =====
-- The combining algorithm against its specification: deny by default, deny overrides allow.
use mathlib.Core.List.{append_assoc, append-nil}
use iam_access_control_servi.Prelude.{
  String, ◌≡◌, refl, sym, ap, ◌↔◌, Bool, true, false, ◌&&◌, List, [], ◌∷◌, ◌++◌, map, arith, In,
  select, is_empty, Bool-cases, inl, inr,
}
use iam_access_control_servi.Domain.Enums.{PolicyEffect, AccessDecision}
use iam_access_control_servi.Domain.Models.{Policy}
use iam_access_control_servi.Domain.Contracts.{EvaluationContext}
use iam_access_control_servi.Evaluators.Abac.{MatchResult, matched, unmatched}
use iam_access_control_servi.Evaluators.PolicyEngine.{
  condition_of, is_allow, is_deny, matches, Tally, count_policy, tally_policies, combine, evaluate,
}
use iam_access_control_servi.Evaluators.PolicyEngine.Matching.{Applies, matches_iff}

abbrev is_matched : MatchResult → Bool
is_matched matched = true
is_matched (unmatched reason) = false

-- Policies of one effect that match.
abbrev pub is_allowing : EvaluationContext → Policy → Bool
is_allowing ctx p = is_allow p.effect && is_matched (matches p (condition_of p) ctx)

abbrev pub is_denying : EvaluationContext → Policy → Bool
is_denying ctx p = is_deny p.effect && is_matched (matches p (condition_of p) ctx)

abbrev pub names_of : (Policy → Bool) → List Policy → List String
names_of p policies = map (λ q. q.name) (select p policies)

abbrev singleton_if : Bool → String → List String
singleton_if true name = name ∷ []
singleton_if false name = []

count_allow :
    (p : Policy) (m : MatchResult) (t : Tally)
    → (count_policy p m t).matched_allow
      ≡ t.matched_allow ++ singleton_if (is_allow p.effect && is_matched m) p.name
unfolding count_policy
count_allow p m t = ground (arith, append-nil t.matched_allow)

count_deny :
    (p : Policy) (m : MatchResult) (t : Tally)
    → (count_policy p m t).matched_deny
      ≡ t.matched_deny ++ singleton_if (is_deny p.effect && is_matched m) p.name
unfolding count_policy
count_deny p m t = ground (arith, append-nil t.matched_deny)

names_of-cons :
    (q : Policy → Bool) (p : Policy) (ps : List Policy)
    → singleton_if (q p) p.name ++ names_of q ps ≡ names_of q (p ∷ ps)
names_of-cons q p ps = ground arith

tally_allow :
    (ctx : EvaluationContext) (ps : List Policy) (t : Tally)
    → (tally_policies ctx ps t).matched_allow ≡ t.matched_allow ++ names_of (is_allowing ctx) ps
unfolding tally_policies
tally_allow ctx [] t = sym (append-nil _)
tally_allow ctx (p ∷ ps) t =
    simp (tally_allow ctx ps, count_allow, append_assoc)
      (ap (λ xs. t.matched_allow ++ xs) (names_of-cons (is_allowing ctx) p ps))

tally_deny :
    (ctx : EvaluationContext) (ps : List Policy) (t : Tally)
    → (tally_policies ctx ps t).matched_deny ≡ t.matched_deny ++ names_of (is_denying ctx) ps
unfolding tally_policies
tally_deny ctx [] t = sym (append-nil _)
tally_deny ctx (p ∷ ps) t =
    simp (tally_deny ctx ps, count_deny, append_assoc)
      (ap (λ xs. t.matched_deny ++ xs) (names_of-cons (is_denying ctx) p ps))

-- The decision is the combination of the names of the policies that match, in the given order.
pub evaluate_decision :
    (ps : List Policy) (ctx : EvaluationContext)
    → (evaluate ps ctx).0 ≡ combine (names_of (is_allowing ctx) ps) (names_of (is_denying ctx) ps)
unfolding evaluate
evaluate_decision ps ctx = rw (tally_allow, tally_deny) refl

names_nonempty :
    (q : Policy → Bool) (ps : List Policy) (r : Policy)
    → In r ps
    → q r ≡ true
    → is_empty (names_of q ps) ≡ false
names_nonempty q [] r at h = absurd at
names_nonempty q (p ∷ ps) r at h = ground (arith, names_nonempty q ps r)

names_present :
    (q : Policy → Bool) (ps : List Policy)
    → (is_empty (names_of q ps) ≡ false) ↔ ((p : Policy) × In p ps × (q p ≡ true))
names_present q [] = (λ h. cc, λ h. absurd h.1)
names_present q (p ∷ ps) = (
  λ h. elim (Bool-cases (q p)) [
    | inl here ↦ (p, inl refl, here)
    | inr other ↦ let (r, at, passes) = (names_present q ps).0 (ground arith) in (r, inr at, passes)
  ],
  λ (r, at, passes). names_nonempty q (p ∷ ps) r at passes,
)

combine_allow :
    (a d : List String)
    → ((combine a d).effect ≡ AccessDecision.allow) ↔ ((is_empty d ≡ true) × (is_empty a ≡ false))
unfolding combine
combine_allow a d = ground arith

AccessDecision-ext :
    {a b : AccessDecision}
    → (a ≡ AccessDecision.allow → b ≡ AccessDecision.allow)
    → (b ≡ AccessDecision.allow → a ≡ AccessDecision.allow)
    → a ≡ b
AccessDecision-ext f g = ground arith

module _ (ctx : EvaluationContext) where
  is_matched_iff : (m : MatchResult) → (is_matched m ≡ true) ↔ (m ≡ matched)
  is_matched_iff m = ground arith

  allowing_iff :
      (p : Policy) → (is_allowing ctx p ≡ true) ↔ ((p.effect ≡ PolicyEffect.allow) × Applies p ctx)
  allowing_iff p =
      let (to, from) = matches_iff p ctx in
      let m = matches p (condition_of p) ctx in
      let split : (is_allowing ctx p ≡ true) ↔ ((p.effect ≡ PolicyEffect.allow) × (m ≡ matched)) =
        ground (arith, is_matched_iff m) in
      (λ h. ((split.0 h).0, to (split.0 h).1), λ h. split.1 (h.0, from h.1))

  denying_iff :
      (p : Policy) → (is_denying ctx p ≡ true) ↔ ((p.effect ≡ PolicyEffect.deny) × Applies p ctx)
  denying_iff p =
      let (to, from) = matches_iff p ctx in
      let m = matches p (condition_of p) ctx in
      let split : (is_denying ctx p ≡ true) ↔ ((p.effect ≡ PolicyEffect.deny) × (m ≡ matched)) =
        ground (arith, is_matched_iff m) in
      (λ h. ((split.0 h).0, to (split.0 h).1), λ h. split.1 (h.0, from h.1))

  abbrev Permits : List Policy → Type 0
  Permits ps =
      ((p : Policy) × In p ps × (p.effect ≡ PolicyEffect.allow) × Applies p ctx)
      × ((p : Policy) → In p ps → p.effect ≡ PolicyEffect.deny → ¬ Applies p ctx)

  transfer : (ps qs : List Policy) → ((p : Policy) → In p ps ↔ In p qs) → Permits ps → Permits qs
  transfer ps qs same ((p, at, effect, applies), deny) =
      ((p, (same p).0 at, effect, applies), λ q at_q. deny q ((same q).1 at_q))

  -- Access is allowed exactly when some ALLOW policy applies and no DENY policy does.
  pub evaluate_allow_iff :
      (ps : List Policy)
      → ((evaluate ps ctx).0.effect ≡ AccessDecision.allow) ↔ (
          ((p : Policy) × In p ps × (p.effect ≡ PolicyEffect.allow) × Applies p ctx)
          × ((p : Policy) → In p ps → p.effect ≡ PolicyEffect.deny → ¬ Applies p ctx))
  evaluate_allow_iff ps =
      let allowing = names_present (is_allowing ctx) ps in
      let denying = names_present (is_denying ctx) ps in
      let combined = combine_allow (names_of (is_allowing ctx) ps) (names_of (is_denying ctx) ps) in
      (
        λ h.
            let (none_deny, some_allow) = combined.0 (rw evaluate_decision at h) in
            let (p, at, passes) = allowing.0 some_allow in
            let (effect, applies) = (allowing_iff p).0 passes in
            (
              (p, at, effect, applies),
              λ q at_q effect_q applies_q.
                  cc (none_deny, denying.1 (q, at_q, (denying_iff q).1 (effect_q, applies_q))),
            ),
        λ h.
            let (p, at, effect, applies) = h.0 in
            let allow = allowing.1 (p, at, (allowing_iff p).1 (effect, applies)) in
            rw evaluate_decision (
              combined.1 (
                elim (Bool-cases (is_empty (names_of (is_denying ctx) ps))) [
                  | inl empty ↦ empty
                  | inr full ↦
                      let (q, at_q, passes) = denying.0 full in
                      let (effect_q, applies_q) = (denying_iff q).0 passes in
                      absurd (h.1 q at_q effect_q applies_q)
                ],
                allow,
              )),
      )

  -- Policies that hold the same members give the same effect: neither the order of the list,
  -- and so the priorities, nor repetitions change a decision.
  pub evaluate_same_members :
      (ps qs : List Policy)
      → ((p : Policy) → In p ps ↔ In p qs)
      → (evaluate ps ctx).0.effect ≡ (evaluate qs ctx).0.effect
  evaluate_same_members ps qs same =
      AccessDecision-ext
        (λ h. (evaluate_allow_iff qs).1 (transfer ps qs same ((evaluate_allow_iff ps).0 h)))
        (λ h.
          (evaluate_allow_iff ps).1
            (transfer qs ps (λ p. ((same p).1, (same p).0)) ((evaluate_allow_iff qs).0 h)))
