-- ===== src/Authorization/Allow.antt =====
-- What a decision that allows access rests on.
use iam_access_control_servi.Prelude.{
  String, ◌≡◌, ap, ◌∙◌, sym, true, Bool-cases, Option-cases, Option, none, some, List, [], arith,
  inl, inr, In,
}
use iam_access_control_servi.Outcome.{Outcome, ok, throw, ok-inj}
use iam_access_control_servi.Domain.Enums.{
  AccessDecision, PolicyEffect, TenantStatus, EmploymentStatus, RelationshipType, tenant_status_eq,
  tenant_status_eq_iff, employment_status_eq, employment_status_eq_iff,
}
use iam_access_control_servi.Domain.Contracts.{
  AuthorizationRequest, SubjectFacts, ResourceFacts, AuthorizationDecision, EvaluationContext,
}
use iam_access_control_servi.Domain.Models.{Tenant, User, Policy}
use iam_access_control_servi.Hierarchy.{get_relationship}
use iam_access_control_servi.Hierarchy.Store.{HierarchyDb}
use iam_access_control_servi.Evaluators.Rbac.{granted, rbac_evaluate}
use iam_access_control_servi.Evaluators.Rebac.{owner_of, rebac_resolve}
use iam_access_control_servi.Evaluators.PolicyEngine.{evaluate}
use iam_access_control_servi.Evaluators.PolicyEngine.Matching.{Applies}
use iam_access_control_servi.Evaluators.PolicyEngine.DenyOverride.{evaluate_allow_iff}
use iam_access_control_servi.Authorization.{
  Run, Stage, World, is_allowed, finish, finalize, deny, decide, subject_facts, evaluation_context,
  policy_context, validate_resource, validate_status, validate_subject, validate_tenant,
  run_pipeline,
}
use iam_access_control_servi.Authorization.Database.{Prisma, where_member}
use iam_access_control_servi.Authorization.Facts.{
  resolve_resource, permission_names_for_user, find_applicable,
}

module _ {Db : Type 0} (prisma : Prisma Db) (hierarchy : HierarchyDb Db)
    (request : AuthorizationRequest) (run : Run Db) where
  -- The permissions and the policies that the run works with, cached or loaded.
  abbrev pub permission_names : User → World Db → List String
  permission_names user w =
      (permission_names_for_user prisma run.permissions_now run.permissions_later
        (run.seen Stage.permissions_read) request.tenant_id user.id w.cache).0

  abbrev pub applicable : User → World Db → List Policy
  applicable user w =
      (find_applicable prisma run.policies_now run.policies_later (run.seen Stage.policies_read)
        request.tenant_id request.action request.resource_type
        (permission_names_for_user prisma run.permissions_now run.permissions_later
          (run.seen Stage.permissions_read) request.tenant_id user.id w.cache).1).0

  -- The relationship that the run reads: none without an owner.
  abbrev pub owner_relationship : Option String → String → RelationshipType
  owner_relationship none subject_id = RelationshipType.no_relation
  owner_relationship (some owner_id) subject_id =
      get_relationship hierarchy request.tenant_id subject_id owner_id
        (run.seen Stage.relationship_read)

  -- What an allowing decision rests on.
  pub record IsPermitted (w : World Db) : Type 0 where
    pub tenant : Tenant
    pub tenant_found :
        prisma.find_tenant request.tenant_id (run.seen Stage.tenant_read) ≡ some tenant
    pub tenant_active : tenant.status ≡ TenantStatus.active
    pub user : User
    pub user_found :
        prisma.find_user
          (where_member request.tenant_id request.subject_user_id)
          (run.seen Stage.subject_read)
        ≡ some user
    pub user_active : user.employment_status ≡ EmploymentStatus.active
    pub resource : ResourceFacts
    pub resource_found :
        resolve_resource prisma request.tenant_id request.resource_type request.resource_id
          request.resource_attributes
          (run.seen Stage.resource_read)
        ≡ some resource
    pub context : EvaluationContext
    pub subject :
        context.subject ≡ subject_facts prisma hierarchy request run user (permission_names user w)
    pub same_resource : context.resource ≡ resource
    pub relationship :
        context.relationship ≡ owner_relationship (owner_of resource.owner_user_id) user.id
    pub rbac :
        context.has_rbac_permission
        ≡ granted (permission_names user w) request.action request.resource_type
    pub allowing : Policy
    pub allowing_loaded : In allowing (applicable user w)
    pub allowing_effect : allowing.effect ≡ PolicyEffect.allow
    pub allowing_applies : Applies allowing context
    pub no_denial :
        (p : Policy) → In p (applicable user w) → p.effect ≡ PolicyEffect.deny → ¬ Applies p context

  policy_context_subject :
      (trace : List String) (s : SubjectFacts) (r : ResourceFacts) (ps : List Policy)
      → (policy_context prisma hierarchy request run trace s r ps).subject ≡ s
  unfolding policy_context evaluation_context rbac_evaluate rebac_resolve
  policy_context_subject trace s r ps = ground arith

  policy_context_resource :
      (trace : List String) (s : SubjectFacts) (r : ResourceFacts) (ps : List Policy)
      → (policy_context prisma hierarchy request run trace s r ps).resource ≡ r
  unfolding policy_context evaluation_context rbac_evaluate rebac_resolve
  policy_context_resource trace s r ps = ground arith

  policy_context_rbac :
      (trace : List String) (s : SubjectFacts) (r : ResourceFacts) (ps : List Policy)
      → (policy_context prisma hierarchy request run trace s r ps).has_rbac_permission
        ≡ granted s.permission_names request.action request.resource_type
  unfolding policy_context evaluation_context rbac_evaluate rebac_resolve
  policy_context_rbac trace s r ps = ground arith

  policy_context_relationship :
      (trace : List String) (s : SubjectFacts) (r : ResourceFacts) (ps : List Policy)
      → (policy_context prisma hierarchy request run trace s r ps).relationship
        ≡ owner_relationship (owner_of r.owner_user_id) s.user_id
  unfolding policy_context evaluation_context rbac_evaluate rebac_resolve
  policy_context_relationship trace s r ps = ground arith

  finish_effect :
      (trace : List String) (effect : AccessDecision) (reason : String) (ms : List String)
      (w : World Db) (o : Outcome Db) (d : AuthorizationDecision)
      → (finish prisma hierarchy request run trace effect reason ms w o).0 ≡ ok d
      → d.allowed ≡ is_allowed effect
  unfolding finish
  finish_effect trace effect reason ms w (throw e) d h = cc
  finish_effect trace effect reason ms w (ok db) d h =
      ap (λ (x : AuthorizationDecision). x.allowed) (sym (ok-inj h))

  finalize_effect :
      (trace : List String) (effect : AccessDecision) (reason : String) (ms : List String)
      (w : World Db) (d : AuthorizationDecision)
      → (finalize prisma hierarchy request run trace effect reason ms w).0 ≡ ok d
      → d.allowed ≡ is_allowed effect
  unfolding finalize
  finalize_effect trace effect reason ms w d h = finish_effect trace effect reason ms _ _ d h

  deny_refuses :
      (trace : List String) (reason : String) (w : World Db) (d : AuthorizationDecision)
      → (deny prisma hierarchy request run trace reason w).0 ≡ ok d
      → d.allowed ≡ true
      → ⊥
  unfolding deny
  deny_refuses trace reason w d h allowed =
      cc (finalize_effect _ AccessDecision.deny reason [] w d h, allowed)

  allow_of_is_allowed : (e : AccessDecision) → is_allowed e ≡ true → e ≡ AccessDecision.allow
  allow_of_is_allowed e h = ground arith

  decide_allow :
      (trace : List String) (user : User) (resource : ResourceFacts) (w : World Db)
      (d : AuthorizationDecision)
      → (decide prisma hierarchy request run trace user resource w).0 ≡ ok d
      → d.allowed ≡ true
      → (evaluate (applicable user w) (
          policy_context prisma hierarchy request run trace
            (subject_facts prisma hierarchy request run user (permission_names user w))
            resource
            (applicable user w))).0.effect
        ≡ AccessDecision.allow
  unfolding decide
  decide_allow trace user resource w d h allowed =
      allow_of_is_allowed _ (sym (finalize_effect _ _ _ _ _ d h) ∙ allowed)

  module _ (w : World Db) (d : AuthorizationDecision) (allowed : d.allowed ≡ true) (tenant : Tenant)
      (tenant_found : prisma.find_tenant request.tenant_id (run.seen Stage.tenant_read)
        ≡ some tenant)
      (tenant_active : tenant.status ≡ TenantStatus.active) where
    module _ (user : User)
        (user_found : prisma.find_user
            (where_member request.tenant_id request.subject_user_id)
            (run.seen Stage.subject_read)
          ≡ some user)
        (user_active : user.employment_status ≡ EmploymentStatus.active) where
      decide-IsPermitted :
          (trace : List String) (resource : ResourceFacts)
          → resolve_resource prisma request.tenant_id request.resource_type request.resource_id
              request.resource_attributes
              (run.seen Stage.resource_read)
            ≡ some resource
          → (decide prisma hierarchy request run trace user resource w).0 ≡ ok d
          → IsPermitted w
      decide-IsPermitted trace resource found h =
          let facts = subject_facts prisma hierarchy request run user (permission_names user w) in
          let policies = applicable user w in
          let ctx = policy_context prisma hierarchy request run trace facts resource policies in
          let ((p, at, effect, applies), no_denial) =
            (evaluate_allow_iff ctx policies).0 (decide_allow trace user resource w d h allowed) in
          record {
            tenant = tenant;
            tenant_found = tenant_found;
            tenant_active = tenant_active;
            user = user;
            user_found = user_found;
            user_active = user_active;
            resource = resource;
            resource_found = found;
            context = ctx;
            subject = policy_context_subject trace facts resource policies;
            same_resource = policy_context_resource trace facts resource policies;
            relationship =
                unfold subject_facts in policy_context_relationship trace facts resource policies;
            rbac = unfold subject_facts in policy_context_rbac trace facts resource policies;
            allowing = p;
            allowing_loaded = at;
            allowing_effect = effect;
            allowing_applies = applies;
            no_denial = no_denial;
          }

      resource-IsPermitted :
          (trace : List String)
          → (validate_resource prisma hierarchy request run trace user w).0 ≡ ok d
          → IsPermitted w
      unfolding validate_resource
      resource-IsPermitted trace h =
          elim (Option-cases (
            resolve_resource prisma request.tenant_id request.resource_type request.resource_id
              request.resource_attributes (run.seen Stage.resource_read))) [
                | inl missing ↦
                    absurd (deny_refuses trace _ w d (rw (missing, validate_resource) at h) allowed)
                | inr (resource, found) ↦
                    decide-IsPermitted _ resource found (rw (found, validate_resource) at h)
              ]

    status-IsPermitted :
        (trace : List String) (user : User)
        → prisma.find_user
            (where_member request.tenant_id request.subject_user_id)
            (run.seen Stage.subject_read)
          ≡ some user
        → (validate_status prisma hierarchy request run trace user w).0 ≡ ok d
        → IsPermitted w
    unfolding validate_status
    status-IsPermitted trace user found h =
        elim (Bool-cases (employment_status_eq user.employment_status EmploymentStatus.active)) [
          | inr other ↦ absurd (deny_refuses trace _ w d (rw other at h) allowed)
          | inl active ↦
              resource-IsPermitted user found
                ((employment_status_eq_iff user.employment_status EmploymentStatus.active).0 active)
                _ (rw active at h)
        ]

    subject-IsPermitted :
        (trace : List String)
        → (validate_subject prisma hierarchy request run trace w).0 ≡ ok d
        → IsPermitted w
    unfolding validate_subject
    subject-IsPermitted trace h =
        elim (Option-cases (
          prisma.find_user (where_member request.tenant_id request.subject_user_id)
            (run.seen Stage.subject_read))) [
              | inl missing ↦
                  absurd (deny_refuses trace _ w d (rw (missing, validate_subject) at h) allowed)
              | inr (user, found) ↦
                  status-IsPermitted trace user found (rw (found, validate_subject) at h)
            ]

  tenant-IsPermitted :
      (w : World Db) (d : AuthorizationDecision) (tenant : Tenant)
      → d.allowed ≡ true
      → prisma.find_tenant request.tenant_id (run.seen Stage.tenant_read) ≡ some tenant
      → (validate_tenant prisma hierarchy request run tenant w).0 ≡ ok d
      → IsPermitted w
  unfolding validate_tenant
  tenant-IsPermitted w d tenant allowed found h =
      elim (Bool-cases (tenant_status_eq tenant.status TenantStatus.active)) [
        | inr other ↦ absurd (deny_refuses [] _ w d (rw other at h) allowed)
        | inl active ↦
            subject-IsPermitted w d allowed tenant found
              ((tenant_status_eq_iff tenant.status TenantStatus.active).0 active) _ (rw active at h)
      ]

  -- A run that allows access has found an active tenant, an active subject and the resource in
  -- it, and among the policies that it worked with some ALLOW policy applies to the subject's
  -- and the resource's facts and no DENY policy does; the facts have the relationship to the
  -- resource's owner and the RBAC grant that the run computed.
  pub run_pipeline_allow :
      (w : World Db) (d : AuthorizationDecision)
      → (run_pipeline prisma hierarchy request run w).0 ≡ ok d
      → d.allowed ≡ true
      → IsPermitted w
  unfolding run_pipeline
  run_pipeline_allow w d h allowed =
      elim (Option-cases (prisma.find_tenant request.tenant_id (run.seen Stage.tenant_read))) [
        | inl missing ↦ absurd (deny_refuses [] _ w d (rw (missing, run_pipeline) at h) allowed)
        | inr (tenant, found) ↦
            tenant-IsPermitted w d tenant allowed found (rw (found, run_pipeline) at h)
      ]
