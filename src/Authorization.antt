-- ===== src/Authorization.antt =====
-- src/authorization/authorization.service.ts: the pipeline of `checkAccess`.
pub mod Database
pub mod Facts
pub mod Audit
pub mod Decisions
pub mod Denials
pub mod Allow
pub mod Trail
pub mod Logs
pub mod Memory
use iam_access_control_servi.Prelude.{
  ℕ, ◌+◌, ◌-◌, ◌/◌, String, Bool, true, false, not, Option, none, some, List, [], ◌∷◌, ◌++◌, concat,
  text_or, decimal, length, str_eq, if◌then◌else◌, ◌==◌, ◌&&◌,
}
use iam_access_control_servi.Outcome.{Outcome, ok, throw}
use iam_access_control_servi.Domain.Enums.{
  TenantStatus, EmploymentStatus, AccessDecision, RelationshipType, tenant_status_eq,
  employment_status_eq, tenant_status_text, employment_status_text, clearance_text, decision_text,
}
use iam_access_control_servi.Domain.Contracts.{
  Attributes, AuthorizationRequest, SubjectFacts, ResourceFacts, EvaluationContext,
  AuthorizationDecision,
}
use iam_access_control_servi.Domain.Models.{Tenant, User, Policy, AuditRecordInput}
use iam_access_control_servi.Cache.{Cache}
use iam_access_control_servi.Hierarchy.{get_relationship}
use iam_access_control_servi.Hierarchy.Store.{HierarchyDb}
use iam_access_control_servi.Evaluators.Rbac.{rbac_evaluate}
use iam_access_control_servi.Evaluators.Rebac.{rebac_resolve}
use iam_access_control_servi.Evaluators.PolicyEngine.{PolicyDecision, evaluate}
use iam_access_control_servi.Authorization.Database.{Prisma, where_member}
use iam_access_control_servi.Authorization.Facts.{
  Cached, resolve_resource, permission_names_for_user, find_applicable,
}

-- The awaited reads of the pipeline. Each may see its own state of the database.
pub data Stage : Type 0 where
  tenant_read subject_read resource_read permissions_read relationship_read policies_read : Stage

-- What a run of the pipeline takes from outside: the id of `uuidv4`, the readings of the two
-- clocks, and the state of the database at each read.
pub record Run (Db : Type 0) : Type 0 where
  pub decision_id : String
  pub started_ns : ℕ
  pub finished_ns : ℕ
  pub permissions_now : ℕ
  pub permissions_later : ℕ
  pub policies_now : ℕ
  pub policies_later : ℕ
  pub seen : Stage → Db

-- What the pipeline changes: the database, by the audit log, the cache, and the counters of
-- `recordDecision` as the list of its calls.
pub record World (Db : Type 0) : Type 0 where
  pub db : Db
  pub cache : Cache Cached
  pub decisions : List (String × String × ℕ)

-- `Math.round(ns / 1_000_000)`
abbrev pub rounded_ms : ℕ → ℕ
rounded_ms ns = (ns + 500000) / 1000000

abbrev pub is_allowed : AccessDecision → Bool
is_allowed AccessDecision.allow = true
is_allowed AccessDecision.deny = false

-- `request.subjectAttributes ?? {}`
abbrev pub attributes_or : Option Attributes → Attributes
attributes_or none = Attributes.object []
attributes_or (some Attributes.null) = Attributes.object []
attributes_or (some (Attributes.object ms)) = Attributes.object ms
attributes_or (some (Attributes.other text ms)) = Attributes.other text ms

module _ {Db : Type 0} (prisma : Prisma Db) (hierarchy : HierarchyDb Db)
    (request : AuthorizationRequest) (run : Run Db) where
  -- The row that `AuditService.record` inserts.
  unfoldable pub audit_entry :
      List String → AccessDecision → String → List String → AuditRecordInput
  audit_entry trace effect reason matched_policies = record {
    tenant_id = request.tenant_id;
    decision_id = run.decision_id;
    subject_user_id = some request.subject_user_id;
    action = request.action;
    resource_type = request.resource_type;
    resource_id = some request.resource_id;
    decision = effect;
    reason = reason;
    matched_policies = matched_policies;
    evaluation_trace = trace;
    correlation_id = request.correlation_id;
    latency_ms = some (rounded_ms (run.finished_ns - run.started_ns));
  }

  -- The end of `finalize`: the insert may throw, and then so does the call.
  finish :
      List String
      → AccessDecision
      → String
      → List String
      → World Db
      → Outcome Db
      → Outcome AuthorizationDecision × World Db
  finish trace effect reason matched_policies w (throw e) = (throw e, w)
  finish trace effect reason matched_policies w (ok db) = (
    ok (record {
      decision_id = run.decision_id;
      allowed = is_allowed effect;
      effect = effect;
      reason = reason;
      matched_policies = matched_policies;
      evaluation_trace = trace;
    }),
    record w { db = db },
  )

  record_decision : AccessDecision → World Db → World Db
  record_decision effect w = record w {
    decisions =
        w.decisions
        ++ (request.tenant_id, decision_text effect, rounded_ms (run.finished_ns - run.started_ns))
          ∷ [];
  }

  unfoldable pub finalize :
      List String
      → AccessDecision
      → String
      → List String
      → World Db
      → Outcome AuthorizationDecision × World Db
  unfolding finish record_decision audit_entry
  finalize trace effect reason matched_policies w =
      finish trace effect reason matched_policies (record_decision effect w)
        (prisma.create_audit (audit_entry trace effect reason matched_policies) w.db)

  unfoldable pub deny : List String → String → World Db → Outcome AuthorizationDecision × World Db
  deny trace reason w =
      finalize (trace ++ concat ("DENY: " ∷ reason ∷ []) ∷ []) AccessDecision.deny reason [] w

  unfoldable pub subject_facts : User → List String → SubjectFacts
  subject_facts user permission_names = record {
    user_id = user.id;
    department_id = user.department_id;
    location = user.location;
    clearance_level = user.clearance_level;
    employment_status = user.employment_status;
    permission_names = permission_names;
    role_names = [];
    attributes = attributes_or request.subject_attributes;
  }

  abac_line : SubjectFacts → String
  abac_line subject = concat (
      "ABAC facts: department="
      ∷ text_or subject.department_id "none"
      ∷ ", location="
      ∷ text_or subject.location "none"
      ∷ ", clearance="
      ∷ clearance_text subject.clearance_level
      ∷ [])

  -- The context that the policies are evaluated in: after RBAC, the ABAC line and ReBAC.
  unfoldable pub evaluation_context : List String → SubjectFacts → ResourceFacts → EvaluationContext
  unfolding abac_line
  evaluation_context trace subject resource =
      let start : EvaluationContext = record {
        request = request;
        subject = subject;
        resource = resource;
        relationship = RelationshipType.no_relation;
        has_rbac_permission = false;
        trace = trace;
      } in
      let (granted, after_rbac) = rbac_evaluate start in
      let before_rebac : EvaluationContext = record after_rbac {
        has_rbac_permission = granted;
        trace = after_rbac.trace ++ abac_line subject ∷ [];
      } in
      let (relationship, after_rebac) =
        rebac_resolve
          (λ subject_id owner_id.
            get_relationship hierarchy request.tenant_id subject_id owner_id
              (run.seen Stage.relationship_read))
          before_rebac in
      record after_rebac { relationship = relationship }

  loaded_line : List Policy → String
  loaded_line policies =
      concat ("Loaded " ∷ decimal (length policies) ∷ " applicable policy(ies)" ∷ [])

  -- The context of the policy evaluator, whose trace has the line on the loaded policies.
  unfoldable pub policy_context :
      List String → SubjectFacts → ResourceFacts → List Policy → EvaluationContext
  unfolding loaded_line
  policy_context trace subject resource policies =
      let ctx = evaluation_context trace subject resource in
      record ctx { trace = ctx.trace ++ loaded_line policies ∷ [] }

  -- Steps 4 to 9: the evaluators, the policies and the decision.
  unfoldable pub decide :
      List String → User → ResourceFacts → World Db → Outcome AuthorizationDecision × World Db
  decide trace user resource w =
      let (permission_names, cache_1) =
        permission_names_for_user prisma run.permissions_now run.permissions_later
          (run.seen Stage.permissions_read) request.tenant_id user.id w.cache in
      let (policies, cache_2) =
        find_applicable prisma run.policies_now run.policies_later (run.seen Stage.policies_read)
          request.tenant_id request.action request.resource_type cache_1 in
      let (decision, done) =
        evaluate policies
          (policy_context trace (subject_facts user permission_names) resource policies) in
      finalize done.trace decision.effect decision.reason decision.matched_policies
        (record w { cache = cache_2 })

  resource_line : ResourceFacts → String
  resource_line resource = concat (
      "Resource \""
      ∷ resource.resource_type
      ∷ ":"
      ∷ resource.resource_id
      ∷ "\" validated (owner "
      ∷ text_or resource.owner_user_id "none"
      ∷ ", sensitivity "
      ∷ clearance_text resource.sensitivity
      ∷ ")"
      ∷ [])

  -- Step 3: the resource.
  unfoldable pub validate_resource :
      List String → User → World Db → Outcome AuthorizationDecision × World Db
  unfolding resource_line
  validate_resource trace user w =
      elim (resolve_resource prisma request.tenant_id request.resource_type request.resource_id
        request.resource_attributes (run.seen Stage.resource_read)) [
          | none ↦ deny trace "Resource does not exist within this tenant" w
          | some resource ↦ decide (trace ++ resource_line resource ∷ []) user resource w
        ]

  subject_line : User → String
  subject_line user = concat (
      "Subject \""
      ∷ user.id
      ∷ "\" validated ("
      ∷ employment_status_text user.employment_status
      ∷ ")"
      ∷ [])

  -- Step 2, once the subject is found: its employment status.
  unfoldable pub validate_status :
      List String → User → World Db → Outcome AuthorizationDecision × World Db
  unfolding subject_line
  validate_status trace user w =
      if not (employment_status_eq user.employment_status EmploymentStatus.active)
      then deny trace
          (concat
            ("Subject employment status is " ∷ employment_status_text user.employment_status ∷ []))
          w
      else validate_resource (trace ++ subject_line user ∷ []) user w

  -- Step 2: the subject.
  unfoldable pub validate_subject :
      List String → World Db → Outcome AuthorizationDecision × World Db
  validate_subject trace w =
      elim (prisma.find_user (where_member request.tenant_id request.subject_user_id)
        (run.seen Stage.subject_read)) [
          | none ↦ deny trace "Subject does not exist within this tenant" w
          | some user ↦ validate_status trace user w
        ]

  tenant_line : Tenant → String
  tenant_line tenant = concat (
      "Tenant \""
      ∷ tenant.slug
      ∷ "\" validated (status "
      ∷ tenant_status_text tenant.status
      ∷ ")"
      ∷ [])

  -- Step 1, once the tenant is found: its status.
  unfoldable pub validate_tenant : Tenant → World Db → Outcome AuthorizationDecision × World Db
  unfolding tenant_line
  validate_tenant tenant w =
      if not (tenant_status_eq tenant.status TenantStatus.active)
      then deny [] "Tenant is invalid or not active" w
      else validate_subject (tenant_line tenant ∷ []) w

  -- `runPipeline`
  unfoldable pub run_pipeline : World Db → Outcome AuthorizationDecision × World Db
  run_pipeline w = elim (prisma.find_tenant request.tenant_id (run.seen Stage.tenant_read)) [
    | none ↦ deny [] "Tenant is invalid or not active" w
    | some tenant ↦ validate_tenant tenant w
  ]
