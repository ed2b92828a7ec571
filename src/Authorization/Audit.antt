-- ===== src/Authorization/Audit.antt =====
-- Every decision that the engine returns is in the audit log, once, as it was returned.
use iam_access_control_servi.Prelude.{
  String, ◌≡◌, refl, subst, true, false, Bool, none, some, List, [], ◌∷◌, ◌++◌, if◌then◌else◌,
}
use iam_access_control_servi.Outcome.{Outcome, ok, throw, ok-inj}
use iam_access_control_servi.Domain.Enums.{AccessDecision}
use iam_access_control_servi.Domain.Contracts.{
  AuthorizationRequest, ResourceFacts, AuthorizationDecision,
}
use iam_access_control_servi.Domain.Models.{Tenant, User, AuditRecordInput}
use iam_access_control_servi.Hierarchy.Store.{HierarchyDb}
use iam_access_control_servi.Authorization.{
  Run, Stage, World, is_allowed, audit_entry, finish, record_decision, finalize, deny, decide,
  resource_line, validate_resource, validate_status, validate_subject, validate_tenant,
  run_pipeline,
}
use iam_access_control_servi.Authorization.Database.{Prisma, where_member}
use iam_access_control_servi.Authorization.Facts.{resolve_resource}

module _ {Db : Type 0} (prisma : Prisma Db) (hierarchy : HierarchyDb Db)
    (request : AuthorizationRequest) (run : Run Db) where
  -- One row was added to the log, and it says what the decision says.
  pub record IsLogged (before : List AuditRecordInput) (d : AuthorizationDecision)
      (after : World Db) : Type 0 where
    pub entry : AuditRecordInput
    pub added : prisma.audit_logs after.db ≡ before ++ entry ∷ []
    pub tenant_id : entry.tenant_id ≡ request.tenant_id
    pub subject_user_id : entry.subject_user_id ≡ some request.subject_user_id
    pub decision_id : entry.decision_id ≡ d.decision_id
    pub decision : entry.decision ≡ d.effect
    pub reason : entry.reason ≡ d.reason
    pub matched_policies : entry.matched_policies ≡ d.matched_policies
    pub evaluation_trace : entry.evaluation_trace ≡ d.evaluation_trace
    pub allowed : d.allowed ≡ is_allowed d.effect

  abbrev Logs : List AuditRecordInput → Outcome AuthorizationDecision × World Db → Type 0
  Logs before (r, after) = (d : AuthorizationDecision) → r ≡ ok d → IsLogged before d after

  Logs-if :
      (before : List AuditRecordInput) (b : Bool) (x y : Outcome AuthorizationDecision × World Db)
      → Logs before x
      → Logs before y
      → Logs before (if b then x else y)
  Logs-if before true x y h k = h
  Logs-if before false x y h k = k

  finish-Logs :
      (trace : List String) (effect : AccessDecision) (reason : String) (ms : List String)
      (w : World Db) (o : Outcome Db)
      → prisma.create_audit (audit_entry prisma hierarchy request run trace effect reason ms) w.db
        ≡ o
      → Logs
          (prisma.audit_logs w.db)
          (finish prisma hierarchy request run trace effect reason ms w o)
  unfolding finish audit_entry
  finish-Logs trace effect reason ms w (throw x) e d h = cc
  finish-Logs trace effect reason ms w (ok db) e d h =
      subst (λ x. IsLogged (prisma.audit_logs w.db) x (record w { db = db })) (ok-inj h)
        (record {
          entry = audit_entry prisma hierarchy request run trace effect reason ms;
          added =
              prisma.create_audit_logs
                (audit_entry prisma hierarchy request run trace effect reason ms) w.db db e;
          tenant_id = refl;
          subject_user_id = refl;
          decision_id = refl;
          decision = refl;
          reason = refl;
          matched_policies = refl;
          evaluation_trace = refl;
          allowed = refl;
        })

  finalize-Logs :
      (trace : List String) (effect : AccessDecision) (reason : String) (ms : List String)
      (w : World Db)
      → Logs
          (prisma.audit_logs w.db)
          (finalize prisma hierarchy request run trace effect reason ms w)
  unfolding finalize
  finalize-Logs trace effect reason ms w =
      finish-Logs trace effect reason ms (record_decision prisma hierarchy request run effect w)
        (prisma.create_audit (audit_entry prisma hierarchy request run trace effect reason ms) w.db)
        refl

  deny-Logs :
      (trace : List String) (reason : String) (w : World Db)
      → Logs (prisma.audit_logs w.db) (deny prisma hierarchy request run trace reason w)
  unfolding deny
  deny-Logs trace reason w = finalize-Logs _ AccessDecision.deny reason [] w

  decide-Logs :
      (trace : List String) (user : User) (resource : ResourceFacts) (w : World Db)
      → Logs (prisma.audit_logs w.db) (decide prisma hierarchy request run trace user resource w)
  unfolding decide
  decide-Logs trace user resource w = finalize-Logs _ _ _ _ _

  validate_resource-Logs :
      (trace : List String) (user : User) (w : World Db)
      → Logs (prisma.audit_logs w.db) (validate_resource prisma hierarchy request run trace user w)
  unfolding validate_resource
  validate_resource-Logs trace user w =
      elim (resolve_resource prisma request.tenant_id request.resource_type request.resource_id
          request.resource_attributes (run.seen Stage.resource_read))
        as (λ o. Logs (prisma.audit_logs w.db) (elim o [
          | none ↦
              deny prisma hierarchy request run trace "Resource does not exist within this tenant" w
          | some resource ↦
              decide prisma hierarchy request run
                (trace ++ resource_line prisma hierarchy request run resource ∷ []) user resource w
        ])) [ none ↦ deny-Logs trace _ w | some resource ↦ decide-Logs _ user resource w ]

  validate_status-Logs :
      (trace : List String) (user : User) (w : World Db)
      → Logs (prisma.audit_logs w.db) (validate_status prisma hierarchy request run trace user w)
  unfolding validate_status
  validate_status-Logs trace user w =
      Logs-if _ _ _ _ (deny-Logs trace _ w) (validate_resource-Logs _ user w)

  validate_subject-Logs :
      (trace : List String) (w : World Db)
      → Logs (prisma.audit_logs w.db) (validate_subject prisma hierarchy request run trace w)
  unfolding validate_subject
  validate_subject-Logs trace w =
      elim (prisma.find_user (where_member request.tenant_id request.subject_user_id)
          (run.seen Stage.subject_read))
        as (λ o. Logs (prisma.audit_logs w.db) (elim o [
          | none ↦
              deny prisma hierarchy request run trace "Subject does not exist within this tenant" w
          | some user ↦ validate_status prisma hierarchy request run trace user w
        ])) [ none ↦ deny-Logs trace _ w | some user ↦ validate_status-Logs trace user w ]

  validate_tenant-Logs :
      (tenant : Tenant) (w : World Db)
      → Logs (prisma.audit_logs w.db) (validate_tenant prisma hierarchy request run tenant w)
  unfolding validate_tenant
  validate_tenant-Logs tenant w = Logs-if _ _ _ _ (deny-Logs [] _ w) (validate_subject-Logs _ w)

  -- A run of the pipeline that returns a decision has added exactly one row to the audit log,
  -- for the request's tenant and subject, with the decision's id, effect, reason, matched
  -- policies and trace; and `allowed` is true exactly if the effect is ALLOW.
  pub run_pipeline_logs :
      (w : World Db) (d : AuthorizationDecision)
      → (run_pipeline prisma hierarchy request run w).0 ≡ ok d
      → IsLogged (prisma.audit_logs w.db) d (run_pipeline prisma hierarchy request run w).1
  unfolding run_pipeline
  run_pipeline_logs w =
      elim (prisma.find_tenant request.tenant_id (run.seen Stage.tenant_read))
        as (λ o. Logs (prisma.audit_logs w.db) (elim o [
          | none ↦ deny prisma hierarchy request run [] "Tenant is invalid or not active" w
          | some tenant ↦ validate_tenant prisma hierarchy request run tenant w
        ])) [ none ↦ deny-Logs [] _ w | some tenant ↦ validate_tenant-Logs tenant w ]
