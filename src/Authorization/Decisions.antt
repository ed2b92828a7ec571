-- ===== src/Authorization/Decisions.antt =====
-- What the audit insert makes of a decision: that it is returned, or that the call throws.
use iam_access_control_servi.Prelude.{String, ◌≡◌, ◌≢◌, In, refl, ◌∙◌, none, some, List, []}
use iam_access_control_servi.Outcome.{Outcome, ok, throw, foreign_key}
use iam_access_control_servi.Domain.Enums.{AccessDecision}
use iam_access_control_servi.Domain.Contracts.{AuthorizationRequest, AuthorizationDecision}
use iam_access_control_servi.Domain.Models.{Tenant, AuditRecordInput}
use iam_access_control_servi.Cache.{Cache}
use iam_access_control_servi.Hierarchy.Store.{HierarchyDb}
use iam_access_control_servi.Authorization.{
  Run, Stage, World, audit_entry, finalize, deny, run_pipeline,
}
use iam_access_control_servi.Authorization.Database.{Prisma}
use iam_access_control_servi.Authorization.Facts.{Cached}

module _ {Db : Type 0} (prisma : Prisma Db) (hierarchy : HierarchyDb Db)
    (request : AuthorizationRequest) (run : Run Db) where
  logged_tenant :
      (trace : List String) (effect : AccessDecision) (reason : String) (ms : List String)
      → (audit_entry prisma hierarchy request run trace effect reason ms).tenant_id
        ≡ request.tenant_id
  unfolding audit_entry
  logged_tenant trace effect reason ms = refl

  logged_id :
      (trace : List String) (effect : AccessDecision) (reason : String) (ms : List String)
      → (audit_entry prisma hierarchy request run trace effect reason ms).decision_id
        ≡ run.decision_id
  unfolding audit_entry
  logged_id trace effect reason ms = refl

  finalize_fk :
      (trace : List String) (effect : AccessDecision) (reason : String) (ms : List String)
      (w : World Db)
      → prisma.find_tenant request.tenant_id w.db ≡ none
      → (finalize prisma hierarchy request run trace effect reason ms w).0 ≡ throw foreign_key
  unfolding finalize
  finalize_fk trace effect reason ms w missing =
      let entry = audit_entry prisma hierarchy request run trace effect reason ms in
      rw (prisma.create_audit_fk entry w.db missing) refl

  -- For a tenant that does not exist the pipeline does not return its denial: the audit row that
  -- it writes first breaks the foreign key, and the call throws P2003.
  pub run_pipeline_unknown_tenant :
      (w : World Db)
      → prisma.find_tenant request.tenant_id (run.seen Stage.tenant_read) ≡ none
      → prisma.find_tenant request.tenant_id w.db ≡ none
      → (run_pipeline prisma hierarchy request run w).0 ≡ throw foreign_key
  unfolding run_pipeline deny
  run_pipeline_unknown_tenant w missing gone =
      rw (missing, run_pipeline) (finalize_fk _ AccessDecision.deny _ [] w gone)

  -- The audit row of this run can be inserted: its tenant is there and its decision id is new.
  pub record CanLog (w : World Db) : Type 0 where
    pub tenant : Tenant
    pub known : prisma.find_tenant request.tenant_id w.db ≡ some tenant
    pub fresh :
        (e : AuditRecordInput) → In e (prisma.audit_logs w.db) → e.decision_id ≢ run.decision_id

  abbrev pub Gives :
      AccessDecision → String → List String → Outcome AuthorizationDecision × World Db → Type 0
  Gives effect reason ms r =
      (d : AuthorizationDecision) × (r.0 ≡ ok d)
      × (d.effect ≡ effect)
      × (d.reason ≡ reason)
      × (d.matched_policies ≡ ms)

  module _ (w : World Db) (can : CanLog w) where
    finalize-Gives :
        (trace : List String) (effect : AccessDecision) (reason : String) (ms : List String)
        (c : Cache Cached)
        → Gives effect reason ms
            (finalize prisma hierarchy request run trace effect reason ms (record w { cache = c }))
    unfolding finalize
    finalize-Gives trace effect reason ms c =
        let entry = audit_entry prisma hierarchy request run trace effect reason ms in
        let (db, created) =
          prisma.create_audit_ok entry w.db can.tenant
            (rw (logged_tenant trace effect reason ms) can.known)
            (λ e at same. can.fresh e at (same ∙ logged_id trace effect reason ms)) in
        rw created (_, refl, refl, refl, refl)

    pub deny-Gives :
        (trace : List String) (reason : String)
        → Gives AccessDecision.deny reason [] (deny prisma hierarchy request run trace reason w)
    unfolding deny
    deny-Gives trace reason = finalize-Gives _ AccessDecision.deny reason [] w.cache
