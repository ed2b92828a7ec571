-- ===== src/Authorization/Trail.antt =====
-- src/audit: the rows of the audit log, what the API shows of them, and their listing.
use iam_access_control_servi.Prelude.{
  ℕ, ◌≤◌, String, ◌≡◌, refl, sym, subst, Bool, true, false, ◌&&◌, Option, none, some, List, [], ◌∷◌,
  map, length, In, In-map, In-append, inl, inr, str_eq, eq_refl, arith,
}
use iam_access_control_servi.Outcome.{ok}
use iam_access_control_servi.Domain.Enums.{AccessDecision}
use iam_access_control_servi.Domain.Contracts.{AuthorizationDecision, AuthorizationRequest}
use iam_access_control_servi.Domain.Models.{AuditRecordInput}
use iam_access_control_servi.Hierarchy.Store.{HierarchyDb}
use iam_access_control_servi.Access.Jwt.{filled}
use iam_access_control_servi.Requests.Pagination.{ℤ}
use iam_access_control_servi.Authorization.{Run, World, run_pipeline}
use iam_access_control_servi.Authorization.Database.{Prisma}
use iam_access_control_servi.Authorization.Audit.{run_pipeline_logs}

-- A row of `access_audit_logs`; the trace is none where the JSON column holds no array.
pub record AuditLogRow : Type 0 where
  pub id : String
  pub tenant_id : String
  pub decision_id : String
  pub subject_user_id : Option String
  pub action : String
  pub resource_type : String
  pub resource_id : Option String
  pub decision : AccessDecision
  pub reason : String
  pub matched_policies : List String
  pub evaluation_trace : Option (List String)
  pub correlation_id : Option String
  pub latency_ms : Option ℕ
  pub created_at : ℕ

-- The log of the API.
pub record AccessAuditLog : Type 0 where
  pub id : String
  pub tenant_id : String
  pub decision_id : String
  pub subject_user_id : Option String
  pub action : String
  pub resource_type : String
  pub resource_id : Option String
  pub decision : AccessDecision
  pub reason : String
  pub matched_policies : List String
  pub evaluation_trace : List String
  pub correlation_id : Option String
  pub latency_ms : Option ℕ
  pub created_at : ℕ

-- The row that `AuditRepository.create` inserts, with the id and the time that the database gives.
unfoldable pub stored_row : String → ℕ → AuditRecordInput → AuditLogRow
stored_row id created_at input = record {
  id = id;
  tenant_id = input.tenant_id;
  decision_id = input.decision_id;
  subject_user_id = input.subject_user_id;
  action = input.action;
  resource_type = input.resource_type;
  resource_id = input.resource_id;
  decision = input.decision;
  reason = input.reason;
  matched_policies = input.matched_policies;
  evaluation_trace = some input.evaluation_trace;
  correlation_id = input.correlation_id;
  latency_ms = input.latency_ms;
  created_at = created_at;
}

abbrev trace_or : Option (List String) → List String
trace_or none = []
trace_or (some trace) = trace

-- `AuditMapper.toEntity`
unfoldable pub audit_entity : AuditLogRow → AccessAuditLog
audit_entity model = record {
  id = model.id;
  tenant_id = model.tenant_id;
  decision_id = model.decision_id;
  subject_user_id = model.subject_user_id;
  action = model.action;
  resource_type = model.resource_type;
  resource_id = model.resource_id;
  decision = model.decision;
  reason = model.reason;
  matched_policies = model.matched_policies;
  evaluation_trace = trace_or model.evaluation_trace;
  correlation_id = model.correlation_id;
  latency_ms = model.latency_ms;
  created_at = model.created_at;
}

-- The table of audit logs: every logged insert has its row, and `findMany`, newest first, shows
-- rows that fit, and all of them where `take` has room for the table.
pub record AuditTable {Db : Type 0} (prisma : Prisma Db) : Type 0 where
  pub rows : Db → List AuditLogRow
  pub find_many : (AuditLogRow → Bool) → ℤ → Db → List AuditLogRow
  pub rows_logs :
      (db : Db) (e : AuditRecordInput)
      → In e (prisma.audit_logs db)
      → (id : String) × (created_at : ℕ) × In (stored_row id created_at e) (rows db)
  pub find_many_sound :
      (p : AuditLogRow → Bool) (take : ℤ) (db : Db) (r : AuditLogRow)
      → In r (find_many p take db)
      → In r (rows db) × (p r ≡ true)
  pub find_many_all :
      (p : AuditLogRow → Bool) (take : ℕ) (db : Db) (r : AuditLogRow)
      → length (rows db) ≤ take
      → In r (rows db)
      → p r ≡ true
      → In r (find_many p (ℤ.pos take) db)

abbrev is_subject : Option String → Option String → Bool
is_subject none row_subject = true
is_subject (some id) none = false
is_subject (some id) (some row_subject) = str_eq row_subject id

-- `{ tenantId, ...(subjectUserId ? { subjectUserId } : {}) }`
unfoldable pub where_logged : String → Option String → AuditLogRow → Bool
where_logged tenant_id subject_user_id r =
    str_eq r.tenant_id tenant_id && is_subject (filled subject_user_id) r.subject_user_id

abbrev take_or : Option ℤ → ℤ
take_or none = ℤ.pos 50
take_or (some take) = take

module _ {Db : Type 0} (prisma : Prisma Db) (table : AuditTable prisma) where
  -- `AuditService.findMany`, with the repository's query.
  unfoldable pub all_logs : String → Option ℤ → Option String → Db → List AccessAuditLog
  unfolding audit_entity where_logged
  all_logs tenant_id take subject_user_id db =
      map audit_entity (table.find_many (where_logged tenant_id subject_user_id) (take_or take) db)

-- A log that tells of a decision.
pub record IsShown (d : AuthorizationDecision) (logs : List AccessAuditLog) : Type 0 where
  pub log : AccessAuditLog
  pub at : In log logs
  pub decision_id : log.decision_id ≡ d.decision_id
  pub decision : log.decision ≡ d.effect
  pub reason : log.reason ≡ d.reason
  pub matched_policies : log.matched_policies ≡ d.matched_policies
  pub evaluation_trace : log.evaluation_trace ≡ d.evaluation_trace

fits :
    (t s id : String) (created_at : ℕ) (e : AuditRecordInput)
    → e.tenant_id ≡ t
    → e.subject_user_id ≡ some s
    → where_logged t (some s) (stored_row id created_at e) ≡ true
unfolding where_logged stored_row
fits t s id created_at e same_tenant same_subject =
    rw (same_tenant, same_subject, eq_refl t) (ground (arith, eq_refl s))

module _ {Db : Type 0} (prisma : Prisma Db) (table : AuditTable prisma) (hierarchy : HierarchyDb Db)
    (request : AuthorizationRequest) (run : Run Db) where
  -- A decision that the pipeline returned is among the logs of its tenant and subject, with its
  -- effect, reason, policies and trace, where the listing has room for the table.
  pub run_pipeline-all_logs :
      (w : World Db) (d : AuthorizationDecision) (take : ℕ)
      → (run_pipeline prisma hierarchy request run w).0 ≡ ok d
      → length (table.rows (run_pipeline prisma hierarchy request run w).1.db) ≤ take
      → IsShown d (
          all_logs prisma table request.tenant_id
            (some (ℤ.pos take))
            (some request.subject_user_id)
            (run_pipeline prisma hierarchy request run w).1.db)
  unfolding all_logs stored_row audit_entity
  run_pipeline-all_logs w d take returned room =
      let after = (run_pipeline prisma hierarchy request run w).1.db in
      let logged = run_pipeline_logs prisma hierarchy request run w d returned in
      let e = logged.entry in
      let at_log =
        subst (In e) (sym logged.added)
          ((In-append e (prisma.audit_logs w.db) (e ∷ [])).1 (inr (inl refl))) in
      let (id, created_at, row) = table.rows_logs after e at_log in
      let r = stored_row id created_at e in
      let p = where_logged request.tenant_id (some request.subject_user_id) in
      let shown = table.find_many_all p take after r room row (
        fits request.tenant_id request.subject_user_id id created_at e logged.tenant_id
          logged.subject_user_id) in
      record {
        log = audit_entity r;
        at =
            (In-map audit_entity (audit_entity r) (table.find_many p (ℤ.pos take) after)).1
              (r, shown, refl);
        decision_id = logged.decision_id;
        decision = logged.decision;
        reason = logged.reason;
        matched_policies = logged.matched_policies;
        evaluation_trace = logged.evaluation_trace;
      }
