-- ===== src/Authorization/Database.antt =====
-- What the engine uses of the database besides the closure table, with the documented behaviour
-- of Prisma and of the constraints of the schema. The reads are those that return: a run in which
-- an awaited read throws ends with that error, and is not among the runs here.
use iam_access_control_servi.Prelude.{
  String, ◌≡◌, ◌≢◌, Bool, true, ◌&&◌, Option, none, some, List, [], ◌∷◌, ◌++◌, In, str_eq,
}
use iam_access_control_servi.Outcome.{Outcome, ok, throw, foreign_key}
use iam_access_control_servi.Domain.Models.{
  Tenant, User, UserRole, Resource, Policy, AuditRecordInput,
}

-- `{ id, tenantId }`
abbrev pub where_member : String → String → User → Bool
where_member tenant_id id u = str_eq u.id id && str_eq u.tenant_id tenant_id

pub record Prisma (Db : Type 0) : Type 0 where
  -- `tenant.findUnique({ where: { id } })`
  pub find_tenant : String → Db → Option Tenant
  pub find_user : (User → Bool) → Db → Option User
  pub find_resource : (Resource → Bool) → Db → Option Resource
  -- `userRole.findMany`, with the role's permissions
  pub find_user_roles : (UserRole → Bool) → Db → List UserRole
  -- `policy.findMany`, ordered by priority
  pub find_policies : (Policy → Bool) → Db → List Policy
  pub create_audit : AuditRecordInput → Db → Outcome Db
  -- The audit log: what the inserts so far were given.
  pub audit_logs : Db → List AuditRecordInput
  pub find_tenant_sound :
      (id : String) (db : Db) (t : Tenant) → find_tenant id db ≡ some t → t.id ≡ id
  pub find_user_sound :
      (p : User → Bool) (db : Db) (u : User) → find_user p db ≡ some u → p u ≡ true
  pub find_resource_sound :
      (p : Resource → Bool) (db : Db) (r : Resource) → find_resource p db ≡ some r → p r ≡ true
  pub find_policies_sound :
      (p : Policy → Bool) (db : Db) (r : Policy) → In r (find_policies p db) → p r ≡ true
  -- An insert adds its row to the log. It succeeds for a known tenant and a new decision id; for a tenant that is not there the foreign key fails.
  pub create_audit_logs :
      (input : AuditRecordInput) (db db' : Db)
      → create_audit input db ≡ ok db'
      → audit_logs db' ≡ audit_logs db ++ input ∷ []
  pub create_audit_ok :
      (input : AuditRecordInput) (db : Db) (t : Tenant)
      → find_tenant input.tenant_id db ≡ some t
      → ((e : AuditRecordInput) → In e (audit_logs db) → e.decision_id ≢ input.decision_id)
      → (db' : Db) × (create_audit input db ≡ ok db')
  pub create_audit_fk :
      (input : AuditRecordInput) (db : Db)
      → find_tenant input.tenant_id db ≡ none
      → create_audit input db ≡ throw foreign_key
