-- ===== src/Authorization/Memory.antt =====
-- A database in memory that behaves as `Prisma` and `HierarchyDb` say: the assumptions of the
-- pipeline can be met together.
use iam_access_control_servi.Prelude.{
  String, ◌≡◌, ◌≢◌, Bool, true, false, Option, none, some, List, [], ◌∷◌, ◌++◌, In, str_eq, select,
  In-select, eq_iff, if◌then◌else◌, arith, Bool-cases, inl, inr, ap, sym, refl, subst, any,
  some-inj, ◌∙◌,
}
use iam_access_control_servi.Outcome.{Outcome, ok, throw, foreign_key, known_request, ok-inj}
use iam_access_control_servi.Domain.Models.{Tenant, UserRole, Resource, Policy, AuditRecordInput}
use iam_access_control_servi.Hierarchy.Store.{HierarchyDb}
use iam_access_control_servi.Hierarchy.Memory.{MemoryDb, memory}
use iam_access_control_servi.Authorization.Database.{Prisma}

module _ {A : Type 0} {B : Type 0} where
  unfoldable pub put : B → Outcome A → Outcome (A × B)
  put b (ok a) = ok (a, b)
  put b (throw e) = throw e

  pub put_eq : (b : B) (o : Outcome A) (p : A × B) → put b o ≡ ok p → (o ≡ ok p.0) × (b ≡ p.1)
  unfolding put
  put_eq b (ok a) p e = (cc, cc)
  put_eq b (throw x) p e = cc

  -- A hierarchy database with other tables beside it.
  unfoldable pub beside : HierarchyDb A → HierarchyDb (A × B)
  unfolding put
  beside h = record {
    rows = λ p. h.rows p.0;
    users = λ p. h.users p.0;
    tenants = λ p. h.tenants p.0;
    find_first = λ t p. h.find_first t p.0;
    find_many = λ t p. h.find_many t p.0;
    create_many = λ rs p. put p.1 (h.create_many rs p.0);
    delete_many = λ t p. (h.delete_many t p.0, p.1);
    update_manager = λ t m p. (h.update_manager t m p.0, p.1);
    unique = λ p. h.unique p.0;
    row_ends = λ p. h.row_ends p.0;
    find_first_some = λ t p. h.find_first_some t p.0;
    find_first_none = λ t p. h.find_first_none t p.0;
    find_many_iff = λ t p. h.find_many_iff t p.0;
    create_many_ok =
        λ rs p ends. let (a, e) = h.create_many_ok rs p.0 ends in ((a, p.1), ap (put p.1) e);
    create_many_fk = λ rs p r at bad. ap (put p.1) (h.create_many_fk rs p.0 r at bad);
    create_many_old =
        λ rs p q r e. h.create_many_old rs p.0 q.0 r (put_eq p.1 (h.create_many rs p.0) q e).0;
    create_many_only =
        λ rs p q r e. h.create_many_only rs p.0 q.0 r (put_eq p.1 (h.create_many rs p.0) q e).0;
    create_many_new =
        λ rs p q r e. h.create_many_new rs p.0 q.0 r (put_eq p.1 (h.create_many rs p.0) q e).0;
    create_many_users =
        λ rs p q e. h.create_many_users rs p.0 q.0 (put_eq p.1 (h.create_many rs p.0) q e).0;
    create_many_tenants =
        λ rs p q e. h.create_many_tenants rs p.0 q.0 (put_eq p.1 (h.create_many rs p.0) q e).0;
    delete_many_iff = λ t p. h.delete_many_iff t p.0;
    delete_many_users = λ t p. h.delete_many_users t p.0;
    delete_many_tenants = λ t p. h.delete_many_tenants t p.0;
    update_manager_users = λ t m p. h.update_manager_users t m p.0;
    update_manager_rows = λ t m p. h.update_manager_rows t m p.0;
  }

-- The first row that a test accepts.
unfoldable pub find : {A : Type 0} → (A → Bool) → List A → Option A
find p [] = none
find p (x ∷ xs) = let later = find p xs in if p x then some x else later

pub find_sound : {A : Type 0} (p : A → Bool) (xs : List A) (x : A) → find p xs ≡ some x → p x ≡ true
unfolding find
find_sound p [] x e = cc
find_sound p (y ∷ ys) x e = elim (Bool-cases (p y)) [
  | inl here ↦ subst (λ z. p z ≡ true) (some-inj (rw here at e)) here
  | inr other ↦ find_sound p ys x (rw other at e)
]

pub record Tables : Type 0 where
  pub tenants : List Tenant
  pub user_roles : List UserRole
  pub resources : List Resource
  pub policies : List Policy
  pub audit_logs : List AuditRecordInput

abbrev pub Directory : Type 0
Directory = MemoryDb × Tables

unfoldable pub hierarchy_db : HierarchyDb Directory
unfolding beside memory
hierarchy_db = beside memory

unfoldable pub tenant_by_id : String → Directory → Option Tenant
unfolding find
tenant_by_id id db = find (λ (t : Tenant). str_eq t.id id) db.1.tenants

pub with_log : AuditRecordInput → Directory → Directory
with_log input db = (db.0, record db.1 { audit_logs = db.1.audit_logs ++ input ∷ [] })

pub is_taken : AuditRecordInput → List AuditRecordInput → Bool
is_taken input logs = any (λ (e : AuditRecordInput). str_eq e.decision_id input.decision_id) logs

-- The foreign key first, then the unique decision id.
unfoldable pub insert_audit :
    AuditRecordInput → Directory → Option Tenant → Bool → Outcome Directory
unfolding with_log
insert_audit input db none taken = throw foreign_key
insert_audit input db (some t) true = throw (known_request "P2002")
insert_audit input db (some t) false = ok (with_log input db)

unfoldable pub create_log : AuditRecordInput → Directory → Outcome Directory
unfolding insert_audit is_taken tenant_by_id
create_log input db =
    insert_audit input db (tenant_by_id input.tenant_id db) (is_taken input db.1.audit_logs)

pub insert_audit_logs :
    (input : AuditRecordInput) (db db' : Directory) (t : Option Tenant) (taken : Bool)
    → insert_audit input db t taken ≡ ok db'
    → db'.1.audit_logs ≡ db.1.audit_logs ++ input ∷ []
unfolding insert_audit
insert_audit_logs input db db' none taken e = cc
insert_audit_logs input db db' (some t) true e = cc
insert_audit_logs input db db' (some t) false e =
    sym (ap (λ (d : Directory). d.1.audit_logs) (ok-inj e)) ∙ (unfold with_log in refl)

pub is_taken_none :
    (input : AuditRecordInput) (logs : List AuditRecordInput)
    → ((e : AuditRecordInput) → In e logs → e.decision_id ≢ input.decision_id)
    → is_taken input logs ≡ false
unfolding is_taken
is_taken_none input [] fresh = refl
is_taken_none input (x ∷ xs) fresh =
    let later = is_taken_none input xs (λ e at. fresh e (inr at)) in
    let first = fresh x (inl refl) in ground (arith, eq_iff x.decision_id input.decision_id)

unfoldable pub prisma_db : Prisma Directory
unfolding create_log tenant_by_id find
prisma_db = record {
  find_tenant = tenant_by_id;
  find_user = λ p db. find p db.0.users;
  find_resource = λ p db. find p db.1.resources;
  find_user_roles = λ p db. select p db.1.user_roles;
  find_policies = λ p db. select p db.1.policies;
  create_audit = create_log;
  audit_logs = λ db. db.1.audit_logs;
  find_tenant_sound = λ id db t e.
      (eq_iff t.id id).0 (find_sound (λ (x : Tenant). str_eq x.id id) db.1.tenants t e);
  find_user_sound = λ p db u e. find_sound p db.0.users u e;
  find_resource_sound = λ p db r e. find_sound p db.1.resources r e;
  find_policies_sound = λ p db r at. ((In-select p r db.1.policies).0 at).1;
  create_audit_logs = λ input db db' e.
      insert_audit_logs input db db' (tenant_by_id input.tenant_id db)
        (is_taken input db.1.audit_logs) e;
  create_audit_ok = λ input db t known fresh.
      (with_log input db, rw (known, is_taken_none input db.1.audit_logs fresh, create_log) refl);
  create_audit_fk = λ input db missing. rw (missing, create_log) refl;
}
