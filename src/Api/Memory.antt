-- ===== src/Api/Memory.antt =====
-- A backend in memory: the assumptions of the API's theorems can be met together.
use iam_access_control_servi.Prelude.{String, ◌≡◌, refl, ap, Option, List, ◌∷◌}
use iam_access_control_servi.Outcome.{Outcome, ok, ok-inj, throw}
use iam_access_control_servi.Domain.Enums.{TenantStatus}
use iam_access_control_servi.Domain.Contracts.{Attributes}
use iam_access_control_servi.Domain.Models.{Permission, Policy, ServiceIdentity, Tenant, User}
use iam_access_control_servi.Hierarchy.Store.{HierarchyDb}
use iam_access_control_servi.Hierarchy.Listings.{DepthOrder}
use iam_access_control_servi.Hierarchy.Memory.{memory}
use iam_access_control_servi.Hierarchy.Memory.Sorted.{by_depth}
use iam_access_control_servi.Authorization.Database.{Prisma}
use iam_access_control_servi.Authorization.Memory.{
  Directory, beside, hierarchy_db, prisma_db, put, put_eq, tenant_by_id,
}
use iam_access_control_servi.Authorization.Trail.{AuditTable}
use iam_access_control_servi.Authorization.Logs.{audit_table}
use iam_access_control_servi.Access.Login.{Services}
use iam_access_control_servi.Repository.Memory.{table}
use iam_access_control_servi.Services.Entities.{Department, Role}
use iam_access_control_servi.Services.Identities.{Identities}
use iam_access_control_servi.Services.Memory.{identities}
use iam_access_control_servi.Api.Backend.{Backend, Tenants}

module _ {A B : Type 0} where
  -- The order by depth of a hierarchy database with other tables beside it.
  abbrev pub order_beside : (h : HierarchyDb A) → DepthOrder h → DepthOrder (beside {B = B} h)
  unfolding beside
  order_beside h order = record {
    find_by_depth = λ p db. order.find_by_depth p db.0;
    find_by_depth_iff = λ p db. order.find_by_depth_iff p db.0;
    find_by_depth_order = λ p db. order.find_by_depth_order p db.0;
  }

  pub put_ok : (b : B) (o : Outcome A) → ((a : A) × (o ≡ ok a)) → (p : A × B) × (put b o ≡ ok p)
  unfolding put
  put_ok b o (a, e) = ((a, b), ap (put b) e)

  unfoldable pub prisma_beside : Prisma A → Prisma (A × B)
  unfolding put
  prisma_beside p = record {
    find_tenant = λ id db. p.find_tenant id db.0;
    find_user = λ q db. p.find_user q db.0;
    find_resource = λ q db. p.find_resource q db.0;
    find_user_roles = λ q db. p.find_user_roles q db.0;
    find_policies = λ q db. p.find_policies q db.0;
    create_audit = λ input db. put db.1 (p.create_audit input db.0);
    audit_logs = λ db. p.audit_logs db.0;
    find_tenant_sound = λ id db. p.find_tenant_sound id db.0;
    find_user_sound = λ q db. p.find_user_sound q db.0;
    find_resource_sound = λ q db. p.find_resource_sound q db.0;
    find_policies_sound = λ q db. p.find_policies_sound q db.0;
    create_audit_logs = λ input db db' e.
        p.create_audit_logs input db.0 db'.0 (put_eq db.1 (p.create_audit input db.0) db' e).0;
    create_audit_ok = λ input db t known fresh.
        put_ok db.1 (p.create_audit input db.0) (p.create_audit_ok input db.0 t known fresh);
    create_audit_fk = λ input db missing. ap (put db.1) (p.create_audit_fk input db.0 missing);
  }

  abbrev pub audit_beside : (p : Prisma A) → AuditTable p → AuditTable (prisma_beside p)
  unfolding prisma_beside
  audit_beside p t = record {
    rows = λ db. t.rows db.0;
    find_many = λ q take db. t.find_many q take db.0;
    rows_logs = λ db. t.rows_logs db.0;
    find_many_sound = λ q take db. t.find_many_sound q take db.0;
    find_many_all = λ q take db. t.find_many_all q take db.0;
  }

  abbrev pub with_left : A → Outcome (ServiceIdentity × B) → Outcome (ServiceIdentity × (A × B))
  with_left a (throw e) = throw e
  with_left a (ok (row, b)) = ok (row, (a, b))

  pub with_left_eq :
      (a : A) (o : Outcome (ServiceIdentity × B)) (row : ServiceIdentity) (db : A × B)
      → with_left a o ≡ ok (row, db)
      → o ≡ ok (row, db.1)
  with_left_eq a (throw e) row db h = cc
  with_left_eq a (ok (r, b)) row db h = let same = ok-inj h in λ i. ok ((same i).0, (same i).1.1)

  unfoldable pub identities_beside : Identities B → Identities (A × B)
  identities_beside t = record {
    find_unique = λ id db. t.find_unique id db.1;
    find_many = λ p args db. t.find_many p args db.1;
    create = λ tenant n h db. with_left db.0 (t.create tenant n h db.1);
    create_found = λ x n h db db' row e.
        t.create_found x n h db.1 db'.1 row (with_left_eq db.0 (t.create x n h db.1) row db' e);
    create_row = λ x n h db db' row e.
        t.create_row x n h db.1 db'.1 row (with_left_eq db.0 (t.create x n h db.1) row db' e);
    create_id = λ x n h db db' row e.
        t.create_id x n h db.1 db'.1 row (with_left_eq db.0 (t.create x n h db.1) row db' e);
  }

-- The tables that the directory of the engine has not.
pub record Shelf : Type 0 where
  pub people : List User
  pub roles : List Role
  pub permissions : List Permission
  pub departments : List Department

abbrev pub Company : Type 0
Company = (Directory × Shelf) × List ServiceIdentity

abbrev pub with_shelf : Company → Shelf → Company
with_shelf db shelf = ((db.0.0, shelf), db.1)

abbrev pub with_policies : List Policy → Company → Company
with_policies ps db = (((db.0.0.0, record db.0.0.1 { policies = ps }), db.0.1), db.1)

abbrev pub with_tenants : List Tenant → Company → Company
with_tenants ts db = (((db.0.0.0, record db.0.0.1 { tenants = ts }), db.0.1), db.1)

abbrev pub new_tenant : String → String → Tenant
new_tenant name slug = record {
  id = slug;
  name = name;
  slug = slug;
  status = TenantStatus.active;
  created_at = 0;
  updated_at = 0;
}

abbrev pub tenants : Tenants Company
tenants = record {
  create = λ name slug db.
      ok (new_tenant name slug, with_tenants (new_tenant name slug ∷ db.0.0.1.tenants) db);
  find_by_id = λ id db. tenant_by_id id db.0.0;
}

-- `user`, `role`, `permission`, `policy` and `department` are rows that the inserts fill.
module _ (user : User) (role : Role) (permission : Permission) (policy : Policy)
    (department : Department) (services : Company → Services) (hash : String → String)
    (parse : String → Option Attributes) where
  unfoldable pub backend : Backend Company
  unfolding table prisma_beside hierarchy_db beside identities_beside tenant_by_id
  backend = record {
    users =
        table (λ db. db.0.1.people) (λ xs db. with_shelf db (record db.0.1 { people = xs }))
          (λ xs db. refl) (λ u. u.tenant_id) (λ u. u.id) (λ d u. u)
          (λ t d. record user { tenant_id = t });
    roles =
        table (λ db. db.0.1.roles) (λ xs db. with_shelf db (record db.0.1 { roles = xs }))
          (λ xs db. refl) (λ r. r.tenant_id) (λ r. r.id) (λ d r. record r { name = d.name })
          (λ t d. record role { tenant_id = t; name = d.name });
    permissions =
        table (λ db. db.0.1.permissions)
          (λ xs db. with_shelf db (record db.0.1 { permissions = xs })) (λ xs db. refl)
          (λ p. p.tenant_id) (λ p. p.id) (λ d p. record p { name = d.name })
          (λ t d. record permission { tenant_id = t; name = d.name });
    policies =
        table (λ db. db.0.0.1.policies) with_policies (λ xs db. refl) (λ p. p.tenant_id) (λ p. p.id)
          (λ d p. p) (λ t d. record policy { tenant_id = t; name = d.name; action = d.action });
    departments =
        table (λ db. db.0.1.departments)
          (λ xs db. with_shelf db (record db.0.1 { departments = xs })) (λ xs db. refl)
          (λ d. d.tenant_id) (λ d. d.id) (λ d x. record x { name = d.name })
          (λ t d. record department { tenant_id = t; name = d.name });
    tenants = tenants;
    identities = identities_beside identities;
    hierarchy = beside (beside hierarchy_db);
    depth_order =
        order_beside (beside hierarchy_db)
          (order_beside hierarchy_db (order_beside memory by_depth));
    prisma = prisma_beside (prisma_beside prisma_db);
    audit = audit_beside (prisma_beside prisma_db) (audit_beside prisma_db audit_table);
    assign_role_row = λ t u r db. ok db;
    assign_permission_row = λ t r p db. ok db;
    hash = hash;
    parse = parse;
    services = services;
  }
