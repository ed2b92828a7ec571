-- ===== src/Services/Roles.antt =====
-- src/roles/roles.service.ts and src/permissions/permissions.service.ts: roles and permissions,
-- and the invalidation of the cached permission names. The mappers of roles and permissions copy
-- every field, so that the operations here return the row.
use text.Mathlib.Text.{starts_with}
use iam_access_control_servi.Prelude.{
  ℕ, String, ◌≡◌, subst, ap, ◌∙◌, true, Option, none, some, List, [], ◌∷◌, In, concat, str_eq,
  if◌then◌else◌,
}
use iam_access_control_servi.Outcome.{
  Outcome, ok, throw, bad_request, not_found, ◌>>=◌, >>=-eq-ok, ok-inj, expect, expect-eq-ok,
}
use iam_access_control_servi.Domain.Models.{Permission, User}
use iam_access_control_servi.Cache.{Cache, del, del_by_prefix}
use iam_access_control_servi.Cache.Keys.{permissions_key, permissions_tenant_prefix}
use iam_access_control_servi.Cache.Laws.{visible, visible-del}
use iam_access_control_servi.Authorization.Facts.{Cached}
use iam_access_control_servi.Repository.{Delegate, create, find_by_id, find_many}
use iam_access_control_servi.Repository.Isolation.{find_by_id_scoped}
use iam_access_control_servi.Requests.Pagination.{PaginationArgs, to_prisma_pagination}
use iam_access_control_servi.Services.Entities.{Listing, Role}

pub record RoleData : Type 0 where
  pub name : String
  pub description : Option String

pub record PermissionData : Type 0 where
  pub name : String
  pub resource : String
  pub action : String

abbrev pub listing : Option PaginationArgs → String → Option Listing
listing none order_by = some (record {
  page = to_prisma_pagination (record { take = none; skip = none });
  order_by = order_by;
})
listing (some args) order_by =
    some (record { page = to_prisma_pagination args; order_by = order_by })

-- `assign` is the idempotent `upsert` of a join row for a tenant and two ids.
module _ {Db UserData : Type 0} (roles : Delegate Db Role RoleData (Option Listing))
    (users : Delegate Db User UserData (Option Listing))
    (assign : String → String → String → Db → Outcome Db) where
  -- `RolesService.create`
  unfoldable pub create_role : String → RoleData → Db → Outcome (Role × Db)
  unfolding create
  create_role tenant_id input db = create roles none tenant_id input db

  unfoldable pub find_role : String → String → Db → Outcome Role
  unfolding expect find_by_id
  find_role tenant_id id db =
      expect (not_found (concat ("Role " ∷ id ∷ " not found" ∷ [])))
        (find_by_id roles none tenant_id id none db)

  unfoldable pub all_roles : String → Option PaginationArgs → Db → List Role
  unfolding find_many
  all_roles tenant_id pagination db =
      find_many roles none tenant_id (λ r. true) (listing pagination "name") db

  -- `RolesService.assignRole`
  unfoldable pub assign_role :
      String → String → String → Db → Cache Cached → Outcome (Role × Db × Cache Cached)
  unfolding expect find_by_id
  assign_role tenant_id user_id role_id db cache = do
    role ←
        expect (not_found (concat ("Role " ∷ role_id ∷ " not found" ∷ [])))
          (find_by_id roles none tenant_id role_id none db)
    user ←
        expect (bad_request "User not found within this tenant")
          (find_by_id users none tenant_id user_id none db)
    assigned ← assign tenant_id user_id role_id db
    ok (role, assigned, del (permissions_key tenant_id user_id) cache)

  -- What an assignment that succeeds did.
  pub record IsAssigned (tenant_id user_id role_id : String) (db : Db) (cache : Cache Cached)
      (role : Role) (db' : Db) (cache' : Cache Cached) : Type 0 where
    pub role_row : In role (roles.rows db)
    pub role_named : roles.id_of role ≡ role_id
    pub role_tenant : roles.tenant_of role ≡ tenant_id
    pub user : User
    pub user_row : In user (users.rows db)
    pub user_named : users.id_of user ≡ user_id
    pub user_tenant : users.tenant_of user ≡ tenant_id
    pub assigned : assign tenant_id user_id role_id db ≡ ok db'
    pub invalidated :
        (now : ℕ) (key : String)
        → visible now cache' key
          ≡ (if str_eq (permissions_key tenant_id user_id) key then none else visible now cache key)

  -- An assignment that succeeds joins the role and the user of these ids, both of the tenant, and
  -- afterwards no reader of the cache sees that user's permission names, and all else as before.
  pub assign_role-IsAssigned :
      (tenant_id user_id role_id : String) (db : Db) (cache : Cache Cached) (role : Role) (db' : Db)
      (cache' : Cache Cached)
      → assign_role tenant_id user_id role_id db cache ≡ ok (role, db', cache')
      → IsAssigned tenant_id user_id role_id db cache role db' cache'
  unfolding assign_role
  assign_role-IsAssigned t u r db cache role db' cache' h =
      let (role_1, e1, h1) = >>=-eq-ok (expect _ (find_by_id roles none t r none db)) _ h in
      let (user, e2, h2) = >>=-eq-ok (expect _ (find_by_id users none t u none db)) _ h1 in
      let (db_1, e3, h3) = >>=-eq-ok (assign t u r db) _ h2 in
      let found = expect-eq-ok _ (find_by_id roles none t r none db) e1 in
      let (role_at, role_id, role_own) = find_by_id_scoped roles none t r none db role_1 found in
      let (user_at, user_id, user_own) =
        find_by_id_scoped users none t u none db user
          (expect-eq-ok _ (find_by_id users none t u none db) e2) in
      let same = ok-inj h3 in
      let same_role = ap (λ (p : Role × Db × Cache Cached). p.0) same in
      record {
        role_row = subst (λ x. In x (roles.rows db)) same_role role_at;
        role_named = subst (λ x. roles.id_of x ≡ r) same_role role_id;
        role_tenant = subst (λ x. roles.tenant_of x ≡ t) same_role role_own;
        user = user;
        user_row = user_at;
        user_named = user_id;
        user_tenant = user_own;
        assigned = e3 ∙ ap ok (ap (λ (p : Role × Db × Cache Cached). p.1) same);
        invalidated = λ now key.
            subst
              (λ c.
                visible now c key
                ≡ (if str_eq (permissions_key t u) key then none else visible now cache key))
              (ap (λ (p : Role × Db × Cache Cached). p.2) same)
              (visible-del now (permissions_key t u) key cache);
      }

module _ {Db : Type 0} (permissions : Delegate Db Permission PermissionData (Option Listing))
    (assign : String → String → String → Db → Outcome Db) where
  -- `PermissionsService.create`
  unfoldable pub create_permission : String → PermissionData → Db → Outcome (Permission × Db)
  unfolding create
  create_permission tenant_id input db = create permissions none tenant_id input db

  unfoldable pub all_permissions : String → Option PaginationArgs → Db → List Permission
  unfolding find_many
  all_permissions tenant_id pagination db =
      find_many permissions none tenant_id (λ r. true) (listing pagination "name") db

  -- `try { ... } catch { throw ... }`
  abbrev or_bad_request : String → Outcome Db → Outcome Db
  or_bad_request message (ok db) = ok db
  or_bad_request message (throw e) = throw (bad_request message)

  -- `PermissionsService.assignPermission`
  unfoldable pub assign_permission :
      String → String → String → Db → Cache Cached → Outcome (Permission × Db × Cache Cached)
  unfolding expect find_by_id
  assign_permission tenant_id role_id permission_id db cache = do
    permission ←
        expect (not_found (concat ("Permission " ∷ permission_id ∷ " not found" ∷ [])))
          (find_by_id permissions none tenant_id permission_id none db)
    assigned ←
        or_bad_request "Role not found within this tenant"
          (assign tenant_id role_id permission_id db)
    ok (permission, assigned, del_by_prefix (permissions_tenant_prefix tenant_id) cache)

  -- What a grant that succeeds did.
  pub record IsGranted (tenant_id role_id permission_id : String) (db : Db) (cache : Cache Cached)
      (permission : Permission) (db' : Db) (cache' : Cache Cached) : Type 0 where
    pub permission_row : In permission (permissions.rows db)
    pub permission_named : permissions.id_of permission ≡ permission_id
    pub permission_tenant : permissions.tenant_of permission ≡ tenant_id
    pub assigned : assign tenant_id role_id permission_id db ≡ ok db'
    pub invalidated :
        (now : ℕ) (key : String)
        → visible now cache' key ≡ (
            if starts_with key (permissions_tenant_prefix tenant_id)
            then none
            else visible now cache key)
