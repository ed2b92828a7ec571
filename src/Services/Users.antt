-- ===== src/Services/Users.antt =====
-- src/users/users.service.ts.
use iam_access_control_servi.Outcome.{type_error}
use iam_access_control_servi.Outcome.{Outcome-cases}
use iam_access_control_servi.Prelude.{inl, inr}
use iam_access_control_servi.Prelude.{
  String, ◌≡◌, ap, ◌∙◌, true, Option, none, some, List, [], ◌∷◌, In, map, concat,
}
use iam_access_control_servi.Outcome.{
  Exception, Outcome, ok, throw, bad_request, not_found, ◌>>=◌, >>=-eq-ok, expect, expect-eq-ok,
}
use iam_access_control_servi.Domain.Enums.{ClearanceLevel, EmploymentStatus}
use iam_access_control_servi.Domain.Models.{User}
use iam_access_control_servi.Hierarchy.{add_node, assign_manager}
use iam_access_control_servi.Hierarchy.Store.{HierarchyDb}
use iam_access_control_servi.Hierarchy.Forest.{Managers, reassign}
use iam_access_control_servi.Hierarchy.Nodes.{Represents}
use iam_access_control_servi.Hierarchy.Assign.{assign_manager-Represents}
use iam_access_control_servi.Access.Jwt.{filled}
use iam_access_control_servi.Repository.{Delegate, create, find_by_id, find_many, update_by_id}
use iam_access_control_servi.Repository.Isolation.{find_by_id_scoped}
use iam_access_control_servi.Requests.Pagination.{PaginationArgs}
use iam_access_control_servi.Services.Entities.{Listing, UserEntity, user_entity}
use iam_access_control_servi.Services.Roles.{listing}

-- A field of Prisma's `data`: left out, null, or a value.
pub data Change (A : Type 0) : Type 0 where
  keep clear : Change A
  put : A → Change A

-- The fields that the service writes.
pub record UserData : Type 0 where
  pub email : Change String
  pub password_hash : Change String
  pub department_id : Change String
  pub designation : Change String
  pub clearance_level : Change ClearanceLevel
  pub location : Change String
  pub employment_status : Change EmploymentStatus

pub record CreateUserInput : Type 0 where
  pub email : String
  pub password : Option String
  pub department_id : Option String
  pub manager_id : Option String
  pub designation : Option String
  pub clearance_level : Option ClearanceLevel
  pub location : Option String
  pub employment_status : Option EmploymentStatus

-- `x ?? null` and `x ?? undefined`
abbrev or_null : {A : Type 0} → Option A → Change A
or_null none = clear
or_null (some a) = put a

abbrev or_undefined : {A : Type 0} → Option A → Change A
or_undefined none = keep
or_undefined (some a) = put a

-- `users` is the delegate, `hash` is bcrypt's.
module _ {Db : Type 0} (users : Delegate Db User UserData (Option Listing))
    (hierarchy : HierarchyDb Db) (hash : String → String) where
  hashed : Option String → Change String
  hashed password = elim (filled password) [ none ↦ clear | some p ↦ put (hash p) ]

  -- The `data` of the insert of `create`.
  unfoldable pub user_data : CreateUserInput → UserData
  unfolding hashed
  user_data input = record {
    email = put input.email;
    password_hash = hashed input.password;
    department_id = or_null input.department_id;
    designation = or_null input.designation;
    clearance_level = or_undefined input.clearance_level;
    location = or_null input.location;
    employment_status = or_undefined input.employment_status;
  }

  -- The end of `create`: the row is read again.
  created_entity : String → User → Db → UserEntity
  unfolding find_by_id
  created_entity tenant_id model db = elim (find_by_id users none tenant_id model.id none db) [
    | none ↦ user_entity model
    | some fresh ↦ user_entity fresh
  ]

  -- The manager of the new user; what was written before stays if the assignment throws.
  attach_created : String → User → Option String → Db → Outcome UserEntity × Db
  unfolding created_entity
  attach_created tenant_id model none db = (ok (created_entity tenant_id model db), db)
  attach_created tenant_id model (some manager_id) db =
      elim (assign_manager hierarchy tenant_id model.id manager_id db) [
        | throw e ↦ (throw e, db)
        | ok managed ↦ (ok (created_entity tenant_id model managed), managed)
      ]

  register_created : String → User → Option String → Db → Outcome UserEntity × Db
  unfolding attach_created
  register_created tenant_id model manager_id db = elim (add_node hierarchy tenant_id model.id db) [
    | throw e ↦ (throw e, db)
    | ok registered ↦ attach_created tenant_id model manager_id registered
  ]

  -- `UsersService.create`: the three writes are no transaction.
  unfoldable pub create_user : String → CreateUserInput → Db → Outcome UserEntity × Db
  unfolding create user_data register_created
  create_user tenant_id input db = elim (create users none tenant_id (user_data input) db) [
    | throw e ↦ (throw e, db)
    | ok created ↦ register_created tenant_id created.0 (filled input.manager_id) created.1
  ]

  not_found_user : String → Exception
  not_found_user id = not_found (concat ("User " ∷ id ∷ " not found" ∷ []))

  -- `UsersService.assignManager`; its last read finds the user that the first one found.
  -- The part of `assignManager` up to the change of the hierarchy.
  unfoldable pub manage : String → String → String → Db → Outcome Db
  unfolding expect find_by_id not_found_user
  manage tenant_id user_id manager_id db = do
    user ← expect (not_found_user user_id) (find_by_id users none tenant_id user_id none db)
    manager ←
        expect (bad_request "Manager not found within this tenant")
          (find_by_id users none tenant_id manager_id none db)
    assign_manager hierarchy tenant_id user_id manager_id db

  -- `UserMapper.toEntity(fresh!)`, which throws where there is no row.
  abbrev reread : Option User → Outcome UserEntity
  reread none = throw type_error
  reread (some fresh) = ok (user_entity fresh)

  unfoldable pub assign_user_manager : String → String → String → Db → Outcome UserEntity × Db
  unfolding manage find_by_id
  assign_user_manager tenant_id user_id manager_id db =
      elim (manage tenant_id user_id manager_id db) [
        | throw e ↦ (throw e, db)
        | ok managed ↦ (reread (find_by_id users none tenant_id user_id none managed), managed)
      ]

  -- What `update` returns, after `updateById`.
  abbrev updated_entity : String → Db → Outcome (Option User × Db) → Outcome UserEntity × Db
  updated_entity id old (throw e) = (throw e, old)
  updated_entity id old (ok (none, db)) = (throw (not_found_user id), db)
  updated_entity id old (ok (some model, db)) = (ok (user_entity model), db)

  unfoldable pub update_user : String → String → UserData → Db → Outcome UserEntity × Db
  unfolding update_by_id not_found_user
  update_user tenant_id id changes db =
      updated_entity id db (update_by_id users none tenant_id id changes db)

  unfoldable pub find_user : String → String → Db → Outcome UserEntity
  unfolding expect find_by_id not_found_user
  find_user tenant_id id db = do
    model ← expect (not_found_user id) (find_by_id users none tenant_id id none db)
    ok (user_entity model)

  unfoldable pub all_users : String → Option PaginationArgs → Db → List UserEntity
  unfolding find_many
  all_users tenant_id pagination db =
      map user_entity (find_many users none tenant_id (λ u. true) (listing pagination "email") db)

  -- A user of the tenant is in the table.
  abbrev pub IsMember : String → String → Db → Type 0
  IsMember tenant_id id db =
      (u : User) × In u (users.rows db) × (users.id_of u ≡ id) × (users.tenant_of u ≡ tenant_id)

  member :
      (t id : String) (db : Db) (u : User)
      → find_by_id users none t id none db ≡ some u
      → IsMember t id db
  member t id db u e =
      let (row, same, own) = find_by_id_scoped users none t id none db u e in (u, row, same, own)

  manage_lem :
      (t user_id manager_id : String) (db db' : Db) (mgr : Managers)
      → Represents hierarchy t db mgr
      → manage t user_id manager_id db ≡ ok db'
      → IsMember t user_id db
        × IsMember t manager_id db
        × Represents hierarchy t db' (reassign user_id manager_id mgr)
  unfolding manage
  manage_lem t u m db db' mgr rep h =
      let (user, e1, h1) = >>=-eq-ok (expect _ (find_by_id users none t u none db)) _ h in
      let (manager, e2, h2) = >>=-eq-ok (expect _ (find_by_id users none t m none db)) _ h1 in
      (
        member t u db user (expect-eq-ok _ (find_by_id users none t u none db) e1),
        member t m db manager (expect-eq-ok _ (find_by_id users none t m none db) e2),
        (assign_manager-Represents hierarchy t u m db db' mgr rep h2).0,
      )

  -- If `assignManager` of the users succeeds on a table that represents a hierarchy, both users
  -- are of the tenant, and the table then represents the hierarchy with the new edge.
  pub assign_user_manager_lem :
      (t user_id manager_id : String) (db db' : Db) (entity : UserEntity) (mgr : Managers)
      → Represents hierarchy t db mgr
      → assign_user_manager t user_id manager_id db ≡ (ok entity, db')
      → IsMember t user_id db
        × IsMember t manager_id db
        × Represents hierarchy t db' (reassign user_id manager_id mgr)
  unfolding assign_user_manager
  assign_user_manager_lem t u m db db' entity mgr rep h = elim (Outcome-cases (manage t u m db)) [
    | inl (e, refused) ↦
        let bad =
          ap (λ (r : Outcome UserEntity × Db). r.0) (rw (refused, assign_user_manager) at h) in
        cc
    | inr (managed, done) ↦
        let same =
          ap (λ (r : Outcome UserEntity × Db). r.1) (rw (done, assign_user_manager) at h) in
        manage_lem t u m db db' mgr rep (done ∙ ap ok same)
  ]
