-- ===== src/Hierarchy/Store.antt =====
-- What the hierarchy service uses of the database: the delegate of the closure table and the
-- update of users, with the documented behaviour of Prisma and of the table's constraints.
use iam_access_control_servi.Prelude.{
  String, ◌≡◌, ◌↔◌, ◌⊎◌, Bool, true, false, ◌&&◌, Option, none, some, List, map, In, str_eq,
  if◌then◌else◌,
}
use iam_access_control_servi.Outcome.{Outcome, ok, throw, foreign_key}
use iam_access_control_servi.Domain.Models.{User, ClosureRow}

-- `@@unique([tenantId, ancestorUserId, descendantUserId])`
abbrev pub same_key : ClosureRow → ClosureRow → Bool
same_key a b =
    str_eq a.tenant_id b.tenant_id
    && str_eq a.ancestor_user_id b.ancestor_user_id
    && str_eq a.descendant_user_id b.descendant_user_id

-- The user that a foreign key names is there; the key does not look at the tenant.
abbrev pub HasUser : String → List User → Type 0
HasUser id users = (u : User) × In u users × (u.id ≡ id)

abbrev pub HasEnds : ClosureRow → List User → Type 0
HasEnds r users = HasUser r.ancestor_user_id users × HasUser r.descendant_user_id users

-- The rows that the three foreign keys of a closure row name are there.
abbrev pub HasRefs : ClosureRow → List String → List User → Type 0
HasRefs r tenants users = In r.tenant_id tenants × HasEnds r users

abbrev pub with_manager : String → User → User
with_manager manager_id u = record u { manager_id = some manager_id }

pub record HierarchyDb (Db : Type 0) : Type 0 where
  -- The contents of the two tables, and the ids of the tenants.
  pub rows : Db → List ClosureRow
  pub users : Db → List User
  pub tenants : Db → List String
  -- The operations, with `where` as a test of a row.
  pub find_first : (ClosureRow → Bool) → Db → Option ClosureRow
  pub find_many : (ClosureRow → Bool) → Db → List ClosureRow
  -- `createMany` with `skipDuplicates`
  pub create_many : List ClosureRow → Db → Outcome Db
  pub delete_many : (ClosureRow → Bool) → Db → Db
  -- `user.updateMany` with `data: { managerId }`
  pub update_manager : (User → Bool) → String → Db → Db
  -- The unique key.
  pub unique :
      (db : Db) (r s : ClosureRow) → In r (rows db) → In s (rows db) → same_key r s ≡ true → r ≡ s
  -- The foreign keys to the users.
  pub row_ends : (db : Db) (r : ClosureRow) → In r (rows db) → HasEnds r (users db)
  -- A first row that matches, or none if none matches.
  pub find_first_some :
      (p : ClosureRow → Bool) (db : Db) (r : ClosureRow)
      → find_first p db ≡ some r
      → In r (rows db) × (p r ≡ true)
  pub find_first_none :
      (p : ClosureRow → Bool) (db : Db) (r : ClosureRow)
      → find_first p db ≡ none
      → In r (rows db)
      → p r ≡ false
  pub find_many_iff :
      (p : ClosureRow → Bool) (db : Db) (r : ClosureRow)
      → In r (find_many p db) ↔ (In r (rows db) × (p r ≡ true))
  -- An insert whose rows have their tenant and their users succeeds, and any other fails; it keeps the old rows, adds no others than
  -- the given, and skips only a row whose key is taken.
  pub create_many_ok :
      (data_rows : List ClosureRow) (db : Db)
      → ((r : ClosureRow) → In r data_rows → HasRefs r (tenants db) (users db))
      → (db' : Db) × (create_many data_rows db ≡ ok db')
  pub create_many_fk :
      (data_rows : List ClosureRow) (db : Db) (r : ClosureRow)
      → In r data_rows
      → ¬ HasRefs r (tenants db) (users db)
      → create_many data_rows db ≡ throw foreign_key
  pub create_many_old :
      (data_rows : List ClosureRow) (db db' : Db) (r : ClosureRow)
      → create_many data_rows db ≡ ok db'
      → In r (rows db)
      → In r (rows db')
  pub create_many_only :
      (data_rows : List ClosureRow) (db db' : Db) (r : ClosureRow)
      → create_many data_rows db ≡ ok db'
      → In r (rows db')
      → In r (rows db) ⊎ In r data_rows
  pub create_many_new :
      (data_rows : List ClosureRow) (db db' : Db) (r : ClosureRow)
      → create_many data_rows db ≡ ok db'
      → In r data_rows
      → ((s : ClosureRow) → In s (rows db) → same_key s r ≡ false)
      → ((s : ClosureRow) → In s data_rows → same_key s r ≡ true → s ≡ r)
      → In r (rows db')
  pub create_many_users :
      (data_rows : List ClosureRow) (db db' : Db)
      → create_many data_rows db ≡ ok db'
      → users db' ≡ users db
  pub create_many_tenants :
      (data_rows : List ClosureRow) (db db' : Db)
      → create_many data_rows db ≡ ok db'
      → tenants db' ≡ tenants db
  pub delete_many_iff :
      (p : ClosureRow → Bool) (db : Db) (r : ClosureRow)
      → In r (rows (delete_many p db)) ↔ (In r (rows db) × (p r ≡ false))
  pub delete_many_users : (p : ClosureRow → Bool) (db : Db) → users (delete_many p db) ≡ users db
  pub delete_many_tenants :
      (p : ClosureRow → Bool) (db : Db) → tenants (delete_many p db) ≡ tenants db
  pub update_manager_users :
      (p : User → Bool) (manager_id : String) (db : Db)
      → users (update_manager p manager_id db)
        ≡ map (λ u. if p u then with_manager manager_id u else u) (users db)
  pub update_manager_rows :
      (p : User → Bool) (manager_id : String) (db : Db)
      → rows (update_manager p manager_id db) ≡ rows db
