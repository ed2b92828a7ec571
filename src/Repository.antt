-- ===== src/Repository.antt =====
-- src/common/repositories/base-tenant.repository.ts: the scoped operations on a table, over a
-- model delegate of Prisma. `where` and `data` are a test and a change of a row; `where` does not
-- speak of the tenant, which the repository adds.
pub mod Isolation
pub mod Memory
use iam_access_control_servi.Prelude.{
  ℕ, String, ◌≡◌, ◌↔◌, Bool, true, false, not, ◌&&◌, Option, none, some, List, map, In, str_eq,
  nat_eq, ltb, if◌then◌else◌,
}
use iam_access_control_servi.Outcome.{Outcome, ok, ◌>>=◌}

-- The part of a delegate that the repository uses, with Prisma's documented behaviour. `args` is
-- what the caller adds on order and page.
pub record Delegate (Db T Data Args : Type 0) : Type 0 where
  pub tenant_of : T → String
  pub id_of : T → String
  pub rows : Db → List T
  -- The row of an insert of some data for a tenant, and the changed row of an update.
  pub changed : Data → T → T
  pub find_many : Args → (T → Bool) → Db → List T
  pub find_first : Args → (T → Bool) → Db → Option T
  pub count : (T → Bool) → Db → ℕ
  pub create : String → Data → Db → Outcome (T × Db)
  -- Either may throw, as where a unique key or a foreign key would break.
  pub update_many : (T → Bool) → Data → Db → Outcome (ℕ × Db)
  pub delete_many : (T → Bool) → Db → Outcome (ℕ × Db)
  pub find_many_sound :
      (args : Args) (p : T → Bool) (db : Db) (r : T)
      → In r (find_many args p db)
      → In r (rows db) × (p r ≡ true)
  pub find_first_sound :
      (args : Args) (p : T → Bool) (db : Db) (r : T)
      → find_first args p db ≡ some r
      → In r (rows db) × (p r ≡ true)
  pub update_many_rows :
      (p : T → Bool) (data_ : Data) (n : ℕ) (db db' : Db)
      → update_many p data_ db ≡ ok (n, db')
      → rows db' ≡ map (λ r. if p r then changed data_ r else r) (rows db)
  pub delete_many_iff :
      (p : T → Bool) (n : ℕ) (db db' : Db) (r : T)
      → delete_many p db ≡ ok (n, db')
      → In r (rows db') ↔ (In r (rows db) × (p r ≡ false))

module _ {Db T Data Args : Type 0} (delegate : Delegate Db T Data Args) (no_args : Args) where
  -- `scopedWhere`
  abbrev pub scoped_where : String → (T → Bool) → T → Bool
  scoped_where tenant_id where_ r = where_ r && str_eq (delegate.tenant_of r) tenant_id

  abbrev pub where_id : String → T → Bool
  where_id id r = str_eq (delegate.id_of r) id

  unfoldable pub find_many : String → (T → Bool) → Args → Db → List T
  find_many tenant_id where_ args db = delegate.find_many args (scoped_where tenant_id where_) db

  unfoldable pub find_first : String → (T → Bool) → Args → Db → Option T
  find_first tenant_id where_ args db = delegate.find_first args (scoped_where tenant_id where_) db

  unfoldable pub find_by_id : String → String → Args → Db → Option T
  find_by_id tenant_id id args db =
      delegate.find_first args (scoped_where tenant_id (where_id id)) db

  unfoldable pub count : String → (T → Bool) → Db → ℕ
  count tenant_id where_ db = delegate.count (scoped_where tenant_id where_) db

  unfoldable pub create : String → Data → Db → Outcome (T × Db)
  create tenant_id data_ db = delegate.create tenant_id data_ db

  -- The part of `updateById` after the update.
  abbrev pub updated : String → String → ℕ × Db → Option T × Db
  updated tenant_id id (n, db) =
      if nat_eq n 0 then (none, db) else (find_by_id tenant_id id no_args db, db)

  unfoldable pub update_by_id : String → String → Data → Db → Outcome (Option T × Db)
  unfolding find_by_id
  update_by_id tenant_id id data_ db = do
    changes ← delegate.update_many (scoped_where tenant_id (where_id id)) data_ db
    ok (updated tenant_id id changes)

  abbrev deleted : ℕ × Db → Bool × Db
  deleted (n, db) = (ltb 0 n, db)

  unfoldable pub delete_by_id : String → String → Db → Outcome (Bool × Db)
  delete_by_id tenant_id id db = do
    deletions ← delegate.delete_many (scoped_where tenant_id (where_id id)) db
    ok (deleted deletions)
