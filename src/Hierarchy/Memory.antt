-- ===== src/Hierarchy/Memory.antt =====
-- A database in memory that behaves as `HierarchyDb` says: the assumptions can be met.
pub mod Table
pub mod Sorted
use iam_access_control_servi.Prelude.{
  String, ◌≡◌, ◌↔◌, ◌⊎◌, inl, inr, refl, ap, subst, sym, true, false, not, none, some, Option, List,
  map, arith, eq_refl, In, In-select, In-map, select, Bool, Bool-cases, if◌then◌else◌,
}
use iam_access_control_servi.Outcome.{Outcome, ok, throw, foreign_key}
use iam_access_control_servi.Domain.Models.{User, ClosureRow}
use iam_access_control_servi.Hierarchy.Store.{HierarchyDb, HasRefs, HasUser, same_key, with_manager}
use iam_access_control_servi.Hierarchy.Memory.Table.{
  IsUnique, HasAllEnds, add_rows, add_rows_old, add_rows_only, add_rows_new, add_rows-IsUnique,
  first, first-some, first-none, HasAllRefs, all_known, all_known_iff,
}

pub record MemoryDb : Type 0 where
  pub rows : List ClosureRow
  pub users : List User
  pub tenants : List String
  pub unique : IsUnique rows
  pub ends : HasAllEnds rows users

pub same_key_refl : (r : ClosureRow) → same_key r r ≡ true
same_key_refl r =
    ground (arith, eq_refl r.tenant_id, eq_refl r.ancestor_user_id, eq_refl r.descendant_user_id)

-- An insert after the test of its foreign keys.
unfoldable pub create_checked :
    (rs : List ClosureRow) (db : MemoryDb)
    → (all_known rs db.tenants db.users ≡ true) ⊎ (all_known rs db.tenants db.users ≡ false)
    → Outcome MemoryDb
create_checked rs db (inr bad) = throw foreign_key
create_checked rs db (inl good) = ok (record db {
  rows = add_rows rs db.rows;
  unique = add_rows-IsUnique rs db.rows db.unique;
  ends = λ r at. elim (add_rows_only rs db.rows r at) [
    | inl old ↦ db.ends r old
    | inr new ↦ ((all_known_iff rs db.tenants db.users).0 good r new).1
  ];
})

unfoldable pub create_rows : List ClosureRow → MemoryDb → Outcome MemoryDb
unfolding all_known create_checked Bool-cases
create_rows rs db = create_checked rs db (Bool-cases (all_known rs db.tenants db.users))

unfoldable pub kept_rows : (ClosureRow → Bool) → List ClosureRow → List ClosureRow
kept_rows p rows = select (λ r. not (p r)) rows

unfoldable pub delete_rows : (ClosureRow → Bool) → MemoryDb → MemoryDb
unfolding kept_rows
delete_rows p db = record db {
  rows = kept_rows p db.rows;
  unique = λ r s at_r at_s same.
      db.unique r s ((In-select (λ x. not (p x)) r db.rows).0 at_r).0
        ((In-select (λ x. not (p x)) s db.rows).0 at_s).0 same;
  ends = λ r at. db.ends r ((In-select (λ x. not (p x)) r db.rows).0 at).0;
}

unfoldable pub reassigned : (User → Bool) → String → List User → List User
reassigned p manager_id users = map (λ u. if p u then with_manager manager_id u else u) users

pub reassigned_has :
    (p : User → Bool) (m id : String) (us : List User)
    → HasUser id us
    → HasUser id (reassigned p m us)
unfolding reassigned
reassigned_has p m id us (u, at, e) =
    let f = λ (v : User). if p v then with_manager m v else v in
    (f u, (In-map f (f u) us).1 (u, at, refl), ground arith)

unfoldable pub update_rows : (User → Bool) → String → MemoryDb → MemoryDb
unfolding reassigned
update_rows p m db = record db {
  users = reassigned p m db.users;
  ends = λ r at.
      let (a, d) = db.ends r at in
      (
        reassigned_has p m r.ancestor_user_id db.users a,
        reassigned_has p m r.descendant_user_id db.users d,
      );
}

MemoryDb-ok : {a b : MemoryDb} → ok a ≡ ok b → a ≡ b
MemoryDb-ok h = cc

create_checked_eq :
    (rs : List ClosureRow) (db db' : MemoryDb)
    (c : (all_known rs db.tenants db.users ≡ true) ⊎ (all_known rs db.tenants db.users ≡ false))
    → create_checked rs db c ≡ ok db'
    → (db'.rows ≡ add_rows rs db.rows) × (db'.users ≡ db.users) × (db'.tenants ≡ db.tenants)
unfolding create_checked
create_checked_eq rs db db' (inl good) e =
    let same = sym (MemoryDb-ok e) in
    (
      ap (λ (d : MemoryDb). d.rows) same,
      ap (λ (d : MemoryDb). d.users) same,
      ap (λ (d : MemoryDb). d.tenants) same,
    )
create_checked_eq rs db db' (inr bad) e = cc

pub create_rows_eq :
    (rs : List ClosureRow) (db db' : MemoryDb)
    → create_rows rs db ≡ ok db'
    → (db'.rows ≡ add_rows rs db.rows) × (db'.users ≡ db.users) × (db'.tenants ≡ db.tenants)
unfolding create_rows
create_rows_eq rs db db' e =
    create_checked_eq rs db db' (Bool-cases (all_known rs db.tenants db.users)) e

create_checked_ok :
    (rs : List ClosureRow) (db : MemoryDb)
    (c : (all_known rs db.tenants db.users ≡ true) ⊎ (all_known rs db.tenants db.users ≡ false))
    → HasAllRefs rs db.tenants db.users
    → (db' : MemoryDb) × (create_checked rs db c ≡ ok db')
unfolding create_checked
create_checked_ok rs db (inl good) h = (_, refl)
create_checked_ok rs db (inr bad) h = cc (bad, (all_known_iff rs db.tenants db.users).1 h)

pub create_rows_ok :
    (rs : List ClosureRow) (db : MemoryDb)
    → HasAllRefs rs db.tenants db.users
    → (db' : MemoryDb) × (create_rows rs db ≡ ok db')
unfolding create_rows
create_rows_ok rs db h = create_checked_ok rs db (Bool-cases (all_known rs db.tenants db.users)) h

create_checked_fk :
    (rs : List ClosureRow) (db : MemoryDb) (r : ClosureRow)
    (c : (all_known rs db.tenants db.users ≡ true) ⊎ (all_known rs db.tenants db.users ≡ false))
    → In r rs
    → ¬ HasRefs r db.tenants db.users
    → create_checked rs db c ≡ throw foreign_key
unfolding create_checked
create_checked_fk rs db r (inl good) at h =
    absurd (h ((all_known_iff rs db.tenants db.users).0 good r at))
create_checked_fk rs db r (inr bad) at h = refl

pub create_rows_fk :
    (rs : List ClosureRow) (db : MemoryDb) (r : ClosureRow)
    → In r rs
    → ¬ HasRefs r db.tenants db.users
    → create_rows rs db ≡ throw foreign_key
unfolding create_rows
create_rows_fk rs db r at h =
    create_checked_fk rs db r (Bool-cases (all_known rs db.tenants db.users)) at h

pub delete_rows_iff :
    (p : ClosureRow → Bool) (db : MemoryDb) (r : ClosureRow)
    → In r (delete_rows p db).rows ↔ (In r db.rows × (p r ≡ false))
unfolding delete_rows
delete_rows_iff p db r =
    let (to, from) = In-select (λ x. not (p x)) r db.rows in
    (λ h. ((to h).0, ground (arith, (to h).1)), λ h. from (h.0, ground arith))

unfoldable pub memory : HierarchyDb MemoryDb
unfolding create_rows delete_rows update_rows add_rows first
memory = record {
  rows = λ db. db.rows;
  users = λ db. db.users;
  tenants = λ db. db.tenants;
  find_first = λ p db. first p db.rows;
  find_many = λ p db. select p db.rows;
  create_many = create_rows;
  delete_many = delete_rows;
  update_manager = update_rows;
  unique = λ db. db.unique;
  row_ends = λ db. db.ends;
  find_first_some = λ p db r e. first-some p db.rows r e;
  find_first_none = λ p db r e at. first-none p db.rows r e at;
  find_many_iff = λ p db r. In-select p r db.rows;
  create_many_ok = create_rows_ok;
  create_many_fk = create_rows_fk;
  create_many_old = λ rs db db' r e at.
      subst (In r) (sym (create_rows_eq rs db db' e).0) (add_rows_old rs db.rows r at);
  create_many_only = λ rs db db' r e at.
      add_rows_only rs db.rows r (subst (In r) (create_rows_eq rs db db' e).0 at);
  create_many_new = λ rs db db' r e at free once.
      subst (In r) (sym (create_rows_eq rs db db' e).0) (
        add_rows_new rs db.rows r at (λ s at_s same. cc (free s at_s, same)) once
          (same_key_refl r));
  create_many_users = λ rs db db' e. (create_rows_eq rs db db' e).1;
  create_many_tenants = λ rs db db' e. (create_rows_eq rs db db' e).2;
  delete_many_iff = delete_rows_iff;
  delete_many_users = λ p db. refl;
  delete_many_tenants = λ p db. refl;
  update_manager_users = λ p m db. refl;
  update_manager_rows = λ p m db. refl;
}
