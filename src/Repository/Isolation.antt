-- ===== src/Repository/Isolation.antt =====
-- What the scope keeps: no operation returns or changes a row of another tenant.
use iam_access_control_servi.Prelude.{
  ℕ, ap, ◌∙◌, Option, String, ◌≡◌, ◌≢◌, ◌↔◌, refl, sym, subst, Bool, true, false, some, In, In-map,
  eq_iff, Bool-cases, inl, inr, arith, if◌then◌else◌,
}
use iam_access_control_servi.Outcome.{ok, >>=-eq-ok, ok-inj}
use iam_access_control_servi.Repository.{
  updated, Delegate, scoped_where, where_id, find_many, find_by_id, update_by_id, delete_by_id,
}

module _ {Db T Data Args : Type 0} (delegate : Delegate Db T Data Args) (no_args : Args) where
  scoped_iff :
      (t : String) (p : T → Bool) (r : T)
      → (scoped_where delegate no_args t p r ≡ true) ↔ ((p r ≡ true) × (delegate.tenant_of r ≡ t))
  scoped_iff t p r = ground (arith, eq_iff (delegate.tenant_of r) t)

  scoped_other :
      (t : String) (p : T → Bool) (r : T)
      → delegate.tenant_of r ≢ t
      → scoped_where delegate no_args t p r ≡ false
  scoped_other t p r other = elim (Bool-cases (scoped_where delegate no_args t p r)) [
    | inl here ↦ absurd (other ((scoped_iff t p r).0 here).1)
    | inr out ↦ out
  ]

  -- A row that `findMany` returns is of the tenant and fits the test.
  pub find_many_scoped :
      (t : String) (p : T → Bool) (args : Args) (db : Db) (r : T)
      → In r (find_many delegate no_args t p args db)
      → In r (delegate.rows db) × (p r ≡ true) × (delegate.tenant_of r ≡ t)
  unfolding find_many
  find_many_scoped t p args db r at =
      let (row, passes) = delegate.find_many_sound args _ db r at in
      let (fits, own) = (scoped_iff t p r).0 passes in (row, fits, own)

  -- The row that `findById` returns is of the tenant and has the id.
  pub find_by_id_scoped :
      (t id : String) (args : Args) (db : Db) (r : T)
      → find_by_id delegate no_args t id args db ≡ some r
      → In r (delegate.rows db) × (delegate.id_of r ≡ id) × (delegate.tenant_of r ≡ t)
  unfolding find_by_id
  find_by_id_scoped t id args db r e =
      let (row, passes) = delegate.find_first_sound args _ db r e in
      let (same, own) = (scoped_iff t (where_id delegate no_args id) r).0 passes in
      (row, (eq_iff (delegate.id_of r) id).0 same, own)

  updated_db :
      (t id : String) (changes : ℕ × Db) → changes.1 ≡ (updated delegate no_args t id changes).1
  updated_db t id (n, db) = ground arith

  -- The rows after an update that succeeds are those after its `updateMany`.
  updated_rows :
      (t id : String) (d : Data) (db db' : Db) (found : Option T)
      → update_by_id delegate no_args t id d db ≡ ok (found, db')
      → (n : ℕ) × (delegate.update_many
            (scoped_where delegate no_args t (where_id delegate no_args id))
            d
            db
          ≡ ok (n, db'))
  unfolding update_by_id
  updated_rows t id d db db' found h =
      let (changes, e, rest) = >>=-eq-ok (delegate.update_many _ d db) _ h in
      let same : changes.1 ≡ db' =
        updated_db t id changes ∙ ap (λ (r : Option T × Db). r.1) (ok-inj rest) in
      (changes.0, e ∙ ap (λ (x : Db). ok (changes.0, x)) same)

  -- `updateById`, where it succeeds, keeps every row of another tenant.
  pub update_by_id_isolated :
      (t id : String) (d : Data) (db db' : Db) (found : Option T) (r : T)
      → delegate.tenant_of r ≢ t
      → In r (delegate.rows db)
      → update_by_id delegate no_args t id d db ≡ ok (found, db')
      → In r (delegate.rows db')
  update_by_id_isolated t id d db db' found r other at h =
      let test = scoped_where delegate no_args t (where_id delegate no_args id) in
      let change = λ (x : T). if test x then delegate.changed d x else x in
      let same : change r ≡ r = rw (scoped_other t (where_id delegate no_args id) r other) refl in
      let (n, e) = updated_rows t id d db db' found h in
      subst (In r) (sym (delegate.update_many_rows test d n db db' e))
        ((In-map change r (delegate.rows db)).1 (r, at, same))

  deleted_rows :
      (t id : String) (db db' : Db) (gone : Bool)
      → delete_by_id delegate no_args t id db ≡ ok (gone, db')
      → (n : ℕ) × (delegate.delete_many
            (scoped_where delegate no_args t (where_id delegate no_args id))
            db
          ≡ ok (n, db'))
  unfolding delete_by_id
  deleted_rows t id db db' gone h =
      let (deletions, e, rest) = >>=-eq-ok (delegate.delete_many _ db) _ h in
      let same : deletions.1 ≡ db' = ap (λ (r : Bool × Db). r.1) (ok-inj rest) in
      (deletions.0, e ∙ ap (λ (x : Db). ok (deletions.0, x)) same)

  -- `deleteById`, where it succeeds, removes exactly the rows of the tenant that have the id.
  pub delete_by_id_iff :
      (t id : String) (db db' : Db) (gone : Bool) (r : T)
      → delete_by_id delegate no_args t id db ≡ ok (gone, db')
      → In r (delegate.rows db')
        ↔ (In r (delegate.rows db) × ¬ ((delegate.id_of r ≡ id) × (delegate.tenant_of r ≡ t)))
  delete_by_id_iff t id db db' gone r h =
      let p = where_id delegate no_args id in
      let (n, e) = deleted_rows t id db db' gone h in
      let (to, from) = delegate.delete_many_iff (scoped_where delegate no_args t p) n db db' r e in
      let (own, back) = scoped_iff t p r in
      let (named, unnamed) = eq_iff (delegate.id_of r) id in
      (
        λ at. let (row, out) = to at in (row, λ both. cc (out, back (unnamed both.0, both.1))),
        λ at. from (
          at.0,
          elim (Bool-cases (scoped_where delegate no_args t p r)) [
            | inl here ↦ absurd (at.1 (named (own here).0, (own here).1))
            | inr out ↦ out
          ],
        ),
      )
