-- ===== src/Repository/Memory.antt =====
-- A table in memory that behaves as `Delegate` says: the assumptions can be met.
use iam_access_control_servi.Prelude.{
  ℕ, ◌↔◌, false, ap, sym, ◌∙◌, String, ◌≡◌, subst, Bool, true, not, Option, none, some, some-inj,
  List, [], ◌∷◌, map, length, select, In, In-select, Bool-cases, inl, inr, arith, if◌then◌else◌,
}
use iam_access_control_servi.Outcome.{Outcome, ok}
use iam_access_control_servi.Repository.{Delegate}

unfoldable pub first_row : {T : Type 0} → (T → Bool) → List T → Option T
first_row p [] = none
first_row p (x ∷ xs) = let later = first_row p xs in if p x then some x else later

pub first_row_sound :
    {T : Type 0} (p : T → Bool) (xs : List T) (r : T)
    → first_row p xs ≡ some r
    → In r xs × (p r ≡ true)
unfolding first_row
first_row_sound p [] r e = cc
first_row_sound p (x ∷ xs) r e = elim (Bool-cases (p x)) [
  | inl here ↦
      let same : x ≡ r = some-inj (rw here at e) in (inl same, subst (λ y. p y ≡ true) same here)
  | inr other ↦ let (at, passes) = first_row_sound p xs r (rw other at e) in (inr at, passes)
]

-- The rows after a write are those written.
pub put_rows :
    {Db T : Type 0} (get : Db → List T) (put : List T → Db → Db)
    → ((xs : List T) (db : Db) → get (put xs db) ≡ xs)
    → (xs : List T) (n : ℕ) {m : ℕ} (db db' : Db)
    → ◌≡◌ {A = Outcome (ℕ × Db)} (ok (m, put xs db)) (ok (n, db'))
    → get db' ≡ xs
put_rows get put get_put xs n {m} db db' e =
    let same : put xs db ≡ db' = cc in ap get (sym same) ∙ get_put xs db

pub kept_iff :
    {T : Type 0} (p : T → Bool) (r : T) (xs : List T) {ys : List T}
    → ys ≡ select (λ x. not (p x)) xs
    → In r ys ↔ (In r xs × (p r ≡ false))
kept_iff p r xs e =
    let (to, from) = In-select (λ x. not (p x)) r xs in
    rw e (λ h. ((to h).0, ground (arith, (to h).1)), λ h. from (h.0, ground arith))

-- A table of a database that has it as the contents `get`, replaced by `put`.
unfoldable pub table :
    {Db T Data Args : Type 0} (get : Db → List T) (put : List T → Db → Db)
    → ((xs : List T) (db : Db) → get (put xs db) ≡ xs)
    → (T → String)
    → (T → String)
    → (Data → T → T)
    → (String → Data → T)
    → Delegate Db T Data Args
unfolding first_row
table get put get_put tenant_of id_of changed fresh = record {
  tenant_of = tenant_of;
  id_of = id_of;
  rows = get;
  changed = changed;
  find_many = λ args p db. select p (get db);
  find_first = λ args p db. first_row p (get db);
  count = λ p db. length (select p (get db));
  create = λ tenant_id d db. ok (fresh tenant_id d, put (fresh tenant_id d ∷ get db) db);
  update_many = λ p d db.
      ok (length (select p (get db)), put (map (λ r. if p r then changed d r else r) (get db)) db);
  delete_many = λ p db. ok (length (select p (get db)), put (select (λ r. not (p r)) (get db)) db);
  find_many_sound = λ args p db r at. (In-select p r (get db)).0 at;
  find_first_sound = λ args p db r e. first_row_sound p (get db) r e;
  update_many_rows = λ p d n db db' e. put_rows get put get_put _ n db db' e;
  delete_many_iff = λ p n db db' r e. kept_iff p r (get db) (put_rows get put get_put _ n db db' e);
}
