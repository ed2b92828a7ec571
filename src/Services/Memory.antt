-- ===== src/Services/Memory.antt =====
-- A table of service identities that fills the interface of `Services.Identities`: a list of rows,
-- whose ids grow with the number of rows.
use iam_access_control_servi.Prelude.{
  String, ◌≡◌, ◌≢◌, refl, true, Option, some, List, [], ◌∷◌, str_eq, eq_refl, arith, select, subst,
}
use text.Mathlib.TextLemmas.{cons-ne-nil}
use iam_access_control_servi.Outcome.{Outcome, ok, ok-inj}
use iam_access_control_servi.Domain.Models.{ServiceIdentity}
use iam_access_control_servi.Access.Texts.{IsFree}
use iam_access_control_servi.Repository.Memory.{first_row}
use iam_access_control_servi.Services.Identities.{Identities}

abbrev pub new_id : List ServiceIdentity → String
new_id [] = "i"
new_id (row ∷ rows) = String.◌∷◌ "i" (new_id rows)

pub new_id-IsFree : (rows : List ServiceIdentity) → IsFree b'.' (new_id rows)
new_id-IsFree [] = (omega arith, tt)
new_id-IsFree (row ∷ rows) = (omega arith, new_id-IsFree rows)

pub new_id_filled : (rows : List ServiceIdentity) → new_id rows ≢ ""
new_id_filled [] = cons-ne-nil "i" ""
new_id_filled (row ∷ rows) = cons-ne-nil "i" (new_id rows)

abbrev pub new_row : String → String → String → List ServiceIdentity → ServiceIdentity
new_row tenant_id name key_hash rows = record {
  id = new_id rows;
  tenant_id = tenant_id;
  name = name;
  api_key_hash = key_hash;
  enabled = true;
  created_at = 0;
}

abbrev pub insert :
    String
    → String
    → String
    → List ServiceIdentity
    → Outcome (ServiceIdentity × List ServiceIdentity)
insert tenant_id name key_hash rows =
    ok (new_row tenant_id name key_hash rows, new_row tenant_id name key_hash rows ∷ rows)

abbrev pub find_row : String → List ServiceIdentity → Option ServiceIdentity
find_row id rows = first_row (λ r. str_eq r.id id) rows

pub find_row-head :
    (row : ServiceIdentity) (rows : List ServiceIdentity) → find_row row.id (row ∷ rows) ≡ some row
unfolding first_row
find_row-head row rows = rw (eq_refl row.id) refl

-- A property of the row and the table that an insert returns.
pub inserted :
    (P : ServiceIdentity → List ServiceIdentity → Type 0) (t n h : String)
    (db db' : List ServiceIdentity) (row : ServiceIdentity)
    → P (new_row t n h db) (new_row t n h db ∷ db)
    → insert t n h db ≡ ok (row, db')
    → P row db'
inserted P t n h db db' row p e =
    subst (λ (q : ServiceIdentity × List ServiceIdentity). P q.0 q.1) (ok-inj e) p

abbrev pub identities : Identities (List ServiceIdentity)
identities = record {
  find_unique = find_row;
  find_many = λ p listing db. select p db;
  create = insert;
  create_found = λ t n h db db' row.
      inserted (λ r d. find_row r.id d ≡ some r) t n h db db' row
        (find_row-head (new_row t n h db) db);
  create_row = λ t n h db db' row.
      inserted (λ r d. (r.tenant_id ≡ t) × (r.name ≡ n) × (r.api_key_hash ≡ h) × (r.enabled ≡ true))
        t n h db db' row (refl, refl, refl, refl);
  create_id = λ t n h db db' row.
      inserted (λ r d. IsFree b'.' r.id × (r.id ≢ "")) t n h db db' row
        (new_id-IsFree db, new_id_filled db);
}
