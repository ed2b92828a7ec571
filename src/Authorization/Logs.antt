-- ===== src/Authorization/Logs.antt =====
-- The audit logs of the database in memory, which fill the interface of `Authorization.Trail`.
use iam_access_control_servi.Prelude.{
  ℕ, zero, suc, ◌≤◌, ◌≡◌, refl, Bool, true, List, [], ◌∷◌, map, length, select, In, In-map,
  In-select, inl, inr, arith, Bool-cases,
}
use iam_access_control_servi.Domain.Models.{AuditRecordInput}
use iam_access_control_servi.Requests.Pagination.{ℤ}
use iam_access_control_servi.Authorization.Memory.{Directory, prisma_db}
use iam_access_control_servi.Authorization.Trail.{AuditLogRow, AuditTable, stored_row}

-- The first rows.
unfoldable pub first_rows : ℕ → List AuditLogRow → List AuditLogRow
first_rows zero rows = []
first_rows (suc n) [] = []
first_rows (suc n) (r ∷ rows) = r ∷ first_rows n rows

pub first_rows_In :
    (n : ℕ) (rows : List AuditLogRow) (r : AuditLogRow) → In r (first_rows n rows) → In r rows
unfolding first_rows
first_rows_In zero rows r at = absurd at
first_rows_In (suc n) [] r at = absurd at
first_rows_In (suc n) (s ∷ rows) r (inl here) = inl here
first_rows_In (suc n) (s ∷ rows) r (inr there) = inr (first_rows_In n rows r there)

pub first_rows_all : (n : ℕ) (rows : List AuditLogRow) → length rows ≤ n → first_rows n rows ≡ rows
unfolding first_rows
first_rows_all zero [] room = refl
first_rows_all zero (r ∷ rows) room = absurd (omega arith)
first_rows_all (suc n) [] room = refl
first_rows_all (suc n) (r ∷ rows) room = rw (first_rows_all n rows (omega arith)) refl

length-select :
    (p : AuditLogRow → Bool) (rows : List AuditLogRow) → length (select p rows) ≤ length rows
length-select p [] = omega arith
length-select p (r ∷ rows) =
    let rest = length-select p rows in
    elim (Bool-cases (p r)) [
      | inl kept ↦ rw kept (omega arith)
      | inr dropped ↦ rw dropped (omega arith)
    ]

pub first_rows-select :
    (p : AuditLogRow → Bool) (n : ℕ) (rows : List AuditLogRow) (r : AuditLogRow)
    → length rows ≤ n
    → In r rows
    → p r ≡ true
    → In r (first_rows n (select p rows))
first_rows-select p n rows r room at passes =
    let kept = length-select p rows in
    let all = first_rows_all n (select p rows) (omega (arith, kept)) in
    rw all ((In-select p r rows).1 (at, passes))

-- How many rows `take` asks for, from either end of the order.
abbrev pub asked : ℤ → ℕ
asked (ℤ.pos n) = n
asked (ℤ.negsuc n) = suc n

-- All rows are inserted at one time, so that every order of them is an order by time.
abbrev pub log_rows : Directory → List AuditLogRow
log_rows db = map (λ (e : AuditRecordInput). stored_row e.decision_id 0 e) db.1.audit_logs

unfoldable pub audit_table : AuditTable prisma_db
unfolding prisma_db
audit_table = record {
  rows = log_rows;
  find_many = λ p take db. first_rows (asked take) (select p (log_rows db));
  rows_logs = λ db e at. (
    e.decision_id,
    0,
    (In-map (λ (x : AuditRecordInput). stored_row x.decision_id 0 x) (stored_row e.decision_id 0 e)
          db.1.audit_logs).1
        (e, at, refl),
  );
  find_many_sound = λ p take db r at.
      (In-select p r (log_rows db)).0 (first_rows_In (asked take) (select p (log_rows db)) r at);
  find_many_all = λ p take db r. first_rows-select p take (log_rows db) r;
}
