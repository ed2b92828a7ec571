-- ===== src/Services/Directory.antt =====
-- src/departments/departments.service.ts, src/tenants/tenants.service.ts and the resolver of
-- src/authorization. The mappers of departments and tenants copy every field, so that the
-- operations here return the row.
use iam_access_control_servi.Prelude.{
  String, ◌≡◌, ◌∙◌, sym, ap, Bool, true, Option, none, some, List, [], ◌∷◌, In, concat,
}
use iam_access_control_servi.Outcome.{
  Outcome, ok, bad_request, not_found, ◌>>=◌, >>=-eq-ok, expect, expect-eq-ok, ok-inj,
}
use iam_access_control_servi.Domain.Contracts.{Attributes, AuthorizationRequest}
use iam_access_control_servi.Domain.Models.{Tenant}
use iam_access_control_servi.Access.Contracts.{AuthContext}
use iam_access_control_servi.Access.Jwt.{filled}
use iam_access_control_servi.Repository.{Delegate, create, find_by_id, find_many}
use iam_access_control_servi.Repository.Isolation.{find_by_id_scoped}
use iam_access_control_servi.Requests.Pagination.{PaginationArgs}
use iam_access_control_servi.Services.Entities.{Department, Listing}
use iam_access_control_servi.Services.Roles.{listing}

pub record DepartmentData : Type 0 where
  pub name : String
  pub parent_department_id : Option String

module _ {Db : Type 0} (departments : Delegate Db Department DepartmentData (Option Listing)) where
  -- The check of the parent, where one is given.
  check_parent : String → Option String → Db → Outcome Bool
  unfolding find_by_id
  check_parent tenant_id none db = ok true
  check_parent tenant_id (some parent_id) db = do
    parent ←
        expect (bad_request "parentDepartmentId does not exist in this tenant")
          (find_by_id departments none tenant_id parent_id none db)
    ok true

  -- `DepartmentsService.create`
  unfoldable pub create_department : String → DepartmentData → Db → Outcome (Department × Db)
  unfolding check_parent create
  create_department tenant_id input db = do
    checked ← check_parent tenant_id (filled input.parent_department_id) db
    create departments none tenant_id input db

  unfoldable pub find_department : String → String → Db → Outcome Department
  unfolding expect find_by_id
  find_department tenant_id id db =
      expect (not_found (concat ("Department " ∷ id ∷ " not found" ∷ [])))
        (find_by_id departments none tenant_id id none db)

  unfoldable pub all_departments : String → Option PaginationArgs → Db → List Department
  unfolding find_many
  all_departments tenant_id pagination db =
      find_many departments none tenant_id (λ d. true) (listing pagination "name") db

  -- A department that is created under a parent has that parent in its own tenant.
  pub create_department_parent :
      (tenant_id parent_id : String) (input : DepartmentData) (db db' : Db) (row : Department)
      → filled input.parent_department_id ≡ some parent_id
      → create_department tenant_id input db ≡ ok (row, db')
      → (parent : Department) × In parent (departments.rows db)
        × (departments.id_of parent ≡ parent_id)
        × (departments.tenant_of parent ≡ tenant_id)
  unfolding create_department
  create_department_parent t p input db db' row given h =
      let (checked, e, rest) =
        >>=-eq-ok (check_parent t (filled input.parent_department_id) db) _ h in
      let (parent, found, last) =
        >>=-eq-ok (expect _ (find_by_id departments none t p none db)) _
          (rw (given, check_parent) at e) in
      let (at, same, own) =
        find_by_id_scoped departments none t p none db parent
          (expect-eq-ok _ (find_by_id departments none t p none db) found) in
      (parent, at, same, own)

-- `find` is `findUnique` by id.
unfoldable pub find_tenant_by_id : (String → Option Tenant) → String → Outcome Tenant
unfolding expect
find_tenant_by_id find id =
    expect (not_found (concat ("Tenant " ∷ id ∷ " not found" ∷ []))) (find id)

-- `CheckAccessInput`
pub record CheckAccessInput : Type 0 where
  pub tenant_id : String
  pub subject_user_id : String
  pub action : String
  pub resource_type : String
  pub resource_id : String
  pub resource_attributes : Option String
  pub subject_attributes : Option String

-- `parse` is `JSON.parse`, none where it throws.
module _ (parse : String → Option Attributes) where
  parse_filled : Option String → String → Outcome (Option Attributes)
  unfolding expect
  parse_filled none field = ok none
  parse_filled (some value) field = do
    attributes ←
        expect (bad_request (concat (field ∷ " must be a valid JSON object string" ∷ [])))
          (parse value)
    ok (some attributes)

  -- `parseJson`
  unfoldable pub parse_json : Option String → String → Outcome (Option Attributes)
  unfolding parse_filled
  parse_json value field = parse_filled (filled value) field

  -- The request that the resolver of `checkAccess` hands to the engine.
  unfoldable pub access_request : AuthContext → CheckAccessInput → Outcome AuthorizationRequest
  unfolding parse_json
  access_request principal input = do
    resource_attributes ← parse_json input.resource_attributes "resourceAttributes"
    subject_attributes ← parse_json input.subject_attributes "subjectAttributes"
    ok (record {
      tenant_id = principal.tenant_id;
      subject_user_id = input.subject_user_id;
      action = input.action;
      resource_type = input.resource_type;
      resource_id = input.resource_id;
      resource_attributes = resource_attributes;
      subject_attributes = subject_attributes;
      correlation_id = principal.correlation_id;
    })

  -- A request asks what the input asks, in the tenant of the principal.
  pub record Asks (principal : AuthContext) (input : CheckAccessInput)
      (request : AuthorizationRequest) : Type 0 where
    pub tenant_id : request.tenant_id ≡ principal.tenant_id
    pub subject_user_id : request.subject_user_id ≡ input.subject_user_id
    pub action : request.action ≡ input.action
    pub resource_type : request.resource_type ≡ input.resource_type
    pub resource_id : request.resource_id ≡ input.resource_id
    pub resource_attributes :
        parse_json input.resource_attributes "resourceAttributes" ≡ ok request.resource_attributes
    pub subject_attributes :
        parse_json input.subject_attributes "subjectAttributes" ≡ ok request.subject_attributes
    pub correlation_id : request.correlation_id ≡ principal.correlation_id

  -- The request asks what the input asks, in the tenant of the principal, whatever tenant the
  -- input names.
  pub access_request-Asks :
      (principal : AuthContext) (input : CheckAccessInput) (request : AuthorizationRequest)
      → access_request principal input ≡ ok request
      → Asks principal input request
  unfolding access_request
  access_request-Asks principal input request h =
      let (r, e1, h1) = >>=-eq-ok (parse_json input.resource_attributes "resourceAttributes") _ h in
      let (s, e2, h2) = >>=-eq-ok (parse_json input.subject_attributes "subjectAttributes") _ h1 in
      let same = sym (ok-inj h2) in
      record {
        tenant_id = ap (λ (x : AuthorizationRequest). x.tenant_id) same;
        subject_user_id = ap (λ (x : AuthorizationRequest). x.subject_user_id) same;
        action = ap (λ (x : AuthorizationRequest). x.action) same;
        resource_type = ap (λ (x : AuthorizationRequest). x.resource_type) same;
        resource_id = ap (λ (x : AuthorizationRequest). x.resource_id) same;
        resource_attributes =
            e1 ∙ ap ok (sym (ap (λ (x : AuthorizationRequest). x.resource_attributes) same));
        subject_attributes =
            e2 ∙ ap ok (sym (ap (λ (x : AuthorizationRequest). x.subject_attributes) same));
        correlation_id = ap (λ (x : AuthorizationRequest). x.correlation_id) same;
      }
