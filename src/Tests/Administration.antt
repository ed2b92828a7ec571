-- ===== src/Tests/Administration.antt =====
-- The services over tables in memory.
use iam_access_control_servi.Tests.Samples.{permission, role}
use iam_access_control_servi.Prelude.{true}
use iam_access_control_servi.Prelude.{
  String, ◌≡◌, ◌≢◌, ◌↔◌, refl, Option, none, some, List, [], ◌∷◌, In, inl, eq_iff,
}
use iam_access_control_servi.Outcome.{Outcome, expect, ok}
use iam_access_control_servi.Domain.Models.{Permission, Policy, User}
use iam_access_control_servi.Cache.{Cache, del, del_by_prefix}
use iam_access_control_servi.Authorization.Facts.{Cached}
use iam_access_control_servi.Authorization.Memory.{beside}
use iam_access_control_servi.Hierarchy.{assign_manager}
use iam_access_control_servi.Hierarchy.Memory.{MemoryDb, memory}
use iam_access_control_servi.Hierarchy.Forest.{Managers, reassign}
use iam_access_control_servi.Hierarchy.Nodes.{Represents}
use iam_access_control_servi.Hierarchy.Store.{HierarchyDb}
use iam_access_control_servi.Repository.{Delegate, delete_by_id, find_by_id, update_by_id}
use iam_access_control_servi.Repository.Isolation.{delete_by_id_iff, update_by_id_isolated}
use iam_access_control_servi.Repository.Memory.{table}
use iam_access_control_servi.Services.Entities.{
  Department, Listing, Role, UserEntity, policy_entity, user_entity,
}
use iam_access_control_servi.Services.Roles.{
  IsAssigned, PermissionData, RoleData, assign_role, assign_role-IsAssigned,
}
use iam_access_control_servi.Services.Policies.{CreatePolicyInput, PolicyData, create_policy}
use iam_access_control_servi.Services.Users.{
  IsMember, UserData, assign_user_manager, assign_user_manager_lem,
}
use iam_access_control_servi.Services.Directory.{DepartmentData, create_department}
use iam_access_control_servi.Tests.Samples.{condition, hired, own_docs, user}

abbrev Office : Type 0
Office = List Role × List User

abbrev office : Office
office = (role ∷ [], user "ann" ∷ [])

abbrev roles : Delegate Office Role RoleData (Option Listing)
roles =
    table (λ db. db.0) (λ xs db. (xs, db.1)) (λ xs db. refl) (λ r. r.tenant_id) (λ r. r.id)
      (λ d r. record r { name = d.name }) (λ t d. record role { tenant_id = t; name = d.name })

abbrev users : Delegate Office User UserData (Option Listing)
users =
    table (λ db. db.1) (λ xs db. (db.0, xs)) (λ xs db. refl) (λ u. u.tenant_id) (λ u. u.id)
      (λ d u. u) (λ t d. record (user "new") { tenant_id = t })

abbrev join_rows : String → String → String → Office → Outcome Office
join_rows t u r db = ok db

abbrev no_cache : Cache Cached
no_cache = record { store = []; recorded = [] }

assigned :
    assign_role roles users join_rows "t" "ann" "r" office no_cache ≡ ok (role, office, no_cache)
unfolding assign_role table del
assigned = refl

assign_role-IsAssigned_example :
    IsAssigned roles users join_rows "t" "ann" "r" office no_cache role office no_cache
assign_role-IsAssigned_example =
    assign_role-IsAssigned roles users join_rows "t" "ann" "r" office no_cache role office no_cache
      assigned

found_role : find_by_id roles none "t" "r" none office ≡ some role
unfolding find_by_id table
found_role = refl

abbrev text_of : String → String
text_of s = s

foreign_tenant : text_of "t" ≢ "u"
foreign_tenant e = cc ((eq_iff "t" "u").1 e)

role_of_t : roles.tenant_of role ≢ "u"
unfolding table
role_of_t = foreign_tenant

role_there : In role (roles.rows office)
unfolding table
role_there = inl refl

abbrev renamed : RoleData
renamed = record { name = "x"; description = none }

unchanged : update_by_id roles none "u" "r" renamed office ≡ ok (none, office)
unfolding update_by_id find_by_id table
unchanged = refl

update_by_id_isolated_example : In role (roles.rows office)
update_by_id_isolated_example =
    update_by_id_isolated roles none "u" "r" renamed office office none role role_of_t role_there
      unchanged

abbrev emptied : Office
emptied = ([], user "ann" ∷ [])

removed : delete_by_id roles none "t" "r" office ≡ ok (true, emptied)
unfolding delete_by_id table
removed = refl

delete_by_id_iff_example :
    In role (roles.rows emptied)
    ↔ (In role (roles.rows office) × ¬ ((roles.id_of role ≡ "r") × (roles.tenant_of role ≡ "t")))
delete_by_id_iff_example = delete_by_id_iff roles none "t" "r" office emptied true role removed

abbrev permissions : Delegate (List Permission) Permission PermissionData (Option Listing)
permissions =
    table (λ db. db) (λ xs db. xs) (λ xs db. refl) (λ p. p.tenant_id) (λ p. p.id) (λ d p. p)
      (λ t d. record permission { tenant_id = t })

abbrev grant_rows : String → String → String → List Permission → Outcome (List Permission)
grant_rows t r p db = ok db

abbrev policies : Delegate (List Policy) Policy PolicyData (Option Listing)
policies =
    table (λ db. db) (λ xs db. xs) (λ xs db. refl) (λ p. p.tenant_id) (λ p. p.id) (λ d p. p)
      (λ t d. record own_docs { tenant_id = t; name = d.name; action = d.action })

abbrev policy_input : CreatePolicyInput
policy_input = record {
  name = "own docs";
  description = none;
  effect = own_docs.effect;
  action = "doc.read";
  resource_type = none;
  priority = none;
  enabled = none;
  conditions = condition;
}

created :
    create_policy policies "t" policy_input [] no_cache
    ≡ ok (policy_entity own_docs, own_docs ∷ [], no_cache)
unfolding create_policy table del_by_prefix
created = refl

abbrev Company : Type 0
Company = MemoryDb × List User

abbrev company : Company
company = (hired, user "ann" ∷ user "bob" ∷ [])

abbrev staff : Delegate Company User UserData (Option Listing)
staff =
    table (λ db. db.1) (λ xs db. (db.0, xs)) (λ xs db. refl) (λ u. u.tenant_id) (λ u. u.id)
      (λ d u. u) (λ t d. record (user "new") { tenant_id = t })

abbrev chart : HierarchyDb Company
chart = beside memory

abbrev nobody : Managers
nobody d = none

Represents-company : Represents chart "t" company nobody
unfolding beside memory
Represents-company = record {
  sound = λ a d k h. absurd h;
  complete = λ a d k h. absurd h;
  edge_nodes = λ d m e. cc;
}

abbrev hash : String → String
hash s = s

abbrev db_of : Outcome UserEntity × Company → Company
db_of r = r.1

abbrev managed : Outcome UserEntity × Company
managed = assign_user_manager staff chart hash "t" "bob" "ann" company

managed_eq : managed ≡ (ok (user_entity (user "bob")), db_of managed)
unfolding assign_user_manager table beside memory assign_manager
managed_eq = refl

assign_user_manager_lem_example :
    IsMember staff chart hash "t" "bob" company
    × IsMember staff chart hash "t" "ann" company
    × Represents chart "t" (db_of managed) (reassign "bob" "ann" nobody)
assign_user_manager_lem_example =
    assign_user_manager_lem staff chart hash "t" "bob" "ann" company (db_of managed)
      (user_entity (user "bob")) nobody Represents-company managed_eq

abbrev department : String → Option String → Department
department id parent = record {
  id = id;
  tenant_id = "t";
  name = "D";
  parent_department_id = parent;
  created_at = 0;
  updated_at = 0;
}

abbrev departments : Delegate (List Department) Department DepartmentData (Option Listing)
departments =
    table (λ db. db) (λ xs db. xs) (λ xs db. refl) (λ d. d.tenant_id) (λ d. d.id) (λ data_ d. d)
      (λ t data_. department "new" data_.parent_department_id)

abbrev team : DepartmentData
team = record { name = "D"; parent_department_id = some "hr" }

team_created :
    create_department departments "t" team (department "hr" none ∷ [])
    ≡ ok (department "new" (some "hr"), department "new" (some "hr") ∷ department "hr" none ∷ [])
unfolding create_department table expect
team_created = refl
