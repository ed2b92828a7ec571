-- ===== src/Tests/Scenarios.antt =====
-- The acceptance scenarios of test/authorization.e2e.spec.ts on the seeded tenants, and the
-- theorems on the seed at its tenants.
use iam_access_control_servi.Authorization.Facts.{resolve_employee}
use iam_access_control_servi.Hierarchy.{direct_manager_id}
use iam_access_control_servi.Authorization.{deny}
use iam_access_control_servi.Seed.Represented.{
  ids_of, is_tree, is_tree-HasManagers, is_tree-IsRanked,
}
use iam_access_control_servi.Tests.Samples.{context}
use iam_access_control_servi.Seed.Policies.{
  MayView, TenantPolicyFixtureParams, on_employee, salary_iff,
}
use iam_access_control_servi.Domain.Enums.{AccessDecision}
use iam_access_control_servi.Hierarchy.Memory.Table.{add_rows}
use iam_access_control_servi.Access.ApiKeys.{validate_api_key, key_parts, check_parts, check_secret}
use iam_access_control_servi.Access.Texts.{split_first}
use iam_access_control_servi.Seed.TenantA.{identity_a}
use iam_access_control_servi.Prelude.{none}
use iam_access_control_servi.Prelude.{◌+◌, ◌⊎◌}
use iam_access_control_servi.Prelude.{subst, length, if◌then◌else◌, str_eq}
use iam_access_control_servi.Prelude.{
  ℕ, String, ◌≡◌, ◌↔◌, refl, sym, Bool, true, false, some, List, [], ◌∷◌, ◌++◌, map, In, inl, inr,
}
use iam_access_control_servi.Outcome.{Outcome, ok, throw, ◌>>=◌}
use iam_access_control_servi.Domain.Contracts.{AuthorizationDecision, AuthorizationRequest}
use iam_access_control_servi.Domain.Models.{ClosureRow}
use iam_access_control_servi.Hierarchy.Memory.{MemoryDb, create_rows, memory}
use iam_access_control_servi.Hierarchy.Nodes.{Represents}
use iam_access_control_servi.Hierarchy.Forest.{up}
use iam_access_control_servi.Hierarchy.{closure_row}
use iam_access_control_servi.Authorization.{World, run_pipeline}
use iam_access_control_servi.Authorization.Memory.{Directory, hierarchy_db, prisma_db}
use iam_access_control_servi.Seed.Closure.{
  SeedNode, all_rows, build_closure_rows, build_closure_rows_total, manager_of,
}
use iam_access_control_servi.Seed.Rows.{IsRanked, build_closure_rows_iff}
use iam_access_control_servi.Seed.Represented.{IsSeeded, build_closure_rows-Represents}
use iam_access_control_servi.Seed.Tenants.{
  joined_roles, role_permission_rows, seed_node, seed_user_row, user_role_rows,
}
use iam_access_control_servi.Seed.TenantA.{
  grants_a, permissions_a, policies_a, resources_a, roles_a, tenant_a, users_a,
}
use iam_access_control_servi.Seed.TenantB.{
  permissions_b, policies_b, resources_b, role_permissions_b, roles_b, tenant_b, user_roles_b,
  users_b,
}
use iam_access_control_servi.Authorization.{
  validate_tenant, validate_subject, validate_status, validate_resource, decide, finalize,
  evaluation_context, policy_context, subject_facts,
}
use iam_access_control_servi.Authorization.Facts.{
  resolve_resource, find_applicable, permission_names_for_user, load_policies, collect_names,
  resource_facts, load_permission_names,
}
use iam_access_control_servi.Evaluators.PolicyEngine.{
  evaluate, combine, tally_policies, count_policy, matches,
}
use iam_access_control_servi.Evaluators.Abac.{
  abac_evaluate, departments_clause, employment_clause, locations_clause, max_sensitivity_clause,
  min_clearance_clause,
}
use iam_access_control_servi.Evaluators.Rbac.{granted, rbac_evaluate}
use iam_access_control_servi.Evaluators.Rebac.{rebac_resolve, satisfies}
use iam_access_control_servi.Clearance.{meets_clearance}
use iam_access_control_servi.Cache.{wrap, get, map_get, map_set, set}
use iam_access_control_servi.Cache.Keys.{permissions_key, policies_key}
use iam_access_control_servi.Hierarchy.{get_relationship}
use iam_access_control_servi.Authorization.Memory.{create_log, find, insert_audit, tenant_by_id}
use iam_access_control_servi.Tests.Samples.{request_of, run_on, world_of}

abbrev nodes_a : List SeedNode
nodes_a = map seed_node users_a

abbrev nodes_b : List SeedNode
nodes_b = map seed_node users_b

-- The users of both tenants, without closure rows.
abbrev staff : MemoryDb
staff = record {
  rows = [];
  users = map (seed_user_row "tenant-a" "#") users_a ++ map (seed_user_row "tenant-b" "#") users_b;
  tenants = "tenant-a" ∷ "tenant-b" ∷ [];
  unique = λ r s at. absurd at;
  ends = λ r at. absurd at;
}

abbrev charts : Outcome MemoryDb
charts = do
  first ← create_rows (build_closure_rows "tenant-a" nodes_a) staff
  create_rows (build_closure_rows "tenant-b" nodes_b) first

abbrev or_staff : Outcome MemoryDb → MemoryDb
or_staff (ok db) = db
or_staff (throw e) = staff

abbrev demo : Directory
demo = (
  or_staff charts,
  record {
    tenants = tenant_a ∷ tenant_b ∷ [];
    user_roles =
        joined_roles roles_a permissions_a
          (role_permission_rows "tenant-a" roles_a permissions_a grants_a)
          (user_role_rows "tenant-a" roles_a permissions_a users_a)
        ++ joined_roles roles_b permissions_b role_permissions_b user_roles_b;
    resources = resources_a ++ resources_b;
    policies = policies_a ++ policies_b;
    audit_logs = [];
  },
)

abbrev ask : String → String → String → String → AuthorizationRequest
ask subject action resource_type resource_id = record (request_of subject) {
  tenant_id = "tenant-a";
  action = action;
  resource_type = resource_type;
  resource_id = resource_id;
}

abbrev allows : Outcome AuthorizationDecision × World Directory → Bool
allows (ok d, w) = d.allowed
allows (throw e, w) = false

abbrev check : String → String → String → String → Bool
check subject action resource_type resource_id = allows (
    run_pipeline prisma_db hierarchy_db (ask subject action resource_type resource_id) (run_on demo)
      (world_of demo))

abbrev scenarios : List Bool
scenarios =
    check "manager-a" "employee.performance.view" "employee" "employee-a"
    ∷ check "manager-a" "employee.performance.view" "employee" "employee-b"
    ∷ check "director-a" "employee.performance.view" "employee" "employee-a"
    ∷ check "ceo-a" "employee.performance.view" "employee" "employee-b"
    ∷ check "ceo-a" "employee.salary.view" "employee" "employee-b"
    ∷ check "ceo-a" "employee.performance.view" "employee" "employee-b1"
    ∷ check "hr-admin-a" "payroll.view" "payroll" "payroll-june"
    ∷ check "employee-a" "payroll.view" "payroll" "payroll-june"
    ∷ check "finance-admin-a" "expense.approve" "expense" "expense-1"
    ∷ check "employee-a" "employee.salary.view" "employee" "employee-b"
    ∷ []

scenarios_test :
    scenarios ≡ true ∷ false ∷ true ∷ true ∷ true ∷ false ∷ true ∷ false ∷ true ∷ false ∷ []
unfolding run_pipeline prisma_db hierarchy_db validate_tenant validate_subject validate_status
    validate_resource resolve_resource decide finalize evaluate combine tally_policies count_policy
    find_applicable wrap permission_names_for_user permissions_key policies_key load_policies
    collect_names resource_facts load_permission_names create_log find insert_audit tenant_by_id
    evaluation_context policy_context subject_facts get map_get map_set set meets_clearance
    abac_evaluate departments_clause employment_clause locations_clause max_sensitivity_clause
    min_clearance_clause matches granted rbac_evaluate rebac_resolve satisfies get_relationship
    resolve_employee direct_manager_id create_rows build_closure_rows policies_a joined_roles
    role_permission_rows user_role_rows role_permissions_b user_roles_b seed_user_row deny
scenarios_test = refl

-- Managers stand above their reports.
abbrev rank : String → ℕ
rank x =
    if str_eq x "ceo-a"
    then 0
    else if str_eq x "director-a"
    then 1
    else if str_eq x "manager-a"
    then 2
    else if str_eq x "manager-b"
    then 2
    else 3

tree_a : is_tree rank (ids_of nodes_a) nodes_a ≡ true
unfolding is_tree
tree_a = refl

IsRanked-a : IsRanked rank (manager_of nodes_a)
IsRanked-a = is_tree-IsRanked rank nodes_a tree_a

abbrev skip_level : ClosureRow
skip_level = closure_row "tenant-a" "ceo-a" "employee-a" 3

build_closure_rows_iff_example : In skip_level (build_closure_rows "tenant-a" nodes_a) ↔ (
    (x : SeedNode) × In x nodes_a
    × (skip_level ≡ closure_row "tenant-a" "ceo-a" x.id 3)
    × (up (manager_of nodes_a) 3 x.id ≡ some "ceo-a"))
build_closure_rows_iff_example =
    build_closure_rows_iff "tenant-a" nodes_a rank IsRanked-a skip_level

-- Two users who are each other's managers.
abbrev circle : List SeedNode
circle =
    record { id = "x"; manager_id = some "y" } ∷ record { id = "y"; manager_id = some "x" } ∷ []

build_closure_rows_total_example :
    build_closure_rows "t" circle ≡ all_rows "t" circle (5 + (length circle + 1)) circle
build_closure_rows_total_example = build_closure_rows_total "t" circle 5

abbrev chart_a : MemoryDb
chart_a = or_staff (create_rows (build_closure_rows "tenant-a" nodes_a) staff)

-- The table in memory has the rows in the reverse order.
abbrev turned : List ClosureRow → List ClosureRow → List ClosureRow
turned [] acc = acc
turned (r ∷ rows) acc = turned rows (r ∷ acc)

In-turned :
    (x : ClosureRow) (rows acc : List ClosureRow) → In x (turned rows acc) ↔ (In x rows ⊎ In x acc)
In-turned x [] acc = (λ h. inr h, λ h. elim h [ inl nowhere ↦ absurd nowhere | inr old ↦ old ])
In-turned x (r ∷ rows) acc =
    let (to, from) = In-turned x rows (r ∷ acc) in
    (
      λ h. elim (to h) [
        | inl there ↦ inl (inr there)
        | inr (inl here) ↦ inl (inl here)
        | inr (inr old) ↦ inr old
      ],
      λ h. elim h [
        | inl (inl here) ↦ from (inr (inl here))
        | inl (inr there) ↦ from (inl there)
        | inr old ↦ from (inr (inr old))
      ],
    )

chart_a_rows : chart_a.rows ≡ turned (build_closure_rows "tenant-a" nodes_a) []
unfolding create_rows build_closure_rows seed_user_row add_rows
chart_a_rows = refl

chart_a_iff : (x : ClosureRow) → In x chart_a.rows ↔ In x (build_closure_rows "tenant-a" nodes_a)
chart_a_iff x =
    let (to, from) = In-turned x (build_closure_rows "tenant-a" nodes_a) [] in
    (
      λ h. elim (to (subst (In x) chart_a_rows h)) [ inl at ↦ at | inr nowhere ↦ absurd nowhere ],
      λ h. subst (In x) (sym chart_a_rows) (from (inl h)),
    )

IsSeeded-a : IsSeeded memory "tenant-a" nodes_a chart_a
unfolding memory
IsSeeded-a = record {
  only = λ a d k. (chart_a_iff (closure_row "tenant-a" a d k)).0;
  all = λ r. (chart_a_iff r).1;
}

build_closure_rows-Represents_example : Represents memory "tenant-a" chart_a (manager_of nodes_a)
build_closure_rows-Represents_example =
    build_closure_rows-Represents memory "tenant-a" nodes_a rank chart_a IsRanked-a
      (is_tree-HasManagers rank nodes_a tree_a) IsSeeded-a

abbrev fixture : TenantPolicyFixtureParams
fixture = record {
  tenant_id = "tenant-a";
  hr_department_id = "dept-hr-a";
  finance_department_id = "dept-fin-a";
}

salary_iff_example :
    ((evaluate (on_employee fixture "employee.salary.view") context).0.effect
      ≡ AccessDecision.allow)
    ↔ MayView context
salary_iff_example = salary_iff fixture context

-- The key of the demo service, as the seed prints it.
demo_key_test :
    validate_api_key
      (λ id. if str_eq id "svc-expense-a" then some (identity_a (λ s. s)) else none)
      str_eq
      "svc-expense-a.demo-secret-please-rotate"
    ≡ some (record { id = "svc-expense-a"; tenant_id = "tenant-a"; name = "expense-service" })
unfolding validate_api_key key_parts check_parts check_secret split_first
demo_key_test = refl
