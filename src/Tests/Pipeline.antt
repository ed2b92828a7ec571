-- ===== src/Tests/Pipeline.antt =====
-- The pipeline of the engine over the directory in memory: tests, and uses of its theorems.
use iam_access_control_servi.Requests.Pagination.{ℤ}
use iam_access_control_servi.Authorization.Logs.{audit_table, log_rows}
use iam_access_control_servi.Authorization.Trail.{IsShown, all_logs, run_pipeline-all_logs}
use iam_access_control_servi.Prelude.{length, ◌≤◌, arith, some}
use iam_access_control_servi.Prelude.{String, ◌≡◌, refl, true, false, none, [], ◌∷◌}
use iam_access_control_servi.Outcome.{Outcome, ok, throw, foreign_key}
use iam_access_control_servi.Domain.Enums.{AccessDecision}
use iam_access_control_servi.Domain.Contracts.{AuthorizationDecision}
use iam_access_control_servi.Authorization.{
  World, run_pipeline, validate_tenant, validate_subject, validate_status, validate_resource,
  decide, finalize, evaluation_context, policy_context, subject_facts,
}
use iam_access_control_servi.Authorization.Facts.{
  resolve_resource, find_applicable, permission_names_for_user, load_policies, collect_names,
  resource_facts, load_permission_names,
}
use iam_access_control_servi.Evaluators.PolicyEngine.{
  evaluate, combine, tally_policies, count_policy, matches,
}
use iam_access_control_servi.Evaluators.Abac.{
  abac_evaluate, departments_clause, employment_clause, locations_clause, max_sensitivity_clause,
  min_clearance_clause,
}
use iam_access_control_servi.Evaluators.Rbac.{granted, rbac_evaluate}
use iam_access_control_servi.Evaluators.Rebac.{rebac_resolve, satisfies}
use iam_access_control_servi.Clearance.{meets_clearance}
use iam_access_control_servi.Cache.{wrap, get, map_get, map_set, set}
use iam_access_control_servi.Cache.Keys.{permissions_key, policies_key}
use iam_access_control_servi.Hierarchy.{get_relationship}
use iam_access_control_servi.Authorization.Audit.{IsLogged, run_pipeline_logs}
use iam_access_control_servi.Authorization.Allow.{IsPermitted, run_pipeline_allow}
use iam_access_control_servi.Authorization.Decisions.{run_pipeline_unknown_tenant}
use iam_access_control_servi.Authorization.Memory.{
  Directory, create_log, find, hierarchy_db, insert_audit, prisma_db, tenant_by_id,
}
use iam_access_control_servi.Tests.Samples.{directory, request_of, run_on, tenant, world_of}

abbrev known : Directory
known = directory (tenant ∷ [])

abbrev unknown : Directory
unknown = directory []

-- What a user's request to read the memo of ann gives.
abbrev result : String → Directory → Outcome AuthorizationDecision × World Directory
result id db = run_pipeline prisma_db hierarchy_db (request_of id) (run_on db) (world_of db)

abbrev refused : AuthorizationDecision
refused = record {
  decision_id = "";
  allowed = false;
  effect = AccessDecision.deny;
  reason = "";
  matched_policies = [];
  evaluation_trace = [];
}

abbrev decision_of : Outcome AuthorizationDecision → AuthorizationDecision
decision_of (ok d) = d
decision_of (throw e) = refused

-- An outcome whose decision allows is no exception.
decision_of-eq :
    (o : Outcome AuthorizationDecision) → (decision_of o).allowed ≡ true → o ≡ ok (decision_of o)
decision_of-eq (ok d) h = refl
decision_of-eq (throw e) h = cc

abbrev decision : AuthorizationDecision
decision = decision_of (result "ann" known).0

owner_allowed : decision.allowed ≡ true
unfolding run_pipeline prisma_db hierarchy_db validate_tenant validate_subject validate_status
    validate_resource resolve_resource decide finalize evaluate combine tally_policies count_policy
    find_applicable wrap permission_names_for_user permissions_key policies_key load_policies
    collect_names resource_facts load_permission_names create_log find insert_audit tenant_by_id
    evaluation_context policy_context subject_facts get map_get map_set set meets_clearance
    abac_evaluate departments_clause employment_clause locations_clause max_sensitivity_clause
    min_clearance_clause matches granted rbac_evaluate rebac_resolve satisfies get_relationship
owner_allowed = refl

owner_returned : (result "ann" known).0 ≡ ok decision
owner_returned = decision_of-eq (result "ann" known).0 owner_allowed

run_pipeline_allow_example :
    IsPermitted prisma_db hierarchy_db (request_of "ann") (run_on known) (world_of known)
run_pipeline_allow_example =
    run_pipeline_allow prisma_db hierarchy_db (request_of "ann") (run_on known) (world_of known)
      decision owner_returned owner_allowed

run_pipeline_logs_example :
    IsLogged prisma_db hierarchy_db
      (request_of "ann")
      (run_on known)
      (prisma_db.audit_logs known)
      decision
      (result "ann" known).1
run_pipeline_logs_example =
    run_pipeline_logs prisma_db hierarchy_db (request_of "ann") (run_on known) (world_of known)
      decision owner_returned

no_tenants : prisma_db.find_tenant "t" unknown ≡ none
unfolding prisma_db tenant_by_id find
no_tenants = refl

run_pipeline_unknown_tenant_example : (result "ann" unknown).0 ≡ throw foreign_key
run_pipeline_unknown_tenant_example =
    run_pipeline_unknown_tenant prisma_db hierarchy_db (request_of "ann") (run_on unknown)
      (world_of unknown) no_tenants no_tenants

logged_once : length (log_rows (result "ann" known).1.db) ≡ 1
unfolding run_pipeline prisma_db hierarchy_db validate_tenant validate_subject validate_status
    validate_resource resolve_resource decide finalize evaluate combine tally_policies count_policy
    find_applicable wrap permission_names_for_user permissions_key policies_key load_policies
    collect_names resource_facts load_permission_names create_log find insert_audit tenant_by_id
    evaluation_context policy_context subject_facts get map_get map_set set meets_clearance
    abac_evaluate departments_clause employment_clause locations_clause max_sensitivity_clause
    min_clearance_clause matches granted rbac_evaluate rebac_resolve satisfies get_relationship
logged_once = refl

room : length (audit_table.rows (result "ann" known).1.db) ≤ 50
unfolding audit_table
room = omega (arith, logged_once)

run_pipeline-all_logs_example :
    IsShown decision
      (all_logs prisma_db audit_table "t" (some (ℤ.pos 50)) (some "ann") (result "ann" known).1.db)
run_pipeline-all_logs_example =
    run_pipeline-all_logs prisma_db audit_table hierarchy_db (request_of "ann") (run_on known)
      (world_of known) decision 50 owner_returned room
