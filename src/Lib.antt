-- ===== src/Lib.antt =====
-- A verification library of the IAM access-control service: the authorization engine, the
-- organization hierarchy, the cache, authentication, the guards and the services behind the API.
--
-- The program. A GraphQL request passes the authentication guard, which attaches a principal, and
-- the guards on permissions, roles and the tenant. A resolver hands the tenant of the principal
-- and the input to a service. The services read and write tables through a repository that adds
-- the tenant to every query, keep the closure table of the management hierarchy, and drop entries
-- of the cache when permissions or policies change. `AuthorizationService.checkAccess` decides an
-- access: it validates the tenant, the subject and the resource, gathers the subject's permission
-- names and the applicable policies through the cache and the relationship to the resource's
-- owner through the hierarchy, lets the policy engine combine them, and writes the decision to the
-- audit log.
--
-- The files, with the sources they model (paths from the repository's root).
--   Prelude: shared names, tests, lists and texts. Outcome: results of calls that may throw.
--   Domain: enums and rows of prisma/schema.prisma and the records of
--     src/authorization/contracts and src/policies/contracts.
--   Clearance: src/common/utils/clearance.util.ts.
--   Evaluators: Rbac, Abac, Rebac and PolicyEngine for src/authorization/evaluators/*.ts; below
--     them the laws, with Abac/Laws, PolicyEngine/Matching and PolicyEngine/DenyOverride.
--   Cache: src/common/cache/cache.service.ts (`get`, `set`, `del`, `delByPrefix`, `wrap`) and
--     Cache/Keys for cache.keys.ts; Laws and Coherence for what readers see, Steps for reads and
--     writes one after the other, Staleness for loads and writes that interleave.
--   Hierarchy: src/hierarchy/hierarchy.service.ts (`addNode`, `assignManager`, `isDirectManager`,
--     `isAncestor`, `getRelationship`), and Hierarchy/Listings for `getAncestors`,
--     `getDescendants` and the query `organizationHierarchy`. Hierarchy/Store is the interface of
--     the database, Hierarchy/Memory a database that fills it. Forest and Nodes hold the abstract view, a manager
--     for each user, which Attach, Assign, Errors and Relations relate to the code.
--   Authorization: `runPipeline`, `deny` and `finalize` of
--     src/authorization/authorization.service.ts. Database is the interface of the tables, Memory
--     fills it; Facts has resource.repository.ts and the cached reads of
--     src/permissions/permissions.repository.ts and src/policies/policies.repository.ts; Trail
--     and Logs the listing of src/audit.
--   Access: ApiKeys for src/service-identities/service-identities.service.ts, Jwt and Guards for
--     src/common/guards/*.ts, Login for src/auth/auth.service.ts; Authorities says what
--     `resolveAuthorities` collects, and Session fits the tokens of a login to the guard and the
--     refresh.
--   Repository: src/common/repositories/base-tenant.repository.ts.
--   Requests: src/common/dto/pagination.args.ts and src/common/filters/global-exception.filter.ts.
--   Services: the services of src/users, src/roles, src/permissions, src/policies,
--     src/departments, src/tenants and src/service-identities.
--   Api: Calls has the operations of all resolvers, with their arguments and the marks of their
--     decorators; Resolvers hands them to the services (`UsersResolver` is `users_resolver`, and so
--     on); Admission is the way of a request through the guards, Effects and Changes what an
--     answered request rests on and did. Backend is what the resolvers reach, and Memory fills it.
--   Seed: prisma/seed.ts (`buildClosureRows`, `seedTenantA`, `seedTenantB`) and
--     prisma/fixtures/tenant-policies.fixture.ts. Closure has the loop, Rows and Represented what
--     its rows say; Policies has the fixture, TenantA and TenantB the data.
--   Tests: data, runs and uses of the theorems at concrete inputs.
--
-- State. The database is a type that the interfaces speak of: Prisma, bcrypt, the JWT library and
-- JSON parsing are parameters with their documented behaviour. The cache, the list of recorded
-- metrics and the audit log are passed explicitly. An awaited read of the pipeline may see its own
-- state of the database, given by `Run.seen`; the clock and the decision id are given by `Run`. A
-- call that throws is an `Outcome`. The calls of the JWT library and of the database in `login` and
-- `refresh` are those of one moment, so that a refresh has other tokens than the login before it.
--
-- Bounds and fuel. The digits of a number have one unit of fuel more than the number. The loop of
-- the seed's closure rows has one more than users: each round but the last sees another user.
-- Times are natural numbers, and so are priorities, which no decision reads.
--
-- Not modelled. A read of the database that throws, as where the connection is lost: it ends the
-- call with that error, and the runs here are those whose reads return. Writes may throw. The
-- framework's wiring, the decorators that validate inputs, health checks, logging, tracing and the
-- text of metrics are input and output. Nor are the listing of all tenants, which no operation
-- uses, and the order of the seed's inserts with the reset before them.
mod Prelude
pub mod Domain
pub mod Clearance
pub mod Evaluators
pub mod Cache
pub mod Outcome
pub mod Hierarchy
pub mod Authorization
pub mod Access
pub mod Api
pub mod Requests
pub mod Repository
pub mod Services
pub mod Seed
mod Tests
