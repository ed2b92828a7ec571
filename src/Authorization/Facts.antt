-- ===== src/Authorization/Facts.antt =====
-- The facts that the engine gathers: src/authorization/resource.repository.ts, and the cached
-- reads of src/permissions/permissions.repository.ts and src/policies/policies.repository.ts.
use iam_access_control_servi.Domain.Contracts.{Members}
use iam_access_control_servi.Prelude.{
  ℕ, String, Bool, ◌&&◌, ◌||◌, Option, none, some, List, [], ◌∷◌, ◌++◌, str_eq, includes,
  text_instance, if◌then◌else◌,
}
use iam_access_control_servi.Domain.Enums.{ClearanceLevel}
use iam_access_control_servi.Domain.Contracts.{Attributes, ResourceFacts}
use iam_access_control_servi.Domain.Models.{User, UserRole, Permission, Resource, Policy}
use iam_access_control_servi.Cache.{Cache, wrap}
use iam_access_control_servi.Cache.Keys.{
  permissions_key, policies_key, permissions_ttl_ms, policies_ttl_ms,
}
use iam_access_control_servi.Authorization.Database.{Prisma, where_member}

-- What the one cache of the service holds: the values of its two uses.
pub data Cached : Type 0 where
  names : List String → Cached
  policies : List Policy → Cached

-- `entry.value as T`. The two uses have keys with different first letters, so that neither reads
-- an entry of the other.
abbrev pub as_names : Cached → List String
as_names (names xs) = xs
as_names (policies ps) = []

abbrev pub as_policies : Cached → List Policy
as_policies (names xs) = []
as_policies (policies ps) = ps

-- `{ ...base, [key]: value }`
set_attribute : String → String → Members → Members
set_attribute key value [] = (key, value) ∷ []
set_attribute key value ((k, v) ∷ rest) =
    let others = set_attribute key value rest in
    if str_eq k key then (key, value) ∷ rest else (k, v) ∷ others

-- `{ ...base, ...extra }`
unfoldable pub spread : Members → Members → Members
unfolding set_attribute
spread base [] = base
spread base ((key, value) ∷ extra) = spread (set_attribute key value base) extra

-- What a spread of the value gives.
abbrev pub members : Attributes → Members
members (Attributes.object ms) = ms
members Attributes.null = []
members (Attributes.other text ms) = ms

-- `= {}` for a parameter
abbrev pub or_empty : Option Attributes → Attributes
or_empty none = Attributes.object []
or_empty (some attributes) = attributes

abbrev pub where_resource : String → String → String → Resource → Bool
where_resource tenant_id type_name external_id r =
    str_eq r.tenant_id tenant_id && str_eq r.type_name type_name && str_eq r.external_id external_id

unfoldable pub resource_facts : String → String → Attributes → Resource → ResourceFacts
resource_facts type_name external_id extra r = record {
  resource_type = type_name;
  resource_id = external_id;
  owner_user_id = r.owner_user_id;
  department_id = r.department_id;
  sensitivity = r.sensitivity;
  attributes = Attributes.object (spread (members (or_empty r.attributes)) (members extra));
}

unfoldable pub employee_facts : String → String → Attributes → User → ResourceFacts
employee_facts type_name external_id extra u = record {
  resource_type = type_name;
  resource_id = external_id;
  owner_user_id = some u.id;
  department_id = u.department_id;
  sensitivity = ClearanceLevel.confidential;
  attributes = extra;
}

-- `names.add(name)` on a `Set`, which keeps the order of insertion.
unfoldable pub add_name : String → List String → List String
add_name name ns = if includes ns name then ns else ns ++ name ∷ []

unfoldable pub add_permissions : List Permission → List String → List String
unfolding add_name
add_permissions [] ns = ns
add_permissions (p ∷ ps) ns = add_permissions ps (add_name p.name ns)

unfoldable pub collect_names : List UserRole → List String → List String
unfolding add_permissions
collect_names [] ns = ns
collect_names (row ∷ rows) ns = collect_names rows (add_permissions row.role_permissions ns)

abbrev pub where_grant : String → String → UserRole → Bool
where_grant tenant_id user_id r = str_eq r.tenant_id tenant_id && str_eq r.user_id user_id

-- `{ tenantId, enabled: true, action: { in: [action, '*'] }, resourceType: { in: [..., '*'] } }`
abbrev pub where_applicable : String → String → String → Policy → Bool
where_applicable tenant_id action resource_type p =
    str_eq p.tenant_id tenant_id
    && p.enabled
    && (str_eq p.action action || str_eq p.action "*")
    && (str_eq p.resource_type resource_type || str_eq p.resource_type "*")

module _ {Db : Type 0} (prisma : Prisma Db) where
  -- The fallback of `ResourceRepository.resolve` for employees.
  unfoldable pub resolve_employee :
      String → String → String → Attributes → Db → Option ResourceFacts
  unfolding employee_facts
  resolve_employee tenant_id type_name external_id extra db =
      if str_eq type_name "employee"
      then elim (prisma.find_user (where_member tenant_id external_id) db) [
        | none ↦ none
        | some u ↦ some (employee_facts type_name external_id extra u)
      ]
      else none

  -- `ResourceRepository.resolve`
  unfoldable pub resolve_resource :
      String → String → String → Option Attributes → Db → Option ResourceFacts
  unfolding resource_facts resolve_employee
  resolve_resource tenant_id type_name external_id extra db =
      elim (prisma.find_resource (where_resource tenant_id type_name external_id) db) [
        | some r ↦ some (resource_facts type_name external_id (or_empty extra) r)
        | none ↦ resolve_employee tenant_id type_name external_id (or_empty extra) db
      ]

  -- The loader of `permissionNamesForUser`.
  unfoldable pub load_permission_names : String → String → Db → List String
  unfolding collect_names
  load_permission_names tenant_id user_id db =
      collect_names (prisma.find_user_roles (where_grant tenant_id user_id) db) []

  unfoldable pub permission_names_for_user :
      ℕ → ℕ → Db → String → String → Cache Cached → List String × Cache Cached
  permission_names_for_user now later db tenant_id user_id cache =
      let (value, cache') =
        wrap now later (permissions_key tenant_id user_id) permissions_ttl_ms
          (names (load_permission_names tenant_id user_id db)) "permissions" cache in
      (as_names value, cache')

  -- The loader of `findApplicable`.
  unfoldable pub load_policies : String → String → String → Db → List Policy
  load_policies tenant_id action resource_type db =
      prisma.find_policies (where_applicable tenant_id action resource_type) db

  unfoldable pub find_applicable :
      ℕ → ℕ → Db → String → String → String → Cache Cached → List Policy × Cache Cached
  find_applicable now later db tenant_id action resource_type cache =
      let (value, cache') =
        wrap now later (policies_key tenant_id action resource_type) policies_ttl_ms
          (policies (load_policies tenant_id action resource_type db)) "policies" cache in
      (as_policies value, cache')
