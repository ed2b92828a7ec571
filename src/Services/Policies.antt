-- ===== src/Services/Policies.antt =====
-- src/policies/policies.service.ts: the creation of policies, and its invalidation.
use text.Mathlib.Text.{starts_with}
use iam_access_control_servi.Prelude.{
  ℕ, String, ◌≡◌, subst, ap, ◌∙◌, Bool, true, Option, none, some, List, map, if◌then◌else◌,
}
use iam_access_control_servi.Outcome.{Outcome, ok, ◌>>=◌, >>=-eq-ok, ok-inj}
use iam_access_control_servi.Domain.Enums.{PolicyEffect}
use iam_access_control_servi.Domain.Contracts.{PolicyCondition}
use iam_access_control_servi.Domain.Models.{Policy}
use iam_access_control_servi.Cache.{Cache, del_by_prefix}
use iam_access_control_servi.Cache.Keys.{policies_tenant_prefix}
use iam_access_control_servi.Cache.Laws.{visible, visible-del_by_prefix}
use iam_access_control_servi.Authorization.Facts.{Cached}
use iam_access_control_servi.Repository.{Delegate, create, find_many}
use iam_access_control_servi.Requests.Pagination.{PaginationArgs}
use iam_access_control_servi.Services.Entities.{Listing, PolicyEntity, policy_entity}
use iam_access_control_servi.Services.Roles.{listing}

pub record CreatePolicyInput : Type 0 where
  pub name : String
  pub description : Option String
  pub effect : PolicyEffect
  pub action : String
  pub resource_type : Option String
  pub priority : Option ℕ
  pub enabled : Option Bool
  pub conditions : PolicyCondition

-- The `data` of the insert.
pub record PolicyData : Type 0 where
  pub name : String
  pub description : Option String
  pub effect : PolicyEffect
  pub action : String
  pub resource_type : String
  pub priority : ℕ
  pub enabled : Bool
  pub conditions : PolicyCondition

abbrev value_or : {A : Type 0} → Option A → A → A
value_or none fallback = fallback
value_or (some a) fallback = a

-- The defaults of `PoliciesService.create`; a round trip through JSON drops only missing fields.
unfoldable pub policy_data : CreatePolicyInput → PolicyData
policy_data input = record {
  name = input.name;
  description = input.description;
  effect = input.effect;
  action = input.action;
  resource_type = value_or input.resource_type "*";
  priority = value_or input.priority 100;
  enabled = value_or input.enabled true;
  conditions = input.conditions;
}

module _ {Db : Type 0} (policies : Delegate Db Policy PolicyData (Option Listing)) where
  -- `PoliciesService.create`
  unfoldable pub create_policy :
      String → CreatePolicyInput → Db → Cache Cached → Outcome (PolicyEntity × Db × Cache Cached)
  unfolding create policy_data
  create_policy tenant_id input db cache = do
    created ← create policies none tenant_id (policy_data input) db
    ok (policy_entity created.0, created.1, del_by_prefix (policies_tenant_prefix tenant_id) cache)

  unfoldable pub all_policies : String → Option PaginationArgs → Db → List PolicyEntity
  unfolding find_many
  all_policies tenant_id pagination db =
      map policy_entity
        (find_many policies none tenant_id (λ r. true) (listing pagination "priority") db)

  -- After a policy is created no reader of the cache sees a key with the tenant's prefix of
  -- policies, and all else as before; the insert was given the tenant.
  pub create_policy_invalidates :
      (tenant_id : String) (input : CreatePolicyInput) (db : Db) (cache : Cache Cached)
      (entity : PolicyEntity) (db' : Db) (cache' : Cache Cached)
      → create_policy tenant_id input db cache ≡ ok (entity, db', cache')
      → ((row : Policy) × (policies.create tenant_id (policy_data input) db ≡ ok (row, db')))
        × ((now : ℕ) (key : String)
            → visible now cache' key ≡ (
                if starts_with key (policies_tenant_prefix tenant_id)
                then none
                else visible now cache key))
  unfolding create_policy
  create_policy_invalidates t input db cache entity db' cache' h =
      let ((row, db_1), e, rest) = >>=-eq-ok (policies.create t (policy_data input) db) _ h in
      let same = ok-inj rest in
      (
        (
          row,
          e
              ∙ ap (λ (x : Db). ok (row, x))
                  (ap (λ (p : PolicyEntity × Db × Cache Cached). p.1) same),
        ),
        λ now key.
            subst
              (λ c. visible now c key ≡ (
                if starts_with key (policies_tenant_prefix t) then none else visible now cache key))
              (ap (λ (p : PolicyEntity × Db × Cache Cached). p.2) same)
              (visible-del_by_prefix now (policies_tenant_prefix t) key cache),
      )
