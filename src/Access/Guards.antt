-- ===== src/Access/Guards.antt =====
-- src/common/guards: the guards on permissions, on roles and on the tenant.
use iam_access_control_servi.Prelude.{
  String, ◌≡◌, ◌↔◌, ◌⊎◌, inl, inr, refl, Bool, true, false, not, ◌||◌, ◌&&◌, Option, none, some,
  List, [], ◌∷◌, In, any, any_iff, includes, includes_iff, text_instance, concat, join, is_blank,
  str_eq, eq_iff, arith, Bool-cases, some-inj, subst, sym, ◌∙◌, ◌≢◌,
}
use iam_access_control_servi.Outcome.{Outcome, ok, throw, forbidden}
use iam_access_control_servi.Access.Contracts.{AuthContext}
use iam_access_control_servi.Access.Texts.{IsBefore, before_first, before_first_iff}

abbrev pub allow_if : Bool → String → Outcome Bool
allow_if true message = ok true
allow_if false message = throw (forbidden message)

-- The wildcard of a permission: `${perm.split('.')[0]}.*`
unfoldable pub wildcard_of : String → String
unfolding before_first
wildcard_of perm = concat (before_first b'.' perm ∷ ".*" ∷ [])

abbrev pub holds : List String → String → Bool
holds held perm = includes held perm || includes held (wildcard_of perm)

abbrev pub holds_any : List String → List String → Bool
holds_any held required = includes held "*" || any (holds held) required

-- `PermissionsGuard.canActivate`
unfoldable pub permissions_guard : Option (List String) → Option AuthContext → Outcome Bool
permissions_guard none user = ok true
permissions_guard (some []) user = ok true
permissions_guard (some (r ∷ rs)) none = throw (forbidden "No authenticated principal")
permissions_guard (some (r ∷ rs)) (some user) =
    allow_if (holds_any user.permissions (r ∷ rs))
      (concat ("Requires one of permissions: " ∷ join ", " (r ∷ rs) ∷ []))

-- `RolesGuard.canActivate`
unfoldable pub roles_guard : Option (List String) → Option AuthContext → Outcome Bool
roles_guard none user = ok true
roles_guard (some []) user = ok true
roles_guard (some (r ∷ rs)) none = throw (forbidden "No authenticated principal")
roles_guard (some (r ∷ rs)) (some user) =
    allow_if (any (includes user.roles) (r ∷ rs))
      (concat ("Requires one of roles: " ∷ join ", " (r ∷ rs) ∷ []))

-- `args?.tenantId ?? args?.input?.tenantId`
abbrev pub claimed_tenant : Option String → Option String → Option String
claimed_tenant (some t) nested = some t
claimed_tenant none nested = nested

abbrev is_other : Option String → String → Bool
is_other none own = false
is_other (some t) own = not (is_blank t) && not (str_eq t own)

-- `TenantGuard.canActivate`, on the principal, whether the request is GraphQL, and the
-- `tenantId` of its arguments and of its `input`.
unfoldable pub tenant_guard :
    Option AuthContext → Bool → Option String → Option String → Outcome Bool
tenant_guard none is_graphql top nested = ok true
tenant_guard (some user) false top nested = ok true
tenant_guard (some user) true top nested =
    allow_if (not (is_other (claimed_tenant top nested) user.tenant_id))
      "Cross-tenant access denied: tenant mismatch"

-- The tenant that the arguments name: the one at the top, or where there is none the one of the
-- input.
abbrev pub IsNamed : Option String → Option String → String → Type 0
IsNamed top nested t = (top ≡ some t) ⊎ ((top ≡ none) × (nested ≡ some t))

claimed_tenant_iff :
    (top nested : Option String) (t : String)
    → (claimed_tenant top nested ≡ some t) ↔ IsNamed top nested t
claimed_tenant_iff (some s) nested t = (λ h. inl h, λ h. ground arith)
claimed_tenant_iff none nested t = (λ h. inr (refl, h), λ h. ground arith)

allow_if_iff : (b : Bool) (message : String) → (allow_if b message ≡ ok true) ↔ (b ≡ true)
allow_if_iff true message = (λ h. refl, λ h. refl)
allow_if_iff false message = (λ h. cc, λ h. cc)

-- A guard that returns passes.
allow_if-true :
    (c : Bool) (message : String) {b : Bool}
    → allow_if c message ≡ ok b
    → allow_if c message ≡ ok true
allow_if-true true message h = refl
allow_if-true false message h = cc

pub permissions_guard-true :
    (required : Option (List String)) (user : Option AuthContext) {b : Bool}
    → permissions_guard required user ≡ ok b
    → permissions_guard required user ≡ ok true
unfolding permissions_guard
permissions_guard-true none user h = refl
permissions_guard-true (some []) user h = refl
permissions_guard-true (some (r ∷ rs)) none h = cc
permissions_guard-true (some (r ∷ rs)) (some user) h = allow_if-true _ _ h

pub roles_guard-true :
    (required : Option (List String)) (user : Option AuthContext) {b : Bool}
    → roles_guard required user ≡ ok b
    → roles_guard required user ≡ ok true
unfolding roles_guard
roles_guard-true none user h = refl
roles_guard-true (some []) user h = refl
roles_guard-true (some (r ∷ rs)) none h = cc
roles_guard-true (some (r ∷ rs)) (some user) h = allow_if-true _ _ h

pub tenant_guard-true :
    (user : AuthContext) (top nested : Option String) {b : Bool}
    → tenant_guard (some user) true top nested ≡ ok b
    → tenant_guard (some user) true top nested ≡ ok true
unfolding tenant_guard
tenant_guard-true user top nested h = allow_if-true _ _ h

-- The wildcard of what stands before the first dot of a permission is held.
abbrev pub HasWildcard : List String → String → Type 0
HasWildcard held perm =
    (head : String) × IsBefore b'.' perm head × In (concat (head ∷ ".*" ∷ [])) held

-- A principal holds one of the permissions, by name or by wildcard.
abbrev pub HasPermission : List String → List String → Type 0
HasPermission held required =
    In "*" held ⊎ ((perm : String) × In perm required × (In perm held ⊎ HasWildcard held perm))

wildcard_iff :
    (held : List String) (perm : String)
    → (includes held (wildcard_of perm) ≡ true) ↔ HasWildcard held perm
unfolding wildcard_of
wildcard_iff held perm =
    let head = before_first b'.' perm in
    let (to, from) = includes_iff held (concat (head ∷ ".*" ∷ [])) in
    (
      λ h. (head, (before_first_iff b'.' perm head).0 refl, to h),
      λ (other, is, at). from (
          subst (λ x. In (concat (x ∷ ".*" ∷ [])) held)
            (sym ((before_first_iff b'.' perm other).1 is)) at),
    )

holds_any_iff :
    (held required : List String) → (holds_any held required ≡ true) ↔ HasPermission held required
holds_any_iff held required =
    let (to, from) = any_iff (holds held) required in
    let every = includes_iff held "*" in
    (
      λ h. elim (Bool-cases (includes held "*")) [
        | inl all ↦ inl (every.0 all)
        | inr some_only ↦
            let (perm, at, passes) = to (ground arith) in
            inr (perm, at, ground (arith, includes_iff held perm, wildcard_iff held perm))
      ],
      λ h. elim h [
        | inl all ↦ ground (arith, every.1 all)
        | inr (perm, at, has) ↦
            let passes : holds held perm ≡ true =
              ground (arith, includes_iff held perm, wildcard_iff held perm) in
            ground (arith, from (perm, at, passes))
      ],
    )

-- With permissions required, the guard passes a principal exactly when it holds "*", one of the
-- permissions, or the wildcard of what stands before a permission's first dot.
pub permissions_guard_iff :
    (r : String) (rs : List String) (user : AuthContext)
    → (permissions_guard (some (r ∷ rs)) (some user) ≡ ok true)
      ↔ HasPermission user.permissions (r ∷ rs)
unfolding permissions_guard
permissions_guard_iff r rs user =
    let (to, from) = allow_if_iff (holds_any user.permissions (r ∷ rs)) _ in
    let (has, back) = holds_any_iff user.permissions (r ∷ rs) in
    (λ h. has (to h), λ h. from (back h))

-- With roles required, the guard passes a principal exactly when it has one of them.
pub roles_guard_iff :
    (r : String) (rs : List String) (user : AuthContext)
    → (roles_guard (some (r ∷ rs)) (some user) ≡ ok true)
      ↔ ((role : String) × In role (r ∷ rs) × In role user.roles)
unfolding roles_guard
roles_guard_iff r rs user =
    let (to, from) = allow_if_iff (any (includes user.roles) (r ∷ rs)) _ in
    let (has, back) = any_iff (includes user.roles) (r ∷ rs) in
    (
      λ h.
          let (role, at, passes) = has (to h) in
          (role, at, (includes_iff user.roles role).0 passes),
      λ (role, at, mine). from (back (role, at, (includes_iff user.roles role).1 mine)),
    )

is_other_iff :
    (claimed : Option String) (own : String)
    → (not (is_other claimed own) ≡ true) ↔ ((t : String) → claimed ≡ some t → t ≢ "" → t ≡ own)
is_other_iff none own = (λ h t e. cc, λ h. refl)
is_other_iff (some c) own = (
  λ h t e filled.
      let same : c ≡ t = some-inj e in
      subst (λ x. x ≡ own) same
        (ground (arith, eq_iff c own, eq_iff c "", λ (q : c ≡ ""). filled (sym same ∙ q))),
  λ h. elim (Bool-cases (is_blank c)) [
    | inl blank ↦ ground arith
    | inr filled ↦
        let own_tenant = h c refl (λ q. cc (filled, (eq_iff c "").1 q)) in
        ground (arith, (eq_iff c own).1 own_tenant)
  ],
)

-- The tenant guard passes a GraphQL request of a principal exactly when the tenant that it
-- claims, in its arguments or else in its `input`, is absent, empty or the principal's own.
pub tenant_guard_iff :
    (user : AuthContext) (top nested : Option String)
    → (tenant_guard (some user) true top nested ≡ ok true)
      ↔ ((t : String) → IsNamed top nested t → t ≢ "" → t ≡ user.tenant_id)
unfolding tenant_guard
tenant_guard_iff user top nested =
    let (to, from) = allow_if_iff (not (is_other (claimed_tenant top nested) user.tenant_id)) _ in
    let (mine, back) = is_other_iff (claimed_tenant top nested) user.tenant_id in
    (
      λ h t named. mine (to h) t ((claimed_tenant_iff top nested t).1 named),
      λ h. from (back (λ t claimed. h t ((claimed_tenant_iff top nested t).0 claimed))),
    )
