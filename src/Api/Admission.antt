-- ===== src/Api/Admission.antt =====
-- The guards in the order in which a request passes them: the global `JwtAuthGuard`, then those of
-- the operation (src/app/app.module.ts, src/common/guards).
use iam_access_control_servi.Outcome.{Exception}
use iam_access_control_servi.Outcome.{Outcome-cases}
use iam_access_control_servi.Access.Jwt.{authenticate-some}
use iam_access_control_servi.Access.Guards.{
  permissions_guard-true, roles_guard-true, tenant_guard-true,
}
use iam_access_control_servi.Prelude.{subst}
use iam_access_control_servi.Prelude.{◌⊎◌}
use iam_access_control_servi.Prelude.{
  String, ◌≡◌, ◌≢◌, refl, ap, ◌∙◌, Bool, true, false, Option, none, some, List, In, inl, inr, ◌∷◌,
  if◌then◌else◌,
}
use iam_access_control_servi.Outcome.{Outcome, ok, throw, type_error, ◌>>=◌, >>=-eq-ok}
use iam_access_control_servi.Authorization.{World}
use iam_access_control_servi.Access.Contracts.{AuthContext}
use iam_access_control_servi.Access.Guards.{
  HasPermission, permissions_guard, permissions_guard_iff, roles_guard, roles_guard_iff,
  tenant_guard, tenant_guard_iff,
}
use iam_access_control_servi.Access.Jwt.{Headers, IsVerified, authenticate, authenticate-IsVerified}
use iam_access_control_servi.Api.Calls.{Call, marks}
use iam_access_control_servi.Api.Backend.{Answer, Backend, Outside, auth_services}
use iam_access_control_servi.Api.Resolvers.{auth_resolver, handle}

-- The `tenantId` that the input of a call names; no operation has one among its own arguments.
abbrev pub input_tenant : Call → Option String
input_tenant (Call.check_access input) = some input.tenant_id
input_tenant _ = none

module _ {Db : Type 0} (b : Backend Db) where
  -- The principal of a request: none for a public operation.
  abbrev pub principal_of_request : Headers → Call → World Db → Outcome (Option AuthContext)
  principal_of_request headers call w =
      authenticate (auth_services b w.db).validate_api_key (auth_services b w.db).verify
        (marks call).is_public headers

  -- The guards of the operation.
  unfoldable pub pass_guards : Option AuthContext → Call → Outcome Bool
  unfolding permissions_guard roles_guard tenant_guard marks
  pass_guards user call = do
    permitted ← permissions_guard (marks call).required_permissions user
    entitled ← roles_guard (marks call).required_roles user
    if (marks call).has_tenant_guard
        then tenant_guard user true none (input_tenant call)
        else ok true

  -- A resolver reads the tenant of the principal; of undefined it would throw.
  unfoldable pub resolve : Outside Db → Option AuthContext → Call → World Db → Answer Db
  unfolding handle
  resolve outside (some ctx) call w = handle b outside ctx call w
  resolve outside none (Call.of_auth call) w = auth_resolver b call w
  resolve outside none call w = (throw type_error, w)

  -- A request: the guards, then the resolver; a guard that throws ends it.
  unfoldable pub serve : Outside Db → Headers → Call → World Db → Answer Db
  unfolding pass_guards resolve
  serve outside headers call w = elim (principal_of_request headers call w) [
    | throw e ↦ (throw e, w)
    | ok user ↦ elim (pass_guards user call) [
      | throw e ↦ (throw e, w)
      | ok passed ↦ resolve outside user call w
    ]
  ]

  -- A principal that the guards of an operation let through.
  pub record IsAdmitted (headers : Headers) (call : Call) (w : World Db) (ctx : AuthContext)
      : Type 0 where
    pub verified :
        IsVerified (auth_services b w.db).validate_api_key (auth_services b w.db).verify headers ctx
    pub permitted :
        (p : String) (ps : List String)
        → (marks call).required_permissions ≡ some (p ∷ ps)
        → HasPermission ctx.permissions (p ∷ ps)
    pub entitled :
        (r : String) (rs : List String)
        → (marks call).required_roles ≡ some (r ∷ rs)
        → (role : String) × In role (r ∷ rs) × In role ctx.roles
    pub own_tenant :
        (marks call).has_tenant_guard ≡ true
        → (t : String) → input_tenant call ≡ some t
        → t ≢ ""
        → t ≡ ctx.tenant_id

  -- The guards of an operation pass a principal that they entitle.
  pass_guards-IsAdmitted :
      (headers : Headers) (call : Call) (w : World Db) (ctx : AuthContext) (passed : Bool)
      → principal_of_request headers call w ≡ ok (some ctx)
      → (marks call).is_public ≡ false
      → pass_guards (some ctx) call ≡ ok passed
      → IsAdmitted headers call w ctx
  unfolding pass_guards
  pass_guards-IsAdmitted headers call w ctx passed known private h =
      let (x, p, h1) =
        >>=-eq-ok (permissions_guard (marks call).required_permissions (some ctx)) _ h in
      let (y, r, h2) = >>=-eq-ok (roles_guard (marks call).required_roles (some ctx)) _ h1 in
      let permissions_ok = permissions_guard-true (marks call).required_permissions (some ctx) p in
      let roles_ok = roles_guard-true (marks call).required_roles (some ctx) r in
      record {
        verified =
            authenticate-IsVerified (auth_services b w.db).validate_api_key
              (auth_services b w.db).verify headers ctx
              (subst
                (λ c.
                  authenticate (auth_services b w.db).validate_api_key (auth_services b w.db).verify
                    c headers
                  ≡ ok (some ctx))
                private known);
        permitted = λ q qs is.
            (permissions_guard_iff q qs ctx).0
              (subst (λ o. permissions_guard o (some ctx) ≡ ok true) is permissions_ok);
        entitled = λ q qs is.
            (roles_guard_iff q qs ctx).0
              (subst (λ o. roles_guard o (some ctx) ≡ ok true) is roles_ok);
        own_tenant = λ guarded t named.
            (tenant_guard_iff ctx none (input_tenant call)).0
              (tenant_guard-true ctx none (input_tenant call) (rw guarded at h2)) t
              (inr (refl, named));
      }

  -- A request to an operation that is not public either is refused, and changes nothing, or has a
  -- verified principal that its guards entitle, and is answered by the resolver for it.
  pub serve-IsAdmitted :
      (outside : Outside Db) (headers : Headers) (call : Call) (w : World Db)
      → (marks call).is_public ≡ false
      → ((e : Exception) × (serve outside headers call w ≡ (throw e, w)))
        ⊎ ((ctx : AuthContext) × IsAdmitted headers call w ctx
            × (serve outside headers call w ≡ handle b outside ctx call w))
  unfolding serve resolve
  serve-IsAdmitted outside headers call w private =
      elim (Outcome-cases (principal_of_request headers call w)) [
        | inl (e, refused) ↦ inl (e, rw (refused, serve) refl)
        | inr (user, known) ↦
            let (ctx, is) =
              authenticate-some (auth_services b w.db).validate_api_key
                (auth_services b w.db).verify headers (rw private at known) in
            let own = known ∙ ap ok is in
            elim (Outcome-cases (pass_guards (some ctx) call)) [
              | inl (e, refused) ↦ inl (e, rw (own, serve, refused) refl)
              | inr (passed, h) ↦ inr (
                ctx,
                pass_guards-IsAdmitted headers call w ctx passed own private h,
                rw (own, serve, h) refl,
              )
            ]
      ]
