-- ===== src/Authorization/Denials.antt =====
-- The denials of the validations of `runPipeline`.
use iam_access_control_servi.Prelude.{String, ◌≡◌, true, false, none, some, [], ◌∷◌, concat}
use iam_access_control_servi.Domain.Enums.{
  TenantStatus, EmploymentStatus, tenant_status_eq, employment_status_eq, employment_status_text,
}
use iam_access_control_servi.Domain.Contracts.{AuthorizationRequest}
use iam_access_control_servi.Domain.Models.{Tenant, User}
use iam_access_control_servi.Hierarchy.Store.{HierarchyDb}
use iam_access_control_servi.Authorization.{Run, Stage}
use iam_access_control_servi.Authorization.Database.{Prisma, where_member}
use iam_access_control_servi.Authorization.Facts.{resolve_resource}

module _ {Db : Type 0} (prisma : Prisma Db) (hierarchy : HierarchyDb Db)
    (request : AuthorizationRequest) (run : Run Db) where
  -- The validation that a run fails, with its reason.
  pub data Fails (reason : String) : Type 0 where
    no_tenant :
        prisma.find_tenant request.tenant_id (run.seen Stage.tenant_read) ≡ none
        → reason ≡ "Tenant is invalid or not active"
        → Fails reason
    inactive_tenant :
        (t : Tenant)
        → prisma.find_tenant request.tenant_id (run.seen Stage.tenant_read) ≡ some t
        → tenant_status_eq t.status TenantStatus.active ≡ false
        → reason ≡ "Tenant is invalid or not active"
        → Fails reason
    no_subject :
        (t : Tenant)
        → prisma.find_tenant request.tenant_id (run.seen Stage.tenant_read) ≡ some t
        → tenant_status_eq t.status TenantStatus.active ≡ true
        → prisma.find_user
            (where_member request.tenant_id request.subject_user_id)
            (run.seen Stage.subject_read)
          ≡ none
        → reason ≡ "Subject does not exist within this tenant"
        → Fails reason
    inactive_subject :
        (t : Tenant) (u : User)
        → prisma.find_tenant request.tenant_id (run.seen Stage.tenant_read) ≡ some t
        → tenant_status_eq t.status TenantStatus.active ≡ true
        → prisma.find_user
            (where_member request.tenant_id request.subject_user_id)
            (run.seen Stage.subject_read)
          ≡ some u
        → employment_status_eq u.employment_status EmploymentStatus.active ≡ false
        → reason ≡ (
            concat
              ("Subject employment status is " ∷ employment_status_text u.employment_status ∷ []))
        → Fails reason
    no_resource :
        (t : Tenant) (u : User)
        → prisma.find_tenant request.tenant_id (run.seen Stage.tenant_read) ≡ some t
        → tenant_status_eq t.status TenantStatus.active ≡ true
        → prisma.find_user
            (where_member request.tenant_id request.subject_user_id)
            (run.seen Stage.subject_read)
          ≡ some u
        → employment_status_eq u.employment_status EmploymentStatus.active ≡ true
        → resolve_resource prisma request.tenant_id request.resource_type request.resource_id
            request.resource_attributes
            (run.seen Stage.resource_read)
          ≡ none
        → reason ≡ "Resource does not exist within this tenant"
        → Fails reason
