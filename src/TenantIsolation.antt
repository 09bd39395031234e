-- ===== src/TenantIsolation.antt =====
-- src/core/db/tenant-isolation.ts: the check that the shared database client makes before a write. A
-- tenant's identifier is a number, so it is never the empty text.
use arc_id.Base.{
  ℕ, Bool, true, false, not, Option, none, some, List, [], ◌∷◌, is_some, or_else, if◌then◌else◌,
}
use arc_id.Flow.Errors.{Code, api_error, Thrown, api}

pub data Model : Type 0 where
  tenant_branding tenant_signing_key idp_connection role tenant_membership : Model
  project tenant_policy webhook_endpoint : Model
  client access_delegation audit_log webhook_event subscription : Model
  other_model : Model

-- `REQUIRED_TENANT_MODELS`.
abbrev pub is_required : Model → Bool
is_required Model.tenant_branding = true
is_required Model.tenant_signing_key = true
is_required Model.idp_connection = true
is_required Model.role = true
is_required Model.tenant_membership = true
is_required Model.project = true
is_required Model.tenant_policy = true
is_required Model.webhook_endpoint = true
is_required _ = false

-- An operation, with the `tenantId` of each part of its arguments that the check may read.
pub data Operation : Type 0 where
  create update update_many : Option ℕ → Operation
  create_many : List (Option ℕ) → Operation
  upsert : Option ℕ → Option ℕ → Operation
  read_or_delete : Operation

-- `extractTenantId`.
unfoldable pub extract_tenant_id : Operation → Option ℕ
extract_tenant_id (create tenant) = tenant
extract_tenant_id (update tenant) = tenant
extract_tenant_id (update_many tenant) = tenant
extract_tenant_id (create_many []) = none
extract_tenant_id (create_many (tenant ∷ tenants)) = tenant
extract_tenant_id (upsert created updated) = or_else created updated
extract_tenant_id read_or_delete = none

-- `WRITE_ACTIONS`.
abbrev pub is_write : Operation → Bool
is_write read_or_delete = false
is_write _ = true

abbrev pub isolation_violation : Thrown
isolation_violation = api (
    api_error "[TenantIsolation] requires tenantId in data payload" 500
      Code.tenant_isolation_violation)

-- `withTenantIsolation`: what the check throws, if anything; an optional model is only warned of.
unfoldable pub isolation_error : Model → Operation → Option Thrown
unfolding extract_tenant_id
isolation_error model op =
    if not (is_write op)
    then none
    else (if is_required model
        then (if is_some (extract_tenant_id op) then none else some isolation_violation)
        else none)
