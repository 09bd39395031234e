-- ===== src/Flow/Errors.antt =====
-- src/core/errors/api-error.ts: the errors that flows throw.
use arc_id.Base.{ℕ, String}

pub data Code : Type 0 where
  bad_request unauthorized forbidden not_found conflict too_many_requests internal : Code
  invalid_grant invalid_client invalid_request invalid_scope unsupported_grant_type : Code
  flow_runtime_error login_required interaction_required consent_required : Code
  aal2_required step_up_required plan_cap tenant_isolation_violation : Code

pub record ApiError : Type 0 where
  pub message : String
  pub status_code : ℕ
  pub code : Code

abbrev pub api_error : String → ℕ → Code → ApiError
api_error message status_code code = record {
  message = message;
  status_code = status_code;
  code = code;
}

-- What a flow throws: an operational error, or an error of the database client by its code.
pub data Thrown : Type 0 where
  api : ApiError → Thrown
  prisma : String → Thrown

abbrev pub bad_request_error : String → Thrown
bad_request_error msg = api (api_error msg 400 Code.bad_request)

abbrev pub unauthorized_error : String → Thrown
unauthorized_error msg = api (api_error msg 401 Code.unauthorized)

abbrev pub forbidden_error : String → Thrown
forbidden_error msg = api (api_error msg 403 Code.forbidden)

abbrev pub not_found_error : String → Thrown
not_found_error msg = api (api_error msg 404 Code.not_found)

abbrev pub conflict_error : String → Thrown
conflict_error msg = api (api_error msg 409 Code.conflict)

abbrev pub internal_error : String → Thrown
internal_error msg = api (api_error msg 500 Code.internal)

abbrev pub invalid_grant_error : String → Thrown
invalid_grant_error msg = api (api_error msg 400 Code.invalid_grant)

abbrev pub invalid_client_error : String → Thrown
invalid_client_error msg = api (api_error msg 401 Code.invalid_client)

abbrev pub invalid_request_error : String → Thrown
invalid_request_error msg = api (api_error msg 400 Code.invalid_request)

abbrev pub invalid_scope_error : String → Thrown
invalid_scope_error msg = api (api_error msg 400 Code.invalid_scope)

abbrev pub unsupported_grant_type_error : Thrown
unsupported_grant_type_error =
    api (api_error "Unsupported grant type" 400 Code.unsupported_grant_type)
