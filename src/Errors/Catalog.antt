-- ===== src/Errors/Catalog.antt =====
-- src/common/errors/error-codes.ts: the catalog of codes and its two tables. `HttpStatus` members
-- are written as their numbers.
use public_parks.Prelude.{
  ℕ, Bool, Option, none, some, List, [], ◌∷◌, ◌==◌, leb, if◌then◌else◌, get_or,
}

pub data ErrorCode : Type 0 where
  validation_failed malformed_request request_rejected : ErrorCode
  authentication_required authentication_failed permission_denied : ErrorCode
  resource_not_found method_not_allowed resource_conflict : ErrorCode
  payload_too_large unsupported_media_type unprocessable_entity : ErrorCode
  rate_limit_exceeded : ErrorCode
  internal_error service_unavailable sms_delivery_unavailable : ErrorCode

abbrev pub http_server_error_min_status : ℕ
http_server_error_min_status = 500

-- `isServerErrorStatus`
unfoldable pub is_server_error_status : ℕ → Bool
is_server_error_status status = leb http_server_error_min_status status

-- `ERROR_CODE_HTTP_STATUS`
unfoldable pub error_code_http_status : ErrorCode → ℕ
error_code_http_status ErrorCode.validation_failed = 400
error_code_http_status ErrorCode.malformed_request = 400
error_code_http_status ErrorCode.request_rejected = 400
error_code_http_status ErrorCode.authentication_required = 401
error_code_http_status ErrorCode.authentication_failed = 401
error_code_http_status ErrorCode.permission_denied = 403
error_code_http_status ErrorCode.resource_not_found = 404
error_code_http_status ErrorCode.method_not_allowed = 405
error_code_http_status ErrorCode.resource_conflict = 409
error_code_http_status ErrorCode.payload_too_large = 413
error_code_http_status ErrorCode.unsupported_media_type = 415
error_code_http_status ErrorCode.unprocessable_entity = 422
error_code_http_status ErrorCode.rate_limit_exceeded = 429
error_code_http_status ErrorCode.internal_error = 500
error_code_http_status ErrorCode.service_unavailable = 503
error_code_http_status ErrorCode.sms_delivery_unavailable = 503

-- `HTTP_STATUS_ERROR_CODE`, the entries in the order of the source.
abbrev pub http_status_error_codes : List (ℕ × ErrorCode)
http_status_error_codes =
    (400, ErrorCode.malformed_request)
    ∷ (401, ErrorCode.authentication_required)
    ∷ (403, ErrorCode.permission_denied)
    ∷ (404, ErrorCode.resource_not_found)
    ∷ (405, ErrorCode.method_not_allowed)
    ∷ (409, ErrorCode.resource_conflict)
    ∷ (413, ErrorCode.payload_too_large)
    ∷ (415, ErrorCode.unsupported_media_type)
    ∷ (422, ErrorCode.unprocessable_entity)
    ∷ (429, ErrorCode.rate_limit_exceeded)
    ∷ (503, ErrorCode.service_unavailable)
    ∷ []

unfoldable pub lookup_status : ℕ → List (ℕ × ErrorCode) → Option ErrorCode
lookup_status status [] = none
lookup_status status ((s, code) ∷ entries) =
    if s == status then some code else lookup_status status entries

-- `mapHttpStatusToErrorCode`
unfoldable pub map_http_status : ℕ → ErrorCode
unfolding lookup_status is_server_error_status
map_http_status status =
    get_or (lookup_status status http_status_error_codes) (
      if is_server_error_status status
      then ErrorCode.internal_error
      else ErrorCode.request_rejected)
