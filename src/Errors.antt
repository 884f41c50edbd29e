-- ===== src/Errors.antt =====
-- src/common/errors/error-codes.ts, application.exception.ts and all-exceptions.filter.ts, and the
-- exception classes that the filter tells apart. `Error` values are constructors of `Exception`.
pub mod Catalog
pub mod Statuses
pub mod Rendering
use public_parks.Prelude.{
  ℕ, String, Bool, true, false, Option, none, some, List, if◌then◌else◌, get_or,
}
pub use Catalog.{ErrorCode, is_server_error_status, error_code_http_status, map_http_status}
use Catalog.{ErrorCode, is_server_error_status, error_code_http_status, map_http_status}

-- Each field of the details with its messages: the two shapes that the program builds, field
-- errors and `{ errors: [...] }`.
abbrev pub ErrorDetails : Type 0
ErrorDetails = List (String × List String)

pub record ApplicationException : Type 0 where
  pub code : ErrorCode
  pub message : String
  pub http_status : ℕ
  pub details : Option ErrorDetails

-- The constructor: the status of the options, or the catalog's.
unfoldable pub application_exception :
    ErrorCode → String → Option ℕ → Option ErrorDetails → ApplicationException
application_exception code message status details = record {
  code = code;
  message = message;
  http_status = get_or status (error_code_http_status code);
  details = details;
}

-- What a handler may throw. `request_validation` holds the details, `http` a framework error's
-- status and message, `other` the message of any other value (a driver error, a RangeError).
pub data Exception : Type 0 where
  request_validation : ErrorDetails → Exception
  application : ApplicationException → Exception
  http : ℕ → String → Exception
  other : String → Exception

-- An application error with the defaults of its code.
unfoldable pub raised : ErrorCode → String → Exception
unfolding application_exception
raised code message = application (application_exception code message none none)

unfoldable pub authentication_failed : Exception
unfolding raised
authentication_failed = raised ErrorCode.authentication_failed "Authentication failed."

unfoldable pub authentication_required : Exception
unfolding raised
authentication_required = raised ErrorCode.authentication_required "Authentication is required."

abbrev pub internal_error_message : String
internal_error_message = "An unexpected error occurred."

abbrev pub request_validation_message : String
request_validation_message = "Request validation failed."

pub record MappedError : Type 0 where
  pub code : ErrorCode
  pub message : String
  pub http_status : ℕ
  pub details : Option ErrorDetails

-- `mapException`
unfoldable pub map_exception : Exception → MappedError
unfolding is_server_error_status map_http_status
map_exception (request_validation details) = record {
  code = ErrorCode.validation_failed;
  message = request_validation_message;
  http_status = 400;
  details = some details;
}
map_exception (application e) = record {
  code = e.code;
  message = e.message;
  http_status = e.http_status;
  details = e.details;
}
map_exception (http status message) = record {
  code = map_http_status status;
  message = if is_server_error_status status then internal_error_message else message;
  http_status = status;
  details = none;
}
map_exception (other message) = record {
  code = ErrorCode.internal_error;
  message = internal_error_message;
  http_status = 500;
  details = none;
}

-- The body `{ error: { code, message, details, correlationId } }`.
pub record ErrorEnvelope : Type 0 where
  pub code : ErrorCode
  pub message : String
  pub details : Option ErrorDetails
  pub correlation_id : String

-- What one call of the filter does: the response's status and body, and the entry that it logs
-- at error level, if it logs one.
pub record Rendered : Type 0 where
  pub status : ℕ
  pub body : ErrorEnvelope
  pub logged : Option (Exception × String × ErrorCode)

-- `catch`; the correlation id of the request is an argument.
unfoldable pub catch_exception : Exception → String → Rendered
unfolding map_exception is_server_error_status
catch_exception exception correlation_id =
    let mapped = map_exception exception in
    record {
      status = mapped.http_status;
      body = record {
        code = mapped.code;
        message = mapped.message;
        details = mapped.details;
        correlation_id = correlation_id;
      };
      logged =
          if is_server_error_status mapped.http_status
          then some (exception, correlation_id, mapped.code)
          else none;
    }
