-- ===== src/Errors/Statuses.antt =====
-- The two tables of src/common/errors/error-codes.ts against one another.
use public_parks.Prelude.{ℕ, ◌≡◌, some, arith}
use public_parks.Errors.Catalog.{
  ErrorCode, is_server_error_status, error_code_http_status, http_status_error_codes, lookup_status,
  map_http_status,
}

-- For every raw status, the code that it is mapped to has a default status of the same class:
-- the one is 500 or above exactly when the other is.
map_http_status-class :
    (status : ℕ)
    → is_server_error_status (error_code_http_status (map_http_status status))
      ≡ is_server_error_status status
unfolding map_http_status error_code_http_status
map_http_status-class status = ground arith

-- A status that the table lists comes back as the default status of its code.
map_http_status-listed :
    (status : ℕ) (code : ErrorCode)
    → lookup_status status http_status_error_codes ≡ some code
    → (map_http_status status ≡ code) × (error_code_http_status (map_http_status status) ≡ status)
unfolding map_http_status error_code_http_status
map_http_status-listed status code h = ground arith
