-- ===== src/Errors/Rendering.antt =====
-- src/common/errors/all-exceptions.filter.ts: what a client sees.
use public_parks.Prelude.{◌≤◌, String, ◌≡◌, none, arith}
use public_parks.Errors.{
  Exception, application, request_validation, http, other, catch_exception, internal_error_message,
}

abbrev pub IsApplication : Exception → Type 0
IsApplication (application e) = Unit
IsApplication _ = ⊥

-- Whatever value is thrown, unless it is an ApplicationException: a response of status 500 or
-- above carries the generic message and no details.
pub catch_exception-generic :
    (e : Exception) (id : String)
    → ¬ IsApplication e
    → 500 ≤ (catch_exception e id).status
    → ((catch_exception e id).body.message ≡ internal_error_message)
      × ((catch_exception e id).body.details ≡ none)
unfolding catch_exception
catch_exception-generic (request_validation d) id n h = ground arith
catch_exception-generic (application e) id n h = absurd (n tt)
catch_exception-generic (http s m) id n h = ground arith
catch_exception-generic (other m) id n h = ground arith
