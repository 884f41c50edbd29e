-- ===== src/Examples/Operating.antt =====
-- The admin's calls of src/notifications/sms-configuration.service.ts, and the development inbox.
use public_parks.Database.{ok, err}
use public_parks.Database.Order.{filter}
use public_parks.Errors.{Exception}
use public_parks.Examples.Messaging.{
  encryption, call, configuration, configured, configured-IsConsistent, dispatching,
}
use public_parks.Sms.Statements.{
  get_by_id, decrypt_credentials, credentials_aad, resolve_platform_active,
}
use public_parks.Sms.Activation.{tested, activate, activated, record_test, insert_delivery_attempt}
use public_parks.Sms.Providers.{get_provider, SendSmsRequest}
use public_parks.Sms.Dispatcher.{
  send_configured_test, send_with_configuration, send_with_provider, deliver_from, execute_attempt,
}
use public_parks.Sms.Service.{
  successful, test_configuration, activate_configuration, to_response, mock_guard, validate_record,
  validate_provider_input, checked_by, configuration_errors, no_errors, require_record,
  platform_record, run_test, test_requested, recorded_test, responded,
}
use public_parks.Sms.Service.Masking.{mask_phone_number}
use public_parks.Sms.Service.Testing.{activate_configuration-after_test}
use public_parks.Sms.Service.Guarding.{IsCleared, activate_configuration-cases}
use public_parks.Sms.Inbox.{get_messages, max_messages}
use public_parks.Sms.Inbox.Freshness.{InboxCall, sending, run, Timed, is_fresh, get_messages-fresh}
use mathlib.Core.List.{reverse}
use public_parks.Prelude.{
  ℕ, ◌≤◌, ◌≡◌, refl, ◌⊎◌, false, none, some, List, [], ◌∷◌, arith, length, decimal,
}

gateway_allowed : mock_guard encryption dispatching configuration ≡ ok tt
unfolding mock_guard
gateway_allowed = refl

configuration-found : get_by_id "g1" configured ≡ some configuration
unfolding get_by_id
configuration-found = refl

test_passes :
    (test_configuration encryption dispatching "g1" "+251911000111" 40 (call 2 "u") configured).0
    ≡ ok successful
unfolding test_configuration require_record platform_record get_by_id validate_record
    validate_provider_input checked_by configuration_errors no_errors decrypt_credentials
    credentials_aad decimal get_provider run_test test_requested recorded_test send_configured_test
    send_with_configuration send_with_provider deliver_from execute_attempt insert_delivery_attempt
    record_test mask_phone_number
test_passes = refl

activate_configuration-after_test_example :
    ((activate_configuration encryption dispatching "g1"
        (call 3 "")
        (test_configuration encryption dispatching "g1" "+251911000111" 40
          (call 2 "u")
          configured).1).0
      ≡ to_response encryption dispatching
          (activated (call 3 "") (tested (call 2 "u") configuration)))
    × (resolve_platform_active
          (activate_configuration encryption dispatching "g1"
            (call 3 "")
            (test_configuration encryption dispatching "g1" "+251911000111" 40
              (call 2 "u")
              configured).1).1
        ≡ some (activated (call 3 "") (tested (call 2 "u") configuration)))
activate_configuration-after_test_example =
    activate_configuration-after_test encryption dispatching "g1" "+251911000111" 40 (call 2 "u")
      (call 3 "") configured configuration configured-IsConsistent configuration-found refl refl
      gateway_allowed test_passes

activate_configuration-cases_example :
    ((e : Exception) × (activate_configuration encryption dispatching "g1" (call 3 "") configured
        ≡ (err e, configured)))
    ⊎ (IsCleared encryption dispatching "g1" configured
        × (activate_configuration encryption dispatching "g1" (call 3 "") configured
            ≡ responded encryption dispatching (activate "g1" (call 3 "") configured)))
activate_configuration-cases_example =
    activate_configuration-cases encryption dispatching "g1" (call 3 "") configured

abbrev code_request : SendSmsRequest
code_request = record {
  destination = "+251911000111";
  message = "4242";
  idempotency_key = "c1";
  configuration = record {
    api_url = none;
    credentials = [];
    sender_id = none;
    timeout_ms = 1000;
    retry_count = 0;
  };
}

abbrev inbox_calls : List (ℕ × InboxCall)
inbox_calls = (0, sending false code_request "a") ∷ (500000, sending false code_request "b") ∷ []

inbox_times : Timed 0 inbox_calls 700000
inbox_times = (omega arith, (omega arith, omega arith))

get_messages-fresh_example :
    (length (run inbox_calls []) ≤ max_messages)
    × ((get_messages 700000 (run inbox_calls [])).0
        ≡ reverse (filter (is_fresh 700000) (run inbox_calls [])))
get_messages-fresh_example = get_messages-fresh 0 700000 inbox_calls inbox_times
