-- ===== src/Examples/Messaging.antt =====
-- The life of an SMS configuration of src/notifications: created, tested, activated, sent with.
use public_parks.Prelude.{
  ℕ, String, ◌≡◌, ◌≢◌, refl, ◌⊎◌, true, false, none, some, List, [], ◌∷◌, arith, str_eq, ◌==◌,
  if◌then◌else◌, decimal,
}
use public_parks.Database.{ok}
use public_parks.Sms.Types.{
  Credentials, SmsStore, SmsConfigurationRecord, CreateSmsConfigurationInput,
  CreateSmsRevisionInput, FieldEncryption, AuditLog, platform, SendSmsResult,
  ResolvedSmsConfiguration, SmsFailureClassification,
}
use public_parks.Sms.Rows.{max_revision, collides, row_allowed}
use public_parks.Sms.Statements.{
  Call, resolve_platform_active, encrypt_credentials, credentials_aad,
}
use public_parks.Sms.Drafts.{create_revision}
use public_parks.Sms.Activation.{activate, activated, RecordedTest}
use public_parks.Sms.Switchover.{IsSwitched, activate-accepts}
use public_parks.Sms.Invariant.{IsConsistent}
use public_parks.Sms.ActivationConsistency.{activate-resolved}
use public_parks.Sms.History.{
  Request, creates, records, activates, deactivates, perform, run, run-IsConsistent, perform-Traced,
}
use public_parks.Sms.Revisions.{IsNewest, create_revision-IsNewest}
use public_parks.Sms.Providers.{SmsProvider, get_provider, resolved_configuration}
use public_parks.Sms.Dispatcher.{Progress, SmsMessage, Dispatching, send_with_configuration}
use public_parks.Sms.Dispatcher.Attempts.{IsDelivery}
use public_parks.Sms.Dispatcher.Retries.{send_with_configuration-cases}

-- An encryption that keeps the associated data with the key's name, and no secret.
abbrev pub encryption : FieldEncryption Credentials
encryption = record {
  encrypt_json = λ randomness credentials aad.
      some (record { key_id = "k1"; iv = ""; ciphertext = ""; auth_tag = aad });
  decrypt_json =
      λ payload aad. if str_eq payload.auth_tag aad then some (("token", "x") ∷ []) else none;
}

abbrev pub call : ℕ → String → Call
call now uuid = record {
  actor_user_id = "admin";
  correlation_id = none;
  now = now;
  uuid = uuid;
  randomness = 0;
}

abbrev pub configuration : SmsConfigurationRecord
configuration = record {
  id = "g1";
  scope_type = platform;
  scope_id = none;
  provider_key = "gateway";
  display_name = "Gateway";
  api_url = none;
  encrypted_credentials = record {
    key_id = "k1";
    iv = "";
    ciphertext = "";
    auth_tag = "sms-provider-configuration:g1:revision:1";
  };
  sender_id = none;
  timeout_ms = 1000;
  retry_count = 2;
  is_enabled = true;
  is_active = false;
  revision = 1;
  last_successful_test_revision = some 1;
  activated_at = none;
  deactivated_at = none;
  created_by_user_id = "admin";
  updated_by_user_id = "admin";
  created_at = 0;
  updated_at = 0;
}

abbrev pub configured : SmsStore
configured = record {
  configurations = configuration ∷ [];
  tests = [];
  delivery_attempts = [];
  audit_logs = [];
}

abbrev nothing : SmsStore
nothing = record { configurations = []; tests = []; delivery_attempts = []; audit_logs = [] }

nothing-IsConsistent : IsConsistent []
nothing-IsConsistent = record { separate = tt; single = λ t. omega arith; ready = tt; allowed = tt }

abbrev pub submitted : CreateSmsConfigurationInput
submitted = record {
  provider_key = "gateway";
  display_name = "Gateway";
  api_url = none;
  credentials = ("token", "x") ∷ [];
  sender_id = none;
  timeout_ms = 1000;
  retry_count = 2;
  is_enabled = true;
}

abbrev test_of : SmsConfigurationRecord → RecordedTest
test_of r = record {
  configuration = r;
  destination_hash = "hash";
  destination_masked = "+251*****11";
  successful = true;
  error_code = none;
  duration_ms = 40;
}

abbrev history : List (Call × Request)
history =
    (call 1 "g1", creates submitted)
    ∷ (call 2 "", records (test_of configuration))
    ∷ (call 3 "", activates "g1")
    ∷ (call 4 "", deactivates "g1")
    ∷ []

run-IsConsistent_example : IsConsistent (run encryption nothing history).configurations
run-IsConsistent_example = run-IsConsistent encryption nothing history nothing-IsConsistent

perform-Traced_example :
    (((perform encryption (call 3 "") (activates "g1") configured).0 ≡ false)
      × ((perform encryption (call 3 "") (activates "g1") configured).1 ≡ configured))
    ⊎ ((entry : AuditLog) × ((perform encryption (call 3 "") (activates "g1") configured).0 ≡ true)
        × ((perform encryption (call 3 "") (activates "g1") configured).1.audit_logs ≡ entry ∷ []))
perform-Traced_example = perform-Traced encryption (call 3 "") (activates "g1") configured

activate-accepts_example :
    (row : SmsConfigurationRecord) × (s' : SmsStore) × (entry : AuditLog) × (activate "g1"
        (call 3 "")
        configured
      ≡ (ok row, s'))
    × IsSwitched "g1" (call 3 "") configuration configured s' row
    × (s'.audit_logs ≡ entry ∷ [])
    × (entry.action ≡ "sms_configuration.activated")
    × (entry.actor_id ≡ "admin")
    × (entry.target_id ≡ "g1")
activate-accepts_example = activate-accepts "g1" (call 3 "") configured configuration refl refl refl

pub configured-IsConsistent : IsConsistent configured.configurations
unfolding row_allowed
configured-IsConsistent = record {
  separate = (refl, tt);
  single = λ t. ground arith;
  ready = ((λ h. absurd cc), tt);
  allowed = (refl, tt);
}

activation : (activate "g1" (call 3 "") configured).0 ≡ ok (activated (call 3 "") configuration)
unfolding activate
activation = refl

activate-resolved_example :
    resolve_platform_active (activate "g1" (call 3 "") configured).1
    ≡ some (activated (call 3 "") configuration)
activate-resolved_example =
    activate-resolved "g1" (call 3 "") configured (activated (call 3 "") configuration)
      configured-IsConsistent activation refl

abbrev change : CreateSmsRevisionInput
change = record {
  display_name = none;
  api_url = none;
  credentials = some (("token", "y") ∷ []);
  sender_id = none;
  timeout_ms = some 1500;
  retry_count = none;
  is_enabled = none;
}

abbrev revision_2 : SmsConfigurationRecord
revision_2 = record configuration {
  id = "g2";
  encrypted_credentials = record {
    key_id = "k1";
    iv = "";
    ciphertext = "";
    auth_tag = "sms-provider-configuration:g2:revision:2";
  };
  timeout_ms = 1500;
  revision = 2;
  last_successful_test_revision = none;
  created_at = 5;
  updated_at = 5;
}

revising : (create_revision encryption "g1" change (call 5 "g2") configured).0 ≡ ok revision_2
unfolding create_revision encrypt_credentials credentials_aad decimal max_revision row_allowed
    collides
revising = refl

create_revision-IsNewest_example :
    IsNewest
      (create_revision encryption "g1" change (call 5 "g2") configured).1
      configured
      revision_2
create_revision-IsNewest_example =
    create_revision-IsNewest encryption "g1" change (call 5 "g2") configured revision_2 revising

-- A provider whose first call times out.
abbrev provider_of : String → SmsProvider
provider_of key = record {
  provider_key = key;
  display_name = key;
  credential_fields = [];
  validate_configuration = λ c. [];
  is_api_host_permitted = λ url. true;
  send_sms = λ request attempt.
      if attempt == 1
      then record { takes_ms = 5000; settles = none }
      else record { takes_ms = 20; settles = some (SendSmsResult.sent (some "m1")) };
}

abbrev providers : List SmsProvider
providers = provider_of "mock" ∷ provider_of "gateway" ∷ []

abbrev pub dispatching : Dispatching
dispatching = record {
  providers = providers;
  hash_sensitive_lookup = λ value. value;
  mock_allowed = false;
}

abbrev resolved : ResolvedSmsConfiguration
resolved = resolved_configuration configuration (("token", "x") ∷ [])

abbrev otp_message : SmsMessage
otp_message = record {
  destination = "+251911";
  message = "4242";
  idempotency_key = "c1";
  purpose = "otp";
}

gateway_found : get_provider "gateway" providers ≡ some (provider_of "gateway")
unfolding get_provider
gateway_found = refl

abbrev answered : SendSmsResult × Progress
answered = send_with_configuration dispatching configuration resolved otp_message configured

send_with_configuration-cases_example :
    (((provider_of "gateway").provider_key ≡ "mock" → dispatching.mock_allowed ≡ true)
      → (provider_of "gateway").validate_configuration resolved.base ≡ []
      → (provider_of "gateway").is_api_host_permitted resolved.api_url ≡ true
      → IsDelivery dispatching configuration resolved otp_message
          (provider_of "gateway")
          configured
          answered)
    × ((provider_of "gateway").provider_key ≡ "mock"
        → dispatching.mock_allowed ≡ false
        → answered ≡ (
          SendSmsResult.failed SmsFailureClassification.configuration "PROVIDER_UNAVAILABLE",
          record { store = configured; waits = [] },
        ))
    × (((provider_of "gateway").provider_key ≡ "mock" → dispatching.mock_allowed ≡ true)
        → ((provider_of "gateway").validate_configuration resolved.base ≢ [])
          ⊎ ((provider_of "gateway").is_api_host_permitted resolved.api_url ≡ false)
        → answered ≡ (
          SendSmsResult.failed SmsFailureClassification.configuration "INVALID_CONFIGURATION",
          record { store = configured; waits = [] },
        ))
send_with_configuration-cases_example =
    send_with_configuration-cases dispatching configuration resolved otp_message
      (provider_of "gateway") configured gateway_found
