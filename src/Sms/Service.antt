-- ===== src/Sms/Service.antt =====
-- src/notifications/sms-configuration.service.ts: what the endpoints of the SMS configurations do
-- with the repository, the registry and the dispatcher. Every call of the repository is a
-- transaction of its own.
pub mod Masking
pub mod Testing
pub mod Guarding
use public_parks.Database.{Result, ok, err}
use public_parks.Database.Order.{filter, order_by, lexicographic}
use public_parks.Database.Results.{and_then, map_result, or_err, then_call}
use public_parks.Errors.{Exception, ErrorCode, raised, application, application_exception}
use public_parks.Sms.Types.{
  Credentials, SmsCredentialFieldDefinition, SmsProviderConfiguration, SendSmsResult,
  SmsProviderScopeType, SmsConfigurationRecord, SmsStore, CreateSmsConfigurationInput,
  PatchSmsConfigurationInput, CreateSmsRevisionInput, FieldEncryption,
}
use public_parks.Sms.Rows.{is_platform}
use public_parks.Sms.Statements.{
  Call, get_by_id, decrypt_credentials, decryption_failed, audit_log, revision_metadata,
}
use public_parks.Sms.Drafts.{create, create_revision, patch_draft, given_or_decrypted}
use public_parks.Sms.Activation.{RecordedTest, record_test, activate, deactivate}
use public_parks.Sms.Providers.{SmsProvider, get_provider}
use public_parks.Sms.Dispatcher.{Dispatching, SmsMessage, send_configured_test}
use public_parks.Sms.Service.Masking.{mask_phone_number}
use public_parks.Prelude.{
  ℕ, String, Bool, true, false, not, ◌&&◌, ◌||◌, Option, none, some, List, [], ◌∷◌, ◌++◌, map,
  str_eq, ltb, if◌then◌else◌, get_or, template, decimal,
}

-- An entry of `listImplementations`
pub record SmsImplementation : Type 0 where
  pub provider_key : String
  pub display_name : String
  pub credential_fields : List SmsCredentialFieldDefinition
  pub available : Bool

-- What `toResponse` returns; the times are milliseconds.
pub record SmsConfigurationResponse : Type 0 where
  pub id : String
  pub scope_type : SmsProviderScopeType
  pub scope_id : Option String
  pub provider_key : String
  pub display_name : String
  pub api_url : Option String
  pub sender_id : Option String
  pub timeout_ms : ℕ
  pub retry_count : ℕ
  pub is_enabled : Bool
  pub is_active : Bool
  pub revision : ℕ
  pub last_successful_test_revision : Option ℕ
  pub activated_at : Option ℕ
  pub deactivated_at : Option ℕ
  pub credentials_configured : List (String × Bool)
  pub created_at : ℕ
  pub updated_at : ℕ

-- What `test` returns
pub data SmsTestResponse : Type 0 where
  successful : SmsTestResponse
  unsuccessful : (error_code : String) → SmsTestResponse

-- `Boolean(credentials[key])`
abbrev pub is_configured : Credentials → String → Bool
is_configured [] key = false
is_configured ((k, value) ∷ credentials) key =
    if str_eq k key then not (str_eq value "") else is_configured credentials key

abbrev pub indicator_keys : Option SmsProvider → Credentials → List String
indicator_keys none credentials = map (λ entry. entry.0) credentials
indicator_keys (some provider) credentials = map (λ field. field.key) provider.credential_fields

-- `credentialIndicators`
unfoldable pub credential_indicators : Option SmsProvider → Credentials → List (String × Bool)
credential_indicators provider credentials =
    map (λ key. (key, is_configured credentials key)) (indicator_keys provider credentials)

abbrev pub unregistered : Exception
unregistered =
    raised ErrorCode.unprocessable_entity "The SMS provider implementation is not registered."

abbrev pub host_error : String
host_error = "The API host is not permitted by this provider implementation."

abbrev pub mock_refused : Exception
mock_refused =
    raised ErrorCode.resource_conflict "The mock provider cannot be activated in this environment."

-- The errors of a configuration: the provider's, and that of its host.
unfoldable pub configuration_errors : SmsProvider → SmsProviderConfiguration → List String
configuration_errors provider configuration =
    provider.validate_configuration configuration
    ++ (if provider.is_api_host_permitted configuration.api_url then [] else host_error ∷ [])

unfoldable pub no_errors : List String → Result (Unit {0})
unfolding application_exception
no_errors [] = ok tt
no_errors (e ∷ errors) = err (
    application (
      application_exception ErrorCode.unprocessable_entity
        "The SMS provider configuration is invalid." none (some (("errors", e ∷ errors) ∷ []))))

unfoldable pub checked_by : SmsProviderConfiguration → Option SmsProvider → Result (Unit {0})
unfolding configuration_errors no_errors
checked_by configuration none = err unregistered
checked_by configuration (some provider) = no_errors (configuration_errors provider configuration)

-- `validateProviderInput`
unfoldable pub validate_provider_input :
    List SmsProvider → String → SmsProviderConfiguration → Result (Unit {0})
unfolding checked_by
validate_provider_input registry key configuration =
    checked_by configuration (get_provider key registry)

-- The configuration that `validateRecord` checks, for decrypted credentials.
abbrev pub configuration_of : SmsConfigurationRecord → Credentials → SmsProviderConfiguration
configuration_of r credentials = record {
  api_url = r.api_url;
  credentials = credentials;
  sender_id = r.sender_id;
  timeout_ms = r.timeout_ms;
  retry_count = r.retry_count;
}

-- The configuration that `create` checks.
abbrev pub created_configuration : CreateSmsConfigurationInput → SmsProviderConfiguration
created_configuration input = record {
  api_url = input.api_url;
  credentials = input.credentials;
  sender_id = input.sender_id;
  timeout_ms = input.timeout_ms;
  retry_count = input.retry_count;
}

-- The configuration that `createRevision` checks: the given fields over those of the source.
abbrev pub revised_configuration :
    SmsConfigurationRecord → CreateSmsRevisionInput → Credentials → SmsProviderConfiguration
revised_configuration source input credentials = record {
  api_url = get_or input.api_url source.api_url;
  credentials = credentials;
  sender_id = get_or input.sender_id source.sender_id;
  timeout_ms = get_or input.timeout_ms source.timeout_ms;
  retry_count = get_or input.retry_count source.retry_count;
}

abbrev pub configuration_not_found : Exception
configuration_not_found = raised ErrorCode.resource_not_found "SMS configuration not found."

unfoldable pub platform_record : Option SmsConfigurationRecord → Result SmsConfigurationRecord
platform_record none = err configuration_not_found
platform_record (some r) = if is_platform r then ok r else err configuration_not_found

-- `requireRecord`
unfoldable pub require_record : String → SmsStore → Result SmsConfigurationRecord
unfolding get_by_id platform_record
require_record id s = platform_record (get_by_id id s)

-- `listPlatform` of the repository; the first argument orders the keys.
unfoldable pub list_platform : (String → String → Bool) → SmsStore → List SmsConfigurationRecord
list_platform key_before s =
    order_by
      (λ a b.
        lexicographic key_before str_eq (λ (m n : ℕ). ltb n m) (a.provider_key, a.revision)
          (b.provider_key, b.revision))
      (filter is_platform s.configurations)

abbrev pub error_code_of : SendSmsResult → Option String
error_code_of (SendSmsResult.sent id) = none
error_code_of (SendSmsResult.failed classification code) = some code

abbrev pub is_success : SendSmsResult → Bool
is_success (SendSmsResult.sent id) = true
is_success (SendSmsResult.failed classification code) = false

abbrev pub test_response : SendSmsResult → SmsTestResponse
test_response (SendSmsResult.sent id) = successful
test_response (SendSmsResult.failed classification code) = unsuccessful code

abbrev pub test_message : String
test_message = "Public Parks SMS configuration test. No action is required."

module _ (encryption : FieldEncryption Credentials) (d : Dispatching) where
  -- `listImplementations`
  unfoldable pub list_implementations : List SmsImplementation
  list_implementations =
      map
        (λ provider. record {
          provider_key = provider.provider_key;
          display_name = provider.display_name;
          credential_fields = provider.credential_fields;
          available = not (str_eq provider.provider_key "mock") || d.mock_allowed;
        })
        d.providers

  -- `toResponse`, for decrypted credentials
  abbrev pub response_of : SmsConfigurationRecord → Credentials → SmsConfigurationResponse
  unfolding credential_indicators
  response_of r credentials = record {
    id = r.id;
    scope_type = r.scope_type;
    scope_id = r.scope_id;
    provider_key = r.provider_key;
    display_name = r.display_name;
    api_url = r.api_url;
    sender_id = r.sender_id;
    timeout_ms = r.timeout_ms;
    retry_count = r.retry_count;
    is_enabled = r.is_enabled;
    is_active = r.is_active;
    revision = r.revision;
    last_successful_test_revision = r.last_successful_test_revision;
    activated_at = r.activated_at;
    deactivated_at = r.deactivated_at;
    credentials_configured =
        credential_indicators (get_provider r.provider_key d.providers) credentials;
    created_at = r.created_at;
    updated_at = r.updated_at;
  }

  -- `toResponse`
  unfoldable pub to_response : SmsConfigurationRecord → Result SmsConfigurationResponse
  unfolding response_of decrypt_credentials
  to_response r =
      map_result (response_of r) (or_err decryption_failed (decrypt_credentials encryption r))

  -- The response to a call of the repository; the row stays as that call left it.
  unfoldable pub responded :
      Result SmsConfigurationRecord × SmsStore → Result SmsConfigurationResponse × SmsStore
  unfolding to_response
  responded out = then_call out (λ r s. (to_response r, s))

  -- `validateRecord`
  unfoldable pub validate_record : SmsConfigurationRecord → Result (Unit {0})
  unfolding validate_provider_input decrypt_credentials
  validate_record r =
      and_then (or_err decryption_failed (decrypt_credentials encryption r)) (λ credentials.
        validate_provider_input d.providers r.provider_key (configuration_of r credentials))

  unfoldable pub responses : List SmsConfigurationRecord → Result (List SmsConfigurationResponse)
  unfolding to_response
  responses [] = ok []
  responses (r ∷ rs) =
      and_then (to_response r) (λ first. map_result (λ others. first ∷ others) (responses rs))

  -- `listConfigurations`
  unfoldable pub list_configurations :
      (String → String → Bool) → SmsStore → Result (List SmsConfigurationResponse)
  unfolding responses list_platform
  list_configurations key_before s = responses (list_platform key_before s)

  -- `getConfiguration`
  unfoldable pub get_configuration : String → SmsStore → Result SmsConfigurationResponse
  unfolding require_record to_response
  get_configuration id s = and_then (require_record id s) to_response

  -- `create`
  unfoldable pub create_configuration :
      CreateSmsConfigurationInput → Call → SmsStore → Result SmsConfigurationResponse × SmsStore
  unfolding validate_provider_input responded create
  create_configuration input c s =
      then_call
        (validate_provider_input d.providers input.provider_key (created_configuration input), s)
        (λ _ s. responded (create encryption input c s))

  -- `patch`
  unfoldable pub patch_configuration :
      String
      → PatchSmsConfigurationInput
      → Call
      → SmsStore
      → Result SmsConfigurationResponse × SmsStore
  unfolding responded patch_draft
  patch_configuration id input c s = responded (patch_draft id input c s)

  unfoldable pub validate_revision :
      SmsConfigurationRecord → CreateSmsRevisionInput → Result (Unit {0})
  unfolding validate_provider_input
  validate_revision source input =
      and_then (or_err decryption_failed (given_or_decrypted encryption input source))
        (λ credentials.
          validate_provider_input d.providers source.provider_key
            (revised_configuration source input credentials))

  -- `createRevision`
  unfoldable pub revise_configuration :
      String → CreateSmsRevisionInput → Call → SmsStore → Result SmsConfigurationResponse × SmsStore
  unfolding require_record validate_revision responded create_revision
  revise_configuration id input c s =
      then_call (and_then (require_record id s) (λ source. validate_revision source input), s)
        (λ _ s. responded (create_revision encryption id input c s))

  -- The row that `test` appends to the audit log before it sends.
  unfoldable pub test_requested : String → SmsConfigurationRecord → Call → SmsStore → SmsStore
  test_requested id r c s = record s {
    audit_logs =
        audit_log c.actor_user_id "sms_configuration.test_requested" id (revision_metadata r)
          c.correlation_id
        ∷ s.audit_logs;
  }

  abbrev pub test_sms : String → SmsConfigurationRecord → String → Call → SmsMessage
  test_sms id r destination c = record {
    destination = destination;
    message = test_message;
    idempotency_key = template ("sms-test:" ∷ id ∷ ":" ∷ decimal r.revision ∷ ":" ∷ c.uuid ∷ []);
    purpose = "configuration_test";
  }

  -- The outcome that `test` records; the last argument is the time that the delivery took.
  unfoldable pub recorded_test : SmsConfigurationRecord → String → SendSmsResult → ℕ → RecordedTest
  unfolding mask_phone_number
  recorded_test r destination result duration_ms = record {
    configuration = r;
    destination_hash = d.hash_sensitive_lookup destination;
    destination_masked = mask_phone_number destination;
    successful = is_success result;
    error_code = error_code_of result;
    duration_ms = duration_ms;
  }

  -- `test`, once the record is found and valid.
  unfoldable pub run_test :
      String
      → SmsConfigurationRecord
      → String
      → ℕ
      → Call
      → SmsStore
      → Result SmsTestResponse × SmsStore
  unfolding test_requested recorded_test send_configured_test record_test
  run_test id r destination duration_ms c s =
      then_call
        (send_configured_test encryption d r (test_sms id r destination c)
          (test_requested id r c s))
        (λ result s.
          then_call (record_test (recorded_test r destination result duration_ms) c s)
            (λ _ s. (ok (test_response result), s)))

  -- `test`
  unfoldable pub test_configuration :
      String → String → ℕ → Call → SmsStore → Result SmsTestResponse × SmsStore
  unfolding require_record validate_record run_test
  test_configuration id destination duration_ms c s =
      then_call (require_record id s, s)
        (λ r s. then_call (validate_record r, s) (λ _ s. run_test id r destination duration_ms c s))

  -- The guard of `activate` on the mock provider
  unfoldable pub mock_guard : SmsConfigurationRecord → Result (Unit {0})
  mock_guard r =
      if str_eq r.provider_key "mock" && not d.mock_allowed then err mock_refused else ok tt

  -- `activate`
  unfoldable pub activate_configuration :
      String → Call → SmsStore → Result SmsConfigurationResponse × SmsStore
  unfolding require_record validate_record mock_guard responded activate
  activate_configuration id c s =
      then_call (require_record id s, s)
        (λ r s.
          then_call (validate_record r, s)
            (λ _ s. then_call (mock_guard r, s) (λ _ s. responded (activate id c s))))

  -- `deactivate`
  unfoldable pub deactivate_configuration :
      String → Call → SmsStore → Result SmsConfigurationResponse × SmsStore
  unfolding responded deactivate
  deactivate_configuration id c s = responded (deactivate id c s)
