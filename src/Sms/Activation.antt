-- ===== src/Sms/Activation.antt =====
-- src/notifications/sms-configuration.repository.ts: `recordTest`, `activate`, `deactivate` and
-- `insertDeliveryAttempt`. The unique index on the active row of a scope is not modelled: Invariant
-- shows that no sequence of calls comes near it. `sms_provider_tests` and `sms_delivery_attempts`
-- have a generated key that nothing reads, which is left out.
use public_parks.Prelude.{
  ℕ, String, Bool, true, false, ◌&&◌, Option, none, some, List, [], ◌∷◌, ◌==◌, if◌then◌else◌,
  get_or,
}
use public_parks.Errors.{Exception, ErrorCode, raised}
use public_parks.Database.{Result, ◌>>=◌, ◌>>◌, pure, update, commit, in_transaction}
use public_parks.Sms.Types.{
  SmsProviderScopeType, platform, city, SmsConfigurationRecord, SmsProviderTest, SmsDeliveryAttempt,
  MetadataValue, text, number, optional_text, SmsStore,
}
use public_parks.Sms.Rows.{same_scope, has_id}
use public_parks.Sms.Statements.{
  require_by_id, append_audit, set_rows, Call, guard, revision_metadata,
}

abbrev pub untested : Exception
untested =
    raised ErrorCode.resource_conflict "The enabled revision must pass a test before activation."

-- The argument of `recordTest`.
pub record RecordedTest : Type 0 where
  pub configuration : SmsConfigurationRecord
  pub destination_hash : String
  pub destination_masked : String
  pub successful : Bool
  pub error_code : Option String
  pub duration_ms : ℕ

abbrev pub test_row : RecordedTest → Call → SmsProviderTest
test_row t c = record {
  sms_provider_configuration_id = t.configuration.id;
  configuration_revision = t.configuration.revision;
  destination_hash = t.destination_hash;
  destination_masked = t.destination_masked;
  is_successful = t.successful;
  error_code = t.error_code;
  duration_ms = t.duration_ms;
  actor_user_id = c.actor_user_id;
}

abbrev pub tested : Call → SmsConfigurationRecord → SmsConfigurationRecord
tested c r = record r {
  last_successful_test_revision = some r.revision;
  updated_at = c.now;
  updated_by_user_id = c.actor_user_id;
}

abbrev pub test_metadata : RecordedTest → List (String × MetadataValue)
test_metadata t =
    ("providerKey", text t.configuration.provider_key)
    ∷ ("revision", number t.configuration.revision)
    ∷ ("errorCode", optional_text t.error_code)
    ∷ []

abbrev pub test_action : RecordedTest → String
test_action t =
    if t.successful then "sms_configuration.test_succeeded" else "sms_configuration.test_failed"

-- `recordTest`
unfoldable pub record_test : RecordedTest → Call → SmsStore → Result (Unit {0}) × SmsStore
record_test t c = in_transaction do
  update (λ s. record s { tests = test_row t c ∷ s.tests })
  update (λ s. if t.successful then set_rows (has_id t.configuration.id) (tested c) s else s)
  append_audit c.actor_user_id (test_action t) t.configuration.id (test_metadata t) c.correlation_id
  commit

abbrev pub passed_test : SmsConfigurationRecord → Bool
passed_test r = elim r.last_successful_test_revision [
  | none ↦ false
  | some tested_revision ↦ tested_revision == r.revision
]

abbrev pub retired : Call → SmsConfigurationRecord → SmsConfigurationRecord
retired c r = record r {
  is_active = false;
  deactivated_at = some c.now;
  updated_at = c.now;
  updated_by_user_id = c.actor_user_id;
}

abbrev pub activated : Call → SmsConfigurationRecord → SmsConfigurationRecord
activated c r = record r {
  is_active = true;
  activated_at = some (get_or r.activated_at c.now);
  deactivated_at = none;
  updated_at = c.now;
  updated_by_user_id = c.actor_user_id;
}

abbrev scope_name : SmsProviderScopeType → String
scope_name platform = "platform"
scope_name city = "city"

abbrev pub activation_metadata : SmsConfigurationRecord → List (String × MetadataValue)
activation_metadata r =
    ("providerKey", text r.provider_key)
    ∷ ("revision", number r.revision)
    ∷ ("scopeType", text (scope_name r.scope_type))
    ∷ []

-- `activate`
unfoldable pub activate : String → Call → SmsStore → Result SmsConfigurationRecord × SmsStore
unfolding require_by_id
activate id c = in_transaction do
  target ← require_by_id id
  guard (target.is_enabled && passed_test target) untested
  update (set_rows (λ r. same_scope r target && r.is_active) (retired c))
  update (set_rows (has_id id) (activated c))
  row ← require_by_id id
  append_audit c.actor_user_id "sms_configuration.activated" id (activation_metadata target)
      c.correlation_id
  commit
  pure row

-- `deactivate`
unfoldable pub deactivate : String → Call → SmsStore → Result SmsConfigurationRecord × SmsStore
unfolding require_by_id
deactivate id c = in_transaction do
  target ← require_by_id id
  update (set_rows (has_id id) (retired c))
  row ← require_by_id id
  append_audit c.actor_user_id "sms_configuration.deactivated" id (revision_metadata target)
      c.correlation_id
  commit
  pure row

-- `insertDeliveryAttempt`, for a message id and an error code that fit their columns, of 160 and 80
-- characters; a longer one would make it throw.
unfoldable pub insert_delivery_attempt : SmsDeliveryAttempt → SmsStore → SmsStore
insert_delivery_attempt row s = record s { delivery_attempts = row ∷ s.delivery_attempts }
