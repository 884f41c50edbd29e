-- ===== src/Sms/Dispatcher.antt =====
-- src/notifications/sms-dispatcher.ts. The waits of `delay` are recorded, in milliseconds.
pub mod Attempts
pub mod Retries
use public_parks.Prelude.{
  ℕ, zero, suc, ◌+◌, ◌-◌, ◌*◌, ◌^◌, min, String, Bool, true, false, not, ◌&&◌, ◌||◌, Option, none,
  some, List, [], ◌∷◌, ◌++◌, str_eq, ltb, leb, if◌then◌else◌,
}
use public_parks.Errors.{Exception, ErrorCode, raised}
use public_parks.Database.{Result, ok, err}
use public_parks.Sms.Types.{
  Credentials, SmsFailureClassification, transient, permanent, configuration, SendSmsResult,
  ResolvedSmsConfiguration, SmsConfigurationRecord, SmsDeliveryAttempt, SmsDeliveryStatus, SmsStore,
  FieldEncryption,
}
use public_parks.Sms.Activation.{insert_delivery_attempt}
use public_parks.Sms.Statements.{decrypt_credentials, decryption_failed}
use public_parks.Sms.Providers.{
  SendSmsRequest, ProviderReply, SmsProvider, get_provider, resolved_configuration, resolve,
}

-- The input of `send` without the city, which the resolver does not look at.
pub record SmsMessage : Type 0 where
  pub destination : String
  pub message : String
  pub idempotency_key : String
  pub purpose : String

-- What the dispatcher is constructed with: the registry, the lookup hash, and whether the
-- environment is development or test.
pub record Dispatching : Type 0 where
  pub providers : List SmsProvider
  pub hash_sensitive_lookup : String → String
  pub mock_allowed : Bool

abbrev rejected : Option SendSmsResult → SendSmsResult
rejected none = SendSmsResult.failed transient "PROVIDER_ERROR"
rejected (some result) = result

-- `executeAttempt`: the race of the provider's promise with the timer; a promise that settles in
-- the millisecond of the timer has lost.
unfoldable pub execute_attempt :
    SmsProvider → ResolvedSmsConfiguration → SmsMessage → ℕ → SendSmsResult
execute_attempt provider c m attempt =
    let reply =
      provider.send_sms
        (record {
          destination = m.destination;
          message = m.message;
          idempotency_key = m.idempotency_key;
          configuration = c.base;
        })
        attempt in
    if ltb reply.takes_ms c.timeout_ms
    then rejected reply.settles
    else SendSmsResult.failed transient "TIMEOUT"

abbrev pub status_of : SendSmsResult → SmsDeliveryStatus
status_of (SendSmsResult.sent id) = SmsDeliveryStatus.sent
status_of (SendSmsResult.failed classification code) = SmsDeliveryStatus.failed

abbrev message_id : SendSmsResult → Option String
message_id (SendSmsResult.sent id) = id
message_id (SendSmsResult.failed classification code) = none

abbrev error_of : SendSmsResult → Option String
error_of (SendSmsResult.sent id) = none
error_of (SendSmsResult.failed classification code) = some code

-- `lastResult.success || lastResult.classification !== 'transient'`
abbrev pub stops : SendSmsResult → Bool
stops (SendSmsResult.failed transient code) = false
stops _ = true

-- `Math.min(100 * 2 ** (attempt - 1), 800)`
abbrev pub backoff : ℕ → ℕ
backoff attempt = min (100 * 2 ^ (attempt - 1)) 800

-- The tables, and the delays so far.
pub record Progress : Type 0 where
  pub store : SmsStore
  pub waits : List ℕ

module _ (d : Dispatching) (r : SmsConfigurationRecord) (c : ResolvedSmsConfiguration)
    (m : SmsMessage) where
  abbrev pub attempt_row : SendSmsResult → ℕ → SmsDeliveryAttempt
  attempt_row result attempt = record {
    sms_provider_configuration_id = r.id;
    provider_key = r.provider_key;
    purpose = m.purpose;
    destination_hash = d.hash_sensitive_lookup m.destination;
    delivery_status = status_of result;
    provider_message_id = message_id result;
    error_code = error_of result;
    attempt_number = attempt;
  }

  abbrev pub recorded : SendSmsResult → ℕ → Progress → Progress
  recorded result attempt p = record p {
    store = insert_delivery_attempt (attempt_row result attempt) p.store;
  }

  abbrev pub delayed : ℕ → Progress → Progress
  delayed attempt p =
      if leb attempt c.retry_count then record p { waits = p.waits ++ backoff attempt ∷ [] } else p

  -- The `for` loop, with the rounds that are left.
  unfoldable pub deliver_from :
      SmsProvider → ℕ → ℕ → SendSmsResult → Progress → SendSmsResult × Progress
  unfolding insert_delivery_attempt
  deliver_from provider zero attempt last p = (last, p)
  deliver_from provider (suc rounds) attempt last p =
      let result = execute_attempt provider c m attempt in
      let more =
        deliver_from provider rounds (attempt + 1) result
          (delayed attempt (recorded result attempt p)) in
      if stops result then (result, recorded result attempt p) else more

  abbrev not_empty : List String → Bool
  not_empty [] = false
  not_empty (e ∷ es) = true

  abbrev pub invalid : SmsProvider → Bool
  invalid provider =
      not_empty (provider.validate_configuration c.base)
      || not (provider.is_api_host_permitted c.api_url)

  abbrev pub unavailable_provider : SmsProvider → Bool
  unavailable_provider provider = str_eq provider.provider_key "mock" && not d.mock_allowed

  abbrev pub refusal : String → SendSmsResult
  refusal code = SendSmsResult.failed configuration code

  -- `sendWithConfiguration`, when the registry has the provider.
  unfoldable pub send_with_provider : SmsProvider → SmsStore → SendSmsResult × Progress
  send_with_provider provider s =
      let delivery =
        deliver_from provider (c.retry_count + 1) 1
          (SendSmsResult.failed transient "DELIVERY_FAILED") (record { store = s; waits = [] }) in
      if unavailable_provider provider
      then (refusal "PROVIDER_UNAVAILABLE", record { store = s; waits = [] })
      else if invalid provider
      then (refusal "INVALID_CONFIGURATION", record { store = s; waits = [] })
      else delivery

  -- `sendWithConfiguration`
  unfoldable pub send_with_configuration : SmsStore → SendSmsResult × Progress
  unfolding send_with_provider
  send_with_configuration s = elim (get_provider c.provider_key d.providers) [
    | none ↦ (refusal "PROVIDER_UNAVAILABLE", record { store = s; waits = [] })
    | some provider ↦ send_with_provider provider s
  ]

abbrev pub unavailable : Exception
unavailable = raised ErrorCode.sms_delivery_unavailable "SMS delivery is temporarily unavailable."

abbrev reported : SendSmsResult × Progress → Result (Unit {0}) × SmsStore
reported (SendSmsResult.sent id, p) = (ok tt, p.store)
reported (SendSmsResult.failed classification code, p) = (err unavailable, p.store)

module _ (encryption : FieldEncryption Credentials) (d : Dispatching) where
  -- `send`
  unfoldable pub send : SmsMessage → SmsStore → Result (Unit {0}) × SmsStore
  unfolding resolve
  send m s = elim (resolve encryption s) [
    | err e ↦ (err e, s)
    | ok none ↦ (err unavailable, s)
    | ok (some (r, c)) ↦ reported (send_with_configuration d r c m s)
  ]

  -- `sendConfiguredTest`, which sets the purpose of the message itself.
  unfoldable pub send_configured_test :
      SmsConfigurationRecord → SmsMessage → SmsStore → Result SendSmsResult × SmsStore
  send_configured_test r m s = elim (decrypt_credentials encryption r) [
    | none ↦ (err decryption_failed, s)
    | some credentials ↦
        let (result, p) =
          send_with_configuration d r (resolved_configuration r credentials)
            (record m { purpose = "configuration_test" }) s in
        (ok result, p.store)
  ]
