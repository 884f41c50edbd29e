-- ===== src/Sms/Types.antt =====
-- src/notifications/sms-provider.types.ts and sms-configuration.types.ts, and the tables of
-- src/database/drizzle.schema.ts that the SMS configuration repository writes. Uuids are their
-- texts; times are milliseconds.
use public_parks.Prelude.{ℕ, String, Bool, Option, List}

pub data SmsFailureClassification : Type 0 where
  transient permanent configuration : SmsFailureClassification

-- `Record<string, string>`
abbrev pub Credentials : Type 0
Credentials = List (String × String)

pub record SmsCredentialFieldDefinition : Type 0 where
  pub key : String
  pub label : String
  pub required : Bool

pub record SmsProviderConfiguration : Type 0 where
  pub api_url : Option String
  pub credentials : Credentials
  pub sender_id : Option String
  pub timeout_ms : ℕ
  pub retry_count : ℕ

pub data SendSmsResult : Type 0 where
  sent : (provider_message_id : Option String) → SendSmsResult
  failed : SmsFailureClassification → (error_code : String) → SendSmsResult

pub record ResolvedSmsConfiguration : Type 0 where
  pub base : SmsProviderConfiguration
  pub open base use *
  pub id : String
  pub provider_key : String
  pub revision : ℕ

-- `EncryptedFieldPayload`
pub record EncryptedFieldPayload : Type 0 where
  pub key_id : String
  pub iv : String
  pub ciphertext : String
  pub auth_tag : String

pub data SmsProviderScopeType : Type 0 where
  platform city : SmsProviderScopeType

-- `SmsConfigurationRecord`, with the two user columns of the table.
pub record SmsConfigurationRecord : Type 0 where
  pub id : String
  pub scope_type : SmsProviderScopeType
  pub scope_id : Option String
  pub provider_key : String
  pub display_name : String
  pub api_url : Option String
  pub encrypted_credentials : EncryptedFieldPayload
  pub sender_id : Option String
  pub timeout_ms : ℕ
  pub retry_count : ℕ
  pub is_enabled : Bool
  pub is_active : Bool
  pub revision : ℕ
  pub last_successful_test_revision : Option ℕ
  pub activated_at : Option ℕ
  pub deactivated_at : Option ℕ
  pub created_by_user_id : String
  pub updated_by_user_id : String
  pub created_at : ℕ
  pub updated_at : ℕ

-- A row of `sms_provider_tests`.
pub record SmsProviderTest : Type 0 where
  pub sms_provider_configuration_id : String
  pub configuration_revision : ℕ
  pub destination_hash : String
  pub destination_masked : String
  pub is_successful : Bool
  pub error_code : Option String
  pub duration_ms : ℕ
  pub actor_user_id : String

pub data SmsDeliveryStatus : Type 0 where
  sent failed : SmsDeliveryStatus

-- A row of `sms_delivery_attempts`.
pub record SmsDeliveryAttempt : Type 0 where
  pub sms_provider_configuration_id : String
  pub provider_key : String
  pub purpose : String
  pub destination_hash : String
  pub delivery_status : SmsDeliveryStatus
  pub provider_message_id : Option String
  pub error_code : Option String
  pub attempt_number : ℕ

pub data MetadataValue : Type 0 where
  text : String → MetadataValue
  number : ℕ → MetadataValue
  optional_text : Option String → MetadataValue

-- A row of `audit_logs`, the columns that these statements fill.
pub record AuditLog : Type 0 where
  pub actor_id : String
  pub action : String
  pub target_id : String
  pub metadata : List (String × MetadataValue)
  pub correlation_id : Option String

-- The tables that the repository reads and writes.
pub record SmsStore : Type 0 where
  pub configurations : List SmsConfigurationRecord
  pub tests : List SmsProviderTest
  pub delivery_attempts : List SmsDeliveryAttempt
  pub audit_logs : List AuditLog

pub record CreateSmsConfigurationInput : Type 0 where
  pub provider_key : String
  pub display_name : String
  pub api_url : Option String
  pub credentials : Credentials
  pub sender_id : Option String
  pub timeout_ms : ℕ
  pub retry_count : ℕ
  pub is_enabled : Bool

pub record PatchSmsConfigurationInput : Type 0 where
  pub display_name : Option String
  pub is_enabled : Option Bool

-- A field left out is `none`; `apiUrl` and `senderId` may also be given as null, `some none`.
pub record CreateSmsRevisionInput : Type 0 where
  pub display_name : Option String
  pub api_url : Option (Option String)
  pub credentials : Option Credentials
  pub sender_id : Option (Option String)
  pub timeout_ms : Option ℕ
  pub retry_count : Option ℕ
  pub is_enabled : Option Bool

-- What the repositories ask of src/common/security/field-encryption.service.ts: a value is
-- encrypted with fresh randomness and associated data, and a payload decrypted with associated data;
-- `none` is where the service throws.
pub record FieldEncryption (A : Type 0) : Type 0 where
  pub encrypt_json : ℕ → A → String → Option EncryptedFieldPayload
  pub decrypt_json : EncryptedFieldPayload → String → Option A
