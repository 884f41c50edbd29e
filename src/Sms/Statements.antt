-- ===== src/Sms/Statements.antt =====
-- src/notifications/sms-configuration.repository.ts: the queries, and the private helpers that its
-- methods share.
use public_parks.Prelude.{
  ℕ, String, Bool, true, false, ◌&&◌, Option, none, some, List, [], ◌∷◌, if◌then◌else◌, any,
  template, decimal,
}
use public_parks.Errors.{Exception, ErrorCode, other, raised}
use public_parks.Database.{
  Tx, ◌>>=◌, ◌>>◌, pure, raise, select, update, insert_unless, find?, update_where,
}
use public_parks.Sms.Types.{
  Credentials, EncryptedFieldPayload, SmsConfigurationRecord, MetadataValue, text, number, AuditLog,
  SmsStore, FieldEncryption,
}
use public_parks.Sms.Rows.{is_platform, has_id, row_allowed, collides}

-- `credentialsAad`
unfoldable pub credentials_aad : String → ℕ → String
credentials_aad id revision =
    template ("sms-provider-configuration:" ∷ id ∷ ":revision:" ∷ decimal revision ∷ [])

abbrev pub check_violation : Exception
check_violation = other "new row violates check constraint"

abbrev pub or_throw : {S A : Type 0} → Exception → Option A → Tx S A
or_throw e none = raise e
or_throw e (some a) = pure a

-- `requireById`
abbrev pub not_found : Exception
not_found = raised ErrorCode.resource_not_found "SMS configuration not found."

-- Also for the row that an UPDATE of one row returns.
unfoldable pub require_by_id : String → Tx SmsStore SmsConfigurationRecord
require_by_id id = do row ← select (λ s. find? (has_id id) s.configurations); or_throw not_found row

-- `appendAudit`
abbrev pub audit_log :
    String → String → String → List (String × MetadataValue) → Option String → AuditLog
audit_log actor_id action target_id metadata correlation_id = record {
  actor_id = actor_id;
  action = action;
  target_id = target_id;
  metadata = metadata;
  correlation_id = correlation_id;
}

abbrev pub append_audit :
    String
    → String
    → String
    → List (String × MetadataValue)
    → Option String
    → Tx SmsStore (Unit {0})
append_audit actor_id action target_id metadata correlation_id = update λ s. record s {
  audit_logs = audit_log actor_id action target_id metadata correlation_id ∷ s.audit_logs;
}

abbrev pub set_rows :
    (SmsConfigurationRecord → Bool)
    → (SmsConfigurationRecord → SmsConfigurationRecord)
    → SmsStore
    → SmsStore
set_rows p f s = record s { configurations = update_where p f s.configurations }

-- `INSERT … RETURNING *`
unfoldable pub insert_configuration : SmsConfigurationRecord → Tx SmsStore SmsConfigurationRecord
insert_configuration row =
    if row_allowed row
    then (do
      insert_unless (λ s. any (collides row) s.configurations)
          (λ s. record s { configurations = row ∷ s.configurations })
      pure row)
    else raise check_violation

-- The arguments that every call has besides its input.
pub record Call : Type 0 where
  pub actor_user_id : String
  pub correlation_id : Option String
  pub now : ℕ
  pub uuid : String
  pub randomness : ℕ

-- `getById`
unfoldable pub get_by_id : String → SmsStore → Option SmsConfigurationRecord
get_by_id id s = find? (has_id id) s.configurations

-- `resolvePlatformActive`
unfoldable pub resolve_platform_active : SmsStore → Option SmsConfigurationRecord
resolve_platform_active s =
    find? (λ r. is_platform r && (r.is_active && r.is_enabled)) s.configurations

abbrev pub encryption_failed : Exception
encryption_failed = other "Active field-encryption key is unavailable"

abbrev pub decryption_failed : Exception
decryption_failed = other "Field-encryption key is unavailable"

abbrev pub guard : {S : Type 0} → Bool → Exception → Tx S (Unit {0})
guard true e = pure tt
guard false e = raise e

abbrev pub revision_metadata : SmsConfigurationRecord → List (String × MetadataValue)
revision_metadata r = ("providerKey", text r.provider_key) ∷ ("revision", number r.revision) ∷ []

module _ (encryption : FieldEncryption Credentials) where
  -- `decryptCredentials`; `none` where it throws.
  unfoldable pub decrypt_credentials : SmsConfigurationRecord → Option Credentials
  decrypt_credentials r =
      encryption.decrypt_json r.encrypted_credentials (credentials_aad r.id r.revision)

  unfoldable pub encrypt_credentials : Call → Credentials → ℕ → Option EncryptedFieldPayload
  encrypt_credentials c credentials revision =
      encryption.encrypt_json c.randomness credentials (credentials_aad c.uuid revision)
