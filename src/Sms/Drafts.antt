-- ===== src/Sms/Drafts.antt =====
-- src/notifications/sms-configuration.repository.ts: `create`, `createRevision` and `patchDraft`. Each
-- is one transaction over the tables (Database.antt); the time, the fresh uuid and the randomness
-- of a call are arguments.
use public_parks.Prelude.{ℕ, suc, String, false, Option, none, some, List, [], ◌∷◌, is_none, get_or}
use public_parks.Errors.{Exception, ErrorCode, raised}
use public_parks.Database.{
  Result, err, Tx, ◌>>=◌, ◌>>◌, pure, select, update, commit, in_transaction,
}
use public_parks.Sms.Types.{
  Credentials, EncryptedFieldPayload, platform, SmsConfigurationRecord, MetadataValue, text, number,
  SmsStore, CreateSmsConfigurationInput, PatchSmsConfigurationInput, CreateSmsRevisionInput,
  FieldEncryption,
}
use public_parks.Sms.Rows.{has_id, max_revision}
use public_parks.Sms.Statements.{
  or_throw, require_by_id, append_audit, set_rows, insert_configuration, Call, decrypt_credentials,
  encrypt_credentials, encryption_failed, decryption_failed, guard, revision_metadata,
}

abbrev pub new_row :
    CreateSmsConfigurationInput → Call → EncryptedFieldPayload → SmsConfigurationRecord
new_row input c payload = record {
  id = c.uuid;
  scope_type = platform;
  scope_id = none;
  provider_key = input.provider_key;
  display_name = input.display_name;
  api_url = input.api_url;
  encrypted_credentials = payload;
  sender_id = input.sender_id;
  timeout_ms = input.timeout_ms;
  retry_count = input.retry_count;
  is_enabled = input.is_enabled;
  is_active = false;
  revision = 1;
  last_successful_test_revision = none;
  activated_at = none;
  deactivated_at = none;
  created_by_user_id = c.actor_user_id;
  updated_by_user_id = c.actor_user_id;
  created_at = c.now;
  updated_at = c.now;
}

abbrev pub creation_metadata : CreateSmsConfigurationInput → List (String × MetadataValue)
creation_metadata input =
    ("providerKey", text input.provider_key)
    ∷ ("revision", number 1)
    ∷ ("scopeType", text "platform")
    ∷ []

abbrev pub copy_metadata : String → SmsConfigurationRecord → ℕ → List (String × MetadataValue)
copy_metadata source_id source revision =
    ("providerKey", text source.provider_key)
    ∷ ("revision", number revision)
    ∷ ("sourceConfigurationId", text source_id)
    ∷ []

create_body :
    CreateSmsConfigurationInput → Call → EncryptedFieldPayload → Tx SmsStore SmsConfigurationRecord
unfolding insert_configuration
create_body input c payload = do
  row ← insert_configuration (new_row input c payload)
  append_audit c.actor_user_id "sms_configuration.created" c.uuid (creation_metadata input)
      c.correlation_id
  commit
  pure row

-- A value that has to be computed before the transaction begins, or the exception of computing it.
abbrev pub with_value :
    {A B : Type 0}
    → Exception
    → Option A
    → (A → SmsStore → Result B × SmsStore)
    → SmsStore
    → Result B × SmsStore
with_value e none k s = (err e, s)
with_value e (some a) k s = k a s

module _ (encryption : FieldEncryption Credentials) where
  -- `create`: the credentials are encrypted before the transaction begins.
  unfoldable pub create :
      CreateSmsConfigurationInput → Call → SmsStore → Result SmsConfigurationRecord × SmsStore
  unfolding create_body
  create input c =
      with_value encryption_failed (encrypt_credentials encryption c input.credentials 1)
        (λ payload. in_transaction (create_body input c payload))

  abbrev pub revision_row :
      SmsConfigurationRecord
      → CreateSmsRevisionInput
      → Call
      → ℕ
      → EncryptedFieldPayload
      → SmsConfigurationRecord
  revision_row source input c revision payload = record {
    id = c.uuid;
    scope_type = source.scope_type;
    scope_id = source.scope_id;
    provider_key = source.provider_key;
    display_name = get_or input.display_name source.display_name;
    api_url = get_or input.api_url source.api_url;
    encrypted_credentials = payload;
    sender_id = get_or input.sender_id source.sender_id;
    timeout_ms = get_or input.timeout_ms source.timeout_ms;
    retry_count = get_or input.retry_count source.retry_count;
    is_enabled = get_or input.is_enabled source.is_enabled;
    is_active = false;
    revision = revision;
    last_successful_test_revision = none;
    activated_at = none;
    deactivated_at = none;
    created_by_user_id = c.actor_user_id;
    updated_by_user_id = c.actor_user_id;
    created_at = c.now;
    updated_at = c.now;
  }

  abbrev pub given_or_decrypted :
      CreateSmsRevisionInput → SmsConfigurationRecord → Option Credentials
  given_or_decrypted input source = elim input.credentials [
    | some credentials ↦ some credentials
    | none ↦ decrypt_credentials encryption source
  ]

  -- `createRevision`
  unfoldable pub create_revision :
      String → CreateSmsRevisionInput → Call → SmsStore → Result SmsConfigurationRecord × SmsStore
  unfolding require_by_id insert_configuration
  create_revision source_id input c = in_transaction do
    source ← require_by_id source_id
    highest ← select (λ s. max_revision source s.configurations)
    credentials ← or_throw decryption_failed (given_or_decrypted input source)
    payload ←
        or_throw encryption_failed (encrypt_credentials encryption c credentials (suc highest))
    row ← insert_configuration (revision_row source input c (suc highest) payload)
    append_audit c.actor_user_id "sms_configuration.revision_created" c.uuid
        (copy_metadata source_id source (suc highest)) c.correlation_id
    commit
    pure row

abbrev pub immutable : Exception
immutable =
    raised ErrorCode.resource_conflict "Active configurations are immutable; create a revision."

abbrev pub patched :
    PatchSmsConfigurationInput → Call → SmsConfigurationRecord → SmsConfigurationRecord
patched input c r = record r {
  display_name = get_or input.display_name r.display_name;
  is_enabled = get_or input.is_enabled r.is_enabled;
  updated_by_user_id = c.actor_user_id;
  updated_at = c.now;
}

-- `patchDraft`
unfoldable pub patch_draft :
    String → PatchSmsConfigurationInput → Call → SmsStore → Result SmsConfigurationRecord × SmsStore
unfolding require_by_id
patch_draft id input c = in_transaction do
  current ← require_by_id id
  guard (is_none current.activated_at) immutable
  update (set_rows (has_id id) (patched input c))
  row ← require_by_id id
  append_audit c.actor_user_id "sms_configuration.updated" id (revision_metadata current)
      c.correlation_id
  commit
  pure row
