-- ===== src/Sms/DraftOutcomes.antt =====
-- What a successful `create`, `createRevision` and `patchDraft` do to the rows
-- (src/notifications/sms-configuration.repository.ts), and that a refused call changes nothing.
use public_parks.Prelude.{
  suc, String, ◌≡◌, refl, ◌⊎◌, inl, inr, true, false, none, some, ◌∷◌, arith, Bool-cases,
  Option-cases, is_none, any,
}
use public_parks.Database.{Result, ok, find?, update_where, unique_violation}
use public_parks.Sms.Types.{
  Credentials, EncryptedFieldPayload, SmsConfigurationRecord, SmsStore, AuditLog,
  CreateSmsConfigurationInput, PatchSmsConfigurationInput, CreateSmsRevisionInput, FieldEncryption,
}
use public_parks.Sms.Rows.{has_id, collides, row_allowed, max_revision}
use public_parks.Sms.Statements.{
  Call, not_found, audit_log, revision_metadata, check_violation, encrypt_credentials,
  encryption_failed, decryption_failed,
}
use public_parks.Sms.Drafts.{
  create, create_revision, patch_draft, new_row, revision_row, patched, immutable,
  given_or_decrypted, creation_metadata, copy_metadata,
}
use public_parks.Sms.Outcomes.{Refused, found_after}

-- The row is there and was never active; its name and its `enabled` flag are set where given.
pub record IsPatch (id : String) (input : PatchSmsConfigurationInput) (c : Call) (s : SmsStore)
    (out : Result SmsConfigurationRecord × SmsStore) : Type 0 where
  pub current : SmsConfigurationRecord
  pub found : find? (has_id id) s.configurations ≡ some current
  pub draft : current.activated_at ≡ none
  pub answer : out.0 ≡ ok (patched input c current)
  pub stored : out.1 ≡ record s {
    configurations = update_where (has_id id) (patched input c) s.configurations;
    audit_logs =
        audit_log c.actor_user_id "sms_configuration.updated" id
          (revision_metadata current)
          c.correlation_id
        ∷ s.audit_logs;
  }

pub patch_draft-IsPatch :
    (id : String) (input : PatchSmsConfigurationInput) (c : Call) (s : SmsStore)
    → Refused (patch_draft id input c s) s ⊎ IsPatch id input c s (patch_draft id input c s)
unfolding patch_draft
patch_draft-IsPatch id input c s = elim (Option-cases (find? (has_id id) s.configurations)) [
  | inl missing ↦ inl (not_found, ground arith, ground arith)
  | inr (current, found) ↦
      let again = found_after id (patched input c) (λ r. refl) s current found in
      elim (Bool-cases (is_none current.activated_at)) [
        | inr active ↦ inl (immutable, ground arith, ground arith)
        | inl draft ↦ inr (record {
          current = current;
          found = found;
          draft = ground arith;
          answer = ground (arith, again);
          stored = ground (arith, again);
        })
      ]
]

-- A new row was put in: it meets the checks of the table and collides with no row.
pub record IsInsertion (row : SmsConfigurationRecord) (s : SmsStore)
    (out : Result SmsConfigurationRecord × SmsStore) : Type 0 where
  pub allowed : row_allowed row ≡ true
  pub separate : any (collides row) s.configurations ≡ false
  pub answer : out.0 ≡ ok row
  pub rows : out.1.configurations ≡ row ∷ s.configurations
  pub entry : AuditLog
  pub audited : out.1.audit_logs ≡ entry ∷ s.audit_logs

module _ (encryption : FieldEncryption Credentials) where
  pub create-IsInsertion :
      (input : CreateSmsConfigurationInput) (c : Call) (s : SmsStore)
      → Refused (create encryption input c s) s
        ⊎ ((payload : EncryptedFieldPayload) × (encrypt_credentials encryption c input.credentials 1
              ≡ some payload)
            × IsInsertion (new_row input c payload) s (create encryption input c s))
  unfolding create
  create-IsInsertion input c s =
      elim (Option-cases (encrypt_credentials encryption c input.credentials 1)) [
        | inl failed ↦ inl (encryption_failed, ground arith, ground arith)
        | inr (payload, e) ↦ elim (Bool-cases (row_allowed (new_row input c payload))) [
          | inr bad ↦ inl (check_violation, ground arith, ground arith)
          | inl good ↦
              elim (Bool-cases (any (collides (new_row input c payload)) s.configurations)) [
                | inl hit ↦ inl (unique_violation, ground arith, ground arith)
                | inr apart ↦ inr (
                  payload,
                  e,
                  record {
                    allowed = good;
                    separate = apart;
                    answer = ground arith;
                    rows = ground arith;
                    entry =
                        audit_log c.actor_user_id "sms_configuration.created" c.uuid
                          (creation_metadata input) c.correlation_id;
                    audited = ground arith;
                  },
                )
              ]
        ]
      ]

  -- The source is there, and the new row copies it with what the input gives, at the revision
  -- after the highest of its scope and provider.
  pub record IsRevision (source_id : String) (input : CreateSmsRevisionInput) (c : Call)
      (s : SmsStore) (out : Result SmsConfigurationRecord × SmsStore) : Type 0 where
    pub source : SmsConfigurationRecord
    pub found : find? (has_id source_id) s.configurations ≡ some source
    pub credentials : Credentials
    pub given : given_or_decrypted encryption input source ≡ some credentials
    pub payload : EncryptedFieldPayload
    pub encrypted :
        encrypt_credentials encryption c credentials (suc (max_revision source s.configurations))
        ≡ some payload
    pub inserted :
        IsInsertion
          (revision_row encryption source input c
            (suc (max_revision source s.configurations))
            payload)
          s
          out

  module _ (source_id : String) (input : CreateSmsRevisionInput) (c : Call) (s : SmsStore)
      (source : SmsConfigurationRecord)
      (found : find? (has_id source_id) s.configurations ≡ some source) (credentials : Credentials)
      (given : given_or_decrypted encryption input source ≡ some credentials)
      (payload : EncryptedFieldPayload)
      (encrypted : encrypt_credentials encryption c credentials
          (suc (max_revision source s.configurations))
        ≡ some payload) where
    IsRevision-inserted :
        Refused (create_revision encryption source_id input c s) s
        ⊎ IsRevision source_id input c s (create_revision encryption source_id input c s)
    unfolding create_revision
    IsRevision-inserted =
        let row =
          revision_row encryption source input c (suc (max_revision source s.configurations))
            payload in
        elim (Bool-cases (row_allowed row)) [
          | inr bad ↦ inl (check_violation, ground arith, ground arith)
          | inl good ↦ elim (Bool-cases (any (collides row) s.configurations)) [
            | inl hit ↦ inl (unique_violation, ground arith, ground arith)
            | inr apart ↦ inr (record {
              source = source;
              found = found;
              credentials = credentials;
              given = given;
              payload = payload;
              encrypted = encrypted;
              inserted = record {
                allowed = good;
                separate = apart;
                answer = ground arith;
                rows = ground arith;
                entry =
                    audit_log c.actor_user_id "sms_configuration.revision_created" c.uuid
                      (copy_metadata source_id source (suc (max_revision source s.configurations)))
                      c.correlation_id;
                audited = ground arith;
              };
            })
          ]
        ]

  pub create_revision-IsRevision :
      (source_id : String) (input : CreateSmsRevisionInput) (c : Call) (s : SmsStore)
      → Refused (create_revision encryption source_id input c s) s
        ⊎ IsRevision source_id input c s (create_revision encryption source_id input c s)
  unfolding create_revision
  create_revision-IsRevision source_id input c s =
      elim (Option-cases (find? (has_id source_id) s.configurations)) [
        | inl missing ↦ inl (not_found, ground arith, ground arith)
        | inr (source, found) ↦ elim (Option-cases (given_or_decrypted encryption input source)) [
          | inl locked ↦ inl (decryption_failed, ground arith, ground arith)
          | inr (credentials, given) ↦
              let highest = max_revision source s.configurations in
              elim (Option-cases (encrypt_credentials encryption c credentials (suc highest))) [
                | inl failed ↦ inl (encryption_failed, ground arith, ground arith)
                | inr (payload, e) ↦
                    IsRevision-inserted source_id input c s source found credentials given payload e
              ]
        ]
      ]
