-- ===== src/Sms/History.antt =====
-- Histories of calls of src/notifications/sms-configuration.repository.ts, each with its arguments,
-- and what holds of the tables at every point of one.
use public_parks.Prelude.{String, ◌≡◌, refl, ◌⊎◌, inl, inr, Bool, true, false, List, [], ◌∷◌, arith}
use public_parks.Database.{Result, ok, err}
use public_parks.Sms.Types.{
  Credentials, SmsStore, CreateSmsConfigurationInput, PatchSmsConfigurationInput,
  CreateSmsRevisionInput, FieldEncryption, AuditLog,
}
use public_parks.Sms.Statements.{Call, audit_log, revision_metadata}
use public_parks.Sms.Drafts.{create, create_revision, patch_draft}
use public_parks.Sms.Activation.{
  activate, deactivate, record_test, RecordedTest, test_action, test_metadata, activation_metadata,
}
use public_parks.Sms.Outcomes.{
  Refused, activate-IsActivation, deactivate-IsDeactivation, record_test_lem,
}
use public_parks.Sms.DraftOutcomes.{
  patch_draft-IsPatch, create-IsInsertion, create_revision-IsRevision,
}
use public_parks.Sms.Invariant.{IsConsistent}
use public_parks.Sms.Consistency.{
  patch_draft-Keeps, deactivate-Keeps, record_test-Keeps, create-Keeps, create_revision-Keeps,
}
use public_parks.Sms.ActivationConsistency.{activate-Keeps}

-- A call of a writing method.
pub data Request : Type 0 where
  creates : CreateSmsConfigurationInput → Request
  revises : (source_id : String) → CreateSmsRevisionInput → Request
  patches : (id : String) → PatchSmsConfigurationInput → Request
  records : RecordedTest → Request
  activates deactivates : (id : String) → Request

abbrev pub succeeded {ℓ} : {A : Type ℓ} → Result A × SmsStore → Bool × SmsStore
succeeded (ok a, s) = (true, s)
succeeded (err e, s) = (false, s)

module _ (encryption : FieldEncryption Credentials) where
  -- Whether the call succeeds, and the tables after it.
  unfoldable pub perform : Call → Request → SmsStore → Bool × SmsStore
  perform c (creates input) s = succeeded (create encryption input c s)
  perform c (revises id input) s = succeeded (create_revision encryption id input c s)
  perform c (patches id input) s = succeeded (patch_draft id input c s)
  perform c (records t) s = succeeded (record_test t c s)
  perform c (activates id) s = succeeded (activate id c s)
  perform c (deactivates id) s = succeeded (deactivate id c s)

  unfoldable pub run : SmsStore → List (Call × Request) → SmsStore
  run s [] = s
  run s ((c, request) ∷ later) = run (perform c request s).1 later

  succeeded_store {ℓ} : {A : Type ℓ} (out : Result A × SmsStore) → (succeeded out).1 ≡ out.1
  succeeded_store (ok a, s) = refl
  succeeded_store (err e, s) = refl

  perform-IsConsistent :
      (c : Call) (request : Request) (s : SmsStore)
      → IsConsistent s.configurations
      → IsConsistent (perform c request s).1.configurations
  unfolding perform
  perform-IsConsistent c (creates input) s inv =
      rw (succeeded_store (create encryption input c s)) (create-Keeps encryption input c s inv)
  perform-IsConsistent c (revises id input) s inv =
      rw (succeeded_store (create_revision encryption id input c s))
        (create_revision-Keeps encryption id input c s inv)
  perform-IsConsistent c (patches id input) s inv =
      rw (succeeded_store (patch_draft id input c s)) (patch_draft-Keeps id input c s inv)
  perform-IsConsistent c (records t) s inv =
      rw (succeeded_store (record_test t c s)) (record_test-Keeps t c s inv)
  perform-IsConsistent c (activates id) s inv =
      rw (succeeded_store (activate id c s)) (activate-Keeps id c s inv)
  perform-IsConsistent c (deactivates id) s inv =
      rw (succeeded_store (deactivate id c s)) (deactivate-Keeps id c s inv)

  -- After any sequence of calls, successful or not, from consistent tables: ids are unique, and so
  -- are revisions in a scope and provider; every scope has at most one active configuration; each
  -- active configuration is enabled, has passed a test at its revision and has an activation time;
  -- and all rows meet the table's checks.
  pub run-IsConsistent :
      (s : SmsStore) (history : List (Call × Request))
      → IsConsistent s.configurations
      → IsConsistent (run s history).configurations
  unfolding run
  run-IsConsistent s [] inv = inv
  run-IsConsistent s ((c, request) ∷ later) inv =
      run-IsConsistent (perform c request s).1 later (perform-IsConsistent c request s inv)

  -- Nothing was written, or exactly one audit entry was added in front of the log.
  abbrev Traced : Bool × SmsStore → SmsStore → Type 0
  Traced out s =
      ((out.0 ≡ false) × (out.1 ≡ s))
      ⊎ ((entry : AuditLog) × (out.0 ≡ true) × (out.1.audit_logs ≡ entry ∷ s.audit_logs))

  Refused-Traced {ℓ} :
      {A : Type ℓ} {out : Result A × SmsStore} {s : SmsStore}
      → Refused out s
      → Traced (succeeded out) s
  Refused-Traced {out = o} {s} (e, failed, same) = inl (ground arith, ground arith)

  -- Every call that fails leaves all tables as they were; every call that succeeds adds exactly one
  -- entry to the audit log, in front of the entries that were there.
  pub perform-Traced :
      (c : Call) (request : Request) (s : SmsStore) → Traced (perform c request s) s
  unfolding perform
  perform-Traced c (creates input) s = elim (create-IsInsertion encryption input c s) [
    | inl refused ↦ Refused-Traced {out = create encryption input c s} refused
    | inr (_, _, i) ↦ inr (i.entry, ground (arith, i.answer), ground (arith, i.answer, i.audited))
  ]
  perform-Traced c (revises id input) s =
      elim (create_revision-IsRevision encryption id input c s) [
        | inl refused ↦ Refused-Traced {out = create_revision encryption id input c s} refused
        | inr r ↦
            let i = r.inserted in
            inr (i.entry, ground (arith, i.answer), ground (arith, i.answer, i.audited))
      ]
  perform-Traced c (patches id input) s = elim (patch_draft-IsPatch id input c s) [
    | inl refused ↦ Refused-Traced {out = patch_draft id input c s} refused
    | inr p ↦ inr (
      audit_log c.actor_user_id "sms_configuration.updated" id (revision_metadata p.current)
          c.correlation_id,
      ground (arith, p.answer),
      ground (arith, p.answer, p.stored),
    )
  ]
  perform-Traced c (records t) s = inr (
    audit_log c.actor_user_id (test_action t) t.configuration.id (test_metadata t) c.correlation_id,
    rw (record_test_lem t c s),
    rw (record_test_lem t c s),
  )
  perform-Traced c (activates id) s = elim (activate-IsActivation id c s) [
    | inl refused ↦ Refused-Traced {out = activate id c s} refused
    | inr a ↦ inr (
      audit_log c.actor_user_id "sms_configuration.activated" id (activation_metadata a.target)
          c.correlation_id,
      ground (arith, a.answer),
      ground (arith, a.answer, a.stored),
    )
  ]
  perform-Traced c (deactivates id) s = elim (deactivate-IsDeactivation id c s) [
    | inl refused ↦ Refused-Traced {out = deactivate id c s} refused
    | inr d ↦ inr (
      audit_log c.actor_user_id "sms_configuration.deactivated" id (revision_metadata d.target)
          c.correlation_id,
      ground (arith, d.answer),
      ground (arith, d.answer, d.stored),
    )
  ]
