-- ===== src/Sms/Revisions.antt =====
-- `createRevision` of src/notifications/sms-configuration.repository.ts numbers revisions upwards.
use public_parks.Prelude.{
  ℕ, suc, ◌≤◌, ◌<◌, String, ◌≡◌, refl, subst, inl, inr, true, false, none, List, [], ◌∷◌, arith,
  All, All-map,
}
use public_parks.Database.{ok}
use public_parks.Sms.Types.{
  Credentials, SmsConfigurationRecord, SmsStore, CreateSmsRevisionInput, FieldEncryption,
}
use public_parks.Sms.Rows.{same_line, max_revision}
use public_parks.Sms.Statements.{Call}
use public_parks.Sms.Drafts.{create_revision, revision_row}
use public_parks.Sms.DraftOutcomes.{create_revision-IsRevision}

max_revision-bounds :
    (source : SmsConfigurationRecord) (rows : List SmsConfigurationRecord) (n : ℕ)
    → max_revision source rows ≤ n
    → All (λ r. same_line r source ≡ true → r.revision ≤ n) rows
unfolding max_revision
max_revision-bounds source [] n h = tt
max_revision-bounds source (r ∷ rs) n h =
    (λ line. ground (arith, line), max_revision-bounds source rs n (ground arith))

-- The row was added in front of those of `s`; it is not active and has passed no test, and its
-- revision is above that of every row of its scope and provider.
abbrev pub IsNewest : SmsStore → SmsStore → SmsConfigurationRecord → Type 0
IsNewest s' s row =
    (s'.configurations ≡ row ∷ s.configurations)
    × (row.is_active ≡ false)
    × (row.last_successful_test_revision ≡ none)
    × All (λ r. same_line r row ≡ true → r.revision < row.revision) s.configurations

-- A successful `createRevision` adds one row, which is not active and has passed no test, and whose
-- revision is above that of every row of its scope and provider.
pub create_revision-IsNewest :
    (encryption : FieldEncryption Credentials) (source_id : String) (input : CreateSmsRevisionInput)
    (c : Call) (s : SmsStore) (row : SmsConfigurationRecord)
    → (create_revision encryption source_id input c s).0 ≡ ok row
    → IsNewest (create_revision encryption source_id input c s).1 s row
create_revision-IsNewest encryption source_id input c s row done =
    elim (create_revision-IsRevision encryption source_id input c s) [
      | inl (e, failed, _) ↦ absurd (cc (done, failed))
      | inr r ↦
          let highest = max_revision r.source s.configurations in
          let copy = revision_row encryption r.source input c (suc highest) r.payload in
          let same : copy ≡ row = ground (arith, r.inserted.answer) in
          subst (IsNewest (create_revision encryption source_id input c s).1 s) same (
            r.inserted.rows,
            refl,
            refl,
            All-map _ _ (λ q bound line. omega (arith, bound line)) s.configurations
                (max_revision-bounds r.source s.configurations highest (omega arith)),
          )
    ]
