-- ===== src/Sms/Consistency.antt =====
-- Every method of src/notifications/sms-configuration.repository.ts that writes keeps the invariant
-- of the configurations, and so does every sequence of calls.
use public_parks.Prelude.{
  String, ◌≡◌, refl, sym, subst, inl, inr, Bool, true, false, none, List, arith, ==_refl,
  Bool-cases, All-map, All-map₂, All-of,
}
use public_parks.Database.{Result, update_where}
use public_parks.Sms.Types.{
  Credentials, SmsConfigurationRecord, SmsStore, CreateSmsConfigurationInput,
  PatchSmsConfigurationInput, CreateSmsRevisionInput, FieldEncryption,
}
use public_parks.Sms.Rows.{has_id, row_allowed}
use public_parks.Sms.Statements.{Call}
use public_parks.Sms.Drafts.{create, create_revision, patch_draft, patched}
use public_parks.Sms.Activation.{deactivate, record_test, activated, retired, tested, RecordedTest}
use public_parks.Sms.Outcomes.{Refused, deactivate-IsDeactivation, record_test_lem}
use public_parks.Sms.DraftOutcomes.{
  patch_draft-IsPatch, IsInsertion, create-IsInsertion, create_revision-IsRevision,
}
use public_parks.Sms.Uniqueness.{SameKey, found_is_only}
use public_parks.Sms.Invariant.{IsConsistent, IsReady, update-IsConsistent, quiet_single}

abbrev pub Keeps : SmsStore → SmsStore → Type 0
Keeps s s' = IsConsistent s.configurations → IsConsistent s'.configurations

pub Refused-Keeps {ℓ} :
    {A : Type ℓ} {out : Result A × SmsStore} {s : SmsStore} → Refused out s → Keeps s out.1
Refused-Keeps (e, _, same) inv = subst (λ t. IsConsistent t.configurations) (sym same) inv

-- A row with fresh key columns that is not active.
insertion-Keeps :
    {row : SmsConfigurationRecord} {s : SmsStore} {out : Result SmsConfigurationRecord × SmsStore}
    → row.is_active ≡ false
    → IsInsertion row s out
    → Keeps s out.1
insertion-Keeps {row} {s} idle i inv = subst IsConsistent (sym i.rows) (record {
  separate = (i.separate, inv.separate);
  single = λ t. ground (arith, inv.single t);
  ready = (λ active. cc, inv.ready);
  allowed = (i.allowed, inv.allowed);
})

patched-SameKey :
    (input : PatchSmsConfigurationInput) (c : Call) (r : SmsConfigurationRecord)
    → SameKey (patched input c r) r
patched-SameKey input c r = record {
  id = refl;
  scope_type = refl;
  scope_id = refl;
  provider_key = refl;
  revision = refl;
}

patched-allowed :
    (input : PatchSmsConfigurationInput) (c : Call) (r : SmsConfigurationRecord)
    → row_allowed (patched input c r) ≡ row_allowed r
unfolding row_allowed
patched-allowed input c r = refl

retired-SameKey : (c : Call) (r : SmsConfigurationRecord) → SameKey (retired c r) r
retired-SameKey c r = record {
  id = refl;
  scope_type = refl;
  scope_id = refl;
  provider_key = refl;
  revision = refl;
}

retired-allowed :
    (c : Call) (r : SmsConfigurationRecord) → row_allowed (retired c r) ≡ row_allowed r
unfolding row_allowed
retired-allowed c r = refl

tested-SameKey : (c : Call) (r : SmsConfigurationRecord) → SameKey (tested c r) r
tested-SameKey c r = record {
  id = refl;
  scope_type = refl;
  scope_id = refl;
  provider_key = refl;
  revision = refl;
}

tested-allowed : (c : Call) (r : SmsConfigurationRecord) → row_allowed (tested c r) ≡ row_allowed r
unfolding row_allowed
tested-allowed c r = refl

pub activated-SameKey : (c : Call) (r : SmsConfigurationRecord) → SameKey (activated c r) r
activated-SameKey c r = record {
  id = refl;
  scope_type = refl;
  scope_id = refl;
  provider_key = refl;
  revision = refl;
}

pub activated-allowed :
    (c : Call) (r : SmsConfigurationRecord) → row_allowed (activated c r) ≡ row_allowed r
unfolding row_allowed
activated-allowed c r = refl

draft_idle :
    {r current : SmsConfigurationRecord}
    → r ≡ current
    → current.activated_at ≡ none
    → IsReady r
    → r.is_active ≡ true
    → ⊥
draft_idle same draft ready active = let late = (ready active).2 in cc (same, draft, late)

pub patch_draft-Keeps :
    (id : String) (input : PatchSmsConfigurationInput) (c : Call) (s : SmsStore)
    → Keeps s (patch_draft id input c s).1
patch_draft-Keeps id input c s inv = elim (patch_draft-IsPatch id input c s) [
  | inl refused ↦ Refused-Keeps refused inv
  | inr p ↦ rw p.stored (
      update-IsConsistent (has_id id) (patched input c) (patched-SameKey input c)
        (patched-allowed input c) s.configurations inv
        (All-map₂ _ _ _ (λ r only old hit active. absurd (draft_idle (only hit) p.draft old active))
          s.configurations (found_is_only id s.configurations inv.separate p.found) inv.ready)
        (quiet_single (has_id id) (patched input c) (patched-SameKey input c)
          (patched-allowed input c) s.configurations inv (λ r h. h)))
]

pub retiring-IsConsistent :
    (p : SmsConfigurationRecord → Bool) (c : Call) (rows : List SmsConfigurationRecord)
    → IsConsistent rows
    → IsConsistent (update_where p (retired c) rows)
retiring-IsConsistent p c rows inv =
    update-IsConsistent p (retired c) (retired-SameKey c) (retired-allowed c) rows inv
      (All-of _ (λ r hit active. cc) rows)
      (quiet_single p (retired c) (retired-SameKey c) (retired-allowed c) rows inv (λ r h. cc))

pub deactivate-Keeps : (id : String) (c : Call) (s : SmsStore) → Keeps s (deactivate id c s).1
deactivate-Keeps id c s inv = elim (deactivate-IsDeactivation id c s) [
  | inl refused ↦ Refused-Keeps refused inv
  | inr p ↦ rw p.stored (retiring-IsConsistent (has_id id) c s.configurations inv)
]

tested-IsReady : (c : Call) (r : SmsConfigurationRecord) → IsReady r → IsReady (tested c r)
tested-IsReady c r old active = ((old active).0, ==_refl r.revision, (old active).2)

pub record_test-Keeps : (t : RecordedTest) (c : Call) (s : SmsStore) → Keeps s (record_test t c s).1
record_test-Keeps t c s inv = rw (record_test_lem t c s) (elim (Bool-cases t.successful) [
  | inr unsuccessful ↦ rw unsuccessful inv
  | inl successful ↦ rw successful (
      update-IsConsistent (has_id t.configuration.id) (tested c) (tested-SameKey c)
        (tested-allowed c) s.configurations inv
        (All-map _ _ (λ r old hit. tested-IsReady c r old) s.configurations inv.ready)
        (quiet_single (has_id t.configuration.id) (tested c) (tested-SameKey c) (tested-allowed c)
          s.configurations inv (λ r h. h)))
])

module _ (encryption : FieldEncryption Credentials) where
  pub create-Keeps :
      (input : CreateSmsConfigurationInput) (c : Call) (s : SmsStore)
      → Keeps s (create encryption input c s).1
  create-Keeps input c s inv = elim (create-IsInsertion encryption input c s) [
    | inl refused ↦ Refused-Keeps refused inv
    | inr (payload, _, inserted) ↦ insertion-Keeps refl inserted inv
  ]

  pub create_revision-Keeps :
      (id : String) (input : CreateSmsRevisionInput) (c : Call) (s : SmsStore)
      → Keeps s (create_revision encryption id input c s).1
  create_revision-Keeps id input c s inv =
      elim (create_revision-IsRevision encryption id input c s) [
        | inl refused ↦ Refused-Keeps refused inv
        | inr r ↦ insertion-Keeps refl r.inserted inv
      ]
