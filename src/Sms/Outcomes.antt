-- ===== src/Sms/Outcomes.antt =====
-- What a successful `activate`, `deactivate` and `recordTest` do to the rows
-- (src/notifications/sms-configuration.repository.ts), and that a refused call changes nothing.
use public_parks.Prelude.{
  String, ◌≡◌, refl, ap, ◌⊎◌, inl, inr, true, ◌&&◌, some, List, ◌∷◌, arith, str_eq, if◌then◌else◌,
  Bool-cases, Option-cases,
}
use public_parks.Errors.{Exception}
use public_parks.Database.{Result, ok, err, find?, update_where, find?-update_where, find?-sound}
use public_parks.Sms.Types.{SmsConfigurationRecord, SmsStore}
use public_parks.Sms.Rows.{same_scope, has_id}
use public_parks.Sms.Statements.{Call, not_found, audit_log, revision_metadata}
use public_parks.Sms.Activation.{
  activate, deactivate, record_test, activated, retired, tested, passed_test, activation_metadata,
  test_row, test_metadata, test_action, untested, RecordedTest,
}

-- The call failed with `e` and left the store alone.
abbrev pub Refused {ℓ} : {A : Type ℓ} → Result A × SmsStore → SmsStore → Type ℓ
Refused {A} (r, s') s = (e : Exception) × (r ≡ err e) × (s' ≡ s)

abbrev pub after_retiring :
    SmsConfigurationRecord → Call → List SmsConfigurationRecord → List SmsConfigurationRecord
after_retiring target c = update_where (λ r. same_scope r target && r.is_active) (retired c)

-- The row is there, enabled and tested at its revision; the active rows of its scope are retired
-- and it is made active.
pub record IsActivation (id : String) (c : Call) (s : SmsStore)
    (out : Result SmsConfigurationRecord × SmsStore) : Type 0 where
  pub target : SmsConfigurationRecord
  pub found : find? (has_id id) s.configurations ≡ some target
  pub enabled : target.is_enabled ≡ true
  pub passed : passed_test target ≡ true
  pub answer : out.0 ≡ ok (activated c target)
  pub stored : out.1 ≡ record s {
    configurations =
        update_where (has_id id) (activated c) (after_retiring target c s.configurations);
    audit_logs =
        audit_log c.actor_user_id "sms_configuration.activated" id
          (activation_metadata target)
          c.correlation_id
        ∷ s.audit_logs;
  }

-- The row that `UPDATE … WHERE id = … RETURNING *` returns.
pub found_after :
    (id : String) (f : SmsConfigurationRecord → SmsConfigurationRecord)
    → ((r : SmsConfigurationRecord) → (f r).id ≡ r.id)
    → (s : SmsStore) (target : SmsConfigurationRecord)
    → find? (has_id id) s.configurations ≡ some target
    → find? (has_id id) (update_where (has_id id) f s.configurations) ≡ some (f target)
found_after id f same s target found = ground (
  arith,
  find?-sound (has_id id) s.configurations found,
  find?-update_where (has_id id) (has_id id) f (λ r. ap (λ i. str_eq i id) (same r))
      s.configurations,
)

module _ (id : String) (c : Call) (s : SmsStore) (target : SmsConfigurationRecord)
    (found : find? (has_id id) s.configurations ≡ some target) where
  pub found_after_activation :
      find?
        (has_id id)
        (update_where (has_id id) (activated c) (after_retiring target c s.configurations))
      ≡ some (activated c target)
  found_after_activation = ground (
    arith,
    find?-sound (has_id id) s.configurations found,
    find?-update_where (has_id id) (has_id id) (activated c) (λ r. refl)
        (after_retiring target c s.configurations),
    find?-update_where (has_id id) (λ r. same_scope r target && r.is_active) (retired c) (λ r. refl)
        s.configurations,
  )

  module _ (good : (target.is_enabled && passed_test target) ≡ true) where
    pub activate_ok : IsActivation id c s (activate id c s)
    unfolding activate
    activate_ok = record {
      target = target;
      found = found;
      enabled = ground arith;
      passed = ground arith;
      answer = ground (arith, found_after_activation);
      stored = ground (arith, found_after_activation);
    }

pub activate-IsActivation :
    (id : String) (c : Call) (s : SmsStore)
    → Refused (activate id c s) s ⊎ IsActivation id c s (activate id c s)
unfolding activate
activate-IsActivation id c s = elim (Option-cases (find? (has_id id) s.configurations)) [
  | inl missing ↦ inl (not_found, ground arith, ground arith)
  | inr (target, found) ↦ elim (Bool-cases (target.is_enabled && passed_test target)) [
    | inr bad ↦ inl (untested, ground arith, ground arith)
    | inl good ↦ inr (activate_ok id c s target found good)
  ]
]

-- The row is there, and it is made inactive, whatever it was.
pub record IsDeactivation (id : String) (c : Call) (s : SmsStore)
    (out : Result SmsConfigurationRecord × SmsStore) : Type 0 where
  pub target : SmsConfigurationRecord
  pub found : find? (has_id id) s.configurations ≡ some target
  pub answer : out.0 ≡ ok (retired c target)
  pub stored : out.1 ≡ record s {
    configurations = update_where (has_id id) (retired c) s.configurations;
    audit_logs =
        audit_log c.actor_user_id "sms_configuration.deactivated" id
          (revision_metadata target)
          c.correlation_id
        ∷ s.audit_logs;
  }

pub deactivate-IsDeactivation :
    (id : String) (c : Call) (s : SmsStore)
    → Refused (deactivate id c s) s ⊎ IsDeactivation id c s (deactivate id c s)
unfolding deactivate
deactivate-IsDeactivation id c s = elim (Option-cases (find? (has_id id) s.configurations)) [
  | inl missing ↦ inl (not_found, ground arith, ground arith)
  | inr (target, found) ↦
      let again : find? (has_id id) (update_where (has_id id) (retired c) s.configurations)
          ≡ some (retired c target) =
        found_after id (retired c) (λ r. refl) s target found in
      inr (record {
        target = target;
        found = found;
        answer = ground (arith, again);
        stored = ground (arith, again);
      })
]

-- A test is always recorded and audited; a successful one is noted in its configuration's row.
pub record_test_lem :
    (t : RecordedTest) (c : Call) (s : SmsStore)
    → record_test t c s ≡ (
      ok tt,
      record s {
        configurations =
            if t.successful
            then update_where (has_id t.configuration.id) (tested c) s.configurations
            else s.configurations;
        tests = test_row t c ∷ s.tests;
        audit_logs =
            audit_log c.actor_user_id
              (test_action t)
              t.configuration.id
              (test_metadata t)
              c.correlation_id
            ∷ s.audit_logs;
      },
    )
unfolding record_test
record_test_lem t c s = ground arith
