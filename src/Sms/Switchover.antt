-- ===== src/Sms/Switchover.antt =====
-- What a successful `activate` of src/notifications/sms-configuration.repository.ts leaves in the
-- tables: the configuration in force, and the ones that it replaces.
use public_parks.Prelude.{
  String, ◌≡◌, refl, ap, ◌∙◌, inl, inr, true, false, ◌&&◌, none, some, ==_refl, List, ◌∷◌, arith,
  eq_iff, str_eq, if◌then◌else◌, Bool-cases, All, All-of, All-map,
}
use public_parks.Database.{
  ok, find?, update_where, find?-update_where, find?-sound, All-update_where,
}
use public_parks.Sms.Types.{SmsConfigurationRecord, SmsStore, AuditLog}
use public_parks.Sms.Rows.{same_scope, has_id}
use public_parks.Sms.Statements.{Call, audit_log}
use public_parks.Sms.Activation.{activation_metadata, activate, activated, retired, passed_test}
use public_parks.Sms.Outcomes.{after_retiring, found_after_activation}

-- A row of the target's scope that has another id is not active.
abbrev pub StandsBack : String → SmsConfigurationRecord → SmsConfigurationRecord → Type 0
StandsBack id target r = same_scope r target ≡ true → has_id id r ≡ false → r.is_active ≡ false

-- The row of an id, after a call, is in force: it is active and the only active one of its scope;
-- the rows that were active have been retired, and all others are as they were.
pub record IsSwitched (id : String) (c : Call) (target : SmsConfigurationRecord)
    (before after : SmsStore) (row : SmsConfigurationRecord) : Type 0 where
  pub found : find? (has_id id) after.configurations ≡ some row
  pub active : row.is_active ≡ true
  pub reopened : row.deactivated_at ≡ none
  pub revision : row.revision ≡ target.revision
  pub provider : row.provider_key ≡ target.provider_key
  pub credentials : row.encrypted_credentials ≡ target.encrypted_credentials
  pub alone : All (StandsBack id target) after.configurations
  pub replaced :
      (other : String) (r : SmsConfigurationRecord)
      → str_eq other id ≡ false
      → find? (has_id other) before.configurations ≡ some r
      → same_scope r target ≡ true
      → r.is_active ≡ true
      → (r' : SmsConfigurationRecord) × (find? (has_id other) after.configurations ≡ some r')
        × (r'.is_active ≡ false)
        × (r'.deactivated_at ≡ some c.now)
  pub kept :
      (other : String) (r : SmsConfigurationRecord)
      → str_eq other id ≡ false
      → find? (has_id other) before.configurations ≡ some r
      → (same_scope r target && r.is_active) ≡ false
      → find? (has_id other) after.configurations ≡ some r

module _ (id : String) (c : Call) (s : SmsStore) (target : SmsConfigurationRecord) where
  abbrev rows_after : List SmsConfigurationRecord
  rows_after = update_where (has_id id) (activated c) (after_retiring target c s.configurations)

  retired_alone : All (StandsBack id target) (after_retiring target c s.configurations)
  retired_alone =
      All-update_where (StandsBack id target) (λ r. same_scope r target && r.is_active) (retired c)
        s.configurations
        (All-of _
          (λ r. elim (Bool-cases (same_scope r target && r.is_active)) [
            | inl hit ↦ rw hit (λ scope other. refl)
            | inr miss ↦ rw miss (λ scope other. ground arith)
          ])
          s.configurations)

  activated_alone : All (StandsBack id target) rows_after
  activated_alone =
      All-update_where (StandsBack id target) (has_id id) (activated c)
        (after_retiring target c s.configurations)
        (All-map (StandsBack id target) _
          (λ r alone. elim (Bool-cases (has_id id r)) [
            | inl hit ↦ rw hit (λ scope other. absurd (cc (hit, other)))
            | inr miss ↦ rw miss alone
          ])
          (after_retiring target c s.configurations) retired_alone)

  other_row :
      (other : String) (r : SmsConfigurationRecord)
      → str_eq other id ≡ false
      → find? (has_id other) s.configurations ≡ some r
      → find? (has_id other) rows_after
        ≡ some (if same_scope r target && r.is_active then retired c r else r)
  other_row other r apart there =
      let named : r.id ≡ other =
        (eq_iff r.id other).0 (find?-sound (has_id other) s.configurations there) in
      find?-update_where (has_id other) (has_id id) (activated c) (λ q. refl)
        (after_retiring target c s.configurations)
      ∙ (rw
          (
            find?-update_where (has_id other) (λ q. same_scope q target && q.is_active) (retired c)
                (λ q. refl) s.configurations,
            there,
          )
          (ground (arith, named, apart)))

  switched :
      (found : find? (has_id id) s.configurations ≡ some target) (after : SmsStore)
      → after.configurations ≡ rows_after
      → IsSwitched id c target s after (activated c target)
  switched found after stored = record {
    found = rw stored (found_after_activation id c s target found);
    active = refl;
    reopened = refl;
    revision = refl;
    provider = refl;
    credentials = refl;
    alone = rw stored activated_alone;
    replaced = λ other r apart there scope on. (
      retired c r,
      ap (find? (has_id other)) stored ∙ other_row other r apart there ∙ (rw (scope, on) refl),
      refl,
      refl,
    );
    kept = λ other r apart there scope.
        ap (find? (has_id other)) stored ∙ other_row other r apart there ∙ (rw scope refl);
  }

  abbrev activation_entry : AuditLog
  activation_entry =
      audit_log c.actor_user_id "sms_configuration.activated" id (activation_metadata target)
        c.correlation_id

  abbrev after_activation : SmsStore
  after_activation = record s {
    configurations = rows_after;
    audit_logs = activation_entry ∷ s.audit_logs;
  }

  runs :
      find? (has_id id) s.configurations ≡ some target
      → target.is_enabled ≡ true
      → passed_test target ≡ true
      → activate id c s ≡ (ok (activated c target), after_activation)
  unfolding activate
  runs found enabled passed = ground (arith, found_after_activation id c s target found)

-- A configuration that is there, enabled, and whose last successful test was at its revision is
-- activated: the call returns its row as it is then stored, active and not retired, with its
-- revision, provider and credentials. It is the only active row of its scope: the other rows of the
-- scope that were active are stored as retired at the time of the call, and all further rows are as
-- they were. One audit entry names the actor, the action and the configuration.
pub activate-accepts :
    (id : String) (c : Call) (s : SmsStore) (target : SmsConfigurationRecord)
    → find? (has_id id) s.configurations ≡ some target
    → target.is_enabled ≡ true
    → target.last_successful_test_revision ≡ some target.revision
    → (row : SmsConfigurationRecord) × (s' : SmsStore) × (entry : AuditLog) × (activate id c s
        ≡ (ok row, s'))
      × IsSwitched id c target s s' row
      × (s'.audit_logs ≡ entry ∷ s.audit_logs)
      × (entry.action ≡ "sms_configuration.activated")
      × (entry.actor_id ≡ c.actor_user_id)
      × (entry.target_id ≡ id)
activate-accepts id c s target found enabled passed = (
  activated c target,
  after_activation id c s target,
  activation_entry id c s target,
  runs id c s target found enabled (rw passed (==_refl target.revision)),
  switched id c s target found (after_activation id c s target) refl,
  refl,
  refl,
  refl,
  refl,
)
