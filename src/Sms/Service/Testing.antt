-- ===== src/Sms/Service/Testing.antt =====
-- A test of a configuration and its activation, through src/notifications/sms-configuration.service.ts.
use public_parks.Database.{Result, ok, err, find?, find?-sound, update_where}
use public_parks.Database.Results.{then_call, Result-cases}
use public_parks.Errors.{Exception}
use public_parks.Sms.Types.{
  Credentials, SmsConfigurationRecord, SmsStore, FieldEncryption, SendSmsResult,
  ResolvedSmsConfiguration,
}
use public_parks.Sms.Rows.{is_platform, has_id}
use public_parks.Sms.Statements.{Call, get_by_id, resolve_platform_active, decrypt_credentials}
use public_parks.Sms.Activation.{record_test, tested, activate, activated}
use public_parks.Sms.Outcomes.{activate_ok, found_after, record_test_lem}
use public_parks.Sms.Invariant.{IsConsistent}
use public_parks.Sms.Consistency.{record_test-Keeps}
use public_parks.Sms.ActivationConsistency.{activate-resolved}
use public_parks.Sms.Providers.{get_provider, resolved_configuration}
use public_parks.Sms.Dispatcher.{
  Dispatching, SmsMessage, send_with_configuration, send_configured_test, unavailable_provider,
  invalid, send_with_provider,
}
use public_parks.Sms.Dispatcher.Retries.{
  send_with_configuration-found, send_with_provider-IsDelivery,
}
use public_parks.Sms.Service.{
  SmsTestResponse, successful, test_response, require_record, platform_record, validate_record,
  mock_guard, test_requested, test_sms, recorded_test, run_test, test_configuration,
  activate_configuration, responded, to_response,
}
use public_parks.Prelude.{
  ℕ, String, ◌≡◌, refl, sym, ap, ◌∙◌, inl, inr, true, ◌||◌, some, List, arith, eq_iff, ==_refl,
  Bool-cases, Option-cases,
}

module _ (d : Dispatching) where
  -- Sending changes no configuration.
  send_with_configuration-configurations :
      (r : SmsConfigurationRecord) (c : ResolvedSmsConfiguration) (m : SmsMessage) (s : SmsStore)
      → (send_with_configuration d r c m s).1.store.configurations ≡ s.configurations
  send_with_configuration-configurations r c m s =
      elim (Option-cases (get_provider c.provider_key d.providers)) [
        | inl missing ↦ unfold send_with_configuration in ground (arith, missing)
        | inr (provider, found) ↦
            let same = send_with_configuration-found d r c m provider s found in
            elim (Bool-cases (unavailable_provider d r c m provider || invalid d r c m provider)) [
              | inl bad ↦ rw same (unfold send_with_provider in ground arith)
              | inr fine ↦ rw same (
                  ap (λ t. t.configurations)
                    (send_with_provider-IsDelivery d r c m provider s fine).stored)
            ]
      ]

module _ (encryption : FieldEncryption Credentials) (d : Dispatching) where
  send_configured_test-configurations :
      (r : SmsConfigurationRecord) (m : SmsMessage) (s : SmsStore)
      → (send_configured_test encryption d r m s).1.configurations ≡ s.configurations
  unfolding send_configured_test
  send_configured_test-configurations r m s =
      elim (Option-cases (decrypt_credentials encryption r)) [
        | inl missing ↦ ground (arith, missing)
        | inr (credentials, found) ↦ ground (
          arith,
          found,
          send_with_configuration-configurations d r (resolved_configuration r credentials)
              (record m { purpose = "configuration_test" }) s,
        )
      ]

  -- What `test` does once the message is sent.
  abbrev after_sending :
      SmsConfigurationRecord
      → String
      → ℕ
      → Call
      → Result SendSmsResult × SmsStore
      → Result SmsTestResponse × SmsStore
  unfolding recorded_test
  after_sending r destination duration_ms c out = then_call out (λ result s.
      then_call (record_test (recorded_test encryption d r destination result duration_ms) c s)
        (λ _ s. (ok (test_response result), s)))

  recorded_success :
      (r : SmsConfigurationRecord) (destination : String) (duration_ms : ℕ) (c : Call)
      (out : Result SendSmsResult × SmsStore) (rows : List SmsConfigurationRecord)
      → out.1.configurations ≡ rows
      → (after_sending r destination duration_ms c out).0 ≡ ok successful
      → IsConsistent rows
      → ((after_sending r destination duration_ms c out).1.configurations
          ≡ update_where (has_id r.id) (tested c) rows)
        × IsConsistent (after_sending r destination duration_ms c out).1.configurations
  unfolding after_sending recorded_test
  recorded_success r destination duration_ms c (err e, s) rows same h inv = cc
  recorded_success r destination duration_ms c (ok (SendSmsResult.failed x code), s) rows same h
        inv =
      let t = recorded_test encryption d r destination (SendSmsResult.failed x code) duration_ms in
      cc (rw (record_test_lem t c s) at h)
  recorded_success r destination duration_ms c (ok (SendSmsResult.sent i), s) rows same h inv =
      let t = recorded_test encryption d r destination (SendSmsResult.sent i) duration_ms in
      let kept = record_test-Keeps t c s (rw (sym same) at inv) in
      rw (record_test_lem t c s)
        (ap (update_where (has_id r.id) (tested c)) same, rw (record_test_lem t c s) at kept)

  module _ (id : String) (s : SmsStore) (r : SmsConfigurationRecord)
      (found : get_by_id id s ≡ some r) (on_platform : is_platform r ≡ true) where
    require_record-found : require_record id s ≡ ok r
    unfolding require_record platform_record
    require_record-found = rw (found, on_platform)

    test_configuration-invalid :
        (destination : String) (duration_ms : ℕ) (c : Call) (e : Exception)
        → validate_record encryption d r ≡ err e
        → (test_configuration encryption d id destination duration_ms c s).0 ≡ err e
    unfolding test_configuration
    test_configuration-invalid destination duration_ms c e h = rw (require_record-found, h)

    test_configuration-runs :
        (destination : String) (duration_ms : ℕ) (c : Call)
        → validate_record encryption d r ≡ ok tt
        → test_configuration encryption d id destination duration_ms c s
          ≡ after_sending r destination duration_ms c (
              send_configured_test encryption d r
                (test_sms encryption d id r destination c)
                (test_requested encryption d id r c s))
    unfolding test_configuration run_test after_sending recorded_test
    test_configuration-runs destination duration_ms c h = rw (require_record-found, h)

    sent_configurations :
        (destination : String) (c : Call)
        → (send_configured_test encryption d r
            (test_sms encryption d id r destination c)
            (test_requested encryption d id r c s)).1.configurations
          ≡ s.configurations
    unfolding test_requested
    sent_configurations destination c =
        send_configured_test-configurations r (test_sms encryption d id r destination c)
          (test_requested encryption d id r c s)

    -- A successful test of a platform configuration found it valid, notes itself in its row and
    -- keeps the tables consistent.
    test_configuration-success :
        (destination : String) (duration_ms : ℕ) (c : Call)
        → IsConsistent s.configurations
        → (test_configuration encryption d id destination duration_ms c s).0 ≡ ok successful
        → (validate_record encryption d r ≡ ok tt)
          × ((test_configuration encryption d id destination duration_ms c s).1.configurations
              ≡ update_where (has_id r.id) (tested c) s.configurations)
          × IsConsistent
              (test_configuration encryption d id destination duration_ms c s).1.configurations
    test_configuration-success destination duration_ms c inv h =
        elim (Result-cases (validate_record encryption d r)) [
          | inr (e, bad) ↦
              absurd (cc (h, test_configuration-invalid destination duration_ms c e bad))
          | inl (tt, valid) ↦
              let runs = test_configuration-runs destination duration_ms c valid in
              let noted =
                recorded_success r destination duration_ms c _ s.configurations
                  (sent_configurations destination c) (rw runs at h) inv in
              (valid, rw runs noted.0, rw runs noted.1)
        ]

    activate_configuration-runs :
        (c : Call)
        → validate_record encryption d r ≡ ok tt
        → mock_guard encryption d r ≡ ok tt
        → activate_configuration encryption d id c s ≡ responded encryption d (activate id c s)
    unfolding activate_configuration
    activate_configuration-runs c valid allowed = rw (require_record-found, valid, allowed)

  validate_record-tested :
      (c : Call) (r : SmsConfigurationRecord)
      → validate_record encryption d (tested c r) ≡ validate_record encryption d r
  unfolding validate_record decrypt_credentials
  validate_record-tested c r = refl

  mock_guard-tested :
      (c : Call) (r : SmsConfigurationRecord)
      → mock_guard encryption d (tested c r) ≡ mock_guard encryption d r
  unfolding mock_guard
  mock_guard-tested c r = refl

  responded-ok :
      (out : Result SmsConfigurationRecord × SmsStore) (row : SmsConfigurationRecord)
      → out.0 ≡ ok row
      → responded encryption d out ≡ (to_response encryption d row, out.1)
  unfolding responded
  responded-ok out row h = rw h

  -- An enabled platform configuration that has just passed a test is activated, unless it is of the
  -- mock provider outside development and test, and is then the one that the dispatcher sends with:
  -- from consistent tables, if `test` answers that it was successful, a call of `activate` answers
  -- with the configuration, and the resolver's query finds it.
  pub activate_configuration-after_test :
      (id destination : String) (duration_ms : ℕ) (c later : Call) (s : SmsStore)
      (r : SmsConfigurationRecord)
      → IsConsistent s.configurations
      → get_by_id id s ≡ some r
      → is_platform r ≡ true
      → r.is_enabled ≡ true
      → mock_guard encryption d r ≡ ok tt
      → (test_configuration encryption d id destination duration_ms c s).0 ≡ ok successful
      → ((activate_configuration encryption d id later
            (test_configuration encryption d id destination duration_ms c s).1).0
          ≡ to_response encryption d (activated later (tested c r)))
        × (resolve_platform_active
              (activate_configuration encryption d id later
                (test_configuration encryption d id destination duration_ms c s).1).1
            ≡ some (activated later (tested c r)))
  unfolding get_by_id
  activate_configuration-after_test id destination duration_ms c later s r inv found on_platform
        enabled allowed h =
      let s1 = (test_configuration encryption d id destination duration_ms c s).1 in
      let success =
        test_configuration-success id s r found on_platform destination duration_ms c inv h in
      let named : r.id ≡ id = (eq_iff r.id id).0 (find?-sound (has_id id) s.configurations found) in
      let found_again : find? (has_id id) s1.configurations ≡ some (tested c r) =
        ap (find? (has_id id)) success.1
        ∙ (ap (λ i. find? (has_id id) (update_where (has_id i) (tested c) s.configurations)) named
            ∙ found_after id (tested c) (λ q. refl) s r found) in
      let a =
        activate_ok id later s1 (tested c r) found_again (rw (enabled, ==_refl r.revision) refl) in
      let target : a.target ≡ tested c r = ground (arith, a.found, found_again) in
      let answer : (activate id later s1).0 ≡ ok (activated later (tested c r)) =
        a.answer ∙ ap (λ q. ok (activated later q)) target in
      let runs =
        activate_configuration-runs id s1 (tested c r) found_again on_platform later
          (validate_record-tested c r ∙ success.0) (mock_guard-tested c r ∙ allowed) in
      let out = runs ∙ responded-ok (activate id later s1) (activated later (tested c r)) answer in
      (
        ap (λ o. o.0) out,
        ap (λ o. resolve_platform_active o.1) out
            ∙ activate-resolved id later s1 (activated later (tested c r)) success.2 answer
                on_platform,
      )
