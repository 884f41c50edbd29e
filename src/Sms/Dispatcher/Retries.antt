-- ===== src/Sms/Dispatcher/Retries.antt =====
-- The retries of src/notifications/sms-dispatcher.ts: how often it sends, what it records and how
-- long it waits.
use public_parks.Prelude.{
  str_eq, eq_iff, ◌≢◌, ◌⊎◌, ℕ, zero, suc, ◌+◌, ◌-◌, ◌≤◌, ◌<◌, ◌≡◌, refl, sym, ap, ◌∙◌, subst, inl,
  inr, true, false, ◌||◌, some, List, [], ◌∷◌, ◌++◌, arith, le→leb, Bool-cases, length,
}
use public_parks.Sms.Types.{
  transient, SendSmsResult, ResolvedSmsConfiguration, SmsConfigurationRecord, SmsDeliveryAttempt,
  SmsStore, configuration,
}
use native.Mathlib.Numerals.{add-one}
use public_parks.Sms.Activation.{insert_delivery_attempt}
use public_parks.Sms.Providers.{SmsProvider, get_provider}
use public_parks.Sms.Dispatcher.Attempts.{
  FailedLog, IsAttempt, IsDelivery, waits_after, backoff-wait_after, attempt_row-Records,
  stops_transient,
}
use public_parks.Sms.Dispatcher.{
  SmsMessage, Dispatching, execute_attempt, stops, backoff, Progress, attempt_row, recorded,
  delayed, deliver_from, send_with_provider, send_with_configuration, invalid, unavailable_provider,
}

module _ (d : Dispatching) (r : SmsConfigurationRecord) (c : ResolvedSmsConfiguration)
    (m : SmsMessage) (provider : SmsProvider) (before : SmsStore) where
  nth_IsAttempt :
      (k : ℕ)
      → IsAttempt d r c m provider k (attempt_row d r c m (execute_attempt provider c m k) k)
  nth_IsAttempt k = record {
    number = refl;
    configuration_id = refl;
    provider_key = refl;
    purpose = refl;
    destination = refl;
    records = attempt_row-Records d r c m (execute_attempt provider c m k) k;
  }

  last_IsDelivery :
      (k : ℕ) (p q : Progress) (failures : List SmsDeliveryAttempt)
      → p.store ≡ record before { delivery_attempts = failures ++ before.delivery_attempts }
      → q.waits ≡ waits_after k
      → q.store
        ≡ insert_delivery_attempt
            (attempt_row d r c m (execute_attempt provider c m (suc k)) (suc k))
            p.store
      → length failures ≡ k
      → FailedLog d r c m provider k failures
      → k ≤ c.retry_count
      → (stops (execute_attempt provider c m (suc k)) ≡ false → k ≡ c.retry_count)
      → IsDelivery d r c m provider before (execute_attempt provider c m (suc k), q)
  unfolding insert_delivery_attempt
  last_IsDelivery k p q failures stored waited added counted log within spent =
      let row = attempt_row d r c m (execute_attempt provider c m (suc k)) (suc k) in
      record {
        last = row;
        failures = failures;
        stored = added ∙ ap (insert_delivery_attempt row) stored;
        answer = rw counted refl;
        attempt = rw counted (nth_IsAttempt (suc k));
        failed = rw counted log;
        waits = waited ∙ ap waits_after (sym counted);
        bounded = omega (arith, counted);
        exhausted = λ code is. counted ∙ spent (ap stops is);
      }

  delayed_store : (attempt : ℕ) (p : Progress) → (delayed d r c m attempt p).store ≡ p.store
  delayed_store attempt p = ground arith

  waits_grow :
      (k : ℕ) (p : Progress)
      → p.waits ≡ waits_after k
      → suc k ≤ c.retry_count
      → (delayed d r c m (suc k) p).waits ≡ waits_after (suc k)
  waits_grow k p waited more = rw (le→leb (suc k) c.retry_count more) (
      ap (λ ws. ws ++ backoff (suc k) ∷ []) waited
      ∙ ap (λ w. waits_after k ++ w ∷ []) (backoff-wait_after k))

  waits_stay :
      (k : ℕ) (p : Progress) → c.retry_count < suc k → (delayed d r c m (suc k) p).waits ≡ p.waits
  waits_stay k p done = ground arith

  down : (k : ℕ) → k ≡ suc k - 1
  down k = omega arith

  deliver_from-IsDelivery :
      (rounds k : ℕ) (last : SendSmsResult) (p : Progress) (failures : List SmsDeliveryAttempt)
      → k + suc rounds ≡ suc c.retry_count
      → p.store ≡ record before { delivery_attempts = failures ++ before.delivery_attempts }
      → p.waits ≡ waits_after k
      → length failures ≡ k
      → FailedLog d r c m provider k failures
      → IsDelivery d r c m provider before
          (deliver_from d r c m provider (suc rounds) (suc k) last p)
  unfolding deliver_from
  deliver_from-IsDelivery zero k last p failures sum stored waited counted log =
      elim (Bool-cases (stops (execute_attempt provider c m (suc k)))) [
        | inl stop ↦ rw stop (
            last_IsDelivery k p _ failures stored waited refl counted log (omega arith)
              (λ more. omega arith))
        | inr again ↦ rw again (
            last_IsDelivery k p _ failures stored
              (waits_stay k (recorded d r c m (execute_attempt provider c m (suc k)) (suc k) p)
                  (omega arith)
                ∙ waited)
              (delayed_store (suc k)
                (recorded d r c m (execute_attempt provider c m (suc k)) (suc k) p))
              counted log (omega arith) (λ more. omega arith))
      ]
  deliver_from-IsDelivery (suc rounds) k last p failures sum stored waited counted log =
      let result = execute_attempt provider c m (suc k) in
      elim (Bool-cases (stops result)) [
        | inl stop ↦ rw stop (
            last_IsDelivery k p _ failures stored waited refl counted log (omega arith)
              (λ more. cc (more, stop)))
        | inr again ↦
            rw (again, add-one)
              (deliver_from-IsDelivery rounds (suc k) result
                (delayed d r c m (suc k) (recorded d r c m result (suc k) p))
                (attempt_row d r c m result (suc k) ∷ failures) (omega arith)
                (delayed_store (suc k) (recorded d r c m result (suc k) p)
                  ∙ ap (insert_delivery_attempt (attempt_row d r c m result (suc k))) stored)
                (waits_grow k (recorded d r c m result (suc k) p) waited (omega arith))
                (omega (arith, counted))
                (
                  nth_IsAttempt (suc k),
                  stops_transient result again,
                  subst (λ n. FailedLog d r c m provider n failures) (down k) log,
                ))
      ]

module _ (d : Dispatching) (r : SmsConfigurationRecord) (c : ResolvedSmsConfiguration)
    (m : SmsMessage) (provider : SmsProvider) (s : SmsStore) where
  pub send_with_configuration-found :
      get_provider c.provider_key d.providers ≡ some provider
      → send_with_configuration d r c m s ≡ send_with_provider d r c m provider s
  unfolding send_with_configuration
  send_with_configuration-found found = ground arith

  pub send_with_provider-IsDelivery :
      (unavailable_provider d r c m provider || invalid d r c m provider) ≡ false
      → IsDelivery d r c m provider s (send_with_provider d r c m provider s)
  send_with_provider-IsDelivery fine =
      rw (delivers fine, add-one)
        (deliver_from-IsDelivery d r c m provider s c.retry_count 0 _
          (record { store = s; waits = [] }) [] (omega arith) refl refl refl refl)
    where
      delivers :
          (unavailable_provider d r c m provider || invalid d r c m provider) ≡ false
          → send_with_provider d r c m provider s
            ≡ deliver_from d r c m provider
                (c.retry_count + 1)
                1
                (SendSmsResult.failed transient "DELIVERY_FAILED")
                (record { store = s; waits = [] })
      delivers fine = unfold send_with_provider in ground arith

module _ (d : Dispatching) (r : SmsConfigurationRecord) (c : ResolvedSmsConfiguration)
    (m : SmsMessage) (provider : SmsProvider) where
  available :
      (provider.provider_key ≡ "mock" → d.mock_allowed ≡ true)
      → unavailable_provider d r c m provider ≡ false
  available allowed = elim (Bool-cases (str_eq provider.provider_key "mock")) [
    | inl mock ↦ rw (mock, allowed ((eq_iff provider.provider_key "mock").0 mock)) refl
    | inr other ↦ rw other refl
  ]

  barred :
      provider.provider_key ≡ "mock"
      → d.mock_allowed ≡ false
      → unavailable_provider d r c m provider ≡ true
  barred mock forbidden = rw (mock, forbidden) refl

  refused_configuration :
      (provider.validate_configuration c.base ≢ [])
        ⊎ (provider.is_api_host_permitted c.api_url ≡ false)
      → invalid d r c m provider ≡ true
  refused_configuration (inl complaints) = ground (arith, complaints)
  refused_configuration (inr foreign) = ground arith

-- A configuration whose provider is registered, not the mock one unless the environment allows it,
-- has no complaint about the configuration and permits its host, is sent at least once and at most
-- `retryCount + 1` times. All attempts but the last have failed transiently, and the result is that
-- of the last; a transient failure is the result only when all attempts are used up. The attempts
-- are numbered from 1, and each is stored for the configuration, its provider, the purpose and the
-- destination's hash, with the status, message id and error code of its own result, for ids and codes
-- that fit their columns; nothing else changes. After the first failures the dispatcher waits 100, 200 and 400 ms, then 800 ms. A mock
-- provider that is not allowed, or else a provider that has complaints or does not permit the host,
-- gives a configuration failure with its code; then nothing is stored, and nothing waited for.
pub send_with_configuration-cases :
    (d : Dispatching) (r : SmsConfigurationRecord) (c : ResolvedSmsConfiguration) (m : SmsMessage)
    (provider : SmsProvider) (s : SmsStore)
    → get_provider c.provider_key d.providers ≡ some provider
    → ((provider.provider_key ≡ "mock" → d.mock_allowed ≡ true)
        → provider.validate_configuration c.base ≡ []
        → provider.is_api_host_permitted c.api_url ≡ true
        → IsDelivery d r c m provider s (send_with_configuration d r c m s))
      × (provider.provider_key ≡ "mock"
          → d.mock_allowed ≡ false
          → send_with_configuration d r c m s ≡ (
            SendSmsResult.failed configuration "PROVIDER_UNAVAILABLE",
            record { store = s; waits = [] },
          ))
      × ((provider.provider_key ≡ "mock" → d.mock_allowed ≡ true)
          → (provider.validate_configuration c.base ≢ [])
            ⊎ (provider.is_api_host_permitted c.api_url ≡ false)
          → send_with_configuration d r c m s ≡ (
            SendSmsResult.failed configuration "INVALID_CONFIGURATION",
            record { store = s; waits = [] },
          ))
send_with_configuration-cases d r c m provider s found =
    let same = send_with_configuration-found d r c m provider s found in
    (
      λ allowed sound permitted. rw same (
          send_with_provider-IsDelivery d r c m provider s
            (rw (available d r c m provider allowed, sound, permitted) refl)),
      λ mock forbidden.
          same ∙ unfold send_with_provider in rw (barred d r c m provider mock forbidden) refl,
      λ allowed bad.
          same
          ∙ unfold send_with_provider in
            rw (available d r c m provider allowed, refused_configuration d r c m provider bad)
              refl,
    )
