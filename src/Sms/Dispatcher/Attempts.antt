-- ===== src/Sms/Dispatcher/Attempts.antt =====
-- What a delivery of src/notifications/sms-dispatcher.ts is to do: the rows of its attempts and the
-- waits between them.
use public_parks.Prelude.{
  ℕ, zero, suc, ◌-◌, ◌^◌, ◌≤◌, String, ◌≡◌, refl, ◌∙◌, false, none, some, List, [], ◌∷◌, ◌++◌,
  arith, ◌==◌, if◌then◌else◌, length,
}
use public_parks.Sms.Types.{
  transient, permanent, configuration, SendSmsResult, SmsDeliveryStatus, ResolvedSmsConfiguration,
  SmsConfigurationRecord, SmsDeliveryAttempt, SmsStore,
}
use public_parks.Sms.Providers.{SmsProvider}
use public_parks.Sms.Dispatcher.{
  SmsMessage, Dispatching, execute_attempt, stops, backoff, Progress, attempt_row,
}

-- The wait after the `k`-th attempt, and the waits after the first `k` ones, in milliseconds.
abbrev pub wait_after : ℕ → ℕ
wait_after k = if k == 1 then 100 else if k == 2 then 200 else if k == 3 then 400 else 800

abbrev pub waits_after : ℕ → List ℕ
waits_after zero = []
waits_after (suc k) = waits_after k ++ wait_after (suc k) ∷ []

-- A row has the status, message id and error code of a result.
abbrev pub Records : SendSmsResult → SmsDeliveryAttempt → Type 0
Records (SendSmsResult.sent id) row =
    (row.delivery_status ≡ SmsDeliveryStatus.sent)
    × (row.provider_message_id ≡ id)
    × (row.error_code ≡ none)
Records (SendSmsResult.failed classification code) row =
    (row.delivery_status ≡ SmsDeliveryStatus.failed)
    × (row.provider_message_id ≡ none)
    × (row.error_code ≡ some code)

module _ (d : Dispatching) (r : SmsConfigurationRecord) (c : ResolvedSmsConfiguration)
    (m : SmsMessage) (provider : SmsProvider) where
  -- The row of the `k`-th attempt for a message.
  pub record IsAttempt (k : ℕ) (row : SmsDeliveryAttempt) : Type 0 where
    pub number : row.attempt_number ≡ k
    pub configuration_id : row.sms_provider_configuration_id ≡ r.id
    pub provider_key : row.provider_key ≡ r.provider_key
    pub purpose : row.purpose ≡ m.purpose
    pub destination : row.destination_hash ≡ d.hash_sensitive_lookup m.destination
    pub records : Records (execute_attempt provider c m k) row

  -- Rows of attempts that failed transiently, newest first, from the `k`-th down to the first.
  abbrev pub FailedLog : ℕ → List SmsDeliveryAttempt → Type 0
  FailedLog k [] = k ≡ 0
  FailedLog k (row ∷ rows) =
      IsAttempt k row
      × ((code : String) × (execute_attempt provider c m k ≡ SendSmsResult.failed transient code))
      × FailedLog (k - 1) rows

  -- What a delivery leaves behind: the last attempt in front of the failed ones, on top of the rows
  -- that were there; nothing else of the tables changes. It waited once after each failed attempt.
  pub record IsDelivery (before : SmsStore) (out : SendSmsResult × Progress) : Type 0 where
    pub last : SmsDeliveryAttempt
    pub failures : List SmsDeliveryAttempt
    pub stored :
        out.1.store
        ≡ record before { delivery_attempts = last ∷ (failures ++ before.delivery_attempts) }
    pub answer : out.0 ≡ execute_attempt provider c m (suc (length failures))
    pub attempt : IsAttempt (suc (length failures)) last
    pub failed : FailedLog (length failures) failures
    pub waits : out.1.waits ≡ waits_after (length failures)
    pub bounded : length failures ≤ c.retry_count
    pub exhausted :
        (code : String)
        → out.0 ≡ SendSmsResult.failed transient code
        → length failures ≡ c.retry_count

pow_pos : (n : ℕ) → 1 ≤ 2 ^ n
pow_pos zero = omega arith
pow_pos (suc n) = omega (arith, pow_pos n)

backoff-late : (n : ℕ) → 8 ≤ 2 ^ n → backoff (suc n) ≡ 800
backoff-late n big = let same : suc n - 1 ≡ n = omega arith in rw same (omega (arith, big))

late_wait : (k : ℕ) → 800 ≡ wait_after (suc (suc (suc (suc k))))
late_wait k = ground arith

pub backoff-wait_after : (k : ℕ) → backoff (suc k) ≡ wait_after (suc k)
backoff-wait_after zero = refl
backoff-wait_after (suc zero) = refl
backoff-wait_after (suc (suc zero)) = refl
backoff-wait_after (suc (suc (suc k))) =
    backoff-late (suc (suc (suc k))) (omega (arith, pow_pos k)) ∙ late_wait k

pub attempt_row-Records :
    (d : Dispatching) (r : SmsConfigurationRecord) (c : ResolvedSmsConfiguration) (m : SmsMessage)
    (result : SendSmsResult) (k : ℕ)
    → Records result (attempt_row d r c m result k)
attempt_row-Records d r c m (SendSmsResult.sent id) k = (refl, refl, refl)
attempt_row-Records d r c m (SendSmsResult.failed classification code) k = (refl, refl, refl)

pub stops_transient :
    (result : SendSmsResult)
    → stops result ≡ false
    → (code : String) × (result ≡ SendSmsResult.failed transient code)
stops_transient (SendSmsResult.sent id) h = cc
stops_transient (SendSmsResult.failed transient code) h = (code, refl)
stops_transient (SendSmsResult.failed permanent code) h = cc
stops_transient (SendSmsResult.failed configuration code) h = cc
