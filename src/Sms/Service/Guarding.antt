-- ===== src/Sms/Service/Guarding.antt =====
-- What src/notifications/sms-configuration.service.ts lets through to the repository.
use public_parks.Database.{ok, err}
use public_parks.Database.Results.{Result-cases}
use public_parks.Errors.{Exception}
use public_parks.Sms.Types.{
  Credentials, SmsConfigurationRecord, SmsStore, FieldEncryption, SmsProviderConfiguration,
  CreateSmsConfigurationInput,
}
use public_parks.Sms.Rows.{is_platform}
use public_parks.Sms.Statements.{Call, get_by_id, decrypt_credentials}
use public_parks.Sms.Drafts.{create}
use public_parks.Sms.Activation.{activate}
use public_parks.Sms.Providers.{SmsProvider, get_provider}
use public_parks.Sms.Dispatcher.{Dispatching}
use public_parks.Sms.Service.{
  require_record, platform_record, validate_record, mock_guard, configuration_of, checked_by,
  no_errors, configuration_errors, activate_configuration, create_configuration,
  created_configuration, responded, validate_provider_input,
}
use public_parks.Prelude.{
  String, ◌≡◌, refl, sym, ap, ◌∙◌, ◌⊎◌, inl, inr, true, some, List, [], ◌∷◌, ◌++◌, arith, str_eq,
  Bool-cases, Option-cases,
}

-- A configuration that a registered provider accepts, with its host.
pub record IsAccepted (registry : List SmsProvider) (key : String)
    (configuration : SmsProviderConfiguration) : Type 0 where
  pub provider : SmsProvider
  pub registered : get_provider key registry ≡ some provider
  pub faultless : provider.validate_configuration configuration ≡ []
  pub permitted : provider.is_api_host_permitted configuration.api_url ≡ true

no_errors-cases : (errors : List String) → no_errors errors ≡ ok tt → errors ≡ []
unfolding no_errors
no_errors-cases [] h = refl
no_errors-cases (e ∷ es) h = cc

append_nothing : (xs ys : List String) → xs ++ ys ≡ [] → (xs ≡ []) × (ys ≡ [])
append_nothing [] ys h = (refl, h)
append_nothing (x ∷ xs) ys h = cc

faultless_configuration :
    (provider : SmsProvider) (configuration : SmsProviderConfiguration)
    → configuration_errors provider configuration ≡ []
    → (provider.validate_configuration configuration ≡ [])
      × (provider.is_api_host_permitted configuration.api_url ≡ true)
unfolding configuration_errors
faultless_configuration provider configuration h =
    let parts = append_nothing (provider.validate_configuration configuration) _ h in
    elim (Bool-cases (provider.is_api_host_permitted configuration.api_url)) [
      | inl fine ↦ (parts.0, fine)
      | inr bad ↦ absurd (cc (rw bad at parts.1))
    ]

validate_provider_input-IsAccepted :
    (registry : List SmsProvider) (key : String) (configuration : SmsProviderConfiguration)
    → validate_provider_input registry key configuration ≡ ok tt
    → IsAccepted registry key configuration
unfolding validate_provider_input checked_by
validate_provider_input-IsAccepted registry key configuration h =
    elim (Option-cases (get_provider key registry)) [
      | inl missing ↦ absurd (cc (rw missing at h))
      | inr (provider, found) ↦
          let errors =
            no_errors-cases (configuration_errors provider configuration) (rw found at h) in
          let fine = faultless_configuration provider configuration errors in
          record { provider = provider; registered = found; faultless = fine.0; permitted = fine.1 }
    ]

module _ (encryption : FieldEncryption Credentials) (d : Dispatching) where
  -- `create` reaches the repository only with a provider that is registered, accepts the
  -- configuration and permits its host; otherwise it throws and the tables stay as they are.
  pub create_configuration-cases :
      (input : CreateSmsConfigurationInput) (c : Call) (s : SmsStore)
      → ((e : Exception) × (create_configuration encryption d input c s ≡ (err e, s)))
        ⊎ (IsAccepted d.providers input.provider_key (created_configuration input)
            × (create_configuration encryption d input c s
                ≡ responded encryption d (create encryption input c s)))
  unfolding create_configuration
  create_configuration-cases input c s =
      elim (Result-cases
        (validate_provider_input d.providers input.provider_key (created_configuration input))) [
          | inr (e, bad) ↦ inl (e, rw bad)
          | inl (tt, fine) ↦ inr (
            validate_provider_input-IsAccepted d.providers input.provider_key
                (created_configuration input) fine,
            rw fine,
          )
        ]

  -- What a call of `activate` has tested before it reaches the repository.
  pub record IsCleared (id : String) (s : SmsStore) : Type 0 where
    pub target : SmsConfigurationRecord
    pub found : get_by_id id s ≡ some target
    pub on_platform : is_platform target ≡ true
    pub credentials : Credentials
    pub decrypted : decrypt_credentials encryption target ≡ some credentials
    pub accepted : IsAccepted d.providers target.provider_key (configuration_of target credentials)
    pub allowed : str_eq target.provider_key "mock" ≡ true → d.mock_allowed ≡ true

  require_record-found :
      (id : String) (s : SmsStore) (r : SmsConfigurationRecord)
      → require_record id s ≡ ok r
      → (get_by_id id s ≡ some r) × (is_platform r ≡ true)
  unfolding require_record platform_record
  require_record-found id s r h = elim (Option-cases (get_by_id id s)) [
    | inl missing ↦ absurd (cc (rw missing at h))
    | inr (q, found) ↦ elim (Bool-cases (is_platform q)) [
      | inr other ↦ absurd (cc (rw (found, other) at h))
      | inl platform ↦
          let same : q ≡ r = ground (arith, rw (found, platform) at h) in
          (found ∙ ap some same, rw (sym same) platform)
    ]
  ]

  validate_record-IsAccepted :
      (r : SmsConfigurationRecord)
      → validate_record encryption d r ≡ ok tt
      → (credentials : Credentials) × (decrypt_credentials encryption r ≡ some credentials)
        × IsAccepted d.providers r.provider_key (configuration_of r credentials)
  unfolding validate_record
  validate_record-IsAccepted r h = elim (Option-cases (decrypt_credentials encryption r)) [
    | inl missing ↦ absurd (cc (rw missing at h))
    | inr (credentials, found) ↦ (
      credentials,
      found,
      validate_provider_input-IsAccepted d.providers r.provider_key (configuration_of r credentials)
          (rw found at h),
    )
  ]

  mock_guard-allowed :
      (r : SmsConfigurationRecord)
      → mock_guard encryption d r ≡ ok tt
      → str_eq r.provider_key "mock" ≡ true
      → d.mock_allowed ≡ true
  unfolding mock_guard
  mock_guard-allowed r h is_mock = ground (arith, h, is_mock)

  -- `activate` throws and leaves the tables as they are, or the repository's `activate` answers a
  -- call for a platform configuration with decryptable credentials, which a registered provider
  -- accepts with its host, and which is of the mock provider only in development or test.
  pub activate_configuration-cases :
      (id : String) (c : Call) (s : SmsStore)
      → ((e : Exception) × (activate_configuration encryption d id c s ≡ (err e, s)))
        ⊎ (IsCleared id s
            × (activate_configuration encryption d id c s
                ≡ responded encryption d (activate id c s)))
  unfolding activate_configuration
  activate_configuration-cases id c s = elim (Result-cases (require_record id s)) [
    | inr (e, missing) ↦ inl (e, rw missing)
    | inl (r, found) ↦ elim (Result-cases (validate_record encryption d r)) [
      | inr (e, bad) ↦ inl (e, rw (found, bad))
      | inl (tt, valid) ↦ elim (Result-cases (mock_guard encryption d r)) [
        | inr (e, refused) ↦ inl (e, rw (found, valid, refused))
        | inl (tt, allowed) ↦
            let place = require_record-found id s r found in
            let checked = validate_record-IsAccepted r valid in
            inr (
              record {
                target = r;
                found = place.0;
                on_platform = place.1;
                credentials = checked.0;
                decrypted = checked.1;
                accepted = checked.2;
                allowed = mock_guard-allowed r allowed;
              },
              rw (found, valid, allowed),
            )
      ]
    ]
  ]
