-- ===== src/Sms/Providers.antt =====
-- src/notifications/sms-provider.types.ts (the provider interface), sms-provider.registry.ts and
-- sms-configuration.resolver.ts. A provider stands behind an interface: how long a call takes and
-- what it settles to are its own.
use public_parks.Prelude.{
  ℕ, String, ◌≡◌, inl, inr, Bool, false, ◌||◌, Option, none, some, List, [], ◌∷◌, arith, str_eq,
  eq_iff, eq_refl, if◌then◌else◌, Bool-cases, any, All, All-map₂,
}
use public_parks.Errors.{other}
use public_parks.Database.{Result, ok, err, find?, any-false→All}
use public_parks.Sms.Types.{
  Credentials, SmsCredentialFieldDefinition, SmsProviderConfiguration, SendSmsResult,
  ResolvedSmsConfiguration, SmsConfigurationRecord, SmsStore, FieldEncryption,
}
use public_parks.Sms.Statements.{resolve_platform_active, decrypt_credentials, decryption_failed}

pub record SendSmsRequest : Type 0 where
  pub destination : String
  pub message : String
  pub idempotency_key : String
  pub configuration : SmsProviderConfiguration

-- What a call of `sendSms` does: the milliseconds after which its promise settles, and the result,
-- `none` if it is rejected.
pub record ProviderReply : Type 0 where
  pub takes_ms : ℕ
  pub settles : Option SendSmsResult

-- `sendSms` may answer each attempt differently, so it also takes the attempt's number.
pub record SmsProvider : Type 0 where
  pub provider_key : String
  pub display_name : String
  pub credential_fields : List SmsCredentialFieldDefinition
  pub validate_configuration : SmsProviderConfiguration → List String
  pub is_api_host_permitted : Option String → Bool
  pub send_sms : SendSmsRequest → ℕ → ProviderReply

-- `get`
unfoldable pub get_provider : String → List SmsProvider → Option SmsProvider
get_provider key providers = find? (λ p. str_eq p.provider_key key) providers

unfoldable pub has_duplicate : List SmsProvider → Bool
has_duplicate [] = false
has_duplicate (p ∷ ps) = any (λ q. str_eq q.provider_key p.provider_key) ps || has_duplicate ps

-- The constructor of the registry: it throws when two providers have one key.
unfoldable pub create_registry : List SmsProvider → Result (List SmsProvider)
create_registry providers =
    if has_duplicate providers
    then err (other "SMS provider keys must be unique.")
    else ok providers

abbrev pub resolved_configuration : SmsConfigurationRecord → Credentials → ResolvedSmsConfiguration
resolved_configuration r credentials = record {
  base = record {
    api_url = r.api_url;
    credentials = credentials;
    sender_id = r.sender_id;
    timeout_ms = r.timeout_ms;
    retry_count = r.retry_count;
  };
  id = r.id;
  provider_key = r.provider_key;
  revision = r.revision;
}

-- The outcome of `resolve`: no active configuration, the active one with its credentials, or the
-- exception of decrypting them. The city of the context is not looked at.
unfoldable pub resolve :
    FieldEncryption Credentials
    → SmsStore
    → Result (Option (SmsConfigurationRecord × ResolvedSmsConfiguration))
resolve encryption s = elim (resolve_platform_active s) [
  | none ↦ ok none
  | some r ↦ elim (decrypt_credentials encryption r) [
    | none ↦ err decryption_failed
    | some credentials ↦ ok (some (r, resolved_configuration r credentials))
  ]
]

skip_other :
    (p q : SmsProvider) (ps : List SmsProvider)
    → str_eq q.provider_key p.provider_key ≡ false
    → get_provider q.provider_key ps ≡ some q
    → get_provider q.provider_key (p ∷ ps) ≡ some q
unfolding get_provider
skip_other p q ps apart found =
    ground
      (arith, found, eq_iff p.provider_key q.provider_key, eq_iff q.provider_key p.provider_key)

no_duplicate :
    (p : SmsProvider) (ps : List SmsProvider)
    → has_duplicate (p ∷ ps) ≡ false
    → (any (λ q. str_eq q.provider_key p.provider_key) ps ≡ false) × (has_duplicate ps ≡ false)
unfolding has_duplicate
no_duplicate p ps h = (ground arith, ground arith)

found_by_key :
    (providers : List SmsProvider)
    → has_duplicate providers ≡ false
    → All (λ p. get_provider p.provider_key providers ≡ some p) providers
found_by_key [] h = tt
found_by_key (p ∷ ps) h =
    let (fresh, later) = no_duplicate p ps h in
    (
      unfold get_provider in rw (eq_refl p.provider_key),
      All-map₂ _ _ _ (λ q. skip_other p q ps) ps
          (any-false→All (λ q. str_eq q.provider_key p.provider_key) ps fresh)
          (found_by_key ps later),
    )

-- A registry that is constructed holds what was passed in, and `get` returns each provider of it
-- under its own key.
create_registry-get :
    (providers registry : List SmsProvider)
    → create_registry providers ≡ ok registry
    → (registry ≡ providers) × All (λ p. get_provider p.provider_key registry ≡ some p) providers
unfolding create_registry
create_registry-get providers registry h = elim (Bool-cases (has_duplicate providers)) [
  | inl twice ↦ absurd (cc (h, twice))
  | inr once ↦
      let same : registry ≡ providers = ground (arith, once) in
      (same, rw same (found_by_key providers once))
]
