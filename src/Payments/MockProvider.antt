-- ===== src/Payments/MockProvider.antt =====
-- The operations of src/payments/mock-payment.provider.ts. HMAC-SHA256, the UTF-8 encoding of a
-- text and `randomUUID` are the platform's: parameters.
use public_parks.Prelude.{
  ℕ, String, Bool, ◌&&◌, Option, none, some, List, [], ◌∷◌, str_eq, ◌==◌, if◌then◌else◌, get_or,
  length, template, decimal,
}
use public_parks.Payments.Types.{
  CallbackCore, InitiationFailures, MockCallbackPayload, Payload, PaymentCallbackOutcome,
  PaymentCallbackVerificationResult, PaymentFailureClassification, PaymentInitiationRequest,
  PaymentInitiationResult, ProgrammedInitiationFailure, Value, failed, initiated, initiation_failed,
  natural, signature_invalid, succeeded, text, transient, unrecognized, value_at, verified,
}
use public_parks.Auth.Digests.{same_bytes}

abbrev pub provider_key : String
provider_key = "mock"

unfoldable pub failure_of : String → InitiationFailures → Option ProgrammedInitiationFailure
failure_of reference [] = none
failure_of reference ((r, f) ∷ failures) =
    if str_eq r reference then some f else failure_of reference failures

-- `programInitiationFailure`, where the map's `set` replaces an entry of the key
unfoldable pub program_initiation_failure :
    String → String → Option PaymentFailureClassification → InitiationFailures → InitiationFailures
program_initiation_failure reference reason classification [] =
    (
      reference,
      record { failure_reason = reason; classification = get_or classification transient },
    )
    ∷ []
program_initiation_failure reference reason classification ((r, f) ∷ failures) =
    if str_eq r reference
    then (r, record { failure_reason = reason; classification = get_or classification transient })
      ∷ failures
    else (r, f) ∷ program_initiation_failure reference reason classification failures

-- `reset`
unfoldable pub reset : InitiationFailures → InitiationFailures
reset failures = []

-- The answer of `initiatePayment`, given the programmed failure.
abbrev pub initiation_answer : String → Option ProgrammedInitiationFailure → PaymentInitiationResult
initiation_answer uuid (some f) = initiation_failed provider_key f.failure_reason f.classification
initiation_answer uuid none =
    let prepay_id = template ("mock_prepay_" ∷ uuid ∷ []) in
    initiated provider_key prepay_id
      (template ("https://mock-checkout.telebirr.local/pay/" ∷ prepay_id ∷ []))

-- `initiatePayment`, with the uuid that it draws, and the state after it
unfoldable pub initiate_payment :
    String
    → PaymentInitiationRequest
    → InitiationFailures
    → PaymentInitiationResult × InitiationFailures
initiate_payment uuid request failures =
    (initiation_answer uuid (failure_of request.merchant_reference failures), failures)

-- The checks of `parsePayload`: a field that cannot be read makes the whole unreadable.
infixl 5 ◌>>=◌
abbrev pub ◌>>=◌ : {A B : Type 0} → Option A → (A → Option B) → Option B
◌>>=◌ none f = none
◌>>=◌ (some a) f = f a

-- `readString`
unfoldable pub read_string : Option Value → Option String
read_string (some (text s)) = if str_eq s "" then none else some s
read_string _ = none

-- `readOutcome`
unfoldable pub read_outcome : Option Value → Option PaymentCallbackOutcome
read_outcome (some (text s)) =
    if str_eq s "succeeded" then some succeeded else if str_eq s "failed" then some failed else none
read_outcome _ = none

-- `readAmount`
unfoldable pub read_amount : Option Value → Option ℕ
read_amount (some (natural n)) = some n
read_amount _ = none

-- `parsePayload`
unfoldable pub parse_payload : Payload → Option MockCallbackPayload
parse_payload raw = do
  event ← read_string (value_at "providerEventId" raw)
  reference ← read_string (value_at "merchantReference" raw)
  transaction ← read_string (value_at "providerTransactionId" raw)
  outcome ← read_outcome (value_at "outcome" raw)
  amount ← read_amount (value_at "amount" raw)
  signature ← read_string (value_at "mockSignature" raw)
  some (record {
    core = record {
      provider_event_id = event;
      merchant_reference = reference;
      provider_transaction_id = transaction;
      outcome = outcome;
      amount = amount;
    };
    mock_signature = signature;
  })

-- `redact`
unfoldable pub redact : Payload → Payload
redact [] = []
redact ((k, v) ∷ payload) =
    if str_eq k "mockSignature" then redact payload else (k, v) ∷ redact payload

unfoldable pub outcome_text : PaymentCallbackOutcome → String
outcome_text succeeded = "succeeded"
outcome_text failed = "failed"

-- The signature's input: the parts joined by "|". The digits of an amount are those that JavaScript
-- prints below 2 ^ 53.
unfoldable pub canonical : CallbackCore → String
canonical core = template (
    core.provider_event_id
    ∷ "|"
    ∷ core.merchant_reference
    ∷ "|"
    ∷ core.provider_transaction_id
    ∷ "|"
    ∷ outcome_text core.outcome
    ∷ "|"
    ∷ decimal core.amount
    ∷ [])

-- What the provider calls of the platform.
pub record Crypto : Type 0 where
  -- `createHmac('sha256', key).update(value).digest('hex')`
  pub hmac : (key value : String) → String
  -- `Buffer.from(value, 'utf8')`
  pub utf8 : String → List ℕ

abbrev pub mock_signing_secret : String
mock_signing_secret = "mock-payment-provider-signing-secret"

-- The argument of `buildCallback`.
pub record CallbackFields : Type 0 where
  pub merchant_reference : String
  pub provider_transaction_id : String
  pub outcome : PaymentCallbackOutcome
  pub amount : ℕ
  pub provider_event_id : Option String

module _ (c : Crypto) where
  unfoldable pub compute_signature : CallbackCore → String
  compute_signature core = c.hmac mock_signing_secret (canonical core)

  unfoldable pub signatures_match : (provided expected : String) → Bool
  signatures_match provided expected =
      length (c.utf8 provided) == length (c.utf8 expected)
      && same_bytes (c.utf8 provided) (c.utf8 expected)

  -- The answer of `verifyCallback`, given the parsed payload.
  abbrev pub verification_of :
      Payload → Option MockCallbackPayload → PaymentCallbackVerificationResult
  verification_of raw none =
      unrecognized provider_key (read_string (value_at "providerEventId" raw)) (redact raw)
  verification_of raw (some parsed) =
      if signatures_match parsed.mock_signature (compute_signature parsed.core)
      then verified provider_key parsed.core.provider_event_id parsed.core.merchant_reference
          parsed.core.provider_transaction_id parsed.core.outcome parsed.core.amount (redact raw)
      else signature_invalid provider_key (some parsed.core.provider_event_id) (redact raw)

  -- `verifyCallback`
  unfoldable pub verify_callback : Payload → PaymentCallbackVerificationResult
  verify_callback raw = verification_of raw (parse_payload raw)

  -- `buildCallback`, with the uuid that it may draw
  unfoldable pub build_callback : String → CallbackFields → MockCallbackPayload
  build_callback uuid fields =
      let core : CallbackCore = record {
        provider_event_id = get_or fields.provider_event_id (template ("mock_evt_" ∷ uuid ∷ []));
        merchant_reference = fields.merchant_reference;
        provider_transaction_id = fields.provider_transaction_id;
        outcome = fields.outcome;
        amount = fields.amount;
      } in
      record { core = core; mock_signature = compute_signature core }

-- The built callback as the JSON object that is sent.
unfoldable pub payload_of : MockCallbackPayload → Payload
payload_of callback =
    ("providerEventId", text callback.core.provider_event_id)
    ∷ ("merchantReference", text callback.core.merchant_reference)
    ∷ ("providerTransactionId", text callback.core.provider_transaction_id)
    ∷ ("outcome", text (outcome_text callback.core.outcome))
    ∷ ("amount", natural callback.core.amount)
    ∷ ("mockSignature", text callback.mock_signature)
    ∷ []
