-- ===== src/Payments/Types.antt =====
-- src/payments/payment-provider.types.ts, and the types of mock-payment.provider.ts.
use public_parks.Prelude.{ℕ, String, Bool, Option, none, some, List, [], ◌∷◌, str_eq, if◌then◌else◌}

pub data PaymentFailureClassification : Type 0 where
  transient permanent configuration : PaymentFailureClassification

pub record PaymentInitiationRequest : Type 0 where
  pub merchant_reference : String
  pub amount : ℕ
  pub payer_user_id : String
  pub description : String
  pub notify_url : String
  pub return_url : String

pub data PaymentInitiationResult : Type 0 where
  initiated : (provider_key prepay_id checkout_url : String) → PaymentInitiationResult
  initiation_failed :
      (provider_key failure_reason : String)
      → PaymentFailureClassification
      → PaymentInitiationResult

pub data PaymentCallbackOutcome : Type 0 where
  succeeded failed : PaymentCallbackOutcome

-- A JSON value of a callback: a text, a non-negative integer (below 2 ^ 53, from where a JavaScript
-- number and its digits are not exact), another number, a truth value, null, an array or object (by its text).
pub data Value : Type 0 where
  text : String → Value
  natural : ℕ → Value
  other_number : String → Value
  boolean : Bool → Value
  null : Value
  structured : String → Value

-- `Record<string, unknown>`: keys and values.
abbrev pub Payload : Type 0
Payload = List (String × Value)

-- `payload.key`, where a missing key reads as `undefined`
unfoldable pub value_at : String → Payload → Option Value
value_at key [] = none
value_at key ((k, v) ∷ payload) = if str_eq k key then some v else value_at key payload

pub data PaymentCallbackVerificationResult : Type 0 where
  verified :
      (provider_key provider_event_id merchant_reference provider_transaction_id : String)
      → PaymentCallbackOutcome
      → ℕ
      → Payload
      → PaymentCallbackVerificationResult
  signature_invalid :
      String → (provider_event_id : Option String) → Payload → PaymentCallbackVerificationResult
  unrecognized :
      String → (provider_event_id : Option String) → Payload → PaymentCallbackVerificationResult

-- What the signature is computed from.
pub record CallbackCore : Type 0 where
  pub provider_event_id : String
  pub merchant_reference : String
  pub provider_transaction_id : String
  pub outcome : PaymentCallbackOutcome
  pub amount : ℕ

-- `MockCallbackPayload`
pub record MockCallbackPayload : Type 0 where
  pub core : CallbackCore
  pub mock_signature : String

-- `ProgrammedInitiationFailure`
pub record ProgrammedInitiationFailure : Type 0 where
  pub failure_reason : String
  pub classification : PaymentFailureClassification

-- The provider's state: `initiationFailures`, by merchant reference.
abbrev pub InitiationFailures : Type 0
InitiationFailures = List (String × ProgrammedInitiationFailure)
