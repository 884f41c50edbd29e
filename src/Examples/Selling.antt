-- ===== src/Examples/Selling.antt =====
-- A callback and an initiation of src/payments/mock-payment.provider.ts.
use public_parks.Prelude.{
  ◌≡◌, refl, false, none, some, [], ◌∷◌, str_eq, if◌then◌else◌, template, decimal,
}
use public_parks.Payments.Types.{
  permanent, PaymentInitiationRequest, initiation_failed, succeeded, Payload, value_at, verified,
  MockCallbackPayload,
}
use public_parks.Payments.MockProvider.{
  provider_key, program_initiation_failure, initiate_payment, parse_payload, redact, Crypto,
  CallbackFields, compute_signature, verify_callback, build_callback, payload_of, canonical,
  outcome_text,
}
use public_parks.Payments.Initiation.{initiate_each, initiate_payment-programmed}
use public_parks.Payments.Redaction.{value_at-redact}
use public_parks.Payments.Callbacks.{
  verify_callback-build_callback, verify_callback-authentic, compute_signature-shift,
}

abbrev crypto : Crypto
crypto = record {
  hmac = λ key value. value;
  utf8 = λ value. if str_eq value "e1|o7|tx9|succeeded|2500" then 1 ∷ [] else 0 ∷ [];
}

abbrev paid : CallbackFields
paid = record {
  merchant_reference = "o7";
  provider_transaction_id = "tx9";
  outcome = succeeded;
  amount = 2500;
  provider_event_id = some "e1";
}

abbrev sent : Payload
sent = payload_of (build_callback crypto "uuid" paid)

filled : str_eq (build_callback crypto "uuid" paid).core.provider_event_id "" ≡ false
unfolding build_callback
filled = refl

signed : str_eq (build_callback crypto "uuid" paid).mock_signature "" ≡ false
unfolding build_callback compute_signature canonical outcome_text decimal
signed = refl

verify_callback-build_callback_example :
    verify_callback crypto sent ≡ verified provider_key "e1" "o7" "tx9" succeeded 2500 (redact sent)
verify_callback-build_callback_example =
    verify_callback-build_callback crypto "uuid" paid filled refl refl signed

verify_callback-authentic_example :
    (parsed : MockCallbackPayload) × (parse_payload sent ≡ some parsed)
    × (crypto.utf8 parsed.mock_signature ≡ crypto.utf8 (compute_signature crypto parsed.core))
    × (verified provider_key "e1" "o7" "tx9" succeeded 2500 (redact sent)
        ≡ verified provider_key parsed.core.provider_event_id parsed.core.merchant_reference
            parsed.core.provider_transaction_id parsed.core.outcome parsed.core.amount
            (redact sent))
verify_callback-authentic_example =
    verify_callback-authentic crypto sent (redact sent) provider_key "e1" "o7" "tx9" succeeded 2500
      (verify_callback-build_callback crypto "uuid" paid filled refl refl signed)

compute_signature-shift_example :
    compute_signature crypto (record {
      provider_event_id = template ("e1" ∷ "|" ∷ "o7" ∷ []);
      merchant_reference = "tx9";
      provider_transaction_id = "tx10";
      outcome = succeeded;
      amount = 2500;
    })
    ≡ compute_signature crypto (record {
      provider_event_id = "e1";
      merchant_reference = template ("o7" ∷ "|" ∷ "tx9" ∷ []);
      provider_transaction_id = "tx10";
      outcome = succeeded;
      amount = 2500;
    })
compute_signature-shift_example =
    compute_signature-shift crypto "e1" "o7" "tx9" "tx10" succeeded 2500

value_at-redact_example :
    value_at "amount" (redact sent)
    ≡ (if str_eq "amount" "mockSignature" then none else value_at "amount" sent)
value_at-redact_example = value_at-redact "amount" sent

abbrev order : PaymentInitiationRequest
order = record {
  merchant_reference = "o7";
  amount = 2500;
  payer_user_id = "u1";
  description = "Entrance";
  notify_url = "https://parks.test/notify";
  return_url = "https://parks.test/return";
}

initiate_payment-programmed_example :
    (initiate_payment "uuid" order (
      initiate_each
        (("first", order) ∷ ("second", order) ∷ [])
        (program_initiation_failure "o7" "declined" (some permanent) []))).0
    ≡ (if str_eq "o7" "o7"
        then initiation_failed provider_key "declined" permanent
        else (initiate_payment "uuid" order []).0)
initiate_payment-programmed_example =
    initiate_payment-programmed "uuid" "o7" "declined" permanent order []
      (("first", order) ∷ ("second", order) ∷ [])
