-- ===== src/Payments/Initiation.antt =====
-- The programmed failures of src/payments/mock-payment.provider.ts.
use public_parks.Prelude.{
  String, ◌≡◌, refl, inl, inr, false, some, List, [], ◌∷◌, str_eq, eq_iff, if◌then◌else◌,
  Bool-cases, str_eq_comm,
}
use public_parks.Payments.Types.{
  InitiationFailures, PaymentFailureClassification, PaymentInitiationRequest, initiation_failed,
}
use public_parks.Payments.MockProvider.{
  failure_of, initiate_payment, program_initiation_failure, provider_key,
}

failure_of-program :
    (r reference reason : String) (classification : PaymentFailureClassification)
    (failures : InitiationFailures)
    → failure_of r (program_initiation_failure reference reason (some classification) failures) ≡ (
        if str_eq reference r
        then some (record { failure_reason = reason; classification = classification })
        else failure_of r failures)
unfolding failure_of program_initiation_failure
failure_of-program r reference reason classification [] = refl
failure_of-program r reference reason classification ((k, f) ∷ failures) =
    elim (Bool-cases (str_eq k reference)) [
      | inl hit ↦
          let same : k ≡ reference = (eq_iff k reference).0 hit in
          rw (hit, same)
            (elim (Bool-cases (str_eq reference r)) [
              | inl is ↦ rw is refl
              | inr other ↦ rw other refl
            ])
      | inr miss ↦ rw miss (elim (Bool-cases (str_eq k r)) [
        | inl is ↦
            let same : k ≡ r = (eq_iff k r).0 is in
            let apart : str_eq reference r ≡ false = cc (miss, str_eq_comm k reference, same) in
            rw (is, apart) refl
        | inr other ↦ rw (other, failure_of-program r reference reason classification failures) refl
      ])
    ]

-- The state after some calls of `initiatePayment`, each with the uuid that it draws.
unfoldable pub initiate_each :
    List (String × PaymentInitiationRequest) → InitiationFailures → InitiationFailures
initiate_each [] failures = failures
initiate_each ((uuid, request) ∷ calls) failures =
    initiate_each calls (initiate_payment uuid request failures).1

initiate_each-same :
    (calls : List (String × PaymentInitiationRequest)) (failures : InitiationFailures)
    → initiate_each calls failures ≡ failures
unfolding initiate_each initiate_payment
initiate_each-same [] failures = refl
initiate_each-same ((uuid, request) ∷ calls) failures = initiate_each-same calls failures

-- After `programInitiationFailure` for a reference with a classification, and any calls of
-- `initiatePayment`, the next `initiatePayment` of an order of that reference fails with the
-- programmed reason and classification; of any other order it has the result that it had before.
pub initiate_payment-programmed :
    (uuid reference reason : String) (classification : PaymentFailureClassification)
    (request : PaymentInitiationRequest) (failures : InitiationFailures)
    (calls : List (String × PaymentInitiationRequest))
    → (initiate_payment uuid request (
        initiate_each calls
          (program_initiation_failure reference reason (some classification) failures))).0
      ≡ (if str_eq reference request.merchant_reference
          then initiation_failed provider_key reason classification
          else (initiate_payment uuid request failures).0)
unfolding initiate_payment
initiate_payment-programmed uuid reference reason classification request failures calls =
    rw
      (
        initiate_each-same calls
            (program_initiation_failure reference reason (some classification) failures),
        failure_of-program request.merchant_reference reference reason classification failures,
      )
      (elim (Bool-cases (str_eq reference request.merchant_reference)) [
        | inl same ↦ rw same refl
        | inr other ↦ rw other refl
      ])
