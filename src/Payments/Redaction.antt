-- ===== src/Payments/Redaction.antt =====
-- `redact` of src/payments/mock-payment.provider.ts.
use public_parks.Prelude.{
  String, ◌≡◌, refl, inl, inr, false, none, [], ◌∷◌, arith, str_eq, eq_iff, if◌then◌else◌,
  Bool-cases, str_eq_comm,
}
use public_parks.Payments.Types.{Payload, value_at}
use public_parks.Payments.MockProvider.{redact}

-- A redacted payload has no signature, and reads like the payload at every other key.
pub value_at-redact :
    (key : String) (payload : Payload)
    → value_at key (redact payload)
      ≡ (if str_eq key "mockSignature" then none else value_at key payload)
unfolding value_at redact
value_at-redact key [] = ground arith
value_at-redact key ((k, v) ∷ payload) = elim (Bool-cases (str_eq k "mockSignature")) [
  | inl secret ↦
      let is : k ≡ "mockSignature" = (eq_iff k "mockSignature").0 secret in
      elim (Bool-cases (str_eq key "mockSignature")) [
        | inl same ↦ rw (secret, value_at-redact key payload, same) refl
        | inr other ↦
            let apart : str_eq k key ≡ false = cc (is, other, str_eq_comm key "mockSignature") in
            rw (secret, value_at-redact key payload, other, apart) refl
      ]
  | inr open_key ↦ elim (Bool-cases (str_eq k key)) [
    | inl hit ↦
        let is : k ≡ key = (eq_iff k key).0 hit in
        let apart : str_eq key "mockSignature" ≡ false = cc (is, open_key) in
        rw (open_key, apart, hit) refl
    | inr miss ↦ rw (open_key, miss, value_at-redact key payload) refl
  ]
]
