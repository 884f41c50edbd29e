-- ===== src/Payments/Callbacks.antt =====
-- `verifyCallback` and `buildCallback` of src/payments/mock-payment.provider.ts.
use public_parks.Prelude.{
  ℕ, String, ◌≡◌, refl, sym, ap, inl, inr, true, false, some, List, [], ◌∷◌, arith, str_eq, ◌==◌,
  ==_refl, ==_iff, Bool-cases, &&-eq-true, Option-cases, get_or, length, template,
}
use package.text.Mathlib.TextLemmas.{append_assoc as text_assoc, nil-append as text_nil}
use public_parks.Auth.Digests.{same_bytes}
use public_parks.Payments.Types.{
  MockCallbackPayload, Payload, PaymentCallbackOutcome, failed, succeeded, text, value_at, verified,
}
use public_parks.Payments.MockProvider.{
  CallbackFields, Crypto, build_callback, canonical, compute_signature, mock_signing_secret,
  outcome_text, parse_payload, payload_of, provider_key, read_amount, read_outcome, read_string,
  redact, signatures_match, verify_callback,
}

same_bytes_refl : (bytes : List ℕ) → same_bytes bytes bytes ≡ true
same_bytes_refl [] = refl
same_bytes_refl (b ∷ bytes) = rw (==_refl b, same_bytes_refl bytes) refl

same_bytes_sound : (as' bs : List ℕ) → same_bytes as' bs ≡ true → as' ≡ bs
same_bytes_sound [] [] h = refl
same_bytes_sound [] (b ∷ bs) h = absurd cc
same_bytes_sound (a ∷ as') [] h = absurd cc
same_bytes_sound (a ∷ as') (b ∷ bs) h =
    let parts = &&-eq-true (a == b) (same_bytes as' bs) h in
    cc ((==_iff a b).0 parts.0, same_bytes_sound as' bs parts.1)

signatures_match_refl :
    (c : Crypto) (signature : String) → signatures_match c signature signature ≡ true
unfolding signatures_match
signatures_match_refl c signature =
    rw (==_refl (length (c.utf8 signature)), same_bytes_refl (c.utf8 signature)) refl

signatures_match_sound :
    (c : Crypto) (provided expected : String)
    → signatures_match c provided expected ≡ true
    → c.utf8 provided ≡ c.utf8 expected
unfolding signatures_match
signatures_match_sound c provided expected h =
    same_bytes_sound (c.utf8 provided) (c.utf8 expected) (ground (arith, h))

read_outcome-text :
    (outcome : PaymentCallbackOutcome)
    → read_outcome (some (text (outcome_text outcome))) ≡ some outcome
unfolding read_outcome outcome_text
read_outcome-text succeeded = refl
read_outcome-text failed = refl

-- A text that `readString` accepts.
abbrev IsFilled : String → Type 0
IsFilled s = str_eq s "" ≡ false

parse_payload-payload_of :
    (callback : MockCallbackPayload)
    → IsFilled callback.core.provider_event_id
    → IsFilled callback.core.merchant_reference
    → IsFilled callback.core.provider_transaction_id
    → IsFilled callback.mock_signature
    → parse_payload (payload_of callback) ≡ some callback
unfolding parse_payload payload_of value_at read_string read_amount
parse_payload-payload_of callback e m t s =
    rw (e, m, t, s, read_outcome-text callback.core.outcome) refl

-- What `buildCallback` returns, sent as a JSON object, is verified with the fields it was built
-- from, where the event id is the given one or a new one; its identifiers and the signature must
-- not be empty.
pub verify_callback-build_callback :
    (c : Crypto) (uuid : String) (fields : CallbackFields)
    → IsFilled (build_callback c uuid fields).core.provider_event_id
    → IsFilled fields.merchant_reference
    → IsFilled fields.provider_transaction_id
    → IsFilled (build_callback c uuid fields).mock_signature
    → verify_callback c (payload_of (build_callback c uuid fields))
      ≡ verified provider_key
          (get_or fields.provider_event_id (template ("mock_evt_" ∷ uuid ∷ [])))
          fields.merchant_reference
          fields.provider_transaction_id
          fields.outcome
          fields.amount
          (redact (payload_of (build_callback c uuid fields)))
unfolding verify_callback build_callback
verify_callback-build_callback c uuid fields e m t s =
    rw
      (
        parse_payload-payload_of (build_callback c uuid fields) e m t s,
        signatures_match_refl c (build_callback c uuid fields).mock_signature,
      )
      refl

-- A callback that `verifyCallback` calls verified has all six fields, the reported ones are those
-- of the payload, its signature's bytes are those of the HMAC of its own fields, and the payload
-- that is handed on is the redacted one.
pub verify_callback-authentic :
    (c : Crypto) (raw stripped : Payload) (key event reference transaction : String)
    (outcome : PaymentCallbackOutcome) (amount : ℕ)
    → verify_callback c raw ≡ verified key event reference transaction outcome amount stripped
    → (parsed : MockCallbackPayload) × (parse_payload raw ≡ some parsed)
      × (c.utf8 parsed.mock_signature ≡ c.utf8 (compute_signature c parsed.core))
      × (verified key event reference transaction outcome amount stripped
          ≡ verified provider_key parsed.core.provider_event_id parsed.core.merchant_reference
              parsed.core.provider_transaction_id parsed.core.outcome parsed.core.amount
              (redact raw))
unfolding verify_callback
verify_callback-authentic c raw stripped key event reference transaction outcome amount h =
    elim (Option-cases (parse_payload raw)) [
      | inl unreadable ↦ absurd (cc (rw unreadable at h))
      | inr (parsed, read) ↦
          elim (Bool-cases
            (signatures_match c parsed.mock_signature (compute_signature c parsed.core))) [
              | inr forged ↦ absurd (cc (rw (read, forged) at h))
              | inl genuine ↦ (
                parsed,
                read,
                signatures_match_sound c parsed.mock_signature (compute_signature c parsed.core)
                    genuine,
                sym (rw (read, genuine) at h),
              )
            ]
    ]

-- The signature does not bind where one identifier ends and the next begins: moving a part that
-- follows a "|" from the event id to the front of the merchant reference leaves the signature.
pub compute_signature-shift :
    (c : Crypto) (event part reference transaction : String) (outcome : PaymentCallbackOutcome)
    (amount : ℕ)
    → compute_signature c (record {
      provider_event_id = template (event ∷ "|" ∷ part ∷ []);
      merchant_reference = reference;
      provider_transaction_id = transaction;
      outcome = outcome;
      amount = amount;
    })
      ≡ compute_signature c (record {
        provider_event_id = event;
        merchant_reference = template (part ∷ "|" ∷ reference ∷ []);
        provider_transaction_id = transaction;
        outcome = outcome;
        amount = amount;
      })
unfolding compute_signature canonical
compute_signature-shift c event part reference transaction outcome amount =
    ap (c.hmac mock_signing_secret) (simp (text_assoc, text_nil) refl)
