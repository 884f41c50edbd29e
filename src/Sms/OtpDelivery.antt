-- ===== src/Sms/OtpDelivery.antt =====
-- src/notifications/sms-otp-delivery.adapter.ts: one-time codes go out through the dispatcher.
use public_parks.Database.{Result}
use public_parks.Sms.Types.{Credentials, SmsStore, FieldEncryption}
use public_parks.Sms.Dispatcher.{Dispatching, SmsMessage, send}
use public_parks.Prelude.{String, [], ◌∷◌, template}

abbrev pub otp_delivery_message : (challenge_id destination otp_code : String) → SmsMessage
otp_delivery_message challenge_id destination otp_code = record {
  destination = destination;
  message =
      template
        ("Your Public Parks verification code is " ∷ otp_code ∷ ". It expires in 5 minutes." ∷ []);
  idempotency_key = template ("otp:" ∷ challenge_id ∷ []);
  purpose = "resident_otp";
}

-- `deliverOtp`
unfoldable pub deliver_otp :
    FieldEncryption Credentials
    → Dispatching
    → (challenge_id destination otp_code : String) → SmsStore
    → Result (Unit {0}) × SmsStore
unfolding send
deliver_otp encryption d challenge_id destination otp_code =
    send encryption d (otp_delivery_message challenge_id destination otp_code)
