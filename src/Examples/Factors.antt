-- ===== src/Examples/Factors.antt =====
-- The second factors of an administrator of src/auth/authentication.repository.ts, each used twice.
use public_parks.Prelude.{
  ◌≡◌, refl, true, false, none, some, List, [], ◌∷◌, arith, str_eq, if◌then◌else◌,
}
use public_parks.Database.{ok}
use public_parks.Auth.Digests.{hash_token}
use public_parks.Auth.Mfa.{
  TotpFactor, MfaStore, MfaServices, valid_token, behind, is_totp_token, checked_step, accept_step,
  accept_recovery, recovery_hash, consume_super_admin_mfa,
}
use public_parks.Auth.Mfa.Effects.{MfaCall, run_mfa}
use public_parks.Auth.Mfa.Replay.{recovery_code-once, totp_token-once}
use public_parks.Examples.Access.{hashing}

-- Every token is that of the step before the current one.
abbrev services : MfaServices
services = record {
  hashes = hashing;
  encryption = record {
    encrypt_json = λ randomness secret aad. none;
    decrypt_json = λ payload aad. if str_eq aad "totp-factor:f1" then some "secret" else none;
  };
  verify_totp = λ secret token now. some (valid_token (some (behind 1)));
}

abbrev factor : TotpFactor
factor = record {
  id = "f1";
  user_id = "admin";
  encrypted_secret = record { key_id = "k1"; iv = ""; ciphertext = ""; auth_tag = "" };
  last_accepted_time_step = none;
}

abbrev enrolled : MfaStore
enrolled = record {
  totp_factors = factor ∷ [];
  recovery_codes =
      record { totp_factor_id = "f1"; code_hash = "recovery:blue-heron"; used_at = none } ∷ [];
}

abbrev other_calls : List MfaCall
other_calls = record { now = 95000; user_id = "admin"; verification_code = "555555" } ∷ []

abbrev after_token : MfaStore
after_token = (consume_super_admin_mfa services 90000 "admin" "123456" enrolled).1

six_digits : is_totp_token "123456" ≡ true
unfolding is_totp_token
six_digits = refl

first_step : checked_step services 90000 factor "123456" ≡ ok (some 2)
unfolding checked_step
first_step = refl

same_step : checked_step services 100000 factor "123456" ≡ ok (some 2)
unfolding checked_step
same_step = refl

token_accepted :
    consume_super_admin_mfa services 90000 "admin" "123456" enrolled ≡ (ok true, after_token)
unfolding consume_super_admin_mfa is_totp_token checked_step accept_step
token_accepted = refl

totp_token-once_example :
    consume_super_admin_mfa services 100000 "admin" "123456"
      (run_mfa services other_calls after_token)
    ≡ (ok false, run_mfa services other_calls after_token)
totp_token-once_example =
    totp_token-once services 90000 100000 "admin" "123456" "123456" enrolled after_token factor 2 2
      other_calls refl six_digits first_step token_accepted six_digits same_step (omega arith)

abbrev after_recovery : MfaStore
after_recovery = (consume_super_admin_mfa services 90000 "admin" "blue-heron" enrolled).1

not_six_digits : is_totp_token "blue-heron" ≡ false
unfolding is_totp_token
not_six_digits = refl

recovery_accepted :
    consume_super_admin_mfa services 90000 "admin" "blue-heron" enrolled ≡ (ok true, after_recovery)
unfolding consume_super_admin_mfa is_totp_token accept_recovery recovery_hash hash_token
recovery_accepted = refl

recovery_code-once_example :
    consume_super_admin_mfa services 100000 "admin" "blue-heron"
      (run_mfa services other_calls after_recovery)
    ≡ (ok false, run_mfa services other_calls after_recovery)
recovery_code-once_example =
    recovery_code-once services 90000 100000 "admin" "blue-heron" enrolled after_recovery factor
      other_calls refl not_six_digits recovery_accepted
