-- ===== src/Auth/Digests.antt =====
-- src/common/security/secret-hash.service.ts. HMAC-SHA256 and the reading of hexadecimal text are
-- the platform's; the keys are those of the configuration.
use public_parks.Prelude.{ℕ, String, Bool, true, false, ◌&&◌, List, [], ◌∷◌, ◌==◌, length, template}

pub record SecretHash : Type 0 where
  -- `createHmac('sha256', key).update(value, 'utf8').digest('hex')`
  pub hmac : (key value : String) → String
  -- `Buffer.from(text, 'hex')`
  pub from_hex : String → List ℕ
  pub otp_hash_key : String
  pub token_hash_key : String
  pub csrf_key : String

-- `timingSafeEqual` of two buffers of one length
abbrev pub same_bytes : List ℕ → List ℕ → Bool
same_bytes [] [] = true
same_bytes (a ∷ as') (b ∷ bs) = a == b && same_bytes as' bs
same_bytes _ _ = false

module _ (h : SecretHash) where
  unfoldable pub hash_otp : (challenge_id phone_number otp_code : String) → String
  hash_otp challenge_id phone_number otp_code =
      h.hmac h.otp_hash_key (template (challenge_id ∷ ":" ∷ phone_number ∷ ":" ∷ otp_code ∷ []))

  unfoldable pub hash_token : String → String
  hash_token token = h.hmac h.token_hash_key token

  unfoldable pub hash_sensitive_lookup : String → String
  hash_sensitive_lookup value = h.hmac h.token_hash_key value

  unfoldable pub hash_csrf : (session_id refresh_token : String) → String
  hash_csrf session_id refresh_token =
      h.hmac h.csrf_key (template (session_id ∷ ":" ∷ refresh_token ∷ []))

  -- `isEqual`
  unfoldable pub is_equal : (expected_hex actual_hex : String) → Bool
  is_equal expected_hex actual_hex =
      let expected = h.from_hex expected_hex in
      let actual = h.from_hex actual_hex in
      length expected == length actual && same_bytes expected actual
