-- ===== src/Sms/Service/Masking.antt =====
-- The masking of a phone number in src/notifications/sms-configuration.service.ts.
use Prim.Native.String
use Prim.Native.String.{String, [], ◌∷◌}
use public_parks.Prelude.{ℕ, zero, suc, ◌-◌, ◌≡◌, refl}

-- `slice(0, n)`
first : ℕ → String → String
first zero s = ""
first (suc n) [] = ""
first (suc n) (c ∷ s) = c ∷ first n s

after : ℕ → String → String
after zero s = s
after (suc n) [] = ""
after (suc n) (c ∷ s) = after n s

-- `maskPhoneNumber`; a phone number has ASCII characters only, so that a character is a unit.
unfoldable pub mask_phone_number : String → String
unfolding first after
mask_phone_number s = String.◌++◌ (first 4 s) (String.◌++◌ "***" (after (String.count s - 3) s))

masked_test : mask_phone_number "+420123456789" ≡ "+420***789"
unfolding mask_phone_number
masked_test = refl

short_test : mask_phone_number "12" ≡ "12***12"
unfolding mask_phone_number
short_test = refl
