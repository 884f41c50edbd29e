-- ===== src/Auth/Mfa/Tokens.antt =====
-- The form of a TOTP token in src/auth/authentication.repository.ts.
use Prim.Native.Char.{code}
use Prim.Native.String
use Prim.Native.String.{String, [], ◌∷◌}
use public_parks.Prelude.{Bool, true, ◌&&◌, ◌==◌, leb, ◌≡◌, refl}

all_digits : String → Bool
all_digits [] = true
all_digits (c ∷ s) = leb 48 (code c) && (leb (code c) 57 && all_digits s)

-- `/^[0-9]{6}$/.test(verificationCode)`
unfoldable pub is_totp_token : String → Bool
unfolding all_digits
is_totp_token s = String.count s == 6 && all_digits s

totp_token_test : is_totp_token "091823" ≡ true
unfolding is_totp_token
totp_token_test = refl
