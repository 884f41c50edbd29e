-- ===== src/Examples/Codes.antt =====
-- A one-time code of src/auth/authentication.repository.ts that is created, mistyped and used.
use public_parks.Prelude.{
  ℕ, String, ◌≡◌, refl, true, false, none, some, List, [], ◌∷◌, arith, str_eq, any, All, ◌≤◌,
}
use public_parks.Errors.{authentication_failed}
use public_parks.Database.{ok, err, find?}
use public_parks.Auth.Tables.{OtpChallenge, User, AuthStore, Fresh, SessionResult}
use public_parks.Auth.Digests.{hash_otp, hash_token, is_equal}
use public_parks.Auth.Otp.{
  NewChallenge, PresentedCode, consume_otp_challenge, challenge_has_id, is_open, matches, has_phone,
  new_challenge, accept_body, upsert_user,
}
use public_parks.Auth.Otp.Outcomes.{consumed_rows}
use public_parks.Auth.Otp.Effects.{
  OtpRequest, create_challenge, fail_delivery, consume_challenge, run_otp,
}
use public_parks.Auth.Otp.Mistakes.{
  AllFail, IsCounted, IsMistake, guess_all, consume_otp_challenge-counts,
}
use public_parks.Auth.Otp.Attempts.{IsGuarded, run_otp-IsGuarded}
use public_parks.Auth.Otp.Once.{consume_otp_challenge-authentic, consume_otp_challenge-once}
use public_parks.Auth.Otp.Acceptance.{IsSignedIn, resident_session, consume_otp_challenge-accepts}
use public_parks.Examples.Access.{hashing, resident}

abbrev requested : NewChallenge
requested = record {
  challenge_id = "c1";
  phone_number = "+251911";
  code_digest = "c1:+251911:4242";
  expires_at = 300;
}

abbrev nobody : AuthStore
nobody = record { otp_challenges = []; users = resident ∷ []; sessions = []; refresh_tokens = [] }

abbrev challenged : AuthStore
challenged = record nobody { otp_challenges = new_challenge requested ∷ [] }

abbrev code : String → PresentedCode
code otp_code = record { challenge_id = "c1"; otp_code = otp_code; device_name = none }

abbrev at_time : ℕ → Fresh
at_time now = record {
  now = now;
  user_uuid = "u2";
  session_uuid = "s1";
  token_uuid = "t1";
  refresh_token = "secret";
}

abbrev used : AuthStore
used = (consume_otp_challenge hashing (at_time 100) (code "4242") challenged).1

accepted_code :
    consume_otp_challenge hashing (at_time 100) (code "4242") challenged
    ≡ (ok (resident_session (at_time 100) "u1"), used)
unfolding consume_otp_challenge accept_body upsert_user matches hash_otp is_equal hash_token
accepted_code = refl

consume_otp_challenge-authentic_example :
    (c : OtpChallenge) × (find? (challenge_has_id "c1") challenged.otp_challenges ≡ some c)
    × (is_open 100 c ≡ true)
    × (matches hashing (at_time 100) (code "4242") c ≡ true)
    × (used.otp_challenges ≡ consumed_rows hashing (at_time 100) (code "4242") challenged)
consume_otp_challenge-authentic_example =
    consume_otp_challenge-authentic hashing (at_time 100) (code "4242") challenged used
      (resident_session (at_time 100) "u1") accepted_code

abbrev later_calls : List OtpRequest
later_calls =
    fail_delivery "c1" ∷ create_challenge (record requested { challenge_id = "c2" }) 120 ∷ []

consume_otp_challenge-once_example :
    consume_otp_challenge hashing (at_time 200) (code "4242") (run_otp hashing later_calls used)
    ≡ (err authentication_failed, run_otp hashing later_calls used)
consume_otp_challenge-once_example =
    consume_otp_challenge-once hashing (at_time 100) (at_time 200) (code "4242") (code "4242")
      challenged used (resident_session (at_time 100) "u1") later_calls accepted_code refl

nothing-IsGuarded : IsGuarded []
nothing-IsGuarded = record {
  limited = tt;
  unique = λ id. omega arith;
  single = λ phone_number. omega arith;
}

abbrev mistyping : List OtpRequest
mistyping =
    create_challenge requested 50
    ∷ consume_challenge (at_time 100) (code "4243")
    ∷ consume_challenge (at_time 110) (code "4244")
    ∷ create_challenge (record requested { challenge_id = "c2" }) 120
    ∷ consume_challenge (at_time 130) (code "4242")
    ∷ []

run_otp-IsGuarded_example : IsGuarded (run_otp hashing mistyping nobody).otp_challenges
run_otp-IsGuarded_example = run_otp-IsGuarded hashing mistyping nobody nothing-IsGuarded

right_code : matches hashing (at_time 100) (code "4242") (new_challenge requested) ≡ true
unfolding matches hash_otp is_equal
right_code = refl

consume_otp_challenge-accepts_example :
    ((user : User)
      → find? (has_phone "+251911") challenged.users ≡ some user
      → find? (λ u. str_eq u.id user.id) challenged.users ≡ some user
      → (user.is_active ≡ true
          → (result : SessionResult) × (s' : AuthStore) × (consume_otp_challenge hashing
                (at_time 100)
                (code "4242")
                challenged
              ≡ (ok result, s'))
            × IsSignedIn hashing (at_time 100) (code "4242") "+251911" user.id result s')
        × (user.is_active ≡ false
            → consume_otp_challenge hashing (at_time 100) (code "4242") challenged
              ≡ (err authentication_failed, challenged)))
    × (find? (has_phone "+251911") challenged.users ≡ none
        → any (λ u. str_eq u.id "u2") challenged.users ≡ false
        → (result : SessionResult) × (s' : AuthStore) × (consume_otp_challenge hashing
              (at_time 100)
              (code "4242")
              challenged
            ≡ (ok result, s'))
          × IsSignedIn hashing (at_time 100) (code "4242") "+251911" "u2" result s')
consume_otp_challenge-accepts_example =
    consume_otp_challenge-accepts hashing (at_time 100) (code "4242") challenged
      (new_challenge requested) refl refl (omega arith) (omega arith) right_code refl refl

abbrev guesses : List (Fresh × PresentedCode)
guesses =
    (at_time 100, code "1")
    ∷ (at_time 110, code "2")
    ∷ (at_time 120, code "3")
    ∷ (at_time 130, code "4")
    ∷ (at_time 140, code "5")
    ∷ []

guesses-AreMistakes : All (IsMistake hashing "c1" (new_challenge requested)) guesses
unfolding matches hash_otp is_equal
guesses-AreMistakes = (
  (refl, omega arith, refl),
  (
    (refl, omega arith, refl),
    ((refl, omega arith, refl), ((refl, omega arith, refl), ((refl, omega arith, refl), tt))),
  ),
)

consume_otp_challenge-counts_example :
    AllFail hashing guesses challenged
    × IsCounted "c1" (new_challenge requested) 5 (guess_all hashing guesses challenged)
    × (5 ≤ 5
        → (later : Fresh) (again : PresentedCode) → again.challenge_id ≡ "c1"
        → consume_otp_challenge hashing later again (guess_all hashing guesses challenged)
          ≡ (err authentication_failed, guess_all hashing guesses challenged))
consume_otp_challenge-counts_example =
    consume_otp_challenge-counts hashing "c1" challenged (new_challenge requested) guesses refl refl
      (omega arith) guesses-AreMistakes
