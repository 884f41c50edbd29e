-- ===== src/Auth/RateLimits.antt =====
-- src/auth/rate-limit.service.ts, over the commands of Redis that the program uses: keys hold a
-- counter or a text, and are absent from their time of expiry on. Times are milliseconds.
pub mod Windows
use public_parks.Database.{Result, ok, err, find?}
use public_parks.Errors.{Exception, ErrorCode, raised}
use public_parks.Prelude.{
  ℕ, ◌+◌, ◌*◌, String, Bool, true, ◌&&◌, Option, none, some, List, [], ◌∷◌, str_eq, ltb,
  if◌then◌else◌, is_none, get_or,
}

pub data RedisValue : Type 0 where
  counter : ℕ → RedisValue
  text : String → RedisValue

pub record RedisEntry : Type 0 where
  pub key : String
  pub value : RedisValue
  pub expires_at : Option ℕ

abbrev pub Redis : Type 0
Redis = List RedisEntry

abbrev pub is_unexpired : ℕ → Option ℕ → Bool
is_unexpired now none = true
is_unexpired now (some t) = ltb now t

abbrev pub holds : String → ℕ → RedisEntry → Bool
holds key now e = str_eq e.key key && is_unexpired now e.expires_at

-- The entry of a key.
unfoldable pub entry : String → ℕ → Redis → Option RedisEntry
entry key now redis = find? (holds key now) redis

-- A new entry hides those that its key had.
abbrev pub put : String → RedisValue → Option ℕ → Redis → Redis
put key value expires_at redis =
    record { key = key; value = value; expires_at = expires_at } ∷ redis

-- The program counts under keys with prefixes of their own (`otp:phone:`, `otp:ip:`,
-- `admin-login:identity:`, `admin-login:ip:`, `admin-mfa-attempt:`), and sets texts only under
-- `otp:cooldown:` and `admin-mfa:`, so that INCR never meets a text; here it would count from 0.
abbrev pub counted : RedisValue → ℕ
counted (counter n) = n
counted (text s) = 0

-- `INCR`, with the count before and the time of expiry, which stays.
abbrev pub count_of : Option RedisEntry → ℕ
count_of none = 0
count_of (some e) = counted e.value

-- `EXPIRE … NX`: a time of expiry only where the key has none.
abbrev pub expiry_of : Option RedisEntry → ℕ → Option ℕ
expiry_of none t = some t
expiry_of (some e) t = some (get_or e.expires_at t)

abbrev pub too_many : String → Exception
too_many message = raised ErrorCode.rate_limit_exceeded message

-- `assertWithinLimit`: INCR and EXPIRE NX in one transaction, then the test of the count.
unfoldable pub assert_within_limit :
    (key : String) (limit window_seconds now : ℕ) → Redis → Result (Unit {0}) × Redis
unfolding entry
assert_within_limit key limit window_seconds now redis =
    let old = entry key now redis in
    let count = count_of old + 1 in
    (
      if ltb limit count then err (too_many "Too many requests. Try again later.") else ok tt,
      put key (counter count) (expiry_of old (now + window_seconds * 1000)) redis,
    )

-- `assertCooldown`: SET with EX and NX, which sets nothing if the key is there.
unfoldable pub assert_cooldown :
    (key : String) (seconds now : ℕ) → Redis → Result (Unit {0}) × Redis
unfolding entry
assert_cooldown key seconds now redis =
    if is_none (entry key now redis)
    then (ok tt, put key (text "1") (some (now + seconds * 1000)) redis)
    else (err (too_many "Please wait before requesting another code."), redis)

-- `SET … EX`
unfoldable pub set_text : (key value : String) (seconds now : ℕ) → Redis → Redis
set_text key value seconds now redis = put key (text value) (some (now + seconds * 1000)) redis

abbrev pub text_of_entry : Option RedisEntry → Option String
text_of_entry (some e) = elim e.value [ text s ↦ some s | counter n ↦ none ]
text_of_entry none = none

-- `GET`
unfoldable pub get_text : String → ℕ → Redis → Option String
unfolding entry
get_text key now redis = text_of_entry (entry key now redis)

-- `DEL`
unfoldable pub delete : String → Redis → Redis
delete key [] = []
delete key (e ∷ redis) = let rest = delete key redis in if str_eq e.key key then rest else e ∷ rest
