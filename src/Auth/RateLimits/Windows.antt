-- ===== src/Auth/RateLimits/Windows.antt =====
-- How many calls a window of src/auth/rate-limit.service.ts lets through.
use public_parks.Database.{Result, ok, err}
use public_parks.Auth.RateLimits.{Redis, counter, entry, put, assert_within_limit}
use public_parks.Prelude.{
  ℕ, ◌+◌, ◌*◌, ◌<◌, min, String, ◌≡◌, Bool, true, false, none, some, List, [], ◌∷◌, arith, eq_refl,
  if◌then◌else◌, lt→ltb, length, All,
}

abbrev pub is_ok {ℓ} : {A : Type ℓ} → Result A → Bool
is_ok (ok a) = true
is_ok (err e) = false

module _ (key : String) (limit window_seconds : ℕ) where
  -- The calls for one key at the given times: how many are let through.
  unfoldable pub passed : List ℕ → Redis → ℕ
  unfolding assert_within_limit
  passed [] redis = 0
  passed (now ∷ times) redis =
      let out = assert_within_limit key limit window_seconds now redis in
      let rest = passed times out.1 in (if is_ok out.0 then 1 else 0) + rest

  passed_within :
      (n end : ℕ) (times : List ℕ) (redis : Redis)
      → All (λ now. now < end) times
      → passed times (put key (counter n) (some end) redis) + min limit n
        ≡ min limit (n + length times)
  unfolding passed assert_within_limit entry
  passed_within n end [] redis h = omega arith
  passed_within n end (now ∷ times) redis h =
      let rest = passed_within (n + 1) end times (put key (counter n) (some end) redis) h.1 in
      let early = lt→ltb now end h.0 in rw (eq_refl key, early) (ground (arith, rest))

  -- From a time at which the key is free, as many calls before the end of its window are let
  -- through as the limit says, or all, if there are no more.
  pub assert_within_limit-passed :
      (start : ℕ) (times : List ℕ) (redis : Redis)
      → entry key start redis ≡ none
      → All (λ now. now < start + window_seconds * 1000) times
      → passed (start ∷ times) redis ≡ min limit (length (start ∷ times))
  unfolding passed assert_within_limit
  assert_within_limit-passed start times redis free h =
      let rest = passed_within 1 (start + window_seconds * 1000) times redis h in
      rw free (ground (arith, rest))
