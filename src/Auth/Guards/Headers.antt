-- ===== src/Auth/Guards/Headers.antt =====
-- The form of an `Authorization` header in src/auth/access-token.guard.ts.
use Prim.Native.String.{String, [], ◌∷◌}
use Prim.Native.Char.{code}
use public_parks.Prelude.{Option, none, some, ◌==◌, ◌≡◌, refl, if◌then◌else◌}

-- The rest of a text after a prefix.
after_prefix : (prefix s : String) → Option String
after_prefix [] s = some s
after_prefix (c ∷ prefix) [] = none
after_prefix (c ∷ prefix) (d ∷ s) = if code c == code d then after_prefix prefix s else none

non_empty : Option String → Option String
non_empty (some (c ∷ s)) = some (c ∷ s)
non_empty _ = none

-- `authorization.slice(7)` of a header that starts with `Bearer ` and is longer than that.
unfoldable pub bearer_token : String → Option String
unfolding after_prefix non_empty
bearer_token authorization = non_empty (after_prefix "Bearer " authorization)

bearer_test : bearer_token "Bearer a.b.c" ≡ some "a.b.c"
unfolding bearer_token
bearer_test = refl

empty_test : bearer_token "Bearer " ≡ none
unfolding bearer_token
empty_test = refl
