-- ===== src/Pagination/Characters.antt =====
-- The forms of texts that src/common/pagination/pagination-query.schema.ts and the `uuid()` rules
-- of src/facilities test.
use Prim.Native.Char.{Char, code}
use Prim.Native.String
use Prim.Native.String.{String, [], ◌∷◌}
use public_parks.Prelude.{ℕ, Bool, true, false, ◌&&◌, ◌||◌, ◌==◌, leb, ◌≡◌, refl, if◌then◌else◌}

abbrev between : ℕ → Char → ℕ → Bool
between low c high = leb low (code c) && leb (code c) high

-- `[A-Za-z0-9_-]`
abbrev is_base64url_character : Char → Bool
is_base64url_character c =
    between 65 c 90 || between 97 c 122 || between 48 c 57 || code c == 95 || code c == 45

-- `[0-9a-f]`, in either case
abbrev is_hex_digit : Char → Bool
is_hex_digit c = between 48 c 57 || between 97 c 102 || between 65 c 70

unfoldable pub all_base64url : String → Bool
all_base64url [] = true
all_base64url (c ∷ s) = is_base64url_character c && all_base64url s

abbrev pub max_cursor_length : ℕ
max_cursor_length = 2048

-- `paginationCursorSchema`
unfoldable pub pagination_cursor_schema : String → Bool
unfolding all_base64url
pagination_cursor_schema s =
    leb 1 (String.count s) && leb (String.count s) max_cursor_length && all_base64url s

-- A text of a form: a hexadecimal digit at each `x` and a dash at each dash.
abbrev has_form : (form s : String) → Bool
has_form [] [] = true
has_form (f ∷ form) (c ∷ s) =
    (if code f == 45 then code c == 45 else is_hex_digit c) && has_form form s
has_form _ _ = false

-- `z.string().uuid()`
unfoldable pub is_uuid : String → Bool
is_uuid s = has_form "xxxxxxxx-xxxx-xxxx-xxxx-xxxxxxxxxxxx" s

cursor_text_test : pagination_cursor_schema "aZ_9-" ≡ true
unfolding pagination_cursor_schema
cursor_text_test = refl

plus_test : pagination_cursor_schema "not+base64url" ≡ false
unfolding pagination_cursor_schema
plus_test = refl

uuid_test : is_uuid "01975db7-3a5f-7b8c-9d10-111213141516" ≡ true
unfolding is_uuid
uuid_test = refl
