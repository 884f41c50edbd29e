-- ===== src/Pagination/Cursors.antt =====
-- src/common/pagination/pagination-cursor.util.ts and its types: a cursor is the Base64URL text of a
-- JSON envelope. JSON, UTF-8 and Base64URL are the platform's and are arguments.
use public_parks.Database.Results.{or_err}
use public_parks.Database.{Result, ok, err}
use public_parks.Errors.{Exception, request_validation, other}
use public_parks.Pagination.Characters.{pagination_cursor_schema, max_cursor_length}
use Prim.Native.String
use mathlib.Core.Option
use public_parks.Prelude.{
  ℕ, ◌^◌, String, Bool, true, false, not, ◌&&◌, Option, none, some, List, [], ◌∷◌, str_eq, ltb,
  ◌==◌, if◌then◌else◌,
}

-- A finite number: its sign and size, in units of 2 ^ -1074, of which every finite double is a
-- whole number.
pub record Number : Type 0 where
  pub negative : Bool
  pub units : ℕ

unfoldable pub units_per_one : ℕ
units_per_one = 2 ^ 1074

-- `CursorScalar`; `not_finite` are NaN and the infinities.
pub data CursorScalar : Type 0 where
  text : String → CursorScalar
  number : Number → CursorScalar
  not_finite : CursorScalar
  boolean : Bool → CursorScalar
  null : CursorScalar

-- `CursorPayload`: the keys of a record with their values.
abbrev pub CursorPayload : Type 0
CursorPayload = List (String × CursorScalar)

-- A value that JSON.parse returns. The members of an array are keyed by their index.
mutual
  pub data Json : Type 0 where
    scalar : CursorScalar → Json
    object : Members → Json
    array : Members → Json

  pub data Members : Type 0 where
    no_members : Members
    member : String → Json → Members → Members

-- The platform: `JSON.stringify` and `JSON.parse` (`none` where it throws), the bytes of a text in
-- UTF-8 and back, and `Buffer.toString('base64url')` and `Buffer.from(…, 'base64url')`.
pub record Platform : Type 1 where
  pub Bytes : Type 0
  pub stringify : Json → String
  pub parse : String → Option Json
  pub utf8 : String → Bytes
  pub text_of : Bytes → String
  pub base64url : Bytes → String
  pub bytes_of : String → Bytes

-- `cursorScalarSchema`
unfoldable pub is_cursor_scalar : CursorScalar → Bool
is_cursor_scalar not_finite = false
is_cursor_scalar s = true

unfoldable pub all_scalars : CursorPayload → Bool
unfolding is_cursor_scalar
all_scalars [] = true
all_scalars ((key, s) ∷ payload) = is_cursor_scalar s && all_scalars payload

-- `cursorPayloadSchema` of a record of scalars
unfoldable pub is_cursor_payload : CursorPayload → Bool
unfolding all_scalars
is_cursor_payload [] = false
is_cursor_payload payload = all_scalars payload

abbrev pub cursor_version : Json
cursor_version = scalar (number (record { negative = false; units = units_per_one }))

abbrev pub members_of : CursorPayload → Members
members_of [] = no_members
members_of ((key, s) ∷ payload) = member key (scalar s) (members_of payload)

-- `{ v: CURSOR_VERSION, p: payload }`
abbrev pub envelope : CursorPayload → Json
envelope payload =
    object (member "v" cursor_version (member "p" (object (members_of payload)) no_members))

-- The scalars of a JSON object, if all its members are.
abbrev pub scalars : Members → Option CursorPayload
scalars no_members = some []
scalars (member key (scalar s) rest) = Option.map (λ payload. (key, s) ∷ payload) (scalars rest)
scalars (member key _ rest) = none

unfoldable pub non_empty : Option CursorPayload → Option CursorPayload
unfolding is_cursor_payload
non_empty none = none
non_empty (some payload) = if is_cursor_payload payload then some payload else none

-- `cursorPayloadSchema` of a JSON value
unfoldable pub payload_of_json : Json → Option CursorPayload
unfolding non_empty
payload_of_json (object members) = non_empty (scalars members)
payload_of_json _ = none

unfoldable pub is_version : Json → Bool
is_version (scalar (number n)) = not n.negative && n.units == units_per_one
is_version _ = false

-- `cursorEnvelopeSchema`: the two keys, in either order, and no other.
unfoldable pub parse_envelope : Json → Option CursorPayload
unfolding is_version payload_of_json
parse_envelope (object (member a x (member b y no_members))) =
    if str_eq a "v" && (str_eq b "p" && is_version x)
    then payload_of_json y
    else if str_eq a "p" && (str_eq b "v" && is_version y)
    then payload_of_json x
    else none
parse_envelope _ = none

abbrev pub malformed_cursor_message : String
malformed_cursor_message = "Cursor is malformed or incompatible with this endpoint."

-- `throwMalformedCursor`
unfoldable pub malformed_cursor : Exception
malformed_cursor = request_validation (("cursor", malformed_cursor_message ∷ []) ∷ [])

module _ (platform : Platform) where
  abbrev pub cursor_text : CursorPayload → String
  cursor_text payload = platform.base64url (platform.utf8 (platform.stringify (envelope payload)))

  -- `encodePaginationCursor`
  unfoldable pub encode_pagination_cursor : CursorPayload → Result String
  unfolding is_cursor_payload
  encode_pagination_cursor payload =
      if not (is_cursor_payload payload)
      then err (other "Pagination cursor payload must be a non-empty scalar record.")
      else if ltb max_cursor_length (String.count (cursor_text payload))
      then err (other "Pagination cursor cannot exceed 2048 characters.")
      else ok (cursor_text payload)

  -- What JSON.parse finds in a canonical cursor.
  unfoldable pub decoded_json : String → Option Json
  decoded_json cursor =
      if str_eq (platform.base64url (platform.bytes_of cursor)) cursor
      then platform.parse (platform.text_of (platform.bytes_of cursor))
      else none

  -- The endpoint's schema, on the payload of an envelope.
  unfoldable pub payload_with : {T : Type 0} → (CursorPayload → Option T) → Option Json → Option T
  unfolding parse_envelope
  payload_with schema json = Option.bind (Option.bind json parse_envelope) schema

  -- `decodePaginationCursor`
  unfoldable pub decode_pagination_cursor :
      {T : Type 0} → String → (CursorPayload → Option T) → Result T
  unfolding decoded_json payload_with
  decode_pagination_cursor cursor schema =
      if not (pagination_cursor_schema cursor)
      then err malformed_cursor
      else or_err malformed_cursor (payload_with schema (decoded_json cursor))
