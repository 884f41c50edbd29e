-- ===== src/Facilities/Service.antt =====
-- src/facilities/facilities.service.ts and facilities.mapper.ts: the endpoints that list facilities
-- page by page and read one.
use mathlib.Core.Option
use public_parks.Database.{Result, ok, err}
use public_parks.Database.Results.{and_then, map_result, or_err}
use public_parks.Errors.{ErrorCode, raised}
use public_parks.Facilities.Types.{
  FacilityDiscoveryRow, FacilityDiscoveryCursor, alphabetical, nearby, Distance,
  ListFacilitiesQuery, FacilityResponse,
}
use public_parks.Facilities.Repository.{Postgres, Tables, list_rows, get_row}
use public_parks.Pagination.Characters.{is_uuid}
use public_parks.Pagination.Cursors.{
  Number, units_per_one, CursorScalar, text, number, null, CursorPayload, Json, scalar, object,
  no_members, member, Platform, malformed_cursor, decode_pagination_cursor,
}
use public_parks.Pagination.Pages.{PaginatedResponse, create_paginated_response}
use public_parks.Prelude.{
  ℕ, ◌+◌, ◌*◌, ◌/◌, String, Bool, true, false, not, ◌&&◌, ◌||◌, Option, none, some, List, [], ◌∷◌,
  map, str_eq, ◌==◌, if◌then◌else◌, is_none, any,
}

-- `Math.round` of a non-negative number: the nearest whole number, upwards from the middle.
unfoldable pub math_round : Distance → ℕ
math_round d = (2 * d + units_per_one) / (2 * units_per_one)

-- `mapFacilityRowToResponse`
unfoldable pub map_facility_row : FacilityDiscoveryRow → FacilityResponse
unfolding math_round
map_facility_row row = record {
  id = row.id;
  name = row.name;
  description = row.description;
  address = row.address;
  location = record { latitude = row.latitude; longitude = row.longitude };
  facility_type = record {
    code = row.facility_type_code;
    name = row.facility_type_name;
    operational_classification = row.operational_classification;
  };
  distance_meters = Option.map math_round row.distance_meters;
}

-- A field of a payload.
unfoldable pub field : String → CursorPayload → Option CursorScalar
field key [] = none
field key ((k, s) ∷ payload) = if str_eq k key then some s else field key payload

abbrev pub text_of_scalar : Option CursorScalar → Option String
text_of_scalar (some (text s)) = some s
text_of_scalar _ = none

unfoldable pub uuid_of_scalar : Option CursorScalar → Option String
unfolding is_uuid
uuid_of_scalar (some (text s)) = if is_uuid s then some s else none
uuid_of_scalar _ = none

-- `z.number().finite().nonnegative()`; the negative zero is a zero.
abbrev pub distance_of_scalar : Option CursorScalar → Option Distance
distance_of_scalar (some (number n)) = if not n.negative || n.units == 0 then some n.units else none
distance_of_scalar _ = none

-- `.strict()`: no key but the listed ones; the keys of a record differ.
abbrev pub only_keys : List String → CursorPayload → Bool
only_keys keys [] = true
only_keys keys ((k, s) ∷ payload) = any (λ key. str_eq key k) keys && only_keys keys payload

unfoldable pub make_alphabetical :
    Option String → Option String → Option String → Option FacilityDiscoveryCursor
make_alphabetical (some name) (some id) (some query_key) = some (alphabetical name id query_key)
make_alphabetical _ _ _ = none

unfoldable pub make_nearby :
    Option Distance → Option String → Option String → Option FacilityDiscoveryCursor
make_nearby (some d) (some id) (some query_key) = some (nearby d id query_key)
make_nearby _ _ _ = none

-- `alphabeticalFacilityCursorSchema`, but its mode
unfoldable pub alphabetical_schema : CursorPayload → Option FacilityDiscoveryCursor
unfolding field make_alphabetical uuid_of_scalar
alphabetical_schema payload =
    if only_keys ("mode" ∷ "name" ∷ "id" ∷ "queryKey" ∷ []) payload
    then make_alphabetical (text_of_scalar (field "name" payload))
        (uuid_of_scalar (field "id" payload)) (text_of_scalar (field "queryKey" payload))
    else none

-- `nearbyFacilityCursorSchema`, but its mode
unfoldable pub nearby_schema : CursorPayload → Option FacilityDiscoveryCursor
unfolding field make_nearby uuid_of_scalar
nearby_schema payload =
    if only_keys ("mode" ∷ "distanceMeters" ∷ "id" ∷ "queryKey" ∷ []) payload
    then make_nearby (distance_of_scalar (field "distanceMeters" payload))
        (uuid_of_scalar (field "id" payload)) (text_of_scalar (field "queryKey" payload))
    else none

unfoldable pub schema_of_mode : Option String → CursorPayload → Option FacilityDiscoveryCursor
unfolding alphabetical_schema nearby_schema
schema_of_mode none payload = none
schema_of_mode (some mode) payload =
    if str_eq mode "alphabetical"
    then alphabetical_schema payload
    else if str_eq mode "nearby"
    then nearby_schema payload
    else none

-- `facilityDiscoveryCursorSchema`
unfoldable pub discovery_cursor_schema : CursorPayload → Option FacilityDiscoveryCursor
unfolding schema_of_mode field
discovery_cursor_schema payload = schema_of_mode (text_of_scalar (field "mode" payload)) payload

abbrev pub cursor_of : Option Distance → (name id query_key : String) → FacilityDiscoveryCursor
cursor_of none name id query_key = alphabetical name id query_key
cursor_of (some d) name id query_key = nearby d id query_key

-- `createCursorPayload`
unfoldable pub cursor_of_row : String → FacilityDiscoveryRow → FacilityDiscoveryCursor
cursor_of_row query_key row = cursor_of row.distance_meters row.name row.id query_key

-- A cursor as a record of scalars.
unfoldable pub payload_of_cursor : FacilityDiscoveryCursor → CursorPayload
payload_of_cursor (alphabetical name id query_key) =
    ("mode", text "alphabetical")
    ∷ ("name", text name)
    ∷ ("id", text id)
    ∷ ("queryKey", text query_key)
    ∷ []
payload_of_cursor (nearby d id query_key) =
    ("mode", text "nearby")
    ∷ ("distanceMeters", number (record { negative = false; units = d }))
    ∷ ("id", text id)
    ∷ ("queryKey", text query_key)
    ∷ []

-- `value ?? null`
abbrev pub text_or_null : Option String → Json
text_or_null (some s) = scalar (text s)
text_or_null none = scalar null

abbrev pub number_or_null : Option Number → Json
number_or_null (some n) = scalar (number n)
number_or_null none = scalar null

unfoldable pub integer : ℕ → Number
unfolding units_per_one
integer n = record { negative = false; units = n * units_per_one }

unfoldable pub query_json : ListFacilitiesQuery → Json
unfolding integer
query_json query = object (
    member "search" (text_or_null query.search) (
      member "facilityType" (text_or_null query.facility_type) (
        member "nearLat" (number_or_null query.near_lat) (
          member "nearLng" (number_or_null query.near_lng) (
            member "radiusMeters" (number_or_null (Option.map integer query.radius_meters))
              no_members)))))

unfoldable pub is_alphabetical : FacilityDiscoveryCursor → Bool
is_alphabetical (alphabetical _ _ _) = true
is_alphabetical (nearby _ _ _) = false

abbrev pub query_key_of : FacilityDiscoveryCursor → String
query_key_of (alphabetical _ _ k) = k
query_key_of (nearby _ _ k) = k

abbrev pub same_mode : Bool → Bool → Bool
same_mode true b = b
same_mode false b = not b

module _ (platform : Platform) (pg : Postgres) where
  -- `createQueryKey`
  unfoldable pub create_query_key : ListFacilitiesQuery → String
  unfolding query_json
  create_query_key query = platform.stringify (query_json query)

  -- `decodeCursor`
  unfoldable pub decode_cursor : Option String → Result (Option FacilityDiscoveryCursor)
  unfolding discovery_cursor_schema
  decode_cursor none = ok none
  decode_cursor (some cursor) =
      map_result some (decode_pagination_cursor platform cursor discovery_cursor_schema)

  -- The cursor belongs to the query: its mode and its key.
  unfoldable pub belongs_to : ListFacilitiesQuery → Option FacilityDiscoveryCursor → Bool
  unfolding is_alphabetical create_query_key
  belongs_to query none = true
  belongs_to query (some cursor) =
      same_mode (is_none query.near_lat) (is_alphabetical cursor)
      && str_eq (query_key_of cursor) (create_query_key query)

  -- The page of the rows that the repository returned, mapped.
  unfoldable pub respond :
      ListFacilitiesQuery → List FacilityDiscoveryRow → Result (PaginatedResponse FacilityResponse)
  unfolding cursor_of_row payload_of_cursor map_facility_row create_query_key
  respond query rows =
      map_result
        (λ page. record {
          data_rows = map map_facility_row page.data_rows;
          next_cursor = page.next_cursor;
          has_more = page.has_more;
        })
        (create_paginated_response platform rows query.page_size
          (λ row. payload_of_cursor (cursor_of_row (create_query_key query) row)))

  unfoldable pub list_with_cursor :
      ListFacilitiesQuery
      → Tables
      → Option FacilityDiscoveryCursor
      → Result (PaginatedResponse FacilityResponse)
  unfolding belongs_to respond
  list_with_cursor query tables cursor =
      if belongs_to query cursor
      then respond query (list_rows pg query cursor tables)
      else err malformed_cursor

  -- `listFacilities`
  unfoldable pub list_facilities :
      ListFacilitiesQuery → Tables → Result (PaginatedResponse FacilityResponse)
  unfolding decode_cursor list_with_cursor
  list_facilities query tables =
      and_then (decode_cursor query.cursor) (list_with_cursor query tables)

  -- `getFacility`
  unfoldable pub get_facility : String → Tables → Result FacilityResponse
  unfolding map_facility_row
  get_facility facility_id tables = map_result map_facility_row (
      or_err (raised ErrorCode.resource_not_found "Facility was not found.")
        (get_row facility_id tables))
