-- ===== src/Examples/Discovering.antt =====
-- Two parks in the pages of src/facilities, with the cursors of src/common/pagination.
use Prim.Native.String
use public_parks.Database.{ok, err}
use public_parks.Database.Order.Texts.{
  text_before, text_before_irrefl, text_before_trans, text_before_total,
}
use public_parks.Facilities.Types.{
  slot_based, FacilityType, Facility, ListFacilitiesQuery, alphabetical, FacilityDiscoveryCursor,
  list_facilities_query_schema,
}
use public_parks.Facilities.Repository.{
  Postgres, Tables, matching, selected, discovery_row, distance_of, matches_query, joined,
  join_type,
}
use public_parks.Facilities.Service.{
  discovery_cursor_schema, payload_of_cursor, map_facility_row, list_facilities, query_json,
  create_query_key, cursor_of_row,
}
use public_parks.Facilities.Rows.{Distinct}
use public_parks.Facilities.Walk.{
  with_cursor, walk, walk_complete, ordered_rows, HasCursor, text_of_row,
}
use public_parks.Facilities.Foreign.{list_facilities-foreign}
use public_parks.Pagination.Characters.{all_base64url, is_uuid}
use public_parks.Pagination.Cursors.{
  CursorScalar, text, number, not_finite, boolean, null, CursorPayload, Json, Members, scalar,
  object, array, no_members, member, Platform, envelope, cursor_text, encode_pagination_cursor,
  decode_pagination_cursor, is_cursor_payload, malformed_cursor, parse_envelope,
}
use public_parks.Pagination.RoundTrip.{
  IsReadable, decode_pagination_cursor-encode_pagination_cursor, decode_pagination_cursor-cases,
}
use public_parks.Prelude.{
  suc, String, ◌≡◌, refl, ap, ◌≢◌, ◌⊎◌, true, false, Option, none, some, [], ◌∷◌, map, str_eq,
  eq_iff, if◌then◌else◌, leb→le, length, All, template,
}

-- A writing of JSON in Base64URL characters, for texts that have no others.
abbrev written_scalar : CursorScalar → String
written_scalar (text s) = s
written_scalar (number n) = "1"
written_scalar not_finite = "nan"
written_scalar (boolean true) = "true"
written_scalar (boolean false) = "false"
written_scalar null = "null"

unfoldable mutual
  written : Json → String
  written (scalar s) = written_scalar s
  written (object members) = written_members members
  written (array members) = written_members members

  written_members : Members → String
  written_members no_members = ""
  written_members (member key json rest) =
      template (key ∷ "-" ∷ written json ∷ "_" ∷ written_members rest ∷ [])

abbrev east_id : String
east_id = "01975db7-3a5f-7b8c-9d10-111213141516"

abbrev west_id : String
west_id = "01975db7-3a5f-7b8c-9d10-111213141517"

abbrev parks_query : ListFacilitiesQuery
parks_query = record {
  cursor = none;
  page_size = 1;
  search = none;
  facility_type = some "park";
  near_lat = none;
  near_lng = none;
  radius_meters = none;
}

abbrev pools_query : ListFacilitiesQuery
pools_query = record parks_query { facility_type = some "pool" }

abbrev east_envelope : Json
unfolding payload_of_cursor written query_json
east_envelope =
    envelope (payload_of_cursor (alphabetical "East" east_id (written (query_json parks_query))))

abbrev west_envelope : Json
unfolding payload_of_cursor written query_json
west_envelope =
    envelope (payload_of_cursor (alphabetical "West" west_id (written (query_json parks_query))))

-- A reader of what is written here.
unfoldable read_back : String → Option Json
unfolding written east_envelope west_envelope query_json
read_back s =
    if str_eq s (written east_envelope)
    then some east_envelope
    else if str_eq s (written west_envelope)
    then some west_envelope
    else if str_eq s (written (query_json parks_query))
    then some (query_json parks_query)
    else if str_eq s (written (query_json pools_query))
    then some (query_json pools_query)
    else none

unfoldable plain : Platform
unfolding written read_back
plain = record {
  Bytes = String;
  stringify = written;
  parse = read_back;
  utf8 = λ s. s;
  text_of = λ s. s;
  base64url = λ s. s;
  bytes_of = λ s. s;
}

unfoldable database : Postgres
database = record {
  ilike = λ value pattern. str_eq value pattern;
  st_distance = λ p q. 0;
  st_dwithin = λ p q radius. true;
  names = record {
    before = text_before;
    irreflexive = text_before_irrefl;
    transitive = text_before_trans;
    total = text_before_total;
  };
}

abbrev park : FacilityType
park = record {
  id = "t1";
  code = "park";
  name = "Park";
  operational_classification = slot_based;
  is_active = true;
}

abbrev named : String → String → Facility
named id name = record {
  id = id;
  facility_type_id = "t1";
  name = name;
  description = none;
  address = "Street";
  location = record {
    longitude = record { negative = false; units = 0 };
    latitude = record { negative = false; units = 0 };
  };
  is_active = true;
}

abbrev parks : Tables
parks = record {
  facilities = named west_id "West" ∷ named east_id "East" ∷ [];
  facility_types = park ∷ [];
}

parks_query-valid : list_facilities_query_schema parks_query ≡ true
unfolding list_facilities_query_schema
parks_query-valid = refl

parks-Distinct : Distinct parks.facilities
parks-Distinct = ((λ same. cc ((eq_iff west_id east_id).1 same), tt), (tt, tt))

parks-have_cursors :
    All (HasCursor plain database parks_query) (matching database parks_query parks)
unfolding matching selected discovery_row distance_of matches_query joined join_type plain database
    IsReadable all_base64url payload_of_cursor cursor_of_row create_query_key written read_back
    east_envelope west_envelope query_json is_uuid text_before
parks-have_cursors = (
  (
    refl,
    (refl, refl, refl, refl, leb→le 1 (String.count (written west_envelope)) refl),
    leb→le (String.count (written west_envelope)) 2048 refl,
  ),
  (
    (
      refl,
      (refl, refl, refl, refl, leb→le 1 (String.count (written east_envelope)) refl),
      leb→le (String.count (written east_envelope)) 2048 refl,
    ),
    tt,
  ),
)

walk_complete_example :
    walk plain database
      (suc (length (ordered_rows plain database parks_query parks)))
      (with_cursor parks_query none)
      parks
    ≡ ok (map map_facility_row (ordered_rows plain database parks_query parks))
walk_complete_example =
    walk_complete plain database parks_query parks parks_query-valid parks-Distinct
      parks-have_cursors

east-HasCursor :
    HasCursor plain database parks_query (discovery_row none (named east_id "East", park))
unfolding discovery_row plain IsReadable all_base64url payload_of_cursor cursor_of_row
    create_query_key written read_back east_envelope west_envelope query_json is_uuid
east-HasCursor = (
  refl,
  (refl, refl, refl, refl, leb→le 1 (String.count (written east_envelope)) refl),
  leb→le (String.count (written east_envelope)) 2048 refl,
)

parks_query-read :
    plain.parse (plain.stringify (query_json parks_query)) ≡ some (query_json parks_query)
unfolding plain read_back written query_json east_envelope west_envelope payload_of_cursor
parks_query-read = refl

pools_query-read :
    plain.parse (plain.stringify (query_json pools_query)) ≡ some (query_json pools_query)
unfolding plain read_back written query_json east_envelope west_envelope payload_of_cursor
pools_query-read = refl

-- The filter of a query's JSON.
abbrev wanted_type : Json → String
wanted_type (object (member _ _ (member _ (scalar (text s)) rest))) = s
wanted_type _ = ""

queries-differ : query_json pools_query ≢ query_json parks_query
unfolding query_json
queries-differ same = cc ((eq_iff "pool" "park").1 (ap wanted_type same))

list_facilities-foreign_example :
    list_facilities plain database
      (with_cursor pools_query (
        some (
          text_of_row plain database parks_query parks
            (discovery_row none (named east_id "East", park)))))
      parks
    ≡ err malformed_cursor
list_facilities-foreign_example =
    list_facilities-foreign plain database parks_query pools_query parks parks
      (discovery_row none (named east_id "East", park)) east-HasCursor parks_query-read
      pools_query-read queries-differ

decode_pagination_cursor-cases_example :
    (decode_pagination_cursor plain "not+base64url" discovery_cursor_schema ≡ err malformed_cursor)
    ⊎ ((t : FacilityDiscoveryCursor) × (json : Json) × (payload : CursorPayload)
        × (decode_pagination_cursor plain "not+base64url" discovery_cursor_schema ≡ ok t)
        × (plain.base64url (plain.bytes_of "not+base64url") ≡ "not+base64url")
        × (plain.parse (plain.text_of (plain.bytes_of "not+base64url")) ≡ some json)
        × (parse_envelope json ≡ some payload)
        × (discovery_cursor_schema payload ≡ some t))
decode_pagination_cursor-cases_example =
    decode_pagination_cursor-cases plain discovery_cursor_schema "not+base64url"

abbrev east_cursor : FacilityDiscoveryCursor
unfolding written query_json
east_cursor = alphabetical "East" east_id (written (query_json parks_query))

east-read_back : discovery_cursor_schema (payload_of_cursor east_cursor) ≡ some east_cursor
unfolding discovery_cursor_schema payload_of_cursor is_uuid east_cursor written query_json
east-read_back = refl

east-encoded :
    encode_pagination_cursor plain (payload_of_cursor east_cursor)
    ≡ ok (cursor_text plain (payload_of_cursor east_cursor))
unfolding encode_pagination_cursor payload_of_cursor is_cursor_payload plain written query_json
    east_cursor
east-encoded = refl

east-IsReadable : IsReadable plain (payload_of_cursor east_cursor)
unfolding plain IsReadable all_base64url payload_of_cursor written read_back east_envelope
    west_envelope query_json east_cursor
east-IsReadable = (refl, refl, refl, refl, leb→le 1 (String.count (written east_envelope)) refl)

decode_pagination_cursor-encode_pagination_cursor_example :
    decode_pagination_cursor plain
      (cursor_text plain (payload_of_cursor east_cursor))
      discovery_cursor_schema
    ≡ ok east_cursor
decode_pagination_cursor-encode_pagination_cursor_example =
    decode_pagination_cursor-encode_pagination_cursor plain discovery_cursor_schema
      (payload_of_cursor east_cursor) east-IsReadable east-read_back east-encoded
