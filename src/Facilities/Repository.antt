-- ===== src/Facilities/Repository.antt =====
-- src/facilities/facilities.repository.ts: the two SELECTs. `ILIKE`, the functions of PostGIS and
-- the collation of names are PostgreSQL's and are arguments; uuids are ordered by their digits.
use public_parks.Database.Order.{StrictOrder, filter, limit, order_by, lexicographic}
use public_parks.Database.Order.Texts.{text_before}
use public_parks.Database.{find?}
use public_parks.Facilities.Types.{
  FacilityType, Point, Facility, Distance, FacilityDiscoveryRow, FacilityDiscoveryCursor,
  alphabetical, nearby, ListFacilitiesQuery,
}
use public_parks.Pagination.Cursors.{Number}
use mathlib.Core.Option
use public_parks.Prelude.{
  ℕ, suc, String, Bool, true, false, ◌&&◌, ◌||◌, Option, none, some, List, [], ◌∷◌, ◌++◌, map,
  str_eq, ltb, ◌==◌, template,
}

-- PostgreSQL: `ILIKE`, `ST_Distance` and `ST_DWithin` on the geography of two points, and the
-- collation of names, which orders any two different texts.
pub record Postgres : Type 0 where
  pub ilike : (value pattern : String) → Bool
  pub st_distance : Point → Point → Distance
  pub st_dwithin : Point → Point → ℕ → Bool
  pub names : StrictOrder String

pub record Tables : Type 0 where
  pub facilities : List Facility
  pub facility_types : List FacilityType

-- `INNER JOIN facility_types`; the id of a type is a primary key.
unfoldable pub join_type : Facility → Option FacilityType → List (Facility × FacilityType)
join_type f (some t) = (f, t) ∷ []
join_type f none = []

unfoldable pub joined : List FacilityType → List Facility → List (Facility × FacilityType)
unfolding join_type
joined types [] = []
joined types (f ∷ fs) =
    join_type f (find? (λ t. str_eq f.facility_type_id t.id) types) ++ joined types fs

-- A point of the query, if both coordinates are given.
unfoldable pub query_point : Option Number → Option Number → Option Point
query_point (some lat) (some lng) = some (record { longitude = lng; latitude = lat })
query_point _ _ = none

abbrev pub matches_type : Option String → String → Bool
matches_type none code = true
matches_type (some wanted) code = str_eq code wanted

abbrev pub opt_ilike : Postgres → Option String → String → Bool
opt_ilike pg none pattern = false
opt_ilike pg (some value) pattern = pg.ilike value pattern

abbrev pub matches_search : Postgres → Option String → Facility → Bool
matches_search pg none f = true
matches_search pg (some search) f =
    let pattern = template ("%" ∷ search ∷ "%" ∷ []) in
    pg.ilike f.name pattern || (pg.ilike f.address pattern || opt_ilike pg f.description pattern)

abbrev pub matches_radius : Postgres → Option Point → Option ℕ → Point → Bool
matches_radius pg (some point) (some radius) location = pg.st_dwithin location point radius
matches_radius pg _ _ location = true

-- The conditions but that of the cursor.
unfoldable pub matches_query : Postgres → ListFacilitiesQuery → Facility × FacilityType → Bool
unfolding query_point
matches_query pg query (f, t) =
    f.is_active
    && (t.is_active
        && (matches_type query.facility_type t.code
            && (matches_search pg query.search f
                && matches_radius pg (query_point query.near_lat query.near_lng) query.radius_meters
                    f.location)))

-- `createDistanceExpression`, for one location
unfoldable pub distance_of : Postgres → ListFacilitiesQuery → Point → Option Distance
unfolding query_point
distance_of pg query location =
    Option.map (λ point. pg.st_distance location point) (query_point query.near_lat query.near_lng)

-- The selected columns.
unfoldable pub discovery_row : Option Distance → Facility × FacilityType → FacilityDiscoveryRow
discovery_row distance (f, t) = record {
  id = f.id;
  name = f.name;
  description = f.description;
  address = f.address;
  longitude = f.location.longitude;
  latitude = f.location.latitude;
  facility_type_code = t.code;
  facility_type_name = t.name;
  operational_classification = t.operational_classification;
  distance_meters = distance;
}

unfoldable pub selected :
    Postgres → ListFacilitiesQuery → Facility × FacilityType → FacilityDiscoveryRow
unfolding distance_of discovery_row
selected pg query (f, t) = discovery_row (distance_of pg query f.location) (f, t)

-- Ascending distances, NULL last, as PostgreSQL orders them.
abbrev pub distance_before : Option Distance → Option Distance → Bool
distance_before (some d) (some e) = ltb d e
distance_before (some d) none = true
distance_before none _ = false

abbrev pub same_distance : Option Distance → Option Distance → Bool
same_distance (some d) (some e) = d == e
same_distance none none = true
same_distance _ _ = false

-- `ORDER BY distance, id` if the query has a point, else `ORDER BY name, id`; the columns are
-- selected ones.
unfoldable pub row_before :
    Postgres → Option Point → FacilityDiscoveryRow → FacilityDiscoveryRow → Bool
row_before pg none a b =
    lexicographic pg.names.before str_eq text_before (a.name, a.id) (b.name, b.id)
row_before pg (some point) a b =
    lexicographic distance_before same_distance text_before (a.distance_meters, a.id)
      (b.distance_meters, b.id)

-- `distance > d OR (distance = d AND id > …)`, where a comparison with NULL does not hold
abbrev pub after_distance : Option Distance → Distance → (id row_id : String) → Bool
after_distance none distance id row_id = false
after_distance (some d) distance id row_id =
    ltb distance d || (d == distance && text_before id row_id)

-- The condition of a cursor, on selected columns; that of a distance needs a point.
unfoldable pub after_cursor :
    Postgres → Option Point → Option FacilityDiscoveryCursor → FacilityDiscoveryRow → Bool
after_cursor pg point none row = true
after_cursor pg point (some (alphabetical name id query_key)) row =
    pg.names.before name row.name || (str_eq row.name name && text_before id row.id)
after_cursor pg (some point) (some (nearby distance id query_key)) row =
    after_distance row.distance_meters distance id row.id
after_cursor pg none (some (nearby distance id query_key)) row = true

-- All rows that the query's conditions select, without those of the cursor.
unfoldable pub matching : Postgres → ListFacilitiesQuery → Tables → List FacilityDiscoveryRow
unfolding matches_query selected joined
matching pg query tables =
    map (selected pg query)
      (filter (matches_query pg query) (joined tables.facility_types tables.facilities))

-- `listFacilities`
unfoldable pub list_rows :
    Postgres
    → ListFacilitiesQuery
    → Option FacilityDiscoveryCursor
    → Tables
    → List FacilityDiscoveryRow
unfolding matching row_before after_cursor query_point
list_rows pg query cursor tables =
    let point = query_point query.near_lat query.near_lng in
    limit (suc query.page_size) (
      order_by (row_before pg point)
        (filter (after_cursor pg point cursor) (matching pg query tables)))

-- `getFacility`
unfoldable pub get_row : String → Tables → Option FacilityDiscoveryRow
unfolding discovery_row joined
get_row facility_id tables = Option.map (discovery_row none) (
    find? (λ pair. str_eq pair.0.id facility_id && (pair.0.is_active && pair.1.is_active))
      (joined tables.facility_types tables.facilities))
