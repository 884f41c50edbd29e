-- ===== src/Facilities/Types.antt =====
-- src/facilities/facilities.types.ts, and the columns of `facilities` and `facility_types` in
-- src/database/drizzle.schema.ts that the code reads.
use public_parks.Pagination.Cursors.{Number, units_per_one}
use public_parks.Prelude.{
  ℕ, ◌*◌, String, Bool, true, not, ◌&&◌, ◌||◌, Option, none, some, leb, is_none,
}

pub data FacilityOperationalClassification : Type 0 where
  slot_based entrance_based : FacilityOperationalClassification

-- A row of `facility_types`
pub record FacilityType : Type 0 where
  pub id : String
  pub code : String
  pub name : String
  pub operational_classification : FacilityOperationalClassification
  pub is_active : Bool

-- `location`, a point of longitude and latitude
pub record Point : Type 0 where
  pub longitude : Number
  pub latitude : Number

-- A row of `facilities`
pub record Facility : Type 0 where
  pub id : String
  pub facility_type_id : String
  pub name : String
  pub description : Option String
  pub address : String
  pub location : Point
  pub is_active : Bool

-- A non-negative finite double, in the units of `Number`
abbrev pub Distance : Type 0
Distance = ℕ

pub record FacilityDiscoveryRow : Type 0 where
  pub id : String
  pub name : String
  pub description : Option String
  pub address : String
  pub longitude : Number
  pub latitude : Number
  pub facility_type_code : String
  pub facility_type_name : String
  pub operational_classification : FacilityOperationalClassification
  pub distance_meters : Option Distance

pub data FacilityDiscoveryCursor : Type 0 where
  alphabetical : (name id query_key : String) → FacilityDiscoveryCursor
  nearby : Distance → (id query_key : String) → FacilityDiscoveryCursor

-- `ListFacilitiesQuery`
pub record ListFacilitiesQuery : Type 0 where
  pub cursor : Option String
  pub page_size : ℕ
  pub search : Option String
  pub facility_type : Option String
  pub near_lat : Option Number
  pub near_lng : Option Number
  pub radius_meters : Option ℕ

-- The size of a number is at most `bound`.
abbrev is_within : ℕ → Option Number → Bool
is_within bound none = true
is_within bound (some n) = leb n.units (bound * units_per_one)

abbrev is_radius : Option ℕ → Bool
is_radius none = true
is_radius (some r) = leb 1 r && leb r 50000

-- The numeric rules of `listFacilitiesQuerySchema`, with those of `paginationQuerySchema`, and its
-- `superRefine`: the three location fields come together or not at all.
unfoldable pub list_facilities_query_schema : ListFacilitiesQuery → Bool
list_facilities_query_schema query =
    (leb 1 query.page_size && leb query.page_size 100)
    && (is_within 90 query.near_lat && is_within 180 query.near_lng)
    && (is_radius query.radius_meters
        && ((is_none query.near_lat && is_none query.near_lng && is_none query.radius_meters)
            || (not (is_none query.near_lat)
                && (not (is_none query.near_lng) && not (is_none query.radius_meters)))))

pub record FacilityTypeResponse : Type 0 where
  pub code : String
  pub name : String
  pub operational_classification : FacilityOperationalClassification

pub record FacilityLocationResponse : Type 0 where
  pub latitude : Number
  pub longitude : Number

-- `FacilityResponse`; the distance is a whole number of metres.
pub record FacilityResponse : Type 0 where
  pub id : String
  pub name : String
  pub description : Option String
  pub address : String
  pub location : FacilityLocationResponse
  pub facility_type : FacilityTypeResponse
  pub distance_meters : Option ℕ
