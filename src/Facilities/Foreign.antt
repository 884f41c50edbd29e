-- ===== src/Facilities/Foreign.antt =====
-- Cursors of other queries, in src/facilities/facilities.service.ts.
use public_parks.Database.{err}
use public_parks.Facilities.Types.{ListFacilitiesQuery, FacilityDiscoveryRow}
use public_parks.Facilities.Repository.{Postgres, Tables}
use public_parks.Facilities.Service.{
  cursor_of_row, query_json, create_query_key, belongs_to, list_facilities, list_with_cursor,
}
use public_parks.Facilities.Walk.{
  with_cursor, HasCursor, text_of_row, cursor_of, decode-row, cursor_of_row-mode,
}
use public_parks.Pagination.Cursors.{Platform, malformed_cursor}
use public_parks.Prelude.{
  String, ◌≡◌, refl, ◌≢◌, inl, inr, Bool, true, false, ◌&&◌, Option, some, str_eq, eq_iff,
  Bool-cases,
}

same_key :
    (platform : Platform) (pg : Postgres) (query other : ListFacilitiesQuery)
    → platform.parse (platform.stringify (query_json query)) ≡ some (query_json query)
    → platform.parse (platform.stringify (query_json other)) ≡ some (query_json other)
    → query_json other ≢ query_json query
    → str_eq (create_query_key platform pg query) (create_query_key platform pg other) ≡ false
unfolding create_query_key
same_key platform pg query other p q differ =
    elim (Bool-cases
      (str_eq (platform.stringify (query_json query)) (platform.stringify (query_json other)))) [
        | inr apart ↦ apart
        | inl same ↦ let equal = (eq_iff _ _).0 same in absurd (differ (cc (p, q, equal)))
      ]

and_false : (b : Bool) → (b && false) ≡ false
and_false true = refl
and_false false = refl

foreign :
    (platform : Platform) (pg : Postgres) (query other : ListFacilitiesQuery)
    (row : FacilityDiscoveryRow) (cursor : Option String)
    → platform.parse (platform.stringify (query_json query)) ≡ some (query_json query)
    → platform.parse (platform.stringify (query_json other)) ≡ some (query_json other)
    → query_json other ≢ query_json query
    → belongs_to platform pg
        (with_cursor other cursor)
        (some (cursor_of_row (create_query_key platform pg query) row))
      ≡ false
unfolding belongs_to create_query_key query_json
foreign platform pg query other row cursor p q differ =
    rw
      (
        (cursor_of_row-mode row.distance_meters row (create_query_key platform pg query) refl).1,
        same_key platform pg query other p q differ,
      )
      (and_false _)

-- The cursor that the endpoint issues for a row of one query is refused by the endpoint for a query
-- of other filters, as a malformed one, whatever the tables hold by then; the row's cursor and the
-- JSON of both queries are read back by the platform.
pub list_facilities-foreign :
    (platform : Platform) (pg : Postgres) (query other : ListFacilitiesQuery)
    (issued tables : Tables) (row : FacilityDiscoveryRow)
    → HasCursor platform pg query row
    → platform.parse (platform.stringify (query_json query)) ≡ some (query_json query)
    → platform.parse (platform.stringify (query_json other)) ≡ some (query_json other)
    → query_json other ≢ query_json query
    → list_facilities platform pg
        (with_cursor other (some (text_of_row platform pg query issued row)))
        tables
      ≡ err malformed_cursor
unfolding list_facilities list_with_cursor cursor_of
list_facilities-foreign platform pg query other issued tables row has p q differ = rw (
  decode-row platform pg query issued row has,
  foreign platform pg query other row (some (text_of_row platform pg query issued row)) p q differ,
)
