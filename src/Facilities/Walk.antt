-- ===== src/Facilities/Walk.antt =====
-- A client of src/facilities/facilities.service.ts that follows the returned cursors.
use Prim.Native.String
use public_parks.Database.{Result, ok, err}
use public_parks.Database.Order.{limit, order_by, filter, Sorted}
use public_parks.Database.Order.Keyset.{
  All-order_by, order_by-Sorted, filter-order_by, All-last, filter-after, filter_agree, filter_kept,
}
use public_parks.Database.Results.{and_then, map_result}
use public_parks.Errors.{other}
use public_parks.Facilities.Types.{
  Point, FacilityDiscoveryRow, ListFacilitiesQuery, FacilityDiscoveryCursor, alphabetical, nearby,
  FacilityResponse, Distance, list_facilities_query_schema,
}
use public_parks.Facilities.Repository.{
  Postgres, Tables, row_before, after_cursor, matching, query_point, list_rows, matches_query,
  selected, distance_of,
}
use public_parks.Facilities.Order.{
  row_before_irrefl, row_before_trans, Located, after_cursor-cursor_of_row,
}
use public_parks.Facilities.Rows.{Distinct, matching-AllApart, matching-Located}
use public_parks.Facilities.Service.{
  cursor_of_row, payload_of_cursor, discovery_cursor_schema, create_query_key, decode_cursor,
  is_alphabetical, query_key_of, same_mode, belongs_to, map_facility_row, respond, list_with_cursor,
  list_facilities,
}
use public_parks.Pagination.Characters.{is_uuid, max_cursor_length}
use public_parks.Pagination.Cursors.{
  Number, Platform, CursorPayload, cursor_text, encode_pagination_cursor, is_cursor_payload,
}
use public_parks.Pagination.RoundTrip.{
  IsReadable, decode_pagination_cursor-encode_pagination_cursor,
}
use public_parks.Pagination.Walking.{
  whole, more, split, create_paginated_response-whole, create_paginated_response-more,
}
use public_parks.Prelude.{
  ℕ, zero, suc, ◌≤◌, ◌<◌, String, ◌≡◌, refl, sym, ap, ◌∙◌, Bool, true, false, Option, none, some,
  List, [], ◌∷◌, ◌++◌, map, append_assoc, arith, eq_refl, ltb, is_none, length, All, All-map,
  All-of,
}

abbrev pub with_cursor : ListFacilitiesQuery → Option String → ListFacilitiesQuery
with_cursor query cursor = record query { cursor = cursor }

-- The rows of a page and, if it has a cursor, those that follow.
unfoldable append_pages {ℓ} :
    {A : Type ℓ} → List A → Option String → (String → Result (List A)) → Result (List A)
append_pages rows none next = ok rows
append_pages rows (some cursor) next = map_result (λ others. rows ++ others) (next cursor)

module _ (platform : Platform) (pg : Postgres) where
  -- The pages of a query from its cursor on, at most as many as the first argument says.
  unfoldable pub walk : ℕ → ListFacilitiesQuery → Tables → Result (List FacilityResponse)
  unfolding append_pages list_facilities
  walk zero query tables = err (other "more pages follow")
  walk (suc fuel) query tables = and_then (list_facilities platform pg query tables) (λ page.
      append_pages page.data_rows page.next_cursor
        (λ cursor. walk fuel (with_cursor query (some cursor)) tables))

-- The schema reads back the cursor that the service makes of a row with a uuid.
discovery_cursor_schema-payload_of_cursor :
    (distance : Option Distance) (row : FacilityDiscoveryRow) (query_key : String)
    → row.distance_meters ≡ distance
    → is_uuid row.id ≡ true
    → discovery_cursor_schema (payload_of_cursor (cursor_of_row query_key row))
      ≡ some (cursor_of_row query_key row)
unfolding discovery_cursor_schema payload_of_cursor cursor_of_row
discovery_cursor_schema-payload_of_cursor none row k h u = rw (h, u)
discovery_cursor_schema-payload_of_cursor (some d) row k h u = rw (h, u)

payload_of_cursor-valid :
    (cursor : FacilityDiscoveryCursor) → is_cursor_payload (payload_of_cursor cursor) ≡ true
unfolding is_cursor_payload payload_of_cursor
payload_of_cursor-valid (alphabetical n i k) = refl
payload_of_cursor-valid (nearby d i k) = refl

complete_location :
    (query : ListFacilitiesQuery)
    → list_facilities_query_schema query ≡ true
    → is_none query.near_lat ≡ is_none query.near_lng
unfolding list_facilities_query_schema
complete_location query h = ground arith

is_none-query_point :
    (lat lng : Option Number)
    → is_none lat ≡ is_none lng
    → is_none (query_point lat lng) ≡ is_none lat
unfolding query_point
is_none-query_point none lng h = refl
is_none-query_point (some a) none h = sym h
is_none-query_point (some a) (some b) h = refl

pub cursor_of_row-mode :
    (distance : Option Distance) (row : FacilityDiscoveryRow) (query_key : String)
    → row.distance_meters ≡ distance
    → (is_alphabetical (cursor_of_row query_key row) ≡ is_none row.distance_meters)
      × (query_key_of (cursor_of_row query_key row) ≡ query_key)
unfolding cursor_of_row is_alphabetical
cursor_of_row-mode none row k h = (rw h, rw h)
cursor_of_row-mode (some d) row k h = (rw h, rw h)

same_mode_refl : (b : Bool) → same_mode b b ≡ true
same_mode_refl true = refl
same_mode_refl false = refl

-- In a query of the schema's form, the cursor of a selected row belongs to the query.
belongs_to-cursor_of_row :
    (platform : Platform) (pg : Postgres) (query : ListFacilitiesQuery) (row : FacilityDiscoveryRow)
    → list_facilities_query_schema query ≡ true
    → Located (query_point query.near_lat query.near_lng) row
    → belongs_to platform pg query (some (cursor_of_row (create_query_key platform pg query) row))
      ≡ true
unfolding belongs_to
belongs_to-cursor_of_row platform pg query row valid located =
    let query_key = create_query_key platform pg query in
    let mode = cursor_of_row-mode row.distance_meters row query_key refl in
    let point = is_none-query_point query.near_lat query.near_lng (complete_location query valid) in
    let expected : is_alphabetical (cursor_of_row query_key row) ≡ is_none query.near_lat =
      mode.0 ∙ located ∙ point in
    rw (expected, same_mode_refl (is_none query.near_lat), mode.1, eq_refl query_key)

-- What is assumed of a row: a uuid, and a cursor that the platform reads back and that is short
-- enough.
abbrev pub HasCursor : Platform → Postgres → ListFacilitiesQuery → FacilityDiscoveryRow → Type 0
HasCursor platform pg query row =
    let payload = payload_of_cursor (cursor_of_row (create_query_key platform pg query) row) in
    (is_uuid row.id ≡ true)
    × IsReadable platform payload
    × (String.count (cursor_text platform payload) ≤ max_cursor_length)

encode_pagination_cursor-short :
    (platform : Platform) (payload : CursorPayload)
    → is_cursor_payload payload ≡ true
    → String.count (cursor_text platform payload) ≤ max_cursor_length
    → encode_pagination_cursor platform payload ≡ ok (cursor_text platform payload)
unfolding encode_pagination_cursor
encode_pagination_cursor-short platform payload valid short =
    let fits : ltb 2048 (String.count (cursor_text platform payload)) ≡ false = ground arith in
    rw (valid, fits)

module _ (platform : Platform) (pg : Postgres) (query : ListFacilitiesQuery) (tables : Tables) where
  abbrev point_of : Option Point
  unfolding query_point
  point_of = query_point query.near_lat query.near_lng

  -- The selected rows in their order.
  unfoldable pub ordered_rows : List FacilityDiscoveryRow
  unfolding row_before matching query_point
  ordered_rows =
      order_by (row_before pg (query_point query.near_lat query.near_lng))
        (matching pg query tables)

  unfoldable pub cursor_of : FacilityDiscoveryRow → FacilityDiscoveryCursor
  cursor_of row = cursor_of_row (create_query_key platform pg query) row

  unfoldable pub text_of_row : FacilityDiscoveryRow → String
  text_of_row row =
      cursor_text platform
        (payload_of_cursor (cursor_of_row (create_query_key platform pg query) row))

  -- A cursor's row: encoding succeeds, and the text is decoded to the row's cursor.
  encode-row :
      (row : FacilityDiscoveryRow)
      → HasCursor platform pg query row
      → encode_pagination_cursor platform
          (payload_of_cursor (cursor_of_row (create_query_key platform pg query) row))
        ≡ ok (text_of_row row)
  unfolding text_of_row
  encode-row row h =
      let cursor = cursor_of_row (create_query_key platform pg query) row in
      encode_pagination_cursor-short platform (payload_of_cursor cursor)
        (payload_of_cursor-valid cursor) h.2

  pub decode-row :
      (row : FacilityDiscoveryRow)
      → HasCursor platform pg query row
      → decode_cursor platform pg (some (text_of_row row)) ≡ ok (some (cursor_of row))
  unfolding decode_cursor text_of_row cursor_of
  decode-row row h =
      let key = create_query_key platform pg query in
      let cursor = cursor_of_row key row in
      let read = discovery_cursor_schema-payload_of_cursor row.distance_meters row key refl h.0 in
      let decoded =
        decode_pagination_cursor-encode_pagination_cursor platform discovery_cursor_schema
          (payload_of_cursor cursor) h.1 read (encode-row row h) in
      ap (map_result some) decoded

  list_with_cursor-with_cursor :
      (cursor : Option String) (decoded : Option FacilityDiscoveryCursor)
      → list_with_cursor platform pg (with_cursor query cursor) tables decoded
        ≡ list_with_cursor platform pg query tables decoded
  unfolding list_with_cursor list_rows matching matches_query selected distance_of
  list_with_cursor-with_cursor cursor none = refl
  list_with_cursor-with_cursor cursor (some c) = refl

  list_rows-ordered :
      (decoded : Option FacilityDiscoveryCursor)
      → Distinct tables.facilities
      → list_rows pg query decoded tables
        ≡ limit (suc query.page_size) (
            filter
              (after_cursor pg (query_point query.near_lat query.near_lng) decoded)
              ordered_rows)
  unfolding list_rows ordered_rows
  list_rows-ordered decoded distinct =
      let point = query_point query.near_lat query.near_lng in
      ap (limit (suc query.page_size)) (
        sym (
          filter-order_by (row_before pg point) (row_before_irrefl pg point)
            (row_before_trans pg point) (after_cursor pg point decoded) (matching pg query tables)
            (matching-AllApart pg query tables point distinct)))

  accepted_cursor :
      (decoded : Option FacilityDiscoveryCursor) (rest : List FacilityDiscoveryRow)
      → Distinct tables.facilities
      → belongs_to platform pg query decoded ≡ true
      → filter (after_cursor pg (query_point query.near_lat query.near_lng) decoded) ordered_rows
        ≡ rest
      → list_with_cursor platform pg query tables decoded
        ≡ respond platform pg query (limit (suc query.page_size) rest)
  unfolding list_with_cursor
  accepted_cursor decoded rest distinct b f = rw (b, list_rows-ordered decoded distinct, f)

  -- With a cursor after which the rows `rest` follow, the endpoint makes the page of `rest`.
  list_facilities-rest :
      (cursor : Option String) (decoded : Option FacilityDiscoveryCursor)
      (rest : List FacilityDiscoveryRow)
      → Distinct tables.facilities
      → decode_cursor platform pg cursor ≡ ok decoded
      → belongs_to platform pg query decoded ≡ true
      → filter (after_cursor pg (query_point query.near_lat query.near_lng) decoded) ordered_rows
        ≡ rest
      → list_facilities platform pg (with_cursor query cursor) tables
        ≡ respond platform pg query (limit (suc query.page_size) rest)
  unfolding list_facilities
  list_facilities-rest cursor decoded rest distinct d b f =
      rw d (list_with_cursor-with_cursor cursor decoded ∙ accepted_cursor decoded rest distinct b f)

  map-append : {A B : Type 0} (f : A → B) (xs ys : List A) → map f (xs ++ ys) ≡ map f xs ++ map f ys
  map-append f [] ys = refl
  map-append f (x ∷ xs) ys = ap (λ zs. f x ∷ zs) (map-append f xs ys)

  ordered_rows-Located : All (Located (query_point query.near_lat query.near_lng)) ordered_rows
  unfolding ordered_rows
  ordered_rows-Located =
      let point = query_point query.near_lat query.near_lng in
      All-order_by (row_before pg point) (row_before_irrefl pg point) (row_before_trans pg point)
        (Located point) (matching pg query tables) (matching-Located pg query tables)

  ordered_rows-Sorted :
      Distinct tables.facilities
      → Sorted (row_before pg (query_point query.near_lat query.near_lng)) ordered_rows
  unfolding ordered_rows
  ordered_rows-Sorted distinct =
      let point = query_point query.near_lat query.near_lng in
      order_by-Sorted (row_before pg point) (row_before_irrefl pg point) (row_before_trans pg point)
        (matching pg query tables) (matching-AllApart pg query tables point distinct)

  ordered_rows-HasCursor :
      All (HasCursor platform pg query) (matching pg query tables)
      → All (HasCursor platform pg query) ordered_rows
  unfolding ordered_rows
  ordered_rows-HasCursor has =
      let point = query_point query.near_lat query.near_lng in
      All-order_by (row_before pg point) (row_before_irrefl pg point) (row_before_trans pg point)
        (HasCursor platform pg query) (matching pg query tables) has

  -- Of all rows, those after the cursor of one.
  filter-after-row :
      (before : List FacilityDiscoveryRow) (l : FacilityDiscoveryRow)
      (rest : List FacilityDiscoveryRow)
      → Distinct tables.facilities
      → ordered_rows ≡ before ++ l ∷ rest
      → filter
          (after_cursor pg (query_point query.near_lat query.near_lng) (some (cursor_of l)))
          ordered_rows
        ≡ rest
  unfolding cursor_of
  filter-after-row before l rest distinct e =
      let point = query_point query.near_lat query.near_lng in
      let key = create_query_key platform pg query in
      let located_l = All-last (Located point) before l rest (rw e at ordered_rows-Located) in
      let agree =
        All-map (Located point)
          (λ r. after_cursor pg point (some (cursor_of_row key l)) r ≡ row_before pg point l r)
          (λ r located. after_cursor-cursor_of_row pg point key l r located_l located) ordered_rows
          ordered_rows-Located in
      filter_agree (after_cursor pg point (some (cursor_of_row key l))) (row_before pg point l)
        ordered_rows agree
      ∙ (ap (filter (row_before pg point l)) e
          ∙ filter-after (row_before pg point) (row_before_irrefl pg point)
              (row_before_trans pg point) before l rest (rw e at (ordered_rows-Sorted distinct)))

  respond-whole :
      (rest : List FacilityDiscoveryRow)
      → 1 ≤ query.page_size
      → query.page_size ≤ 100
      → length rest ≤ query.page_size
      → respond platform pg query (limit (suc query.page_size) rest)
        ≡ ok
            (record { data_rows = map map_facility_row rest; next_cursor = none; has_more = false })
  unfolding respond
  respond-whole rest low high h = rw (
      create_paginated_response-whole platform
        (λ row. payload_of_cursor (cursor_of_row (create_query_key platform pg query) row))
        query.page_size low high rest h)

  respond-more :
      (page : List FacilityDiscoveryRow) (l : FacilityDiscoveryRow)
      (rest : List FacilityDiscoveryRow)
      → 1 ≤ query.page_size
      → query.page_size ≤ 100
      → HasCursor platform pg query l
      → query.page_size ≡ suc (length page)
      → 1 ≤ length rest
      → respond platform pg query (limit (suc query.page_size) (page ++ l ∷ rest))
        ≡ ok (record {
          data_rows = map map_facility_row (page ++ l ∷ []);
          next_cursor = some (text_of_row l);
          has_more = true;
        })
  unfolding respond
  respond-more page l rest low high has size long = rw (
      create_paginated_response-more platform
        (λ row. payload_of_cursor (cursor_of_row (create_query_key platform pg query) row))
        query.page_size low high page l rest size long (encode-row l has))

  length-append-suc :
      {A : Type 0} (page : List A) (l : A) (rest : List A) → length rest < length (page ++ l ∷ rest)
  length-append-suc [] l rest = omega arith
  length-append-suc (x ∷ page) l rest = let h = length-append-suc page l rest in omega (arith, h)

  walk-rest :
      (fuel : ℕ) (cursor : Option String) (decoded : Option FacilityDiscoveryCursor)
      (before rest : List FacilityDiscoveryRow)
      → 1 ≤ query.page_size
      → query.page_size ≤ 100
      → list_facilities_query_schema query ≡ true
      → Distinct tables.facilities
      → All (HasCursor platform pg query) ordered_rows
      → ordered_rows ≡ before ++ rest
      → decode_cursor platform pg cursor ≡ ok decoded
      → belongs_to platform pg query decoded ≡ true
      → filter (after_cursor pg (query_point query.near_lat query.near_lng) decoded) ordered_rows
        ≡ rest
      → length rest < fuel
      → walk platform pg fuel (with_cursor query cursor) tables ≡ ok (map map_facility_row rest)
  unfolding walk append_pages cursor_of
  walk-rest zero cursor decoded before rest low high valid distinct has e d b f enough =
      absurd (omega (arith, enough))
  walk-rest (suc fuel) cursor decoded before rest low high valid distinct has e d b f enough =
      let response = list_facilities-rest cursor decoded rest distinct d b f in
      elim (split query.page_size rest low) [
        | whole h ↦ rw (response, respond-whole rest low high h)
        | more page l others cut size long ↦
            let place : ordered_rows ≡ (before ++ page) ++ l ∷ others =
              e ∙ (ap (λ r. before ++ r) cut ∙ sym (append_assoc before page (l ∷ others))) in
            let has_l =
              All-last (HasCursor platform pg query) (before ++ page) l others (rw place at has) in
            let located_l =
              All-last (Located (query_point query.near_lat query.near_lng)) (before ++ page) l
                others (rw place at ordered_rows-Located) in
            let step =
              response
              ∙ (ap (λ r. respond platform pg query (limit (suc query.page_size) r)) cut
                  ∙ respond-more page l others low high has_l size long) in
            let shorter = length-append-suc page l others in
            let size_of : length rest ≡ length (page ++ l ∷ others) = ap length cut in
            let next =
              walk-rest fuel (some (text_of_row l)) (some (cursor_of l))
                ((before ++ page) ++ l ∷ []) others low high valid distinct has
                (place ∙ sym (append_assoc (before ++ page) (l ∷ []) others)) (decode-row l has_l)
                (belongs_to-cursor_of_row platform pg query l valid located_l)
                (filter-after-row (before ++ page) l others distinct place)
                (omega (arith, enough, shorter, size_of)) in
            rw (step, next)
              (ap ok (
                sym (map-append map_facility_row (page ++ l ∷ []) others)
                ∙ ap (map map_facility_row) (append_assoc page (l ∷ []) others ∙ sym cut)))
      ]

  page_size_bounds :
      list_facilities_query_schema query ≡ true → (1 ≤ query.page_size) × (query.page_size ≤ 100)
  unfolding list_facilities_query_schema
  page_size_bounds valid = (ground arith, ground arith)

  -- A client that starts without a cursor and follows the returned ones comes to an end, after at
  -- most one page more than there are matching rows, and receives every matching facility exactly
  -- once, in the order of the query. The ids of the facilities differ, the query passes its schema,
  -- the names' collation is a strict total order, and every matching row has a uuid and a cursor
  -- that the platform reads back and that has at most 2048 characters.
  pub walk_complete :
      list_facilities_query_schema query ≡ true
      → Distinct tables.facilities
      → All (HasCursor platform pg query) (matching pg query tables)
      → walk platform pg (suc (length ordered_rows)) (with_cursor query none) tables
        ≡ ok (map map_facility_row ordered_rows)
  unfolding decode_cursor belongs_to after_cursor
  walk_complete valid distinct has =
      let size = page_size_bounds valid in
      walk-rest (suc (length ordered_rows)) none none [] ordered_rows size.0 size.1 valid distinct
        (ordered_rows-HasCursor has) refl refl refl
        (filter_kept (after_cursor pg (query_point query.near_lat query.near_lng) none) ordered_rows
          (All-of (λ r. after_cursor pg (query_point query.near_lat query.near_lng) none r ≡ true)
            (λ r. refl) ordered_rows))
        (omega arith)
